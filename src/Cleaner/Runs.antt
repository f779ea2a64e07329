-- ===== src/Cleaner/Runs.antt =====
-- A whole run of the cleaner.
use lightningstream.Base.{
  ℕ, ◌+◌, ◌≤◌, ◌≡◌, refl, ◌∙◌, ap, Bool, true, arith, List, [], ◌∷◌, ◌++◌, map, ltb, All, drop,
  take, if◌then◌else◌,
}
use lightningstream.Base.Bytes.{Bytes, equal_bytes}
use lightningstream.Base.Maps.{
  find, filter, any, contains, filter-append, filter-filter, filter_same, any_same,
  equal_bytes_refl, eq_of_equal_bytes,
}
use lightningstream.Base.Result.{Result}
use lightningstream.Snapshot.Name.{NameInfo}
use lightningstream.Cleaner.{
  Worker, split_newest, split_recent, run_on, listed, is_committed, collect,
}
use lightningstream.Cleaner.Instances.{
  of_instance, is_aged, is_recent_of, Distinct, split_recent-candidates,
  split_recent-seen_instances, split_newest-left, split_newest-old, contains_cons,
}

abbrev names_of : List NameInfo → List Bytes
names_of = map (λ (ni : NameInfo). ni.full_name)

contains_more :
    (x : Bytes) (names : List Bytes) (xs : List NameInfo)
    → All (λ (y : NameInfo). contains y.full_name names ≡ true) xs
    → All (λ (y : NameInfo). contains y.full_name (x ∷ names) ≡ true) xs
contains_more x names [] h = tt
contains_more x names (y ∷ ys) (h, hs) =
    (ground (arith, contains_cons y.full_name x names), contains_more x names ys hs)

contains-names_of :
    (xs : List NameInfo) → All (λ (y : NameInfo). contains y.full_name (names_of xs) ≡ true) xs
contains-names_of [] = tt
contains-names_of (x ∷ xs) = (
  ground (arith, contains_cons x.full_name x.full_name (names_of xs), equal_bytes_refl x.full_name),
  contains_more x.full_name (names_of xs) xs (contains-names_of xs),
)

-- The clean up of `snapFirstSeen` keeps what it knows of the names that were seen.
find-filter :
    {A : Type 0} (k : Bytes) (seen : List Bytes) (m : List (Bytes × A))
    → contains k seen ≡ true
    → find k (filter (λ e. contains e.0 seen) m) ≡ find k m
unfolding find filter
find-filter k seen [] h = refl
find-filter k seen ((x, v) ∷ m) h = ground (
  arith,
  find-filter k seen m h,
  eq_of_equal_bytes k x,
  ap (λ k. contains k seen) {x = k} {y = x},
)

-- What is asked of `slices.SortFunc`: the result has the elements of its argument, from newest to
-- oldest.
abbrev pub NewestFirst : List NameInfo → Type 0
NewestFirst [] = Unit
NewestFirst (x ∷ xs) = All (λ (y : NameInfo). y.timestamp ≤ x.timestamp) xs × NewestFirst xs

pub record IsSort (sort : List NameInfo → List NameInfo) : Type 1 where
  pub newest_first : (xs : List NameInfo) → NewestFirst (sort xs)
  pub keeps : (P : NameInfo → Type 0) (xs : List NameInfo) → All P xs → All P (sort xs)

-- The deletions of one instance, from the snapshots of the listing. `dropped_aged` are those that
-- first appeared more than `MustKeepInterval` ago, but for the newest one of them, which goes only
-- if the instance has a snapshot that appeared since, whether or not that one is newer. The newest
-- one is deleted as stale if it is older than `RemoveOldInstancesInterval` and was merged and
-- committed.
module _ (now : ℕ) (w : Worker) (i : Bytes) (xs : List NameInfo) where
  abbrev pub aged_of : List NameInfo
  aged_of = filter (is_aged now w.conf.must_keep_interval w.snap_first_seen) (of_instance i xs)

  abbrev pub has_recent : Bool
  has_recent = any (is_recent_of now w.conf.must_keep_interval i w.snap_first_seen) xs

  abbrev pub dropped_aged : List NameInfo
  dropped_aged = if has_recent then aged_of else drop 1 aged_of

  abbrev pub stale : List NameInfo
  stale =
      filter (λ (ni : NameInfo). is_committed w ni)
        (if has_recent
          then []
          else filter
              (λ (ni : NameInfo). ltb (ni.timestamp + w.conf.remove_old_instances_interval) now)
              (take 1 aged_of))

module _ (now must_keep : ℕ) (m m' : List (Bytes × ℕ)) where
  aged_same :
      (xs : List NameInfo)
      → All (λ (y : NameInfo). find y.full_name m ≡ find y.full_name m') xs
      → All (λ y. is_aged now must_keep m y ≡ is_aged now must_keep m' y) xs
  aged_same [] h = tt
  aged_same (x ∷ xs) (h, hs) = (ground (arith, h), aged_same xs hs)

  recent_same :
      (i : Bytes) (xs : List NameInfo)
      → All (λ (y : NameInfo). find y.full_name m ≡ find y.full_name m') xs
      → All (λ y. is_recent_of now must_keep i m y ≡ is_recent_of now must_keep i m' y) xs
  recent_same i [] h = tt
  recent_same i (x ∷ xs) (h, hs) = (ground (arith, h), recent_same i xs hs)

module _ (sort : List NameInfo → List NameInfo) (sorts : IsSort sort)
    (parse : Bytes → Result NameInfo) (now : ℕ) (w : Worker) (names : List Bytes) where
  abbrev found : List NameInfo
  found = (collect parse w.ignored_filenames names).0

  abbrev still : List (Bytes × ℕ)
  still = filter (λ e. contains e.0 (names_of found)) w.snap_first_seen

  All-find :
      (xs : List NameInfo)
      → All (λ (y : NameInfo). contains y.full_name (names_of found) ≡ true) xs
      → All (λ (y : NameInfo). find y.full_name still ≡ find y.full_name w.snap_first_seen) xs
  All-find [] h = tt
  All-find (x ∷ xs) (h, hs) =
      (find-filter x.full_name (names_of found) w.snap_first_seen h, All-find xs hs)

  find-still :
      All
        (λ (y : NameInfo). find y.full_name still ≡ find y.full_name w.snap_first_seen)
        (listed sort parse w names)
  unfolding listed
  find-still = All-find (sort found) (sorts.keeps _ found (contains-names_of found))

  abbrev recent_pass : List Bytes × List NameInfo
  recent_pass =
      let r = split_recent now w.conf.must_keep_interval still (listed sort parse w names) in
      (r.seen_instances, r.candidates)

  recent_pass-of_instance :
      (i : Bytes)
      → Distinct now w.conf.must_keep_interval (listed sort parse w names)
      → of_instance i recent_pass.1 ≡ aged_of now w i (listed sort parse w names)
  recent_pass-of_instance i h =
      ap (of_instance i) (
        split_recent-candidates now w.conf.must_keep_interval still (listed sort parse w names) h
        ∙ filter_same _ _ (listed sort parse w names) (
            aged_same now w.conf.must_keep_interval still w.snap_first_seen
              (listed sort parse w names) find-still))
      ∙ filter-filter _ _ (listed sort parse w names)

  recent_pass-contains :
      (i : Bytes)
      → Distinct now w.conf.must_keep_interval (listed sort parse w names)
      → contains i recent_pass.0 ≡ has_recent now w i (listed sort parse w names)
  recent_pass-contains i h =
      split_recent-seen_instances now w.conf.must_keep_interval i still (listed sort parse w names)
        h
      ∙ any_same _ _ (listed sort parse w names) (
          recent_same now w.conf.must_keep_interval still w.snap_first_seen i
            (listed sort parse w names) find-still)

-- The two filters together, where `slices.SortFunc` sorts and no two snapshots of the listing have
-- the same name: the snapshots of an instance that a run deletes.
pub run_on-of_instance :
    (sort : List NameInfo → List NameInfo) (parse : Bytes → Result NameInfo) (now : ℕ) (w : Worker)
    (names : List Bytes) (i : Bytes)
    → IsSort sort
    → Distinct now w.conf.must_keep_interval (listed sort parse w names)
    → of_instance i (run_on sort parse now w names).1
      ≡ dropped_aged now w i (listed sort parse w names)
        ++ stale now w i (listed sort parse w names)
unfolding run_on
run_on-of_instance sort parse now w names i sorts h =
    let p = recent_pass sort sorts parse now w names in
    let r = split_newest now w.conf.remove_old_instances_interval p.0 p.1 in
    let q : NameInfo → Bool = λ ni. is_committed w ni in
    filter-append (λ ni. equal_bytes i ni.instance_id) r.0 (filter q r.1)
    ∙ rw (
      filter-filter (λ ni. equal_bytes i ni.instance_id) q r.1,
      split_newest-left now w.conf.remove_old_instances_interval i p.0 p.1,
      split_newest-old now w.conf.remove_old_instances_interval i p.0 p.1,
      recent_pass-of_instance sort sorts parse now w names i h,
      recent_pass-contains sort sorts parse now w names i h,
    )
