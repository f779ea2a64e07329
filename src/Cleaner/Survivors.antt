-- ===== src/Cleaner/Survivors.antt =====
-- Which snapshots outlive a run of the cleaner.
use lightningstream.Base.{
  ℕ, suc, ◌+◌, ◌<◌, ◌≤◌, ◌≡◌, refl, sym, subst, inl, inr, ◌⊎◌, Bool, true, false, arith, List, [],
  ◌∷◌, ◌++◌, ltb, ltb→lt, length-append, All, length, if◌then◌else◌, Bool-cases,
}
use lightningstream.Base.Bytes.{Bytes, equal_bytes}
use lightningstream.Base.Maps.{
  filter, any, length-filter, filter_whole, filter_cons, filter-All, filter_holds,
  eq_of_equal_bytes,
}
use lightningstream.Base.Result.{Result}
use lightningstream.Snapshot.Name.{NameInfo}
use lightningstream.Cleaner.{Worker, run_on, listed, get_committed, is_committed}
use lightningstream.Cleaner.Instances.{of_instance, is_aged, is_recent_of, Distinct}
use lightningstream.Cleaner.Runs.{
  IsSort, NewestFirst, run_on-of_instance, dropped_aged, stale, has_recent, aged_of,
}

filter-NewestFirst :
    (p : NameInfo → Bool) (xs : List NameInfo) → NewestFirst xs → NewestFirst (filter p xs)
unfolding filter
filter-NewestFirst p [] h = tt
filter-NewestFirst p (x ∷ xs) (h, hs) = elim (filter_cons p x xs) [
  | inl (e, c) ↦ subst NewestFirst (sym c) (filter-All _ p xs h, filter-NewestFirst p xs hs)
  | inr c ↦ subst NewestFirst (sym c) (filter-NewestFirst p xs hs)
]

-- A recent snapshot is not an aged one.
recent_left :
    (now must_keep : ℕ) (i : Bytes) (m : List (Bytes × ℕ)) (xs : List NameInfo)
    → any (is_recent_of now must_keep i m) xs ≡ true
    → length (filter (is_aged now must_keep m) (of_instance i xs)) < length (of_instance i xs)
unfolding any filter
recent_left now must_keep i m [] h = cc
recent_left now must_keep i m (x ∷ xs) h = ground (
  arith,
  recent_left now must_keep i m xs,
  length-filter (is_aged now must_keep m) (of_instance i xs),
)

stale_length :
    (q old : NameInfo → Bool) (a : NameInfo)
    → length (filter q (filter old (a ∷ []))) ≤ (if q a then 1 else 0)
unfolding filter
stale_length q old a = ground arith

no_newer :
    (a : NameInfo) (committed : ℕ) (xs : List NameInfo)
    → a.timestamp ≤ committed
    → All (λ (y : NameInfo). y.timestamp ≤ a.timestamp) xs
    → All (λ (y : NameInfo). y.timestamp ≤ committed) xs
no_newer a committed [] h hs = tt
no_newer a committed (x ∷ xs) h (le, hs) = (omega arith, no_newer a committed xs h hs)

one_left :
    (a : NameInfo) (aged dropped : List NameInfo) (q old : NameInfo → Bool) (n : ℕ)
    → dropped ≡ aged ++ filter q (filter old (a ∷ []))
    → suc (length aged) ≤ n
    → (q a ≡ false) ⊎ (suc (length aged) < n)
    → length dropped < n
one_left a aged dropped q old n e le (inl nope) =
    let h : length (filter q (filter old (a ∷ []))) ≤ 0 = rw nope at (stale_length q old a) in
    rw (e, length-append aged (filter q (filter old (a ∷ [])))) (omega arith)
one_left a aged dropped q old n e le (inr lt) =
    let h : length (filter q (filter old (a ∷ []))) ≤ 1 = ground (arith, stale_length q old a) in
    rw (e, length-append aged (filter q (filter old (a ∷ [])))) (omega arith)

-- The newest of the aged ones: deleted as stale, it covers the others if all are aged.
newest_stale :
    (a : NameInfo) (aged mine : List NameInfo) (dropped : List NameInfo) (q old : NameInfo → Bool)
    (committed : ℕ)
    → NewestFirst mine
    → length (a ∷ aged) ≤ length mine
    → (length (a ∷ aged) ≡ length mine → a ∷ aged ≡ mine)
    → (q a ≡ true → a.timestamp ≤ committed)
    → dropped ≡ aged ++ filter q (filter old (a ∷ []))
    → (length dropped < length mine) ⊎ All (λ (ni : NameInfo). ni.timestamp ≤ committed) mine
newest_stale a aged mine dropped q old committed newest le whole covered e =
    elim (Bool-cases (q a)) [
      | inr nope ↦ inl (one_left a aged dropped q old (length mine) e le (inl nope))
      | inl holds ↦ elim (Bool-cases (ltb (suc (length aged)) (length mine))) [
        | inl lt ↦ inl (one_left a aged dropped q old (length mine) e le (inr (ltb→lt _ _ lt)))
        | inr ge ↦
            (let same = whole (ground arith) in
              let (h, _) = subst NewestFirst (sym same) newest in
              inr (subst (All _) same (covered holds, no_newer a committed aged (covered holds) h)))
      ]
    ]

List-cases :
    (xs : List NameInfo) → (xs ≡ []) ⊎ ((y : NameInfo) × ((ys : List NameInfo) × (xs ≡ y ∷ ys)))
List-cases [] = inl refl
List-cases (y ∷ ys) = inr (y, (ys, refl))

none_dropped :
    (dropped mine : List NameInfo) (committed : ℕ)
    → dropped ≡ []
    → (length dropped < length mine) ⊎ All (λ (ni : NameInfo). ni.timestamp ≤ committed) mine
none_dropped dropped [] committed e = inr tt
none_dropped dropped (x ∷ xs) committed e = inl (rw e (omega arith))

nothing_stale :
    (q : NameInfo → Bool) (aged dropped : List NameInfo)
    → dropped ≡ aged ++ filter q []
    → length dropped ≡ length aged
unfolding filter
nothing_stale q aged dropped e = rw (e, length-append aged []) (omega arith)

nothing_aged :
    (q old : NameInfo → Bool) (dropped : List NameInfo)
    → dropped ≡ [] ++ filter q (filter old [])
    → dropped ≡ []
unfolding filter
nothing_aged q old dropped e = e

is_committed-le :
    (w : Worker) (ni : NameInfo)
    → is_committed w ni ≡ true
    → ni.timestamp ≤ get_committed w ni.instance_id
unfolding is_committed get_committed
is_committed-le w ni h = ground arith

-- Let `slices.SortFunc` sort, and let no two snapshots of the listing have the same name. Then a
-- run leaves a snapshot of an instance, or every listed snapshot of the instance is at most as new
-- as the last one that was merged and committed.
pub run_on-survivors :
    (sort : List NameInfo → List NameInfo) (parse : Bytes → Result NameInfo) (now : ℕ) (w : Worker)
    (names : List Bytes) (i : Bytes)
    → IsSort sort
    → Distinct now w.conf.must_keep_interval (listed sort parse w names)
    → (length (of_instance i (run_on sort parse now w names).1)
        < length (of_instance i (listed sort parse w names)))
      ⊎ All
          (λ (ni : NameInfo). ni.timestamp ≤ get_committed w i)
          (of_instance i (listed sort parse w names))
unfolding listed
run_on-survivors sort parse now w names i sorts h =
    let xs = listed sort parse w names in
    let m = w.snap_first_seen in
    let must_keep = w.conf.must_keep_interval in
    let mine = of_instance i xs in
    let dropped = of_instance i (run_on sort parse now w names).1 in
    let q : NameInfo → Bool = λ ni. is_committed w ni in
    let old : NameInfo → Bool =
      λ ni. ltb (ni.timestamp + w.conf.remove_old_instances_interval) now in
    let e : dropped ≡ dropped_aged now w i xs ++ stale now w i xs =
      run_on-of_instance sort parse now w names i sorts h in
    elim (Bool-cases (has_recent now w i xs)) [
      | inl yes_recent ↦ inl (
          rw (nothing_stale q (aged_of now w i xs) dropped (rw yes_recent at e))
            (recent_left now must_keep i m xs yes_recent))
      | inr no_recent ↦ elim (List-cases (aged_of now w i xs)) [
        | inl none_aged ↦
            none_dropped dropped mine (get_committed w i)
              (nothing_aged q old dropped (rw (no_recent, none_aged) at e))
        | inr (a, (aged, some_aged)) ↦
            newest_stale a aged mine dropped q old (get_committed w i)
              (filter-NewestFirst _ xs (sorts.newest_first _))
              (rw some_aged at (length-filter (is_aged now must_keep m) mine))
              (rw some_aged at (filter_whole (is_aged now must_keep m) mine))
              (λ covered.
                let (same, _) =
                  subst (All (λ (ni : NameInfo). equal_bytes i ni.instance_id ≡ true)) some_aged
                    (filter-All _ (is_aged now must_keep m) mine (filter_holds _ xs)) in
                rw (eq_of_equal_bytes i a.instance_id same) (is_committed-le w a covered))
              (rw (no_recent, some_aged) at e)
      ]
    ]
