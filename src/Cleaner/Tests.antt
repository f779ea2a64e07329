-- ===== src/Cleaner/Tests.antt =====
-- Runs of the cleaner on a listing of two instances, and the theorems at it.
use lightningstream.Base.{
  ℕ, ◌<◌, ◌≤◌, ◌≡◌, refl, sym, subst, ◌⊎◌, inl, inr, true, false, List, [], ◌∷◌, arith, ltb, All,
  length, map,
}
use lightningstream.Base.Bytes.{Bytes, compare_bytes, equal_bytes}
use lightningstream.Base.Maps.{any}
use lightningstream.Base.Result.{Result, ok, err, bad_name}
use lightningstream.Snapshot.Name.{NameInfo, kind_snapshot}
use lightningstream.Cleaner.{Worker, run_on, listed, get_committed}
use lightningstream.Cleaner.Instances.{of_instance}
use lightningstream.Cleaner.Runs.{IsSort, NewestFirst}
use lightningstream.Cleaner.Survivors.{run_on-survivors}

-- Insertion, behind what is as new.
abbrev insert_newest : NameInfo → List NameInfo → List NameInfo
insert_newest x [] = x ∷ []
insert_newest x (y ∷ ys) = elim (ltb y.timestamp x.timestamp) [
  | true ↦ x ∷ y ∷ ys
  | false ↦ y ∷ insert_newest x ys
]

abbrev insertion_sort : List NameInfo → List NameInfo
insertion_sort [] = []
insertion_sort (x ∷ xs) = insert_newest x (insertion_sort xs)

insert_newest_cons :
    (x y : NameInfo) (ys : List NameInfo)
    → ((y.timestamp ≤ x.timestamp) × (insert_newest x (y ∷ ys) ≡ x ∷ y ∷ ys))
      ⊎ ((x.timestamp ≤ y.timestamp) × (insert_newest x (y ∷ ys) ≡ y ∷ insert_newest x ys))
insert_newest_cons x y ys = ground arith

insert_newest-All :
    (P : NameInfo → Type 0) (x : NameInfo) (xs : List NameInfo)
    → P x
    → All P xs
    → All P (insert_newest x xs)
insert_newest-All P x [] h hs = (h, tt)
insert_newest-All P x (y ∷ ys) h (hy, hs) = elim (insert_newest_cons x y ys) [
  | inl (le, e) ↦ subst (All P) (sym e) (h, (hy, hs))
  | inr (le, e) ↦ subst (All P) (sym e) (hy, insert_newest-All P x ys h hs)
]

older_still :
    (x y : NameInfo) (ys : List NameInfo)
    → y.timestamp ≤ x.timestamp
    → All (λ (z : NameInfo). z.timestamp ≤ y.timestamp) ys
    → All (λ (z : NameInfo). z.timestamp ≤ x.timestamp) ys
older_still x y [] h hs = tt
older_still x y (z ∷ zs) h (le, hs) = (omega arith, older_still x y zs h hs)

insert_newest-NewestFirst :
    (x : NameInfo) (xs : List NameInfo) → NewestFirst xs → NewestFirst (insert_newest x xs)
insert_newest-NewestFirst x [] h = (tt, tt)
insert_newest-NewestFirst x (y ∷ ys) (h, hs) = elim (insert_newest_cons x y ys) [
  | inl (le, e) ↦ subst NewestFirst (sym e) ((le, older_still x y ys le h), (h, hs))
  | inr (le, e) ↦ subst NewestFirst (sym e) (
    insert_newest-All (λ (z : NameInfo). z.timestamp ≤ y.timestamp) x ys le h,
    insert_newest-NewestFirst x ys hs,
  )
]

sort-NewestFirst : (xs : List NameInfo) → NewestFirst (insertion_sort xs)
sort-NewestFirst [] = tt
sort-NewestFirst (x ∷ xs) = insert_newest-NewestFirst x (insertion_sort xs) (sort-NewestFirst xs)

sort-All : (P : NameInfo → Type 0) (xs : List NameInfo) → All P xs → All P (insertion_sort xs)
sort-All P [] h = tt
sort-All P (x ∷ xs) (h, hs) = insert_newest-All P x (insertion_sort xs) h (sort-All P xs hs)

insertion_sort-IsSort : IsSort insertion_sort
insertion_sort-IsSort = record { newest_first = sort-NewestFirst; keeps = sort-All }

-- A parser for names of two bytes, the instance and the timestamp.
abbrev parse : Bytes → Result NameInfo
parse (i ∷ t ∷ []) = ok (record {
  full_name = i ∷ t ∷ [];
  base_name = i ∷ t ∷ [];
  extension = [];
  kind = kind_snapshot;
  syncer_name = [];
  instance_id = i ∷ [];
  generation_id = [];
  timestamp_string = t ∷ [];
  timestamp = t;
  extra = [];
})
parse name = err bad_name

abbrev name : ℕ → ℕ → Bytes
name i t = i ∷ t ∷ []

abbrev worker : Worker
worker = record {
  prefix = 100 ∷ 95 ∷ 95 ∷ [];
  conf = record { enabled = true; must_keep_interval = 10; remove_old_instances_interval = 100 };
  ignored_filenames = [];
  snap_first_seen = (name 65 3, 20) ∷ (name 65 5, 20) ∷ (name 66 4, 95) ∷ (name 66 7, 20) ∷ [];
  last_by_instance = [];
}

abbrev listing : List Bytes
listing = name 65 3 ∷ name 65 5 ∷ name 66 4 ∷ name 66 7 ∷ []

abbrev timestamps : List NameInfo → List ℕ
timestamps = map (λ (ni : NameInfo). ni.timestamp)

-- Of 65 the older one goes. Of 66 the newest one goes too, since an older one has just appeared.
run_listing : timestamps (run_on insertion_sort parse 100 worker listing).1 ≡ 7 ∷ 3 ∷ []
unfolding run_on equal_bytes get_committed any compare_bytes
run_listing = refl

run_on-survivors_example :
    (length (of_instance (65 ∷ []) (run_on insertion_sort parse 100 worker listing).1)
      < length (of_instance (65 ∷ []) (listed insertion_sort parse worker listing)))
    ⊎ All
        (λ (ni : NameInfo). ni.timestamp ≤ get_committed worker (65 ∷ []))
        (of_instance (65 ∷ []) (listed insertion_sort parse worker listing))
unfolding run_on equal_bytes any compare_bytes
run_on-survivors_example =
    run_on-survivors insertion_sort parse 100 worker listing (65 ∷ []) insertion_sort-IsSort
      ((refl, (refl, (refl, tt))), ((refl, (refl, tt)), ((refl, tt), (tt, tt))))
