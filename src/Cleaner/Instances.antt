-- ===== src/Cleaner/Instances.antt =====
-- What a run of the cleaner deletes, seen per instance.
use lightningstream.Base.{
  ℕ, ◌+◌, ◌≡◌, refl, ◌∙◌, ap, inl, inr, Bool, true, false, ◌&&◌, ◌||◌, ◌⊎◌, arith, none, some, List,
  [], ◌∷◌, ltb, leb, not, All, drop, take, Bool-cases, if◌then◌else◌,
}
use lightningstream.Base.Bytes.{Bytes, equal_bytes}
use lightningstream.Base.Maps.{
  find, filter, any, contains, filter_same, any_same, eq_of_equal_bytes,
}
use lightningstream.Snapshot.Name.{NameInfo}
use lightningstream.Cleaner.{split_newest, split_recent}

-- The snapshots of one instance.
abbrev pub of_instance : Bytes → List NameInfo → List NameInfo
of_instance i = filter (λ ni. equal_bytes i ni.instance_id)

pub contains_cons :
    (i x : Bytes) (xs : List Bytes) → contains i (x ∷ xs) ≡ (equal_bytes i x || contains i xs)
unfolding contains any
contains_cons i x xs = refl

-- An instance that is the one at hand, or is not.
same_or_other :
    (i : Bytes) (ni : NameInfo) (seen : List Bytes)
    → ((equal_bytes i ni.instance_id ≡ true) × (contains i seen ≡ contains ni.instance_id seen))
      ⊎ (equal_bytes i ni.instance_id ≡ false)
same_or_other i ni seen = elim (Bool-cases (equal_bytes i ni.instance_id)) [
  | inl e ↦ inl (e, ap (λ k. contains k seen) (eq_of_equal_bytes i ni.instance_id e))
  | inr e ↦ inr e
]

module _ (now remove_old : ℕ) where
  pub split_newest-left :
      (i : Bytes) (seen : List Bytes) (xs : List NameInfo)
      → of_instance i (split_newest now remove_old seen xs).0
        ≡ (if contains i seen then of_instance i xs else drop 1 (of_instance i xs))
  unfolding split_newest filter
  split_newest-left i seen [] = ground arith
  split_newest-left i seen (ni ∷ rest) = ground (
    arith,
    same_or_other i ni seen,
    contains_cons i ni.instance_id seen,
    split_newest-left i seen rest,
    split_newest-left i (ni.instance_id ∷ seen) rest,
  )

  pub split_newest-old :
      (i : Bytes) (seen : List Bytes) (xs : List NameInfo)
      → of_instance i (split_newest now remove_old seen xs).1 ≡ (
          if contains i seen
          then []
          else filter (λ ni. ltb (ni.timestamp + remove_old) now) (take 1 (of_instance i xs)))
  unfolding split_newest filter
  split_newest-old i seen [] = ground arith
  split_newest-old i seen (ni ∷ rest) = ground (
    arith,
    same_or_other i ni seen,
    contains_cons i ni.instance_id seen,
    split_newest-old i seen rest,
    split_newest-old i (ni.instance_id ∷ seen) rest,
  )

module _ (now must_keep : ℕ) where
  -- First seen more than `MustKeepInterval` ago.
  abbrev pub is_aged : List (Bytes × ℕ) → NameInfo → Bool
  is_aged first_seen ni = elim (find ni.full_name first_seen) [
    | none ↦ false
    | some t ↦ not (leb now (t + must_keep))
  ]

  abbrev is_recent : List (Bytes × ℕ) → NameInfo → Bool
  is_recent first_seen ni = elim (find ni.full_name first_seen) [
    | none ↦ false
    | some t ↦ leb now (t + must_keep)
  ]

  -- No two snapshots have the same name.
  abbrev pub Distinct : List NameInfo → Type 0
  Distinct [] = Unit
  Distinct (x ∷ xs) =
      All (λ (y : NameInfo). equal_bytes y.full_name x.full_name ≡ false) xs × Distinct xs

  find_other :
      {A : Type 0} (k x : Bytes) (v : A) (m : List (Bytes × A))
      → equal_bytes k x ≡ false
      → find k ((x, v) ∷ m) ≡ find k m
  unfolding find
  find_other k x v m h = rw (h, find)

  aged_others :
      (x : NameInfo) (first_seen : List (Bytes × ℕ)) (xs : List NameInfo)
      → All (λ (y : NameInfo). equal_bytes y.full_name x.full_name ≡ false) xs
      → All (λ y. is_aged ((x.full_name, now) ∷ first_seen) y ≡ is_aged first_seen y) xs
  aged_others x m [] h = tt
  aged_others x m (y ∷ ys) (h, hs) =
      (ground (arith, find_other y.full_name x.full_name now m h), aged_others x m ys hs)

  abbrev pub is_recent_of : Bytes → List (Bytes × ℕ) → NameInfo → Bool
  is_recent_of i first_seen ni = is_recent first_seen ni && equal_bytes i ni.instance_id

  recent_others :
      (i : Bytes) (x : NameInfo) (first_seen : List (Bytes × ℕ)) (xs : List NameInfo)
      → All (λ (y : NameInfo). equal_bytes y.full_name x.full_name ≡ false) xs
      → All
          (λ y. is_recent_of i ((x.full_name, now) ∷ first_seen) y ≡ is_recent_of i first_seen y)
          xs
  recent_others i x m [] h = tt
  recent_others i x m (y ∷ ys) (h, hs) =
      (ground (arith, find_other y.full_name x.full_name now m h), recent_others i x m ys hs)

  pub split_recent-candidates :
      (first_seen : List (Bytes × ℕ)) (xs : List NameInfo)
      → Distinct xs
      → (split_recent now must_keep first_seen xs).candidates ≡ filter (is_aged first_seen) xs
  unfolding split_recent filter
  split_recent-candidates m [] h = refl
  split_recent-candidates m (x ∷ xs) (h, hs) = ground (
    arith,
    split_recent-candidates m xs hs,
    split_recent-candidates ((x.full_name, now) ∷ m) xs hs
        ∙ filter_same (is_aged ((x.full_name, now) ∷ m)) (is_aged m) xs (aged_others x m xs h),
  )

  pub split_recent-seen_instances :
      (i : Bytes) (first_seen : List (Bytes × ℕ)) (xs : List NameInfo)
      → Distinct xs
      → contains i (split_recent now must_keep first_seen xs).seen_instances
        ≡ any (is_recent_of i first_seen) xs
  unfolding split_recent filter any contains
  split_recent-seen_instances i m [] h = refl
  split_recent-seen_instances i m (x ∷ xs) (h, hs) = ground (
    arith,
    split_recent-seen_instances i m xs hs,
    split_recent-seen_instances i ((x.full_name, now) ∷ m) xs hs
        ∙ any_same (is_recent_of i ((x.full_name, now) ∷ m)) (is_recent_of i m) xs
            (recent_others i x m xs h),
  )
