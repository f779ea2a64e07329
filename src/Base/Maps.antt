-- ===== src/Base/Maps.antt =====
-- Go's maps that are keyed by strings, as association lists; the entry in front counts.
use Prim.Native.Nat.{◌≤◌}
use mathlib.Core.Path.{◌≡◌, refl, sym, subst, ap, ◌∙◌}
use mathlib.Core.Logic.{◌⊎◌, inl, inr}
use mathlib.Core.Bool.{Bool, true, false, ◌||◌}
use mathlib.Core.List.{List, [], ◌∷◌, ◌++◌}
use mathlib.Core.Option.{Option, none, some}
use native.Mathlib.Omega.{arith}
use lightningstream.Base.Bytes.{
  Bytes, equal_bytes, compare_bytes, compare_bytes_refl, eq_of_compare, Ordering-cases,
}
use lightningstream.Base.Tests.{Bool-cases}
use lightningstream.Base.Lists.{All, length}

module _ {ℓ} {A : Type ℓ} where
  unfoldable pub find : Bytes → List (Bytes × A) → Option A
  find k [] = none
  find k ((x, v) ∷ m) = elim (equal_bytes k x) [ true ↦ some v | false ↦ find k m ]

  -- `m[k] = v`
  unfoldable pub assign : Bytes → A → List (Bytes × A) → List (Bytes × A)
  assign k v [] = (k, v) ∷ []
  assign k v ((x, w) ∷ m) = elim (equal_bytes k x) [
    | true ↦ (k, v) ∷ m
    | false ↦ (x, w) ∷ assign k v m
  ]

  unfoldable pub filter : (A → Bool) → List A → List A
  filter p [] = []
  filter p (x ∷ xs) = elim (p x) [ true ↦ x ∷ filter p xs | false ↦ filter p xs ]

  unfoldable pub any : (A → Bool) → List A → Bool
  any p [] = false
  any p (x ∷ xs) = p x || any p xs

  pub filter-append :
      (p : A → Bool) (xs ys : List A) → filter p (xs ++ ys) ≡ filter p xs ++ filter p ys
  unfolding filter
  filter-append p [] ys = refl
  filter-append p (x ∷ xs) ys = ground (arith, filter-append p xs ys)

  pub filter-filter :
      (p q : A → Bool) (xs : List A) → filter p (filter q xs) ≡ filter q (filter p xs)
  unfolding filter
  filter-filter p q [] = refl
  filter-filter p q (x ∷ xs) = ground (arith, filter-filter p q xs)

  pub filter_same :
      (p q : A → Bool) (xs : List A) → All (λ x. p x ≡ q x) xs → filter p xs ≡ filter q xs
  unfolding filter
  filter_same p q [] h = refl
  filter_same p q (x ∷ xs) (e, h) = ground (arith, filter_same p q xs h)

  pub any_same : (p q : A → Bool) (xs : List A) → All (λ x. p x ≡ q x) xs → any p xs ≡ any q xs
  unfolding any
  any_same p q [] h = refl
  any_same p q (x ∷ xs) (e, h) = ground (arith, any_same p q xs h)

  pub length-filter : (p : A → Bool) (xs : List A) → length (filter p xs) ≤ length xs
  unfolding filter
  length-filter p [] = omega arith
  length-filter p (x ∷ xs) = ground (arith, length-filter p xs)

  pub filter_whole :
      (p : A → Bool) (xs : List A) → length (filter p xs) ≡ length xs → filter p xs ≡ xs
  unfolding filter
  filter_whole p [] h = refl
  filter_whole p (x ∷ xs) h = ground (arith, filter_whole p xs, length-filter p xs)

  pub filter_cons :
      (p : A → Bool) (x : A) (xs : List A)
      → ((p x ≡ true) × (filter p (x ∷ xs) ≡ x ∷ filter p xs)) ⊎ (filter p (x ∷ xs) ≡ filter p xs)
  unfolding filter
  filter_cons p x xs = ground arith

  pub filter-All {κ} :
      (P : A → Type κ) (p : A → Bool) (xs : List A) → All P xs → All P (filter p xs)
  unfolding filter
  filter-All P p [] h = tt
  filter-All P p (x ∷ xs) (h, hs) = elim (filter_cons p x xs) [
    | inl (e, c) ↦ subst (All P) (sym c) (h, filter-All P p xs hs)
    | inr c ↦ subst (All P) (sym c) (filter-All P p xs hs)
  ]

  pub filter_holds : (p : A → Bool) (xs : List A) → All (λ x. p x ≡ true) (filter p xs)
  unfolding filter
  filter_holds p [] = tt
  filter_holds p (x ∷ xs) = elim (filter_cons p x xs) [
    | inl (e, c) ↦ subst (All (λ x. p x ≡ true)) (sym c) (e, filter_holds p xs)
    | inr c ↦ subst (All (λ x. p x ≡ true)) (sym c) (filter_holds p xs)
  ]

-- A map to `true` is the list of its keys.
unfoldable pub contains : Bytes → List Bytes → Bool
contains k xs = any (equal_bytes k) xs

pub equal_bytes_refl : (a : Bytes) → equal_bytes a a ≡ true
unfolding equal_bytes
equal_bytes_refl a = rw (compare_bytes_refl a, equal_bytes)

pub eq_of_equal_bytes : (a b : Bytes) → equal_bytes a b ≡ true → a ≡ b
unfolding equal_bytes
eq_of_equal_bytes a b h = elim (Ordering-cases (compare_bytes a b)) [
  | inl e ↦ cc
  | inr (inl e) ↦ eq_of_compare a b e
  | inr (inr e) ↦ cc
]

pub equal_bytes_sym : (a b : Bytes) → equal_bytes a b ≡ equal_bytes b a
equal_bytes_sym a b = elim (Bool-cases (equal_bytes a b)) [
  | inl e ↦ rw (eq_of_equal_bytes a b e) refl
  | inr e ↦ elim (Bool-cases (equal_bytes b a)) [
    | inl e' ↦ rw (eq_of_equal_bytes b a e') refl
    | inr e' ↦ e ∙ sym e'
  ]
]

module _ {ℓ} {A : Type ℓ} where
  pub find-assign :
      (i k : Bytes) (v : A) (m : List (Bytes × A))
      → find i (assign k v m) ≡ elim (equal_bytes i k) [ true ↦ some v | false ↦ find i m ]
  unfolding find assign
  find-assign i k v [] = refl
  find-assign i k v ((x, w) ∷ m) = elim (Bool-cases (equal_bytes k x)) [
    | inl e ↦ ground (arith, ap (λ z. equal_bytes i z) (eq_of_equal_bytes k x e))
    | inr e ↦ elim (Bool-cases (equal_bytes i x)) [
      | inl e' ↦ ground (
        arith,
        eq_of_equal_bytes i x e',
        ap (λ z. equal_bytes z k) (eq_of_equal_bytes i x e'),
        equal_bytes_sym k x,
        find-assign i k v m,
      )
      | inr e' ↦ ground (arith, find-assign i k v m)
    ]
  ]
