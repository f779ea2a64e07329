-- ===== src/Instances/Cleaning.antt =====
-- Which instances the loop still waits for.
use lightningstream.Base.{
  ◌≡◌, refl, ap, inl, inr, arith, Bool, not, ◌&&◌, ◌||◌, List, [], ◌∷◌, Bool-cases,
}
use lightningstream.Base.Bytes.{Bytes, equal_bytes}
use lightningstream.Base.Maps.{filter, contains, any, eq_of_equal_bytes, equal_bytes_sym}
use lightningstream.Instances.{
  InstanceSet, add_instance, remove_instance, has_instance, remove_all, clean_disappeared,
}

pub contains-filter :
    (p : Bytes → Bool) (i : Bytes) (s : List Bytes)
    → contains i (filter p s) ≡ (contains i s && p i)
unfolding contains any filter
contains-filter p i [] = refl
contains-filter p i (x ∷ xs) = elim (Bool-cases (equal_bytes i x)) [
  | inl e ↦ ground (arith, e, ap p (eq_of_equal_bytes i x e), contains-filter p i xs)
  | inr e ↦ ground (arith, e, contains-filter p i xs)
]

contains-remove_all :
    (i : Bytes) (s : InstanceSet) (names : List Bytes)
    → contains i (remove_all s names) ≡ (contains i s && not (contains i names))
unfolding remove_all contains any
contains-remove_all i s [] = ground arith
contains-remove_all i s (x ∷ xs) = ground (
  arith,
  contains-remove_all i (remove_instance s x) xs,
  contains-filter (λ n. not (equal_bytes x n)) i s,
  equal_bytes_sym i x,
)

-- After `CleanDisappeared` the set has an instance exactly if it had it before and the instance has
-- been seen.
pub clean_disappeared-has_instance :
    (sort : List Bytes → List Bytes) (s : InstanceSet) (seen : List Bytes) (i : Bytes)
    → has_instance (clean_disappeared sort s seen).0 i ≡ (has_instance s i && contains i seen)
unfolding clean_disappeared has_instance
clean_disappeared-has_instance sort s seen i = ground (
  arith,
  contains-remove_all i s (filter (λ name. not (contains name seen)) s),
  contains-filter (λ name. not (contains name seen)) i s,
)

-- `Add` and `Remove` change the answer of `Contains` for their instance only.
pub add-remove-has_instance :
    (s : InstanceSet) (name i : Bytes)
    → (has_instance (add_instance s name) i ≡ (equal_bytes i name || has_instance s i))
      × (has_instance (remove_instance s name) i ≡ (not (equal_bytes i name) && has_instance s i))
unfolding add_instance has_instance remove_instance any
add-remove-has_instance s name i = (
  elim (Bool-cases (equal_bytes i name)) [
    | inl e ↦ ground (arith, e, ap (λ k. contains k s) (eq_of_equal_bytes i name e))
    | inr e ↦ ground (arith, e)
  ],
  ground (arith, contains-filter (λ n. not (equal_bytes name n)) i s, equal_bytes_sym i name),
)
