-- ===== src/Base/Bytes.antt =====
-- Go's `[]byte` as a list of numbers, the order of `bytes.Compare`, and the big endian integers
-- of `encoding/binary`.
use Prim.Native.Nat.{ℕ, zero, suc, ◌+◌, ◌*◌, ◌/◌, ◌%◌, ◌^◌, ◌<◌, compare, Ordering}
use mathlib.Core.Path.{◌≡◌, refl}
use mathlib.Core.Logic.{◌⊎◌, inl, inr}
use mathlib.Core.Bool.{Bool, true, false}
use mathlib.Core.List.{List, [], ◌∷◌}
use native.Mathlib.Omega.{arith}

abbrev pub Bytes : Type 0
Bytes = List ℕ

abbrev pub IsByte : ℕ → Type 0
IsByte b = b < 256

-- `bytes.Compare`: lexicographic, a proper prefix is smaller.
unfoldable pub compare_bytes : Bytes → Bytes → Ordering
compare_bytes [] [] = Ordering.eq
compare_bytes [] (y ∷ ys) = Ordering.lt
compare_bytes (x ∷ xs) [] = Ordering.gt
compare_bytes (x ∷ xs) (y ∷ ys) = elim (compare x y) [
  | Ordering.lt ↦ Ordering.lt
  | Ordering.eq ↦ compare_bytes xs ys
  | Ordering.gt ↦ Ordering.gt
]

-- `bytes.Equal`
unfoldable pub equal_bytes : Bytes → Bytes → Bool
equal_bytes xs ys = elim (compare_bytes xs ys) [ Ordering.eq ↦ true | _ ↦ false ]

abbrev pub Lt : Bytes → Bytes → Type 0
Lt a b = compare_bytes a b ≡ Ordering.lt

pub Ordering-cases : (o : Ordering) → (o ≡ Ordering.lt) ⊎ ((o ≡ Ordering.eq) ⊎ (o ≡ Ordering.gt))
Ordering-cases Ordering.lt = inl refl
Ordering-cases Ordering.eq = inr (inl refl)
Ordering-cases Ordering.gt = inr (inr refl)

pub compare_bytes_refl : (a : Bytes) → compare_bytes a a ≡ Ordering.eq
unfolding compare_bytes
compare_bytes_refl [] = refl
compare_bytes_refl (x ∷ xs) = ground (arith, compare_bytes_refl xs)

pub eq_of_compare : (a b : Bytes) → compare_bytes a b ≡ Ordering.eq → a ≡ b
unfolding compare_bytes
eq_of_compare [] [] h = refl
eq_of_compare [] (y ∷ ys) h = cc
eq_of_compare (x ∷ xs) [] h = cc
eq_of_compare (x ∷ xs) (y ∷ ys) h = ground (arith, eq_of_compare xs ys)

pub Lt_of_gt : (a b : Bytes) → compare_bytes a b ≡ Ordering.gt → Lt b a
unfolding compare_bytes
Lt_of_gt [] [] h = cc
Lt_of_gt [] (y ∷ ys) h = cc
Lt_of_gt (x ∷ xs) [] h = refl
Lt_of_gt (x ∷ xs) (y ∷ ys) h = ground (arith, Lt_of_gt xs ys)

pub gt_of_Lt : (a b : Bytes) → Lt b a → compare_bytes a b ≡ Ordering.gt
unfolding compare_bytes
gt_of_Lt [] [] h = cc
gt_of_Lt [] (y ∷ ys) h = cc
gt_of_Lt (x ∷ xs) [] h = refl
gt_of_Lt (x ∷ xs) (y ∷ ys) h = ground (arith, gt_of_Lt xs ys)

pub Lt-trans : (a b c : Bytes) → Lt a b → Lt b c → Lt a c
unfolding compare_bytes
Lt-trans [] [] c h k = cc
Lt-trans [] (y ∷ ys) [] h k = cc
Lt-trans [] (y ∷ ys) (z ∷ zs) h k = refl
Lt-trans (x ∷ xs) [] c h k = cc
Lt-trans (x ∷ xs) (y ∷ ys) [] h k = cc
Lt-trans (x ∷ xs) (y ∷ ys) (z ∷ zs) h k = ground (arith, Lt-trans xs ys zs)

pub ruleset bytes_order = (compare_bytes_refl, eq_of_compare, Lt_of_gt, gt_of_Lt, Lt-trans)

-- The `n` bytes of `v`, the most significant first: `binary.BigEndian.PutUint64` at n = 8.
abbrev pub put_be : ℕ → ℕ → Bytes
put_be zero v = []
put_be (suc n) v = (v / 256 ^ n % 256) ∷ put_be n v

-- `binary.BigEndian.Uint64` and `Uint16` on what the caller has sliced.
abbrev pub get_be_from : ℕ → Bytes → ℕ
get_be_from acc [] = acc
get_be_from acc (b ∷ bs) = get_be_from (acc * 256 + b) bs

abbrev pub get_be : Bytes → ℕ
get_be bs = get_be_from 0 bs

pub get_be-put_be_u64 : (v : ℕ) → v < 2 ^ 64 → get_be (put_be 8 v) ≡ v
get_be-put_be_u64 v h = omega arith

pub get_be-put_be_u16 : (v : ℕ) → v < 2 ^ 16 → get_be (put_be 2 v) ≡ v
get_be-put_be_u16 v h = omega arith

-- The `n` bytes of `v`, the least significant first: `binary.LittleEndian.PutUint64` at n = 8.
abbrev pub put_le : ℕ → ℕ → Bytes
put_le zero v = []
put_le (suc n) v = (v % 256) ∷ put_le n (v / 256)

-- The little endian number that the bytes stand for.
abbrev pub get_le : Bytes → ℕ
get_le [] = 0
get_le (b ∷ bs) = b + 256 * get_le bs

pub get_le-put_le_u64 : (v : ℕ) → v < 2 ^ 64 → get_le (put_le 8 v) ≡ v
get_le-put_le_u64 v h = omega arith
