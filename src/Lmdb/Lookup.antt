-- ===== src/Lmdb/Lookup.antt =====
-- What a key has after a write at another key or at itself.
use Prim.Native.Nat.{Ordering}
use lightningstream.Base.{◌≡◌, refl, ap, Option, none, some, List, [], ◌∷◌, arith, inl, inr}
use lightningstream.Base.Bytes.{Bytes, compare_bytes, eq_of_compare, Ordering-cases}
use lightningstream.Lmdb.Entries.{Entry, lookup, insert, erase, IsSorted, Above}

-- `o` at the key, and `rest` at any other.
abbrev pub at_key : Bytes → Bytes → Option Bytes → Option Bytes → Option Bytes
at_key i k o rest = elim (compare_bytes i k) [ Ordering.eq ↦ o | _ ↦ rest ]

pub at_key-P :
    (P : Option Bytes → Type 0) (i k : Bytes) (o rest : Option Bytes)
    → P o
    → P rest
    → P (at_key i k o rest)
at_key-P P i k o rest p q =
    elim (compare_bytes i k) as (λ c. P (elim c [ Ordering.eq ↦ o | _ ↦ rest ])) [
      | Ordering.lt ↦ q
      | Ordering.eq ↦ p
      | Ordering.gt ↦ q
    ]

pub at_key-cong :
    (i k : Bytes) (o o' rest : Option Bytes)
    → (i ≡ k → o ≡ o')
    → at_key i k o rest ≡ at_key i k o' rest
at_key-cong i k o o' rest e = elim (Ordering-cases (compare_bytes i k)) [
  | inl less ↦ ground (arith, less)
  | inr (inl same) ↦ ground (arith, same, e (eq_of_compare i k same))
  | inr (inr greater) ↦ ground (arith, greater)
]

pub lookup-insert :
    (i k v : Bytes) (es : List Entry) → lookup i (insert k v es) ≡ at_key i k (some v) (lookup i es)
unfolding lookup insert
lookup-insert i k v [] = refl
lookup-insert i k v ((j, w) ∷ es) = elim (Ordering-cases (compare_bytes k j)) [
  | inl lt ↦ ground (arith, lt)
  | inr (inl eq) ↦ ground (arith, eq, ap (compare_bytes i) (eq_of_compare k j eq))
  | inr (inr gt) ↦ elim (Ordering-cases (compare_bytes i k)) [
    | inr (inl same) ↦ ground (
      arith,
      gt,
      same,
      ap (λ z. compare_bytes z j) (eq_of_compare i k same),
      lookup-insert i k v es,
    )
    | inl less ↦ ground (arith, gt, less, lookup-insert i k v es)
    | inr (inr greater) ↦ ground (arith, gt, greater, lookup-insert i k v es)
  ]
]

pub lookup-Above :
    (i k : Bytes) (es : List Entry)
    → Above k es
    → compare_bytes i k ≡ Ordering.eq
    → lookup i es ≡ none
unfolding lookup
lookup-Above i k [] a e = refl
lookup-Above i k ((j, w) ∷ es) (a, above) e =
    ground
      (arith, a, e, ap (λ z. compare_bytes z j) (eq_of_compare i k e), lookup-Above i k es above e)

compare_same :
    (i k j : Bytes) → compare_bytes k j ≡ Ordering.eq → compare_bytes i k ≡ compare_bytes i j
compare_same i k j e = ap (compare_bytes i) (eq_of_compare k j e)

pub lookup-erase :
    (i k : Bytes) (es : List Entry)
    → IsSorted es
    → lookup i (erase k es) ≡ at_key i k none (lookup i es)
unfolding lookup erase
lookup-erase i k [] s = elim (Ordering-cases (compare_bytes i k)) [
  | inl less ↦ ground (arith, less)
  | inr (inl same) ↦ ground (arith, same)
  | inr (inr greater) ↦ ground (arith, greater)
]
lookup-erase i k ((j, w) ∷ es) (a, s) = elim (Ordering-cases (compare_bytes i k)) [
  | inr (inl same) ↦ ground (
    arith,
    same,
    ap (λ z. compare_bytes z j) (eq_of_compare i k same),
    lookup-erase i k es s,
    lookup-Above i j es a,
  )
  | inl less ↦ ground (arith, less, compare_same i k j, lookup-erase i k es s)
  | inr (inr greater) ↦ ground (arith, greater, compare_same i k j, lookup-erase i k es s)
]
