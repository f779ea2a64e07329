-- ===== src/Lmdb/Entries.antt =====
-- Sorted lists of keys and values, with which the documented behaviour of LMDB is stated.
use Prim.Native.Nat.{Ordering}
use lightningstream.Base.{◌≡◌, refl, ap, Option, none, some, List, [], ◌∷◌, ◌++◌, All, arith}
use lightningstream.Base.Bytes.{Bytes, Lt, compare_bytes, compare_bytes_refl, gt_of_Lt, Lt-trans}

abbrev pub Entry : Type 0
Entry = Bytes × Bytes

unfoldable pub lookup : Bytes → List Entry → Option Bytes
lookup k [] = none
lookup k ((j, w) ∷ m) = elim (compare_bytes k j) [ Ordering.eq ↦ some w | _ ↦ lookup k m ]

unfoldable pub insert : Bytes → Bytes → List Entry → List Entry
insert k v [] = (k, v) ∷ []
insert k v ((j, w) ∷ m) = elim (compare_bytes k j) [
  | Ordering.lt ↦ (k, v) ∷ (j, w) ∷ m
  | Ordering.eq ↦ (k, v) ∷ m
  | Ordering.gt ↦ (j, w) ∷ insert k v m
]

unfoldable pub erase : Bytes → List Entry → List Entry
erase k [] = []
erase k ((j, w) ∷ m) = elim (compare_bytes k j) [ Ordering.eq ↦ m | _ ↦ (j, w) ∷ erase k m ]

-- What stands behind a cursor: everything, or the entries from the first key past `p`.
unfoldable pub beyond : Option Bytes → List Entry → List Entry
beyond none es = es
beyond (some p) [] = []
beyond (some p) ((j, w) ∷ m) = elim (compare_bytes p j) [
  | Ordering.lt ↦ (j, w) ∷ m
  | _ ↦ beyond (some p) m
]

-- Every key stands in front of `k`; behind `k`.
abbrev pub Below : List Entry → Bytes → Type 0
Below es k = All (λ e. Lt e.0 k) es

abbrev pub Above : Bytes → List Entry → Type 0
Above k es = All (λ e. Lt k e.0) es

abbrev pub IsSorted : List Entry → Type 0
IsSorted [] = Unit
IsSorted ((k, v) ∷ es) = Above k es × IsSorted es

pub Above-trans : (j k : Bytes) (es : List Entry) → Lt j k → Above k es → Above j es
Above-trans j k [] h a = tt
Above-trans j k ((i, v) ∷ es) h (a, above) = (Lt-trans j k i h a, Above-trans j k es h above)

pub Below-trans : (es : List Entry) (j k : Bytes) → Lt j k → Below es j → Below es k
Below-trans [] j k h b = tt
Below-trans ((i, v) ∷ es) j k h (b, bs) = (Lt-trans i j k b h, Below-trans es j k h bs)

pub All-middle {ℓ} :
    (P : Entry → Type ℓ) (front : List Entry) (e : Entry) (back : List Entry)
    → All P (front ++ (e ∷ back))
    → P e
All-middle P [] e back h = h.0
All-middle P (j ∷ front) e back h = All-middle P front e back h.1

-- The entry in the middle of a sorted list.
pub sorted_middle :
    (front : List Entry) (k v : Bytes) (back : List Entry)
    → IsSorted (front ++ ((k, v) ∷ back))
    → Below front k × Above k back
sorted_middle [] k v back (a, s) = (tt, a)
sorted_middle ((j, w) ∷ front) k v back (a, s) =
    let (b, c) = sorted_middle front k v back s in ((above_middle front a, b), c)
  where
    above_middle : (es : List Entry) → Above j (es ++ ((k, v) ∷ back)) → Lt j k
    above_middle [] h = h.0
    above_middle (e ∷ es) h = above_middle es h.1

pub lookup-middle :
    (front : List Entry) (k v : Bytes) (back : List Entry)
    → Below front k
    → lookup k (front ++ ((k, v) ∷ back)) ≡ some v
unfolding lookup
lookup-middle [] k v back b = ground (arith, compare_bytes_refl k)
lookup-middle ((j, w) ∷ front) k v back (b, bs) =
    ground (arith, gt_of_Lt k j b, lookup-middle front k v back bs)

pub insert-between :
    (front : List Entry) (k v : Bytes) (back : List Entry)
    → Below front k
    → Above k back
    → insert k v (front ++ back) ≡ front ++ ((k, v) ∷ back)
unfolding insert
insert-between [] k v [] b a = refl
insert-between [] k v (e ∷ back) b (a, above) = ground arith
insert-between ((j, w) ∷ front) k v back (b, bs) a =
    ground (arith, gt_of_Lt k j b, insert-between front k v back bs a)

pub insert-middle :
    (front : List Entry) (k v w : Bytes) (back : List Entry)
    → Below front k
    → insert k v (front ++ ((k, w) ∷ back)) ≡ front ++ ((k, v) ∷ back)
unfolding insert
insert-middle [] k v w back b = ground (arith, compare_bytes_refl k)
insert-middle ((j, u) ∷ front) k v w back (b, bs) =
    ground (arith, gt_of_Lt k j b, insert-middle front k v w back bs)

pub erase-middle :
    (front : List Entry) (k v : Bytes) (back : List Entry)
    → Below front k
    → erase k (front ++ ((k, v) ∷ back)) ≡ front ++ back
unfolding erase
erase-middle [] k v back b = ground (arith, compare_bytes_refl k)
erase-middle ((j, u) ∷ front) k v back (b, bs) =
    ground (arith, gt_of_Lt k j b, erase-middle front k v back bs)

-- An entry in front of the others, if there is one.
abbrev pub cons_some : Bytes → Option Bytes → List Entry → List Entry
cons_some k none es = es
cons_some k (some v) es = (k, v) ∷ es

beyond-Above : (k : Bytes) (es : List Entry) → Above k es → beyond (some k) es ≡ es
unfolding beyond
beyond-Above k [] a = refl
beyond-Above k (e ∷ es) (a, above) = ground arith

-- A cursor at a key has passed what stands in front of it and the key itself.
pub beyond-cons_some :
    (front : List Entry) (k : Bytes) (o : Option Bytes) (es : List Entry)
    → Below front k
    → Above k es
    → beyond (some k) (front ++ cons_some k o es) ≡ es
unfolding beyond
beyond-cons_some [] k none es b a = beyond-Above k es a
beyond-cons_some [] k (some v) es b a = ground (arith, compare_bytes_refl k, beyond-Above k es a)
beyond-cons_some ((j, w) ∷ front) k o es (b, bs) a =
    ground (arith, gt_of_Lt k j b, beyond-cons_some front k o es bs a)

pub Below-cons_some :
    (front : List Entry) (k : Bytes) (o : Option Bytes) (j : Bytes)
    → Below front k
    → Lt k j
    → Below (front ++ cons_some k o []) j
Below-cons_some [] k none j b h = tt
Below-cons_some [] k (some v) j b h = (h, tt)
Below-cons_some ((i, w) ∷ front) k o j (b, bs) h =
    (Lt-trans i k j b h, Below-cons_some front k o j bs h)

pub append-cons_some :
    (front : List Entry) (k : Bytes) (o : Option Bytes) (es : List Entry)
    → (front ++ cons_some k o []) ++ es ≡ front ++ cons_some k o es
append-cons_some [] k none es = refl
append-cons_some [] k (some v) es = refl
append-cons_some (e ∷ front) k o es = ap (λ l. e ∷ l) (append-cons_some front k o es)
