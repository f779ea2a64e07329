-- ===== src/Snapshot/Chain.antt =====
-- Messages as lists of fields that are read one after the other: for the proofs on snapshot/kv.go,
-- snapshot/dbi.go, snapshot/meta.go and snapshot/snapshot.go.
use mathlib.Core.List.{append-nil, append_assoc}
use lightningstream.Base.{
  ℕ, ◌≤◌, ◌<◌, ◌≡◌, refl, sym, ap, ◌∙◌, subst, arith, Bool, true, false, ltb, if◌then◌else◌, length,
  List, [], ◌∷◌, ◌++◌, length-append,
}
use lightningstream.Base.Bytes.{Bytes}

abbrev pub concat : List Bytes → Bytes
concat [] = []
concat (f ∷ fs) = f ++ concat fs

pub concat-append : (fs gs : List Bytes) → concat (fs ++ gs) ≡ concat fs ++ concat gs
concat-append [] gs = refl
concat-append (f ∷ fs) gs =
    ap (λ b. f ++ b) (concat-append fs gs) ∙ sym (append_assoc f (concat fs) (concat gs))

abbrev pub one_if : Bool → Bytes → List Bytes
one_if true f = f ∷ []
one_if false f = []

pub concat-one_if : (c : Bool) (f : Bytes) → concat (one_if c f) ≡ (if c then f else [])
concat-one_if true f = append-nil f
concat-one_if false f = refl

pub concat_more :
    (c : Bool) (f : Bytes) (gs : List Bytes) (b : Bytes)
    → concat gs ≡ b
    → concat (one_if c f ++ gs) ≡ (if c then f else []) ++ b
concat_more true f gs b e = ap (λ x. f ++ x) e
concat_more false f gs b e = e

pub not_some : (b : Bytes) → ltb 0 (length b) ≡ false → [] ≡ b
not_some [] h = refl
not_some (x ∷ xs) h = absurd (ground arith)

pub zero_of : (n : ℕ) → ltb 0 n ≡ false → 0 ≡ n
zero_of n h = ground arith

-- `R` says what the bytes of one field make of what has been read before it.
module _ {S : Type 0} (R : Bytes → S → S → Type 0) where
  abbrev pub Chain : List Bytes → S → S → Type 0
  Chain [] s s' = s ≡ s'
  Chain (f ∷ fs) s s' = (mid : S) × R f s mid × Chain fs mid s'

  pub Chain-append :
      (fs gs : List Bytes) (a b c : S) → Chain fs a b → Chain gs b c → Chain (fs ++ gs) a c
  Chain-append [] gs a b c e ch = subst (λ s. Chain gs s c) (sym e) ch
  Chain-append (f ∷ fs) gs a b c (mid, r, ch) ch' = (mid, r, Chain-append fs gs mid b c ch ch')

  pub Chain-one_if :
      (c : Bool) (f : Bytes) (a b : S)
      → (c ≡ true → R f a b)
      → (c ≡ false → a ≡ b)
      → Chain (one_if c f) a b
  Chain-one_if true f a b r e = (b, r refl, refl)
  Chain-one_if false f a b r e = e refl

  pub length-Chain :
      (fs : List Bytes) (a b : S)
      → ((f : Bytes) (s s' : S) → R f s s' → 0 < length f)
      → Chain fs a b
      → length fs ≤ length (concat fs)
  length-Chain [] a b some ch = omega arith
  length-Chain (f ∷ fs) a b some (mid, r, ch) =
      omega (arith, some f a mid r, length-Chain fs mid b some ch, length-append f (concat fs))
