-- ===== src/Base/Result.antt =====
-- Go's pair of a value and an error: a function returns a value or one of the errors below.
use mathlib.Core.Path.{◌≡◌, refl}
use mathlib.Core.Bool.{Bool, true, false}
use lightningstream.Base.Tests.{if◌then◌else◌}
use mathlib.Core.Logic.{◌⊎◌, inl, inr}

pub data Error : Type 0 where
  -- lmdbenv/header
  too_short bad_version : Error
  -- lmdbenv/strategy
  not_sorted key_too_long : Error
  -- syncer
  no_txn_id bad_format : Error
  bad_dupsort_key dupsort_not_unique dupsort_reversed : Error
  dupsort_disabled duplicate_key unsafe_create canceled : Error
  -- snapshot
  bad_name bad_transform wrong_wire_type end_of_data : Error
  -- a Go panic
  panic : Error
  -- what LMDB, the storage backend or a decoder reports
  external : Error
  -- a model's loop has used up its fuel
  out_of_fuel : Error

pub data Result {ℓ} (A : Type ℓ) : Type ℓ where
  err : Error → Result A
  ok : A → Result A

pub Result-cases {ℓ} :
    {A : Type ℓ} (r : Result A) → ((a : A) × (r ≡ ok a)) ⊎ ((e : Error) × (r ≡ err e))
Result-cases (err e) = inr (e, refl)
Result-cases (ok a) = inl (a, refl)

infixl 5 ◌>>=◌
abbrev pub ◌>>=◌ {ℓ m} : {A : Type ℓ} → {B : Type m} → Result A → (A → Result B) → Result B
err e >>= next = err e
ok a >>= next = next a

pub >>=-eq-ok {ℓ m} :
    {A : Type ℓ} {B : Type m} (r : Result A) (next : A → Result B) {b : B}
    → (r >>= next) ≡ ok b
    → (a : A) × (r ≡ ok a) × (next a ≡ ok b)
>>=-eq-ok (err e) next h = cc
>>=-eq-ok (ok a) next h = (a, refl, h)

-- The branch that a conditional has taken.
pub branch {ℓ} :
    {A : Type ℓ} (b : Bool) (x y : A) {z : A}
    → (if b then x else y) ≡ z
    → ((b ≡ true) × (x ≡ z)) ⊎ ((b ≡ false) × (y ≡ z))
branch true x y h = inl (refl, h)
branch false x y h = inr (refl, h)

pub ok_inj {ℓ} : {A : Type ℓ} {a b : A} → ok a ≡ ok b → a ≡ b
ok_inj h = cc

pub ok_pair {ℓ m} :
    {A : Type ℓ} {B : Type m} {a a' : A} {b b' : B}
    → ◌≡◌ {A = Result (A × B)} (ok (a, b)) (ok (a', b'))
    → b ≡ b'
ok_pair h = cc
