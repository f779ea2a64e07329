-- ===== src/Base/Bits.antt =====
-- Facts on the bits of a byte, each checked by evaluation on every value.
use Prim.Native.Nat.{ℕ, zero, suc, ◌%◌, ◌<◌, bit_and, bit_or}
use mathlib.Core.Path.{◌≡◌, refl}
use mathlib.Core.Bool.{Bool, true, ◌&&◌}
use native.Mathlib.Omega.{arith}
use lightningstream.Base.Tests.{◌==◌, ==_iff}

unfoldable pub holds_below : ℕ → (ℕ → Bool) → Bool
holds_below zero p = true
holds_below (suc n) p = p n && holds_below n p

pub holds_below_sound : (n : ℕ) (p : ℕ → Bool) (x : ℕ) → holds_below n p ≡ true → x < n → p x ≡ true
unfolding holds_below
holds_below_sound zero p x h lt = absurd (omega arith)
holds_below_sound (suc n) p x h lt = ground (arith, holds_below_sound n p x)

lowest_bit_table : holds_below 256 (λ f. bit_and f 1 == f % 2) ≡ true
unfolding holds_below
lowest_bit_table = refl

pub lowest_bit : (f : ℕ) → f < 256 → bit_and f 1 ≡ f % 2
lowest_bit f h = (==_iff _ (f % 2)).0 (holds_below_sound 256 _ f lowest_bit_table h)

set_lowest_table : holds_below 2 (λ f. bit_or f 1 == 1) ≡ true
unfolding holds_below
set_lowest_table = refl

pub set_lowest : (f : ℕ) → f < 2 → bit_or f 1 ≡ 1
set_lowest f h = (==_iff _ 1).0 (holds_below_sound 2 _ f set_lowest_table h)
