-- ===== src/Flags/RoundTrip.antt =====
-- The text of flags is read back as the flags.
use Prim.Native.Nat.{bit_and}
use lightningstream.Base.{
  ℕ, ◌<◌, ◌≡◌, refl, ap, ◌∙◌, arith, Bool, true, false, not, ◌||◌, ◌==◌, ==_iff, inl, inr,
}
use lightningstream.Base.Bits.{holds_below, holds_below_sound}
use lightningstream.Base.Bytes.{equal_bytes, compare_bytes}
use lightningstream.Base.Result.{Result, ok, err, Result-cases}
use lightningstream.Flags.{
  marshal_text, unmarshal_text, all_valid, build_names, format_digits, split_parts, all_parts,
  trim_left, trim_right, lookup, parse_digits,
}

is_ok_of : ℕ → Result ℕ → Bool
is_ok_of f (ok v) = v == f
is_ok_of f (err e) = false

read_back : ℕ → Bool
unfolding is_ok_of marshal_text unmarshal_text
read_back f = not (bit_and f all_valid == f) || is_ok_of f (unmarshal_text (marshal_text f))

read_back_table : holds_below 128 read_back ≡ true
unfolding read_back holds_below equal_bytes compare_bytes build_names split_parts all_parts
    trim_left trim_right lookup format_digits parse_digits
read_back_table = refl

read_back_sound :
    (f : ℕ) → bit_and f all_valid ≡ f → read_back f ≡ true → unmarshal_text (marshal_text f) ≡ ok f
unfolding read_back is_ok_of
read_back_sound f valid h =
    let persistent : (bit_and f all_valid == f) ≡ true = (==_iff (bit_and f all_valid) f).1 valid in
    elim (Result-cases (unmarshal_text (marshal_text f))) [
      | inl (v, e) ↦
          let same : (v == f) ≡ true = ground (arith, persistent, e, h) in
          e ∙ ap ok ((==_iff v f).0 same)
      | inr (x, e) ↦ absurd (ground (arith, persistent, e, h))
    ]

-- UnmarshalText reads back what String and MarshalText write of any combination of the persistent
-- flags.
pub unmarshal_text-marshal_text :
    (f : ℕ) → f < 128 → bit_and f all_valid ≡ f → unmarshal_text (marshal_text f) ≡ ok f
unmarshal_text-marshal_text f lt valid =
    read_back_sound f valid (holds_below_sound 128 read_back f read_back_table lt)
