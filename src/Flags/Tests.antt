-- ===== src/Flags/Tests.antt =====
-- Texts of flags.
use lightningstream.Base.{◌+◌, ◌≡◌, refl, arith, [], ◌∷◌}
use lightningstream.Base.Bytes.{equal_bytes, compare_bytes}
use lightningstream.Base.Result.{ok, err, bad_format}
use lightningstream.Flags.RoundTrip.{unmarshal_text-marshal_text}
use lightningstream.Flags.{
  marshal_text, friendly_string, unmarshal_text, build_names, format_digits, split_parts, all_parts,
  trim_left, trim_right, lookup, parse_digits,
}

-- "dupsort, 0x8"
dupsort_and_number :
    unmarshal_text (100 ∷ 117 ∷ 112 ∷ 115 ∷ 111 ∷ 114 ∷ 116 ∷ 44 ∷ 32 ∷ 48 ∷ 120 ∷ 56 ∷ []) ≡ ok 12
unfolding unmarshal_text equal_bytes compare_bytes split_parts all_parts trim_left trim_right lookup
    parse_digits
dupsort_and_number = refl

-- "1" is no persistent flag.
refuses_one : unmarshal_text (49 ∷ []) ≡ err bad_format
unfolding unmarshal_text equal_bytes compare_bytes split_parts all_parts trim_left trim_right lookup
    parse_digits
refuses_one = refl

unmarshal_text-marshal_text_example : unmarshal_text (marshal_text 44) ≡ ok 44
unmarshal_text-marshal_text_example = unmarshal_text-marshal_text 44 (omega arith) refl

-- "ReverseKey UNKNOWN:0xff80"
friendly_unknown :
    friendly_string (65408 + 2)
    ≡ 82 ∷ 101 ∷ 118 ∷ 101 ∷ 114 ∷ 115 ∷ 101 ∷ 75 ∷ 101 ∷ 121 ∷ 32 ∷ 85 ∷ 78 ∷ 75 ∷ 78 ∷ 79 ∷ 87
      ∷ 78 ∷ 58 ∷ 48 ∷ 120 ∷ 102 ∷ 102 ∷ 56 ∷ 48 ∷ []
unfolding friendly_string build_names format_digits
friendly_unknown = refl
