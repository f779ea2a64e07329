-- ===== src/Header/Tests.antt =====
-- Concrete headers, and the theorems at concrete inputs.
use lightningstream.Base.{◌+◌, ◌*◌, ◌≡◌, refl, [], ◌∷◌, ◌++◌, arith, length, replicate}
use lightningstream.Base.Bytes.{Bytes}
use lightningstream.Base.Result.{ok, err, too_short, bad_version, ◌>>=◌}
use lightningstream.Header.{
  Header, parse, skip, parse_timestamp, header_bytes, put_basic, min_header_size, is_deleted,
  masked,
}
use lightningstream.Header.RoundTrip.{padded, parse-header_bytes}
use lightningstream.Header.Skipping.{skip-eq-parse, parse_timestamp-parse, parse_shape}
use mathlib.Core.Bool.{true}

-- Three extra bytes, which take one block.
abbrev three_extra : Header
three_extra = record {
  timestamp = 7;
  txn_id = 300;
  version = 0;
  flags = 1;
  num_extra = 0;
  extra = 9 ∷ 8 ∷ 7 ∷ [];
}

abbrev stored : Bytes
stored = put_basic 5 2 1 ++ (65 ∷ [])

abbrev basic : Header
basic = record { timestamp = 5; txn_id = 2; version = 0; flags = 1; num_extra = 0; extra = [] }

parse_cut : parse (replicate 23 0) ≡ err too_short
unfolding parse
parse_cut = refl

parse_versioned : parse (replicate 16 0 ++ (1 ∷ []) ++ replicate 7 0) ≡ err bad_version
unfolding parse
parse_versioned = refl

parse-stored : parse stored ≡ ok (basic, 65 ∷ [])
unfolding parse put_basic
parse-stored = refl

flags_of_three : (is_deleted 3 ≡ true) × (masked 3 ≡ 1)
unfolding is_deleted masked
flags_of_three = (refl, refl)

parse-header_bytes_example :
    parse (header_bytes three_extra ++ (1 ∷ [])) ≡ ok (padded three_extra, 1 ∷ [])
unfolding header_bytes
parse-header_bytes_example = parse-header_bytes three_extra (1 ∷ []) (record {
  timestamp = omega arith;
  txn_id = omega arith;
  version = refl;
  flags = omega arith;
  blocks = omega arith;
})

skip-eq-parse_example : skip stored ≡ (parse stored >>= λ p. ok p.1)
skip-eq-parse_example = skip-eq-parse stored

parse_timestamp-parse_example : parse_timestamp stored ≡ ok 5
parse_timestamp-parse_example = parse_timestamp-parse stored basic (65 ∷ []) parse-stored

parse_shape_example :
    (basic.version ≡ 0)
    × (length basic.extra ≡ 8 * basic.num_extra)
    × (length stored ≡ min_header_size + length basic.extra + 1)
parse_shape_example = parse_shape stored basic (65 ∷ []) parse-stored
