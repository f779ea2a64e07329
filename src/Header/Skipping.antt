-- ===== src/Header/Skipping.antt =====
-- `Skip` and `ParseTimestamp` against `Parse`, on any bytes.
use lightningstream.Base.{◌≡◌, ◌+◌, ◌*◌, arith, length, length-take, length-drop, drop}
use lightningstream.Base.Bytes.{Bytes}
use lightningstream.Base.Result.{ok, ◌>>=◌}
use lightningstream.Header.{Header, parse, skip, parse_timestamp, get_num_extra, min_header_size}

-- `Skip` returns the value that `Parse` returns and fails exactly where it fails, with its error.
pub skip-eq-parse : (val : Bytes) → skip val ≡ (parse val >>= λ p. ok p.1)
unfolding skip parse
skip-eq-parse val = ground arith

-- Where `Parse` accepts a value, `ParseTimestamp` returns the timestamp of its header.
pub parse_timestamp-parse :
    (val : Bytes) (h : Header) (app : Bytes)
    → parse val ≡ ok (h, app)
    → parse_timestamp val ≡ ok h.timestamp
unfolding parse parse_timestamp
parse_timestamp-parse val h app e = ground arith

-- Where `Parse` accepts a value, the header's version is 0, its extra blocks are complete, and
-- the header and the application's value together are as long as the value.
pub parse_shape :
    (val : Bytes) (h : Header) (app : Bytes)
    → parse val ≡ ok (h, app)
    → (h.version ≡ 0)
      × (length h.extra ≡ 8 * h.num_extra)
      × (length val ≡ min_header_size + length h.extra + length app)
unfolding parse
parse_shape val h app e =
    let n = get_num_extra val in
    ground (
      arith,
      length-take (n * 8) (drop min_header_size val),
      length-drop min_header_size val,
      length-drop (min_header_size + 8 * n) val,
    )
