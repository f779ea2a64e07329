-- ===== src/Snapshot/Wire.antt =====
-- snapshot/utils.go: what the hand-written protobuf code shares, and the calls of csproto
-- (github.com/CrowdStrike/csproto), which is not part of the repository.
use lightningstream.Base.{
  ℕ, ◌+◌, ◌*◌, ◌%◌, ◌^◌, ◌≤◌, ◌<◌, ◌≡◌, Bool, ltb, leb, ◌==◌, if◌then◌else◌, length, drop, take,
  ◌++◌,
}
use lightningstream.Base.Bytes.{Bytes}
use lightningstream.Base.Result.{Result, ok, err, wrong_wire_type, too_short, panic, ◌>>=◌}

-- `EncodeVarint`, `DecodeVarint` with the number of bytes read, and `SizeOfVarint`; `EncodeTag`
-- writes the varint of the tag and the wire type.
pub record Csproto : Type 0 where
  pub encode_varint : ℕ → Bytes
  pub decode_varint : Bytes → Result (ℕ × ℕ)
  pub size_of_varint : ℕ → ℕ

-- The varints of 64 bits: what is written is read back, whatever follows. A varint has 1 to 10
-- bytes, and one below 128 has 1.
pub record IsVarint (p : Csproto) : Type 0 where
  pub decode_lem :
      (v : ℕ) (rest : Bytes)
      → v < 2 ^ 64
      → p.decode_varint (p.encode_varint v ++ rest) ≡ ok (v, length (p.encode_varint v))
  pub size_lem : (v : ℕ) → v < 2 ^ 64 → p.size_of_varint v ≡ length (p.encode_varint v)
  pub one_byte : (v : ℕ) → v < 128 → length (p.encode_varint v) ≡ 1
  pub some_bytes : (v : ℕ) → 0 < length (p.encode_varint v)
  pub ten_bytes : (v : ℕ) → v < 2 ^ 64 → length (p.encode_varint v) ≤ 10

-- The wire types of protobuf.
abbrev pub wire_varint : ℕ
wire_varint = 0

abbrev pub wire_fixed64 : ℕ
wire_fixed64 = 1

abbrev pub wire_length_delimited : ℕ
wire_length_delimited = 2

abbrev pub wire_fixed32 : ℕ
wire_fixed32 = 5

-- `expectWT`
unfoldable pub expect_wt : ℕ → ℕ → Result (Unit {0})
expect_wt got exp = if got == exp then ok tt else err wrong_wire_type

-- `data[offset:]`; an offset out of range is a panic. A Go `int` that is negative is here a number
-- of at least 2^63.
unfoldable pub slice_from : Bytes → ℕ → Result Bytes
slice_from buf offset = if ltb (length buf) offset then err panic else ok (drop offset buf)

abbrev pub is_negative : ℕ → Bool
is_negative n = leb (2 ^ 63) n

module _ (p : Csproto) where
  abbrev pub encode_tag : ℕ → ℕ → Bytes
  encode_tag tag wire_type = p.encode_varint (tag * 8 + wire_type)

  -- The rest of `skipTag`: a number of bytes that is negative passes the test.
  unfoldable pub skip_checked : Bytes → ℕ → Result ℕ
  skip_checked buf skip =
      if is_negative skip then ok skip else if ltb (length buf) skip then err too_short else ok skip

  -- `skipTag`
  unfoldable pub skip_tag : Bytes → ℕ → Result ℕ
  unfolding skip_checked
  skip_tag buf wire_type =
      if wire_type == wire_varint
      then (do (v, n) ← p.decode_varint buf; skip_checked buf n)
      else if wire_type == wire_length_delimited
      then (do (size, n) ← p.decode_varint buf; skip_checked buf ((size + n) % 2 ^ 64))
      else if wire_type == wire_fixed32
      then skip_checked buf 4
      else if wire_type == wire_fixed64
      then skip_checked buf 8
      else err wrong_wire_type

  -- The length and the bytes of a length delimited field: the bytes, and how many have been read.
  unfoldable pub read_bytes : Bytes → Result (Bytes × ℕ)
  read_bytes buf = do
    (size, n) ← p.decode_varint buf
    if is_negative size
        then err panic
        else if ltb (length (drop n buf)) size
        then err too_short
        else ok (take size (drop n buf), n + size)
