-- ===== src/Header/RoundTrip.antt =====
-- What `Bytes` and `PutBasic` write, `Parse` reads back.
use lightningstream.Base.{
  ℕ, ◌-◌, ◌*◌, ◌^◌, ◌≤◌, ◌<◌, ◌≡◌, [], ◌++◌, arith, length, replicate, length-append,
  length-replicate, take-append_of_length, drop-append_of_length, drop-add,
}
use lightningstream.Base.Bytes.{Bytes, get_be-put_be_u64, get_be-put_be_u16}
use lightningstream.Base.Result.{ok}
use lightningstream.Header.{Header, parse, header_bytes, put_basic, fixed_part, blocks_needed}

-- A header whose fields fit the bytes that they are written to.
pub record Fits (h : Header) : Type 0 where
  pub timestamp : h.timestamp < 2 ^ 64
  pub txn_id : h.txn_id < 2 ^ 64
  pub version : h.version ≡ 0
  pub flags : h.flags < 256
  pub blocks : blocks_needed h < 2 ^ 16

-- The header with its extra bytes filled up to whole blocks.
abbrev pub padded : Header → Header
padded h = record h {
  num_extra = blocks_needed h;
  extra = h.extra ++ replicate (blocks_needed h * 8 - length h.extra) 0;
}

-- The blocks hold the extra bytes.
extra-le-blocks : (h : Header) → length h.extra ≤ blocks_needed h * 8
unfolding blocks_needed
extra-le-blocks h = ground arith

length-padded : (h : Header) → length (padded h).extra ≡ blocks_needed h * 8
length-padded h = rw (length-append, length-replicate) (omega (arith, extra-le-blocks h))

pub parse_fixed :
    (ts txn flags n : ℕ) (extra app : Bytes)
    → ts < 2 ^ 64
    → txn < 2 ^ 64
    → flags < 256
    → n < 2 ^ 16
    → length extra ≡ n * 8
    → parse (fixed_part ts txn 0 flags n ++ extra ++ app)
      ≡ ok (
        record {
          timestamp = ts;
          txn_id = txn;
          version = 0;
          flags = flags;
          num_extra = n;
          extra = extra;
        },
        app,
      )
unfolding parse fixed_part
parse_fixed ts txn flags n extra app h1 h2 h3 h4 e = ground (
  arith,
  get_be-put_be_u64 ts h1,
  get_be-put_be_u64 txn h2,
  get_be-put_be_u16 n h4,
  drop-add 24 (8 * n) (fixed_part ts txn 0 flags n ++ extra ++ app),
  take-append_of_length (n * 8) extra app e,
  drop-append_of_length (8 * n) extra app,
  length-append extra app,
)

-- For a header of version 0 whose fields fit the bytes that they are written to, `Parse` of what
-- `Bytes` writes, with any application value behind it, returns the header with `Extra` filled up
-- with zeros to whole blocks, and the application value.
pub parse-header_bytes :
    (h : Header) (app : Bytes) → Fits h → parse (header_bytes h ++ app) ≡ ok (padded h, app)
unfolding header_bytes
parse-header_bytes h app fits = rw fits.version (
    parse_fixed h.timestamp h.txn_id h.flags (blocks_needed h) (padded h).extra app fits.timestamp
      fits.txn_id fits.flags fits.blocks (length-padded h))

-- For fields that fit, `Parse` of what `PutBasic` writes, with any application value behind it,
-- returns them and the application value.
pub parse-put_basic :
    (timestamp txn_id flags : ℕ) (app : Bytes)
    → timestamp < 2 ^ 64
    → txn_id < 2 ^ 64
    → flags < 256
    → parse (put_basic timestamp txn_id flags ++ app)
      ≡ ok (
        record {
          timestamp = timestamp;
          txn_id = txn_id;
          version = 0;
          flags = flags;
          num_extra = 0;
          extra = [];
        },
        app,
      )
unfolding put_basic fixed_part
parse-put_basic timestamp txn_id flags app h1 h2 h3 =
    parse_fixed timestamp txn_id flags 0 [] app h1 h2 h3 (omega arith) (omega arith)
