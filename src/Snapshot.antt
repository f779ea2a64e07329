-- ===== src/Snapshot.antt =====
-- The data of a snapshot: snapshot/kv.go, snapshot/flags.go and snapshot/formatversion.go.
pub mod Name
pub mod Dbi
pub mod Transform
pub mod Wire
pub mod Encoding
pub mod Message
pub mod Groups
pub mod Chain
pub mod Decoder
pub mod Meta
pub mod Root
pub mod GroupDecoder
use lightningstream.Base.{ℕ, ◌%◌}
use lightningstream.Base.Bytes.{Bytes}
use lightningstream.Header.{masked}

-- One entry of a DBI.
pub record Kv : Type 0 where
  pub key : Bytes
  pub value : Bytes
  pub timestamp_nano : ℕ
  pub flags : ℕ

-- `KV.MaskedFlags`: the conversion to `header.Flags` keeps 8 bits, the mask the lowest.
unfoldable pub masked_flags : Kv → ℕ
unfolding masked
masked_flags kv = masked (kv.flags % 256)

abbrev pub current_format_version : ℕ
current_format_version = 3

abbrev pub compat_format_version : ℕ
compat_format_version = 1
