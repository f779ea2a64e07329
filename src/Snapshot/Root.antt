-- ===== src/Snapshot/Root.antt =====
-- snapshot/snapshot.go: the root of a snapshot, as it is written to and read from a file, and
-- snapshot/load.go around it. The compression (github.com/klauspost/compress/gzip) is not part of
-- the repository. The temporary buffer of `WriteTo`, which is large enough for any tag with its
-- number, and the statistics of `DumpData` are not modelled.
pub mod Content
pub mod Writing
pub mod Reading
pub mod RoundTrip
mod Tests
use lightningstream.Base.{
  ℕ, suc, ◌+◌, ◌*◌, ◌^◌, Bool, ltb, ◌==◌, if◌then◌else◌, Option, none, some, length, List, [], ◌∷◌,
  ◌++◌,
}
use lightningstream.Base.Bytes.{Bytes}
use lightningstream.Base.Result.{Result, ok, err, Error, ◌>>=◌}
use lightningstream.Snapshot.Wire.{Csproto, encode_tag, wire_length_delimited}
use lightningstream.Snapshot.Encoding.{varint_field}
use lightningstream.Snapshot.Decoder.{Decoder, get_uint32, get_bytes, each_field}
use lightningstream.Snapshot.Message.{DbiMessage, marshal, new_dbi_from_data}
use lightningstream.Snapshot.Meta.{Meta, no_meta, marshal_meta, unmarshal_meta}

abbrev pub field_snapshot_format_version : ℕ
field_snapshot_format_version = 1

abbrev pub field_snapshot_meta : ℕ
field_snapshot_meta = 2

abbrev pub field_snapshot_dbi : ℕ
field_snapshot_dbi = 3

abbrev pub field_snapshot_compat_version : ℕ
field_snapshot_compat_version = 4

-- 100 GB
abbrev pub max_field_length : ℕ
max_field_length = 100 * 2 ^ 30

-- `Snapshot`
pub record Root : Type 0 where
  pub format_version : ℕ
  pub compat_version : ℕ
  pub meta : Meta
  pub databases : List DbiMessage

abbrev pub no_snapshot : Root
no_snapshot = record { format_version = 0; compat_version = 0; meta = no_meta; databases = [] }

-- An `io.Writer`: `Write` returns the number of bytes written, and an error or none.
pub record Writer : Type 1 where
  pub State : Type 0
  pub write : State → Bytes → State × ℕ × Option Error

-- `nWritten` and `err` of `WriteTo`, with the writer.
pub record Out (w : Writer) : Type 0 where
  pub writer : w.State
  pub n_written : ℕ
  pub error : Option Error

module _ (w : Writer) where
  -- `w.Write(b)`, with the return after an error.
  unfoldable pub write_bytes : Out w → Bytes → Out w
  write_bytes out b = elim out.error [
    | some e ↦ out
    | none ↦
        (let (s, n, e) = w.write out.writer b in
          record { writer = s; n_written = out.n_written + n; error = e })
  ]

  module _ (p : Csproto) where
    -- The header of a field with its tag and length, and then its bytes.
    unfoldable pub write_message : Out w → ℕ → Bytes → Out w
    unfolding write_bytes
    write_message out tag b =
        write_bytes
          (write_bytes out (encode_tag p tag wire_length_delimited ++ p.encode_varint (length b))) b

    -- "Add DBIs"; a DBI is marshalled when it is its turn, which changes it.
    unfoldable pub write_dbis : Out w → List DbiMessage → Result (Out w × List DbiMessage)
    unfolding write_message marshal
    write_dbis out [] = ok (out, [])
    write_dbis out (d ∷ ds) = elim out.error [
      | some e ↦ ok (out, d ∷ ds)
      | none ↦ do
        (d', b) ← marshal p d
        (out', ds') ←
            write_dbis (if length b == 0 then out else write_message out field_snapshot_dbi b) ds
        ok (out', d' ∷ ds')
    ]

    -- `WriteTo`
    unfoldable pub write_to : w.State → Root → Result (Out w × Root)
    unfolding write_dbis
    write_to s r = do
      let out : Out w = record { writer = s; n_written = 0; error = none }
      let top =
          (if ltb 0 r.format_version
            then varint_field p field_snapshot_format_version r.format_version
            else [])
          ++ (if ltb 0 r.compat_version
              then varint_field p field_snapshot_compat_version r.compat_version
              else [])
      let out1 = write_bytes out top
      let b = marshal_meta p r.meta
      let out2 = if ltb 0 (length b) then write_message out1 field_snapshot_meta b else out1
      (out3, ds) ← write_dbis out2 r.databases
      ok (out3, record r { databases = ds })

module _ (p : Csproto) (c : Decoder) where
  -- One field of `Snapshot.Unmarshal`, behind its tag.
  unfoldable pub root_field : ℕ → ℕ → Bytes → Root → Result (Bytes × Root)
  unfolding get_uint32 get_bytes unmarshal_meta new_dbi_from_data
  root_field tag wire_type d r =
      if tag == field_snapshot_format_version
      then (do (v, d') ← get_uint32 c wire_type d; ok (d', record r { format_version = v }))
      else if tag == field_snapshot_compat_version
      then (do (v, d') ← get_uint32 c wire_type d; ok (d', record r { compat_version = v }))
      else if tag == field_snapshot_meta
      then (do
        (msg, d') ← get_bytes c max_field_length wire_type d
        m ← unmarshal_meta c r.meta msg
        ok (d', record r { meta = m }))
      else if tag == field_snapshot_dbi
      then (do
        (msg, d') ← get_bytes c max_field_length wire_type d
        dbi ← new_dbi_from_data p msg
        ok (d', record r { databases = r.databases ++ (dbi ∷ []) }))
      else (do d' ← c.skip tag wire_type d; ok (d', r))

  -- `Snapshot.Unmarshal`; every tag has a byte.
  unfoldable pub unmarshal_root : Root → Bytes → Result Root
  unfolding root_field each_field
  unmarshal_root r buf = each_field c root_field (suc (length buf)) buf r

-- A `bytes.Buffer` as a writer.
abbrev pub buffer : Writer
buffer = record { State = Bytes; write = λ s b. (s ++ b, length b, none) }

-- gzip: what a writer of it has made of all bytes after `Close`, and what a reader of it finds.
pub record Gzip : Type 0 where
  pub compress : Bytes → Result Bytes
  pub decompress : Bytes → Result Bytes

module _ (p : Csproto) (c : Decoder) (g : Gzip) where
  -- The sizes of the DBIs; `Size` flushes their fields.
  unfoldable pub size_all : List DbiMessage → Result (List DbiMessage)
  unfolding marshal
  size_all [] = ok []
  size_all (d ∷ ds) = do (d', b) ← marshal p d; ds' ← size_all ds; ok (d' ∷ ds')

  -- `DumpData`
  unfoldable pub dump_data : Root → Result (Bytes × Root)
  unfolding size_all write_to
  dump_data r = do
    ds ← size_all r.databases
    (out, r') ← write_to buffer p [] (record r { databases = ds })
    elim out.error [ some e ↦ err e | none ↦ do b ← g.compress out.writer; ok (b, r') ]

  -- `LoadData`
  unfoldable pub load_data : Bytes → Result Root
  unfolding unmarshal_root
  load_data b = do plain ← g.decompress b; unmarshal_root p c no_snapshot plain
