-- ===== src/Snapshot/Root/Tests.antt =====
-- Runs of snapshot/snapshot.go and snapshot/meta.go.
use lightningstream.Base.{
  ℕ, ◌≡◌, refl, arith, length, [], ◌∷◌, ◌++◌, Option, none, some, if◌then◌else◌, ltb,
}
use lightningstream.Base.Bytes.{Bytes}
use lightningstream.Base.Result.{ok, Error, ◌>>=◌, external}
use lightningstream.Snapshot.{Kv}
use lightningstream.Snapshot.Groups.{groups, groups-IsVarint, encode_groups}
use lightningstream.Snapshot.GroupDecoder.{group_decoder, group_decoder-IsDecoder}
use lightningstream.Snapshot.Encoding.{msg_size, kv_bytes}
use lightningstream.Snapshot.Dbi.{Dbi}
use lightningstream.Snapshot.Message.RoundTrip.{DbiFits, marshal-of_data, to_message, of_data}
use lightningstream.Snapshot.Message.{marshal}
use lightningstream.Snapshot.Meta.{Meta, marshal_meta}
use lightningstream.Snapshot.Meta.RoundTrip.{MetaFits}
use lightningstream.Snapshot.Root.{Gzip, Writer, Out, write_bytes}
use lightningstream.Snapshot.Root.Content.{Content, save, restore, all_written}
use lightningstream.Snapshot.Root.Reading.{ContentFits}
use lightningstream.Snapshot.Root.RoundTrip.{save-restore, IsGzip}
use lightningstream.Snapshot.Message.Listing.{written}

abbrev first : Kv
first = record { key = 7 ∷ 8 ∷ []; value = 9 ∷ []; timestamp_nano = 300; flags = 0 }

abbrev last : Kv
last = record { key = 8 ∷ []; value = []; timestamp_nano = 400; flags = 1 }

abbrev records : Dbi
records = record {
  name = 65 ∷ 66 ∷ [];
  flags = 8;
  transform = 67 ∷ [];
  entries = first ∷ last ∷ [];
}

abbrev others : Dbi
others = record { name = 68 ∷ []; flags = 0; transform = []; entries = [] }

abbrev origin : Meta
origin = record {
  generation_id = 1 ∷ [];
  instance_id = 2 ∷ 3 ∷ [];
  hostname = [];
  lmdb_txn_id = 700;
  timestamp_nano = 800;
  database_name = 4 ∷ [];
  from_lmdb_txn_id = 0;
}

abbrev content : Content
content = record {
  format_version = 3;
  compat_version = 1;
  meta = origin;
  databases = records ∷ others ∷ [];
}

abbrev plain : Gzip
plain = record { compress = λ b. ok b; decompress = λ b. ok b }

plain-IsGzip : IsGzip groups groups-IsVarint group_decoder group_decoder-IsDecoder plain
plain-IsGzip b = (b, refl, refl)

records-DbiFits : DbiFits groups groups-IsVarint records
unfolding msg_size kv_bytes encode_groups
records-DbiFits = record {
  sizes = omega arith;
  flags = omega arith;
  entries = (
    record {
      key = omega arith;
      value = omega arith;
      timestamp_nano = omega arith;
      flags = omega arith;
    },
    (
      record {
        key = omega arith;
        value = omega arith;
        timestamp_nano = omega arith;
        flags = omega arith;
      },
      tt,
    ),
  );
  data_size = omega arith;
}

others-DbiFits : DbiFits groups groups-IsVarint others
unfolding msg_size kv_bytes encode_groups
others-DbiFits = record {
  sizes = omega arith;
  flags = omega arith;
  entries = tt;
  data_size = omega arith;
}

origin-MetaFits : MetaFits groups groups-IsVarint group_decoder group_decoder-IsDecoder origin
origin-MetaFits = record {
  generation_id = omega arith;
  instance_id = omega arith;
  hostname = omega arith;
  lmdb_txn_id = omega arith;
  timestamp_nano = omega arith;
  database_name = omega arith;
  from_lmdb_txn_id = omega arith;
}

content-ContentFits :
    ContentFits groups groups-IsVarint group_decoder group_decoder-IsDecoder content
unfolding msg_size kv_bytes encode_groups marshal_meta
content-ContentFits = record {
  format_version = omega arith;
  compat_version = omega arith;
  meta = origin-MetaFits;
  meta_size = omega arith;
  databases =
      (records-DbiFits, omega arith, omega arith, (others-DbiFits, omega arith, omega arith, tt));
}

save-restore_example :
    (save groups group_decoder plain content >>= restore groups group_decoder plain)
    ≡ ok (record content { databases = all_written groups content.databases })
save-restore_example =
    save-restore groups groups-IsVarint group_decoder group_decoder-IsDecoder plain content
      plain-IsGzip content-ContentFits

marshal-of_data_example :
    (to_message groups records >>= marshal groups >>= λ (m, b). of_data groups b)
    ≡ ok (record records { entries = written groups records.entries })
marshal-of_data_example = marshal-of_data groups groups-IsVarint records records-DbiFits

written_databases : all_written groups content.databases ≡ content.databases
unfolding msg_size encode_groups
written_databases = refl

-- A writer that fails after 2 bytes: the error ends the rest of `WriteTo`.
abbrev failing : Writer
failing = record {
  State = Bytes;
  write =
      λ s b. if ltb 2 (length (s ++ b)) then (s, 0, some external) else (s ++ b, length b, none);
}

abbrev started : Out failing
started = record { writer = []; n_written = 0; error = none }

abbrev n_written_of : Out failing → ℕ × Option Error
n_written_of out = (out.n_written, out.error)

write_bytes_fails :
    n_written_of (
      write_bytes failing
        (write_bytes failing (write_bytes failing started (1 ∷ [])) (1 ∷ 2 ∷ []))
        (3 ∷ []))
    ≡ (1, some external)
unfolding write_bytes
write_bytes_fails = refl
