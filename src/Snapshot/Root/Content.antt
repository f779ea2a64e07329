-- ===== src/Snapshot/Root/Content.antt =====
-- A snapshot as a value, how it is saved to a file of snapshot/load.go, and what a client restores
-- from the file.
use lightningstream.Base.{ℕ, List, [], ◌∷◌}
use lightningstream.Base.Bytes.{Bytes}
use lightningstream.Base.Result.{Result, ok, ◌>>=◌}
use lightningstream.Snapshot.Wire.{Csproto}
use lightningstream.Snapshot.Decoder.{Decoder}
use lightningstream.Snapshot.Dbi.{Dbi}
use lightningstream.Snapshot.Message.{DbiMessage}
use lightningstream.Snapshot.Message.Listing.{written}
use lightningstream.Snapshot.Message.RoundTrip.{to_message, of_message}
use lightningstream.Snapshot.Meta.{Meta}
use lightningstream.Snapshot.Root.{Gzip, dump_data, load_data}

-- What a snapshot says.
pub record Content : Type 0 where
  pub format_version : ℕ
  pub compat_version : ℕ
  pub meta : Meta
  pub databases : List Dbi

module _ (p : Csproto) where
  abbrev pub to_messages : List Dbi → Result (List DbiMessage)
  to_messages [] = ok []
  to_messages (d ∷ ds) = to_message p d >>= λ m. to_messages ds >>= λ ms. ok (m ∷ ms)

  abbrev pub of_messages : List DbiMessage → Result (List Dbi)
  of_messages [] = ok []
  of_messages (m ∷ ms) = of_message p m >>= λ d. of_messages ms >>= λ ds. ok (d ∷ ds)

  -- The entries that are written.
  abbrev pub all_written : List Dbi → List Dbi
  all_written [] = []
  all_written (d ∷ ds) = record d { entries = written p d.entries } ∷ all_written ds

module _ (p : Csproto) (c : Decoder) (g : Gzip) where
  -- The DBIs are written as messages, and the snapshot with them to a file.
  unfoldable pub save : Content → Result Bytes
  save s = do
    ms ← to_messages p s.databases
    (b, r) ← dump_data p c g (record {
      format_version = s.format_version;
      compat_version = s.compat_version;
      meta = s.meta;
      databases = ms;
    })
    ok b

  -- What a client finds in the file.
  unfoldable pub restore : Bytes → Result Content
  restore b = do
    r ← load_data p c g b
    ds ← of_messages p r.databases
    ok (record {
      format_version = r.format_version;
      compat_version = r.compat_version;
      meta = r.meta;
      databases = ds;
    })
