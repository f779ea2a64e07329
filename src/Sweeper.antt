-- ===== src/Sweeper.antt =====
-- syncer/sweeper/sweeper.go and lmdbenv/limitscanner/scanner.go: the sweep of one DBI, which removes
-- the entries that have been marked as deleted for longer than the retention, in transactions of a
-- limited duration.
pub mod Slices
pub mod Removal
pub mod Sweeps
mod Tests
use lightningstream.Base.{
  ℕ, zero, suc, ◌+◌, ◌-◌, ◌%◌, ◌^◌, Bool, true, false, not, ◌&&◌, ◌||◌, Option, none, some, ltb,
  leb, ◌==◌, if◌then◌else◌,
}
use lightningstream.Base.Bytes.{Bytes, equal_bytes}
use lightningstream.Base.Result.{Result, ok, err, out_of_fuel, canceled}
use lightningstream.Header.{parse, is_deleted}
use lightningstream.Lmdb.{Lmdb}
use lightningstream.Lmdb.Entries.{Entry}
use lightningstream.Syncer.Env.{has_prefix, sync_dbi_prefix}

-- `stats`, without the time taken
pub record SweepStats : Type 0 where
  pub n_entries : ℕ
  pub n_deleted : ℕ
  pub n_cleaned : ℕ
  pub n_txn : ℕ

abbrev pub no_stats : SweepStats
no_stats = record { n_entries = 0; n_deleted = 0; n_cleaned = 0; n_txn = 0 }

-- `LimitDurationCheckEveryDefault`
abbrev pub limit_duration_check_every : ℕ
limit_duration_check_every = 1000

-- Which DBIs are swept.
unfoldable pub is_swept : Bool → Bytes → Bool
is_swept schema_tracks_changes name =
    not (not schema_tracks_changes && not (has_prefix name sync_dbi_prefix))

-- `cutoffTS`; a time before 1970 wraps around in the 64 bits of a timestamp.
unfoldable pub sweep_cutoff : ℕ → ℕ → ℕ
sweep_cutoff now retention = (now + 2 ^ 64 - retention) % 2 ^ 64

module _ (l : Lmdb) where
  -- The start of a scan behind a record: `SetRange`, and a step if the record is still there.
  unfoldable pub scan_from : l.Dbi → Entry → Option Entry
  unfolding equal_bytes
  scan_from d (k, v) = elim (l.get d k) [
    | none ↦ l.cursor_get d (some k)
    | some w ↦ if equal_bytes w v then l.cursor_get d (some k) else some (k, w)
  ]

  -- The record that `Scan` moves to, behind the last one of the scan before or of this one.
  unfoldable pub scan_next : ℕ → Option Entry → l.Dbi → Option Entry
  unfolding scan_from
  scan_next count none d = l.cursor_get d none
  scan_next count (some e) d = if count == 0 then scan_from d e else l.cursor_get d (some e.0)

  -- The limits of `Scan`; `late` says whether the deadline has passed at a number of records.
  unfoldable pub limit_reached : ℕ → (ℕ → Bool) → ℕ → Bool
  limit_reached limit_records late count =
      (ltb 0 limit_records && leb limit_records count)
      || (ltb 0 count && (count % limit_duration_check_every == 0) && late count)

  -- What is done with one record.
  unfoldable pub sweep_entry : ℕ → Entry → l.Dbi → SweepStats → SweepStats × Result l.Dbi
  sweep_entry cutoff (k, v) d st = elim (parse v) [
    | err e ↦ (st, err e)
    | ok (h, app_val) ↦
        if not (is_deleted h.flags)
        then (record st { n_entries = st.n_entries + 1 }, ok d)
        else if leb cutoff h.timestamp
        then (record st { n_entries = st.n_entries + 1; n_deleted = st.n_deleted + 1 }, ok d)
        else (record st { n_cleaned = st.n_cleaned + 1 }, l.del d k)
  ]

  -- The scan goes on unless a record has caused an error.
  abbrev pub unless_failed :
      (l.Dbi → SweepStats → SweepStats × Result (l.Dbi × Option Entry × Bool))
      → SweepStats × Result l.Dbi
      → SweepStats × Result (l.Dbi × Option Entry × Bool)
  unless_failed further (st, err x) = (st, err x)
  unless_failed further (st, ok d) = further d st

  -- The scan of one transaction, with the number of records scanned and the last of them: what is
  -- left, the cursor for the next scan, and whether the limit was reached.
  unfoldable pub sweep_slice :
      ℕ
      → (ℕ → Bool)
      → ℕ
      → ℕ
      → Option Entry
      → l.Dbi
      → SweepStats
      → SweepStats × Result (l.Dbi × Option Entry × Bool)
  unfolding scan_next limit_reached sweep_entry
  sweep_slice cutoff late zero count last d st = (st, err out_of_fuel)
  sweep_slice cutoff late (suc n) count last d st =
      if limit_reached 0 late count
      then (st, ok (d, last, true))
      else elim (scan_next count last d) [
        | none ↦ (st, ok (d, last, false))
        | some e ↦
            unless_failed (sweep_slice cutoff late n (count + 1) (some e))
              (sweep_entry cutoff e d st)
      ]

  -- What follows a transaction: a pause and the next one, or the end. `limited` and `last` are the
  -- variables `limitReached` and `last`, which a transaction that fails leaves as they were.
  abbrev pub after_slice :
      (Option Entry → l.Dbi → SweepStats → Result (l.Dbi × SweepStats))
      → Bool
      → Bool
      → Option Entry
      → l.Dbi
      → SweepStats × Result (l.Dbi × Option Entry × Bool)
      → Result (l.Dbi × SweepStats)
  after_slice again is_canceled limited last d (st, err e) =
      if limited then (if is_canceled then err canceled else again last d st) else err e
  after_slice again is_canceled limited last d (st, ok (d', last', limited')) =
      if limited' then (if is_canceled then err canceled else again last' d' st) else ok (d', st)

  -- The loop over the transactions for one DBI. The fuel bounds the transactions; `late` and
  -- `is_canceled` may depend on what is left of it.
  unfoldable pub sweep_dbi :
      ℕ
      → (ℕ → ℕ → Bool)
      → (ℕ → Bool)
      → ℕ
      → ℕ
      → Bool
      → Option Entry
      → l.Dbi
      → SweepStats
      → Result (l.Dbi × SweepStats)
  unfolding sweep_slice
  sweep_dbi cutoff late is_canceled records zero limited last d st = err out_of_fuel
  sweep_dbi cutoff late is_canceled records (suc n) limited last d st =
      after_slice (sweep_dbi cutoff late is_canceled records n true) (is_canceled n) limited last d
        (sweep_slice cutoff (late n) records 0 last d (record st { n_txn = st.n_txn + 1 }))
