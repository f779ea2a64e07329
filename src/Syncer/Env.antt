-- ===== src/Syncer/Env.antt =====
-- What the syncer calls of LMDB for more than one DBI, the configuration that it reads, and the
-- small functions of syncer/utils.go and lmdbenv.
use lightningstream.Base.{
  ℕ, ◌+◌, ◌-◌, ◌*◌, ◌/◌, ◌%◌, ◌^◌, Bool, true, false, ◌&&◌, ◌||◌, Option, none, some, List, [], ◌∷◌,
  map, ltb, leb, ◌==◌, if◌then◌else◌, length,
}
use lightningstream.Base.Bytes.{Bytes}
use lightningstream.Base.Result.{Result, ok, err, external, ◌>>=◌}
use lightningstream.Lmdb.{Lmdb}
use lightningstream.Lmdb.Entries.{Entry}

-- An LMDB environment, and a transaction on it. A DBI is opened as it is at that point of the
-- transaction; `save` stands for the writes that a strategy has made to an open DBI.
pub record Env (l : Lmdb) : Type 1 where
  pub World : Type 0
  pub Txn : Type 0
  -- `env.Info().LastTxnID`
  pub last_txn_id : World → Result ℕ
  -- the begin and the end of `env.Update`, and of `env.View`
  pub begin : World → Result Txn
  pub commit : Txn → Result World
  pub begin_view : World → Result Txn
  -- `txn.ID`
  pub txn_id : Txn → ℕ
  -- the entries of the root DBI, which `ReadDBI` reads
  pub root : Txn → Result (List Entry)
  -- `txn.OpenDBI(name, 0)` with `txn.Flags`; `none` is MDB_NOTFOUND
  pub find_dbi : Txn → Bytes → Result (Option (ℕ × l.Dbi))
  -- `txn.OpenDBI(name, lmdb.Create|flags)`
  pub create : Txn → Bytes → ℕ → Result Txn
  pub save : Txn → Bytes → l.Dbi → Txn
  -- `utils.IsCanceled(ctx)`
  pub is_canceled : Txn → Bool

-- The configuration that the syncer reads: `OverrideCreateFlags` by the name of the DBI, and the
-- byte order of the machine.
pub record SyncConfig : Type 0 where
  pub instance_name : Bytes
  pub schema_tracks_changes : Bool
  pub dup_sort_hack : Bool
  pub header_extra_padding_block : Bool
  pub override_create_flags : Bytes → Option ℕ
  pub sweeper_enabled : Bool
  pub retention : ℕ
  pub retention_load_cutoff : ℕ
  pub receive_only : Bool
  pub storage_retry_count : ℕ
  pub storage_retry_forever : Bool
  pub little_endian : Bool

-- `SyncDBIPrefix` and `SyncDBIShadowPrefix`: "_sync" and "_sync_shadow_"
abbrev pub sync_dbi_prefix : Bytes
sync_dbi_prefix = 95 ∷ 115 ∷ 121 ∷ 110 ∷ 99 ∷ []

abbrev pub sync_dbi_shadow_prefix : Bytes
sync_dbi_shadow_prefix = 95 ∷ 115 ∷ 121 ∷ 110 ∷ 99 ∷ 95 ∷ 115 ∷ 104 ∷ 97 ∷ 100 ∷ 111 ∷ 119 ∷ 95 ∷ []

-- `AllowedShadowDBIFlagsMask`
abbrev pub allowed_shadow_dbi_flags_mask : ℕ
allowed_shadow_dbi_flags_mask = 8

-- `strings.HasPrefix`
unfoldable pub has_prefix : Bytes → Bytes → Bool
has_prefix s [] = true
has_prefix [] (p ∷ ps) = false
has_prefix (x ∷ xs) (p ∷ ps) = (x == p) && has_prefix xs ps

-- What `[a-zA-Z0-9-]` matches.
abbrev pub is_safe : ℕ → Bool
is_safe b = (leb 97 b && leb b 122) || (leb 65 b && leb b 90) || (leb 48 b && leb b 57) || (b == 45)

-- `instanceID`, with the name of the host
unfoldable pub instance_id : Bytes → Bytes → Bytes
instance_id name hostname =
    map (λ b. if is_safe b then b else 45) (if length name == 0 then hostname else name)

-- `generationID`: "GX"
abbrev pub generation_id : Bytes
generation_id = 71 ∷ 88 ∷ []

-- `RetentionDurationMinusCutoff`; `RetentionDuration` computes with floats and is an argument.
unfoldable pub retention_minus_cutoff : ℕ → ℕ → ℕ
retention_minus_cutoff retention load_cutoff =
    if ltb 0 load_cutoff
    then (let max_buffer = retention * 3 / 4 in
        retention - (if ltb max_buffer load_cutoff then max_buffer else load_cutoff))
    else retention - retention / 100

-- `deletedCutoff`; a time before 1970 wraps around in the 64 bits of a timestamp.
unfoldable pub deleted_cutoff : SyncConfig → ℕ → ℕ
unfolding retention_minus_cutoff
deleted_cutoff conf now =
    if conf.sweeper_enabled
    then (now + 2 ^ 64 - retention_minus_cutoff conf.retention conf.retention_load_cutoff) % 2 ^ 64
    else 0

module _ (l : Lmdb) (env : Env l) where
  -- `txn.OpenDBI(name, 0)` with `txn.Flags`, where a DBI that is missing is an error.
  unfoldable pub open_dbi : env.Txn → Bytes → Result (ℕ × l.Dbi)
  open_dbi t name = do
    found ← env.find_dbi t name
    elim found [ none ↦ err external | some d ↦ ok d ]

  -- `DBIExists`
  unfoldable pub dbi_exists : env.Txn → Bytes → Result Bool
  dbi_exists t name = do
    found ← env.find_dbi t name
    ok (elim found [ none ↦ false | some d ↦ true ])

  -- `ReadDBINames`
  unfoldable pub read_dbi_names : env.Txn → Result (List Bytes)
  read_dbi_names t = do kvs ← env.root t; ok (map (λ kv. kv.0) kvs)
