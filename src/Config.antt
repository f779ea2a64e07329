-- ===== src/Config.antt =====
-- config/config.go and config/logger/config.go: the configuration with its defaults and its checks.
-- A Go integer or duration (in nanoseconds) of 64 bits is a number below 2^64, a negative one at
-- least 2^63. Reading and writing YAML, `RetentionDays`, which is a float, and the settings of the
-- command line are not modelled.
pub mod Logger
pub mod Checks
pub mod Secrets
mod Tests
use lightningstream.Base.{
  ℕ, ◌+◌, ◌*◌, ◌%◌, ◌^◌, Bool, true, false, not, ◌&&◌, ◌||◌, ltb, leb, ◌==◌, if◌then◌else◌, Option,
  none, some, List, [], ◌∷◌, ◌++◌, length, is_empty,
}
use lightningstream.Base.Bytes.{Bytes, equal_bytes}
use lightningstream.Base.Maps.{find, assign}
use lightningstream.Health.{HealthConfig}
use lightningstream.Startup.{StartConfig}
use Logger.{LogConfig, default_log, log_problem}

abbrev pub millisecond : ℕ
millisecond = 10 ^ 6

abbrev pub second : ℕ
second = 10 ^ 9

abbrev pub minute : ℕ
minute = 60 * second

abbrev pub hour : ℕ
hour = 60 * minute

-- `a < b` on signed integers.
abbrev pub signed_ltb : ℕ → ℕ → Bool
signed_ltb a b = ltb ((a + 2 ^ 63) % 2 ^ 64) ((b + 2 ^ 63) % 2 ^ 64)

abbrev pub default_lmdb_log_stats_interval : ℕ
default_lmdb_log_stats_interval = 30 * minute

abbrev pub default_lmdb_poll_interval : ℕ
default_lmdb_poll_interval = second

abbrev pub default_storage_poll_interval : ℕ
default_storage_poll_interval = second

abbrev pub default_storage_retry_interval : ℕ
default_storage_retry_interval = 5 * second

abbrev pub default_storage_retry_count : ℕ
default_storage_retry_count = 100

abbrev pub default_storage_force_snapshot_interval : ℕ
default_storage_force_snapshot_interval = 4 * hour

abbrev pub default_memory_downloaded_snapshots : ℕ
default_memory_downloaded_snapshots = 2

abbrev pub default_memory_decompressed_snapshots : ℕ
default_memory_decompressed_snapshots = 3

-- `DefaultHealthStorageList`, `DefaultHealthStorageLoad` and `DefaultHealthStorageStore`, which are
-- equal.
abbrev pub default_health_storage : HealthConfig
default_health_storage = record {
  evaluation_interval = 5 * second;
  warn_duration = minute;
  error_duration = 5 * minute;
}

abbrev pub default_health_start : StartConfig
default_health_start = record {
  report_healthz = false;
  report_metadata = true;
  warn_duration = minute;
  error_duration = 5 * minute;
}

-- `lmdbenv.Options`, the fields that are checked.
pub record LmdbOptions : Type 0 where
  pub dir_mask : ℕ
  pub file_mask : ℕ

-- `LMDB`
pub record LmdbConfig : Type 0 where
  pub path : Bytes
  pub options : LmdbOptions
  pub dbi_options : List (Bytes × Option ℕ)
  pub schema_tracks_changes : Bool
  pub dup_sort_hack : Bool
  pub header_extra_padding_block : Bool

-- `Sweeper` without `RetentionDays`.
pub record SweeperConfig : Type 0 where
  pub enabled : Bool
  pub interval : ℕ
  pub first_interval : ℕ
  pub lock_duration : ℕ
  pub release_duration : ℕ
  pub retention_load_cutoff_duration : ℕ

-- A value of the options of a storage backend: a text, or anything else.
pub data OptionValue : Type 0 where
  text : Bytes → OptionValue
  other : OptionValue

-- `Cleanup`
pub record CleanupConfig : Type 0 where
  pub enabled : Bool
  pub interval : ℕ
  pub must_keep_interval : ℕ
  pub remove_old_instances_interval : ℕ

-- `Storage` without the deprecated `RootPath`.
pub record StorageConfig : Type 0 where
  pub type_name : Bytes
  pub options : List (Bytes × OptionValue)
  pub cleanup : CleanupConfig

-- `Health`
pub record HealthConfigs : Type 0 where
  pub storage_list : HealthConfig
  pub storage_load : HealthConfig
  pub storage_store : HealthConfig
  pub start : StartConfig

-- `Config`
pub record Config : Type 0 where
  pub instance_name : Bytes
  pub lmdbs : List (Bytes × LmdbConfig)
  pub sweeper : SweeperConfig
  pub storage : StorageConfig
  pub http_address : Bytes
  pub log : LogConfig
  pub health : HealthConfigs
  pub lmdb_poll_interval : ℕ
  pub lmdb_log_stats_interval : ℕ
  pub storage_poll_interval : ℕ
  pub storage_retry_interval : ℕ
  pub storage_retry_count : ℕ
  pub storage_retry_forever : Bool
  pub storage_force_snapshot_interval : ℕ
  pub memory_downloaded_snapshots : ℕ
  pub memory_decompressed_snapshots : ℕ
  pub lmdb_scrape_smaps : Bool
  pub only_once : Bool

-- `Default`
unfoldable pub default : Config
default = record {
  instance_name = [];
  lmdbs = [];
  sweeper = record {
    enabled = false;
    interval = 6 * hour;
    first_interval = 10 * minute;
    lock_duration = 50 * millisecond;
    release_duration = 50 * millisecond;
    retention_load_cutoff_duration = 0;
  };
  storage = record {
    type_name = [];
    options = [];
    cleanup = record {
      enabled = false;
      interval = 5 * minute;
      must_keep_interval = 10 * minute;
      remove_old_instances_interval = 7 * 24 * hour;
    };
  };
  http_address = [];
  log = default_log;
  health = record {
    storage_list = default_health_storage;
    storage_load = default_health_storage;
    storage_store = default_health_storage;
    start = default_health_start;
  };
  lmdb_poll_interval = default_lmdb_poll_interval;
  lmdb_log_stats_interval = default_lmdb_log_stats_interval;
  storage_poll_interval = default_storage_poll_interval;
  storage_retry_interval = default_storage_retry_interval;
  storage_retry_count = default_storage_retry_count;
  storage_retry_forever = false;
  storage_force_snapshot_interval = default_storage_force_snapshot_interval;
  memory_downloaded_snapshots = default_memory_downloaded_snapshots;
  memory_decompressed_snapshots = default_memory_decompressed_snapshots;
  lmdb_scrape_smaps = true;
  only_once = false;
}

-- The errors of `Check`, each by the setting that it names.
pub data Problem : Type 0 where
  bad_log no_lmdbs no_path bad_file_mask bad_dir_mask hack_with_tracking bad_address : Problem
  bad_lmdb_poll bad_storage_poll bad_retry_interval bad_force_interval bad_retry_count : Problem
  bad_downloaded bad_decompressed : Problem

-- The checks of one LMDB; `none` is nil.
unfoldable pub lmdb_problem : LmdbConfig → Option Problem
lmdb_problem l =
    if is_empty l.path
    then some no_path
    else if ltb 511 l.options.file_mask
    then some bad_file_mask
    else if ltb 511 l.options.dir_mask
    then some bad_dir_mask
    else if l.schema_tracks_changes && l.dup_sort_hack
    then some hack_with_tracking
    else none

-- The loop over the LMDBs, in the order in which the range over the map takes them.
unfoldable pub lmdbs_problem : List (Bytes × LmdbConfig) → Option Problem
lmdbs_problem [] = none
lmdbs_problem ((name, l) ∷ ls) = elim (lmdb_problem l) [ some e ↦ some e | none ↦ lmdbs_problem ls ]

-- The checks of the numbers, behind those of the LMDBs and the address.
unfoldable pub number_problem : Config → Option Problem
number_problem c =
    if signed_ltb c.lmdb_poll_interval (100 * millisecond)
    then some bad_lmdb_poll
    else if signed_ltb c.storage_poll_interval (100 * millisecond)
    then some bad_storage_poll
    else if signed_ltb c.storage_retry_interval (100 * millisecond)
    then some bad_retry_interval
    else if not (c.storage_force_snapshot_interval == 0)
        && signed_ltb c.storage_force_snapshot_interval minute
    then some bad_force_interval
    else if signed_ltb c.storage_retry_count 1
    then some bad_retry_count
    else if signed_ltb c.memory_downloaded_snapshots 1
    then some bad_downloaded
    else if signed_ltb c.memory_decompressed_snapshots 1
    then some bad_decompressed
    else none

-- `logrus.ParseLevel` and `net.SplitHostPort`, as whether they succeed.
pub record Parsers : Type 0 where
  pub is_level : Bytes → Bool
  pub is_host_port : Bytes → Bool

-- `Config.Check`
unfoldable pub check : Parsers → Config → Option Problem
unfolding log_problem lmdbs_problem number_problem
check ps c =
    if log_problem ps.is_level c.log
    then some bad_log
    else if length c.lmdbs == 0
    then some no_lmdbs
    else elim (lmdbs_problem c.lmdbs) [
      | some e ↦ some e
      | none ↦
          if not (is_empty c.http_address) && not (ps.is_host_port c.http_address)
          then some bad_address
          else number_problem c
    ]

-- "secret_key", "secret" and "password", and the stars.
abbrev pub secret_keys : List Bytes
secret_keys =
    (115 ∷ 101 ∷ 99 ∷ 114 ∷ 101 ∷ 116 ∷ 95 ∷ 107 ∷ 101 ∷ 121 ∷ [])
    ∷ (115 ∷ 101 ∷ 99 ∷ 114 ∷ 101 ∷ 116 ∷ [])
    ∷ (112 ∷ 97 ∷ 115 ∷ 115 ∷ 119 ∷ 111 ∷ 114 ∷ 100 ∷ [])
    ∷ []

abbrev pub stars : Bytes
stars = 42 ∷ 42 ∷ 42 ∷ []

unfoldable pub mask_option : List (Bytes × OptionValue) → Bytes → List (Bytes × OptionValue)
mask_option opt key = elim (find key opt) [
  | some (text v) ↦ if is_empty v then opt else assign key (text stars) opt
  | some other ↦ opt
  | none ↦ opt
]

unfoldable pub mask_options : List (Bytes × OptionValue) → List Bytes → List (Bytes × OptionValue)
unfolding mask_option
mask_options opt [] = opt
mask_options opt (key ∷ keys) = mask_options (mask_option opt key) keys

-- `String` up to the YAML: the configuration with its passwords masked.
unfoldable pub masked_config : Config → Config
unfolding mask_options
masked_config c = record c {
  storage = record (c.storage) { options = mask_options c.storage.options secret_keys };
}
