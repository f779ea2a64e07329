-- ===== src/Config/Tests.antt =====
-- A configuration with one LMDB, and the settings of the logs.
use lightningstream.Base.{
  ◌<◌, ◌≡◌, ◌↔◌, refl, arith, true, false, not, ◌&&◌, if◌then◌else◌, none, some, [], ◌∷◌, length,
  is_empty, All,
}
use lightningstream.Base.Bytes.{Bytes, equal_bytes, compare_bytes}
use lightningstream.Base.Maps.{find, assign, contains, any}
use lightningstream.Config.Logger.{default_log, log_problem, merge_log, human, short}
use lightningstream.Config.Checks.{LogAllowed, IsUsable, NumbersAllowed, HasWords, check_iff}
use lightningstream.Config.Secrets.{mask_value, secret_names, find-masked_config}
use lightningstream.Config.{
  Config, LmdbConfig, Parsers, no_lmdbs, text, lmdb_problem, lmdbs_problem, number_problem, check,
  default, mask_option, mask_options, masked_config, stars,
}

abbrev usable : LmdbConfig
usable = record {
  path = 47 ∷ 100 ∷ [];
  options = record { dir_mask = 509; file_mask = 436 };
  dbi_options = [];
  schema_tracks_changes = true;
  dup_sort_hack = false;
  header_extra_padding_block = false;
}

abbrev one_lmdb : Config
one_lmdb = record default { lmdbs = (109 ∷ [], usable) ∷ [] }

abbrev all_valid : Parsers
all_valid = record { is_level = λ s. true; is_host_port = λ s. true }

one_lmdb-HasWords : HasWords one_lmdb
unfolding default
one_lmdb-HasWords = record {
  lmdb_poll_interval = omega arith;
  storage_poll_interval = omega arith;
  storage_retry_interval = omega arith;
  storage_force_snapshot_interval = omega arith;
  storage_retry_count = omega arith;
  memory_downloaded_snapshots = omega arith;
  memory_decompressed_snapshots = omega arith;
}

one_lmdb_accepted : check all_valid one_lmdb ≡ none
unfolding check default any log_problem lmdbs_problem lmdb_problem number_problem contains
    equal_bytes compare_bytes
one_lmdb_accepted = refl

default_has_no_lmdbs : check all_valid default ≡ some no_lmdbs
unfolding check default any log_problem contains equal_bytes compare_bytes
default_has_no_lmdbs = refl

check_iff_example : (check all_valid one_lmdb ≡ none) ↔ (
    LogAllowed all_valid one_lmdb.log
    × ((0 < length one_lmdb.lmdbs)
        × (All (λ e. IsUsable e.1) one_lmdb.lmdbs
            × (((not (is_empty one_lmdb.http_address)
                    && not (all_valid.is_host_port one_lmdb.http_address))
                  ≡ false)
                × NumbersAllowed one_lmdb))))
check_iff_example = check_iff all_valid one_lmdb one_lmdb-HasWords

merges_level :
    merge_log default_log (record { level = 120 ∷ []; format = []; timestamp = [] })
    ≡ record { level = 120 ∷ []; format = human; timestamp = short }
unfolding merge_log
merges_level = refl

-- "secret"
abbrev secret : Bytes
secret = 115 ∷ 101 ∷ 99 ∷ 114 ∷ 101 ∷ 116 ∷ []

abbrev with_secret : Config
with_secret = record default {
  storage = record (default.storage) {
    options = (98 ∷ [], text (120 ∷ [])) ∷ (secret, text (115 ∷ [])) ∷ [];
  };
}

shows_stars :
    (masked_config with_secret).storage.options
    ≡ (98 ∷ [], text (120 ∷ [])) ∷ (secret, text stars) ∷ []
unfolding masked_config mask_options mask_option find assign equal_bytes compare_bytes default
shows_stars = refl

find-masked_config_example : find secret (masked_config with_secret).storage.options ≡ (
    if contains secret secret_names
    then mask_value (find secret with_secret.storage.options)
    else find secret with_secret.storage.options)
find-masked_config_example = find-masked_config with_secret secret
