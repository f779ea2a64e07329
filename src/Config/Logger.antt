-- ===== src/Config/Logger.antt =====
-- config/logger/config.go: the configuration of the logs.
use lightningstream.Base.{Bool, true, not, ◌&&◌, if◌then◌else◌, List, [], ◌∷◌, is_empty}
use lightningstream.Base.Bytes.{Bytes}
use lightningstream.Base.Maps.{contains}

-- `Config`
pub record LogConfig : Type 0 where
  pub level : Bytes
  pub format : Bytes
  pub timestamp : Bytes

-- "human", "logfmt" and "json"
abbrev pub human : Bytes
human = 104 ∷ 117 ∷ 109 ∷ 97 ∷ 110 ∷ []

abbrev pub log_formats : List Bytes
log_formats = human ∷ (108 ∷ 111 ∷ 103 ∷ 102 ∷ 109 ∷ 116 ∷ []) ∷ (106 ∷ 115 ∷ 111 ∷ 110 ∷ []) ∷ []

-- "short", "disable" and "full"
abbrev pub short : Bytes
short = 115 ∷ 104 ∷ 111 ∷ 114 ∷ 116 ∷ []

abbrev pub log_timestamps : List Bytes
log_timestamps =
    short ∷ (100 ∷ 105 ∷ 115 ∷ 97 ∷ 98 ∷ 108 ∷ 101 ∷ []) ∷ (102 ∷ 117 ∷ 108 ∷ 108 ∷ []) ∷ []

-- "info"
abbrev pub info : Bytes
info = 105 ∷ 110 ∷ 102 ∷ 111 ∷ []

-- `DefaultConfig`
abbrev pub default_log : LogConfig
default_log = record { level = info; format = human; timestamp = short }

-- `Check`, as whether it returns an error; the argument is `logrus.ParseLevel`.
unfoldable pub log_problem : (Bytes → Bool) → LogConfig → Bool
unfolding contains
log_problem is_level c =
    if not (is_level c.level)
    then true
    else if not (contains c.format log_formats)
    then true
    else not (is_empty c.timestamp) && not (contains c.timestamp log_timestamps)

-- `Merge`
unfoldable pub merge_log : LogConfig → LogConfig → LogConfig
merge_log c o = record {
  level = if is_empty o.level then c.level else o.level;
  format = if is_empty o.format then c.format else o.format;
  timestamp = if is_empty o.timestamp then c.timestamp else o.timestamp;
}
