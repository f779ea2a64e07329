-- ===== src/Snapshot/Name.antt =====
-- snapshot/name.go: the file names of snapshots. Strings are their bytes, times are nanoseconds
-- since the epoch in UTC, with 0 for Go's zero time. The date arithmetic of package time is a
-- parameter: `format` for `Time.Format` and `parse_time` for `time.Parse`, both with the layout
-- `timeFormat`. `registeredExtensions` is an argument, since other packages may add to it.
pub mod RoundTrip
mod Tests
use lightningstream.Base.{
  ℕ, ◌+◌, Bool, true, false, ◌&&◌, Option, none, some, List, [], ◌∷◌, ◌++◌, ltb, ◌==◌,
  if◌then◌else◌, length, get_or, take, drop, not, ◌||◌,
}
use lightningstream.Base.Bytes.{Bytes}
use lightningstream.Base.Maps.{find}
use lightningstream.Base.Result.{Result, ok, err, bad_name, ◌>>=◌}

-- `NameInfo`
pub record NameInfo : Type 0 where
  pub full_name : Bytes
  pub base_name : Bytes
  pub extension : Bytes
  pub kind : Bytes
  pub syncer_name : Bytes
  pub instance_id : Bytes
  pub generation_id : Bytes
  pub timestamp_string : Bytes
  pub timestamp : ℕ
  pub extra : List Bytes

-- The bytes of "-", "." and "_".
abbrev pub dash : ℕ
dash = 45

abbrev pub dot : ℕ
dot = 46

abbrev pub underscore : ℕ
underscore = 95

-- `len(timeFormat)` and `dotIndex`
abbrev pub time_length : ℕ
time_length = 25

abbrev pub dot_index : ℕ
dot_index = 15

-- "snapshot"
abbrev pub kind_snapshot : Bytes
kind_snapshot = 115 ∷ 110 ∷ 97 ∷ 112 ∷ 115 ∷ 104 ∷ 111 ∷ 116 ∷ []

-- "pb.gz"
abbrev pub default_extension : Bytes
default_extension = 112 ∷ 98 ∷ 46 ∷ 103 ∷ 122 ∷ []

-- `registeredExtensions` as `init` leaves it.
abbrev pub initial_extensions : List (Bytes × Bytes)
initial_extensions = (default_extension, kind_snapshot) ∷ []

-- `strings.Cut(name, ".")`
unfoldable pub cut_at_dot : Bytes → Option (Bytes × Bytes)
cut_at_dot [] = none
cut_at_dot (c ∷ cs) = elim (c == dot) [
  | true ↦ some ([], cs)
  | false ↦ elim (cut_at_dot cs) [ none ↦ none | some (base, ext) ↦ some (c ∷ base, ext) ]
]

abbrev pub cons_first : ℕ → List Bytes → List Bytes
cons_first c [] = (c ∷ []) ∷ []
cons_first c (p ∷ ps) = (c ∷ p) ∷ ps

-- `strings.Split(basename, "__")`
unfoldable pub split : Bytes → List Bytes
split [] = [] ∷ []
split (c ∷ []) = (c ∷ []) ∷ []
split (c ∷ d ∷ cs) = elim (c == underscore && d == underscore) [
  | true ↦ [] ∷ split cs
  | false ↦ cons_first c (split (d ∷ cs))
]

-- `strings.Replace(s, ".", "-", 1)`
unfoldable pub replace_dot : Bytes → Bytes
replace_dot [] = []
replace_dot (c ∷ cs) = elim (c == dot) [ true ↦ dash ∷ cs | false ↦ c ∷ replace_dot cs ]

-- `NameTimestamp`
unfoldable pub name_timestamp : (ℕ → Bytes) → ℕ → Bytes
name_timestamp format ts = replace_dot (format ts)

unfoldable pub write_extra : List Bytes → Bytes
write_extra [] = []
write_extra (x ∷ xs) = underscore ∷ underscore ∷ x ++ write_extra xs

-- `NameInfo.BuildName`
unfoldable pub build_name : (ℕ → Bytes) → NameInfo → Bytes
unfolding name_timestamp write_extra
build_name format ni =
    let ts =
      if length ni.timestamp_string == 0
      then name_timestamp format ni.timestamp
      else ni.timestamp_string in
    ni.syncer_name
    ++ (underscore ∷ underscore ∷ ni.instance_id
        ++ (underscore ∷ underscore ∷ ts
            ++ (underscore ∷ underscore ∷ ni.generation_id
                ++ (write_extra ni.extra ++ (dot ∷ ni.extension)))))

-- `Name`
unfoldable pub name_of : (ℕ → Bytes) → Bytes → Bytes → Bytes → ℕ → Bytes
unfolding build_name
name_of format syncer_name instance_id generation_id ts = build_name format (record {
  full_name = [];
  base_name = [];
  extension = default_extension;
  kind = [];
  syncer_name = syncer_name;
  instance_id = instance_id;
  generation_id = generation_id;
  timestamp_string = [];
  timestamp = ts;
  extra = [];
})

-- The part of `ParseName` that reads the timestamp.
unfoldable pub read_timestamp : (Bytes → Option ℕ) → Bytes → Result ℕ
read_timestamp parse_time tss =
    if not (length tss == time_length) || not (get_or tss dot_index 0 == dash)
    then err bad_name
    else elim (parse_time (take dot_index tss ++ (dot ∷ drop (dot_index + 1) tss))) [
      | none ↦ err bad_name
      | some ts ↦ ok ts
    ]

-- `ParseName`
unfoldable pub parse_name : List (Bytes × Bytes) → (Bytes → Option ℕ) → Bytes → Result NameInfo
unfolding cut_at_dot split find read_timestamp
parse_name extensions parse_time name = elim (cut_at_dot name) [
  | none ↦ err bad_name
  | some (base, ext) ↦ elim (find ext extensions) [
    | none ↦ err bad_name
    | some kind ↦ elim (split base) [
      | syncer_name ∷ instance_id ∷ tss ∷ generation_id ∷ extra ↦ do
        ts ← read_timestamp parse_time tss
        ok (record {
          full_name = name;
          base_name = base;
          extension = ext;
          kind = kind;
          syncer_name = syncer_name;
          instance_id = instance_id;
          generation_id = generation_id;
          timestamp_string = tss;
          timestamp = ts;
          extra = extra;
        })
      | _ ↦ err bad_name
    ]
  ]
]
