-- ===== src/Flags.antt =====
-- lmdbenv/dbiflags/flags.go: the flags of a DBI as text. Texts are lists of ASCII codes.
pub mod RoundTrip
mod Tests
use Prim.Native.Nat.{bit_and, bit_or}
use lightningstream.Base.{
  ℕ, zero, suc, ◌+◌, ◌-◌, ◌*◌, ◌/◌, ◌%◌, ◌^◌, Bool, true, false, not, ◌&&◌, ◌||◌, ltb, leb, ◌==◌,
  if◌then◌else◌, Option, none, some, List, [], ◌∷◌, ◌++◌, is_empty, length, drop,
}
use lightningstream.Base.Bytes.{Bytes, equal_bytes}
use lightningstream.Base.Result.{Result, ok, err, bad_format, ◌>>=◌}

abbrev pub reverse_key : ℕ
reverse_key = 2

abbrev pub dup_sort : ℕ
dup_sort = 4

abbrev pub integer_key : ℕ
integer_key = 8

abbrev pub dup_fixed : ℕ
dup_fixed = 16

abbrev pub integer_dup : ℕ
integer_dup = 32

abbrev pub reverse_dup : ℕ
reverse_dup = 64

-- "MDB_"
abbrev pub mdb : Bytes
mdb = 77 ∷ 68 ∷ 66 ∷ 95 ∷ []

-- `nameToFlag`, in the order of the flags: the names behind "MDB_", and the flags.
abbrev pub names : List (Bytes × ℕ)
names =
    (82 ∷ 69 ∷ 86 ∷ 69 ∷ 82 ∷ 83 ∷ 69 ∷ 75 ∷ 69 ∷ 89 ∷ [], reverse_key)
    ∷ (68 ∷ 85 ∷ 80 ∷ 83 ∷ 79 ∷ 82 ∷ 84 ∷ [], dup_sort)
    ∷ (73 ∷ 78 ∷ 84 ∷ 69 ∷ 71 ∷ 69 ∷ 82 ∷ 75 ∷ 69 ∷ 89 ∷ [], integer_key)
    ∷ (68 ∷ 85 ∷ 80 ∷ 70 ∷ 73 ∷ 88 ∷ 69 ∷ 68 ∷ [], dup_fixed)
    ∷ (73 ∷ 78 ∷ 84 ∷ 69 ∷ 71 ∷ 69 ∷ 82 ∷ 68 ∷ 85 ∷ 80 ∷ [], integer_dup)
    ∷ (82 ∷ 69 ∷ 86 ∷ 69 ∷ 82 ∷ 83 ∷ 69 ∷ 68 ∷ 85 ∷ 80 ∷ [], reverse_dup)
    ∷ []

-- `nameToFriendlyName`, by the flags.
abbrev pub friendly_names : List (Bytes × ℕ)
friendly_names =
    (82 ∷ 101 ∷ 118 ∷ 101 ∷ 114 ∷ 115 ∷ 101 ∷ 75 ∷ 101 ∷ 121 ∷ [], reverse_key)
    ∷ (68 ∷ 117 ∷ 112 ∷ 83 ∷ 111 ∷ 114 ∷ 116 ∷ [], dup_sort)
    ∷ (73 ∷ 110 ∷ 116 ∷ 101 ∷ 103 ∷ 101 ∷ 114 ∷ 75 ∷ 101 ∷ 121 ∷ [], integer_key)
    ∷ (68 ∷ 117 ∷ 112 ∷ 70 ∷ 105 ∷ 120 ∷ 101 ∷ 100 ∷ [], dup_fixed)
    ∷ (73 ∷ 110 ∷ 116 ∷ 101 ∷ 103 ∷ 101 ∷ 114 ∷ 68 ∷ 117 ∷ 112 ∷ [], integer_dup)
    ∷ (82 ∷ 101 ∷ 118 ∷ 101 ∷ 114 ∷ 115 ∷ 101 ∷ 68 ∷ 117 ∷ 112 ∷ [], reverse_dup)
    ∷ []

-- `allValid`
abbrev pub all_valid : ℕ
all_valid = 126

-- `flagToName` and `flagToFriendlyName`
abbrev pub name_of : Bool → List (Bytes × ℕ)
name_of true = friendly_names
name_of false = names

-- `strconv.FormatUint` with base 16, for 16 bits.
abbrev pub digit : ℕ → ℕ
digit d = if ltb d 10 then 48 + d else 87 + d

unfoldable pub format_digits : ℕ → ℕ → Bytes → Bytes
format_digits zero v digits = digits
format_digits (suc n) v digits =
    let rest = format_digits n (v / 16) (digit (v % 16) ∷ digits) in
    if ltb v 16 then digit v ∷ digits else rest

-- "UNKNOWN:0x"
abbrev pub unknown : Bytes
unknown = 85 ∷ 78 ∷ 75 ∷ 78 ∷ 79 ∷ 87 ∷ 78 ∷ 58 ∷ 48 ∷ 120 ∷ []

abbrev pub separated : Bytes → Bytes → Bytes → Bytes
separated sep built name = (if is_empty built then [] else built ++ sep) ++ name

-- The loop of `buildString` over the flags from 0x02 to 0x40: what is left of `f`, and the text.
unfoldable pub build_names : Bool → Bytes → List (Bytes × ℕ) → ℕ → Bytes → ℕ × Bytes
build_names friendly sep [] f built = (f, built)
build_names friendly sep ((name, flag) ∷ rest) f built =
    let prefix = if friendly then [] else mdb in
    let skipped = bit_and f flag == 0 in
    build_names friendly sep rest (if skipped then f else f - flag)
      (if skipped then built else separated sep built (prefix ++ name))

-- `buildString`; the flags have 16 bits.
unfoldable pub build_string : ℕ → Bytes → Bool → Bytes
unfolding build_names format_digits
build_string f sep friendly =
    let (left, built) = build_names friendly sep (name_of friendly) f [] in
    if left == 0 then built else separated sep built (unknown ++ format_digits 4 left [])

-- `String` and `MarshalText`
unfoldable pub marshal_text : ℕ → Bytes
unfolding build_string
marshal_text f = build_string f (124 ∷ []) false

-- `FriendlyString`
unfoldable pub friendly_string : ℕ → Bytes
unfolding build_string
friendly_string f = build_string f (32 ∷ []) true

-- The separators: '|', and ',', '+' and ' ', which are replaced by it.
abbrev pub is_separator : ℕ → Bool
is_separator c = c == 124 || (c == 44 || (c == 43 || c == 32))

-- `strings.SplitSeq`: the first part, and the others.
unfoldable pub split_parts : Bytes → Bytes × List Bytes
split_parts [] = ([], [])
split_parts (c ∷ cs) =
    let (part, parts) = split_parts cs in
    if is_separator c then ([], part ∷ parts) else (c ∷ part, parts)

-- `strings.TrimSpace` and `strings.ToUpper` on ASCII.
abbrev pub is_space : ℕ → Bool
is_space c = c == 32 || (leb 9 c && leb c 13)

unfoldable pub trim_left : Bytes → Bytes
trim_left [] = []
trim_left (c ∷ cs) = let rest = trim_left cs in if is_space c then rest else c ∷ cs

unfoldable pub trim_right : Bytes → Bytes
trim_right [] = []
trim_right (c ∷ cs) =
    let rest = trim_right cs in if is_empty rest && is_space c then [] else c ∷ rest

abbrev pub to_upper : Bytes → Bytes
to_upper [] = []
to_upper (c ∷ cs) = (if leb 97 c && leb c 122 then c - 32 else c) ∷ to_upper cs

unfoldable pub lookup : Bytes → Bytes → List (Bytes × ℕ) → Option ℕ
lookup prefix p [] = none
lookup prefix p ((name, flag) ∷ rest) =
    let further = lookup prefix p rest in
    if equal_bytes p (prefix ++ name) then some flag else further

-- `strconv.ParseUint` with 16 bits, of an upper case text.
abbrev pub digit_value : ℕ → ℕ
digit_value c = if leb 48 c && leb c 57 then c - 48 else if leb 65 c && leb c 90 then c - 55 else 99

unfoldable pub parse_digits : ℕ → Bytes → ℕ → Result ℕ
parse_digits base [] v = ok v
parse_digits base (c ∷ cs) v =
    let rest = parse_digits base cs (v * base + digit_value c) in
    if leb base (digit_value c)
    then err bad_format
    else if leb (2 ^ 16) (v * base + digit_value c)
    then err bad_format
    else rest

unfoldable pub parse_uint : ℕ → Bytes → Result ℕ
unfolding parse_digits
parse_uint base s = if is_empty s then err bad_format else parse_digits base s 0

-- A number: it may only have the persistent flags.
unfoldable pub number_flags : Bytes → Result ℕ
unfolding parse_uint
number_flags p = do
  v ←
      (if equal_bytes (48 ∷ 88 ∷ []) (elim p [ a ∷ (b ∷ rest) ↦ a ∷ b ∷ [] | _ ↦ [] ])
        then parse_uint 16 (drop 2 p)
        else parse_uint 10 p)
  if bit_and v all_valid == v then ok v else err bad_format

-- One part of `UnmarshalText`.
unfoldable pub part_flags : Bytes → Result ℕ
unfolding trim_left trim_right lookup number_flags
part_flags part =
    let p = to_upper (trim_right (trim_left part)) in
    if is_empty p then ok 0 else elim (lookup mdb p names) [
      | some flag ↦ ok flag
      | none ↦ elim (lookup [] p names) [ some flag ↦ ok flag | none ↦ number_flags p ]
    ]

unfoldable pub all_parts : List Bytes → ℕ → Result ℕ
unfolding part_flags
all_parts [] f = ok f
all_parts (part ∷ parts) f = do flag ← part_flags part; all_parts parts (bit_or f flag)

-- `UnmarshalText`
unfoldable pub unmarshal_text : Bytes → Result ℕ
unfolding split_parts all_parts
unmarshal_text text = let (part, parts) = split_parts text in all_parts (part ∷ parts) 0
