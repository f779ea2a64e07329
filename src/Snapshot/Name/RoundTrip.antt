-- ===== src/Snapshot/Name/RoundTrip.antt =====
-- A name that `BuildName` writes is read back by `ParseName`.
use mathlib.Core.List.{append_assoc, append-nil}
use lightningstream.Base.{
  ℕ, ◌≡◌, ◌≢◌, refl, sym, ◌∙◌, ap, ◌⊎◌, zero, suc, arith, false, Option, some, List, [], ◌∷◌, ◌++◌,
  All, ◌==◌, length, drop, get_or, take-append_of_length, drop-append_of_length, length-append,
  drop-add,
}
use lightningstream.Base.Bytes.{Bytes}
use lightningstream.Base.Maps.{find}
use lightningstream.Base.Result.{ok}
use lightningstream.Snapshot.Name.{
  NameInfo, parse_name, build_name, name_timestamp, replace_dot, read_timestamp, cut_at_dot, split,
  write_extra,
}

-- A part between two separators: it does not contain "__", and does not end with "_".
abbrev pub IsPart : Bytes → Type 0
IsPart [] = Unit
IsPart (c ∷ []) = c ≢ 95
IsPart (c ∷ d ∷ cs) = ((c ≢ 95) ⊎ (d ≢ 95)) × IsPart (d ∷ cs)

abbrev pub NoDot : Bytes → Type 0
NoDot = All (λ c. c ≢ 46)

split_part : (p s : Bytes) → IsPart p → split (p ++ (95 ∷ 95 ∷ s)) ≡ p ∷ split s
unfolding split
split_part [] s h = refl
split_part (c ∷ []) s h = ground arith
split_part (c ∷ d ∷ cs) s (h, hs) = ground (arith, split_part (d ∷ cs) s hs)

split_last : (p : Bytes) → IsPart p → split p ≡ p ∷ []
unfolding split
split_last [] h = refl
split_last (c ∷ []) h = refl
split_last (c ∷ d ∷ cs) (h, hs) = ground (arith, split_last (d ∷ cs) hs)

split_extra :
    (p : Bytes) (xs : List Bytes) → IsPart p → All IsPart xs → split (p ++ write_extra xs) ≡ p ∷ xs
unfolding write_extra
split_extra p [] h hs = rw append-nil (split_last p h)
split_extra p (x ∷ xs) h (hx, hs) =
    split_part p (x ++ write_extra xs) h ∙ ap (λ l. p ∷ l) (split_extra x xs hx hs)

cut_at_dot-append :
    (base ext : Bytes) → NoDot base → cut_at_dot (base ++ (46 ∷ ext)) ≡ some (base, ext)
unfolding cut_at_dot
cut_at_dot-append [] ext h = refl
cut_at_dot-append (c ∷ cs) ext (h, hs) = ground (arith, cut_at_dot-append cs ext hs)

replace_dot-append :
    (date frac : Bytes) → NoDot date → replace_dot (date ++ (46 ∷ frac)) ≡ date ++ (45 ∷ frac)
unfolding replace_dot
replace_dot-append [] frac h = refl
replace_dot-append (c ∷ cs) frac (h, hs) = ground (arith, replace_dot-append cs frac hs)

-- What package time does with the layout "20060102-150405.000000000" at the time `ts`: 15 bytes of
-- date, the dot and 9 digits, which are read back as the time.
pub record Clock (format : ℕ → Bytes) (parse_time : Bytes → Option ℕ) (ts : ℕ) : Type 0 where
  pub date : Bytes
  pub frac : Bytes
  pub format_eq : format ts ≡ date ++ (46 ∷ frac)
  pub parse_eq : parse_time (date ++ (46 ∷ frac)) ≡ some ts
  pub date_length : length date ≡ 15
  pub frac_length : length frac ≡ 9
  pub date_plain : NoDot date
  pub frac_plain : NoDot frac
  pub is_part : IsPart (date ++ (45 ∷ frac))

get_or_at : (xs ys : Bytes) (n : ℕ) → length xs ≡ n → get_or (xs ++ ys) n 0 ≡ get_or ys 0 0
get_or_at [] ys n h = ap (λ i. get_or ys i 0) (omega arith)
get_or_at (x ∷ xs) ys zero h = absurd (omega arith)
get_or_at (x ∷ xs) ys (suc n) h = get_or_at xs ys n (omega arith)

read_timestamp-append :
    (parse_time : Bytes → Option ℕ) (date frac : Bytes) (ts : ℕ)
    → parse_time (date ++ (46 ∷ frac)) ≡ some ts
    → length date ≡ 15
    → length frac ≡ 9
    → read_timestamp parse_time (date ++ (45 ∷ frac)) ≡ ok ts
unfolding read_timestamp
read_timestamp-append parse_time date frac ts h hd hf =
    let len : length (date ++ (45 ∷ frac)) ≡ 25 = omega (arith, length-append date (45 ∷ frac)) in
    let dropped : drop 16 (date ++ (45 ∷ frac)) ≡ frac =
      drop-add 15 1 (date ++ (45 ∷ frac))
      ∙ ap (drop 1) (drop-append_of_length 15 date (45 ∷ frac) hd) in
    rw
      (
        len,
        get_or_at date (45 ∷ frac) 15 hd,
        take-append_of_length 15 date (45 ∷ frac) hd,
        dropped,
        h,
      )
      refl

-- The parts of the name without the extension.
abbrev pub base_of : NameInfo → Bytes → Bytes
base_of ni tss =
    ni.syncer_name
    ++ (95
        ∷ 95
        ∷ (ni.instance_id
            ++ (95 ∷ 95 ∷ (tss ++ (95 ∷ 95 ∷ (ni.generation_id ++ write_extra ni.extra))))))

build_name-base_of :
    (format : ℕ → Bytes) (ni : NameInfo) (tss : Bytes)
    → ni.timestamp_string ≡ []
    → name_timestamp format ni.timestamp ≡ tss
    → build_name format ni ≡ base_of ni tss ++ (46 ∷ ni.extension)
unfolding build_name
build_name-base_of format ni tss e h =
    let tail = 46 ∷ ni.extension in
    rw (e, h)
      (sym (
        append_assoc ni.syncer_name _ tail
        ∙ ap (λ l. ni.syncer_name ++ (95 ∷ 95 ∷ l))
            (append_assoc ni.instance_id _ tail
              ∙ ap (λ l. ni.instance_id ++ (95 ∷ 95 ∷ l))
                  (append_assoc tss _ tail
                    ∙ ap (λ l. tss ++ (95 ∷ 95 ∷ l))
                        (append_assoc ni.generation_id (write_extra ni.extra) tail)))))

split-base_of :
    (ni : NameInfo) (tss : Bytes)
    → IsPart ni.syncer_name
    → IsPart ni.instance_id
    → IsPart tss
    → IsPart ni.generation_id
    → All IsPart ni.extra
    → split (base_of ni tss) ≡ ni.syncer_name ∷ ni.instance_id ∷ tss ∷ ni.generation_id ∷ ni.extra
split-base_of ni tss h1 h2 h3 h4 h5 =
    split_part ni.syncer_name _ h1
    ∙ ap (λ l. ni.syncer_name ∷ l)
        (split_part ni.instance_id _ h2
          ∙ ap (λ l. ni.instance_id ∷ l)
              (split_part tss _ h3
                ∙ ap (λ l. tss ∷ l) (split_extra ni.generation_id ni.extra h4 h5)))

NoDot-append : (xs ys : Bytes) → NoDot xs → NoDot ys → NoDot (xs ++ ys)
NoDot-append [] ys h hs = hs
NoDot-append (x ∷ xs) ys (h, h') hs = (h, NoDot-append xs ys h' hs)

not_dot : (c : ℕ) → (c == 46) ≡ false → c ≢ 46
not_dot c h e = ground arith

NoDot-extra : (xs : List Bytes) → All NoDot xs → NoDot (write_extra xs)
unfolding write_extra
NoDot-extra [] h = tt
NoDot-extra (x ∷ xs) (h, hs) =
    (not_dot 95 refl, (not_dot 95 refl, NoDot-append x (write_extra xs) h (NoDot-extra xs hs)))

NoDot-separated : (p rest : Bytes) → NoDot p → NoDot rest → NoDot (p ++ (95 ∷ 95 ∷ rest))
NoDot-separated p rest h hs =
    NoDot-append p (95 ∷ 95 ∷ rest) h (not_dot 95 refl, (not_dot 95 refl, hs))

-- A part of a name.
abbrev pub IsNamePart : Bytes → Type 0
IsNamePart p = IsPart p × NoDot p

-- The fields that go into the name, where the timestamp is written from the time.
pub record IsNameInfo (ni : NameInfo) : Type 0 where
  pub no_string : ni.timestamp_string ≡ []
  pub syncer : IsNamePart ni.syncer_name
  pub instance_part : IsNamePart ni.instance_id
  pub generation : IsNamePart ni.generation_id
  pub extra_parts : All IsPart ni.extra
  pub extra_no_dot : All NoDot ni.extra

NoDot-base_of : (ni : NameInfo) (tss : Bytes) → IsNameInfo ni → NoDot tss → NoDot (base_of ni tss)
NoDot-base_of ni tss parts h = NoDot-separated ni.syncer_name _ parts.syncer.1 (
    NoDot-separated ni.instance_id _ parts.instance_part.1 (
      NoDot-separated tss _ h (
        NoDot-append ni.generation_id (write_extra ni.extra) parts.generation.1
          (NoDot-extra ni.extra parts.extra_no_dot))))

parse_name_of :
    (extensions : List (Bytes × Bytes)) (parse_time : Bytes → Option ℕ)
    (name base ext kind syncer instance_id tss generation : Bytes) (extra : List Bytes) (ts : ℕ)
    → cut_at_dot name ≡ some (base, ext)
    → find ext extensions ≡ some kind
    → split base ≡ syncer ∷ instance_id ∷ tss ∷ generation ∷ extra
    → read_timestamp parse_time tss ≡ ok ts
    → parse_name extensions parse_time name
      ≡ ok (record {
        full_name = name;
        base_name = base;
        extension = ext;
        kind = kind;
        syncer_name = syncer;
        instance_id = instance_id;
        generation_id = generation;
        timestamp_string = tss;
        timestamp = ts;
        extra = extra;
      })
unfolding parse_name
parse_name_of extensions parse_time name base ext kind syncer i tss g extra ts h1 h2 h3 h4 =
    rw (h1, parse_name, h2, h3, h4) refl

-- For a time that package time formats and parses as documented, and fields without a dot and
-- "__" that do not end with "_", under an extension that is registered: `ParseName` of the name
-- that `BuildName` writes returns the fields, and with them the whole name, the name without its
-- extension, the kind of the extension, and the timestamp as text.
pub build_name-parse_name :
    (extensions : List (Bytes × Bytes)) (format : ℕ → Bytes) (parse_time : Bytes → Option ℕ)
    (ni : NameInfo) (kind : Bytes)
    → IsNameInfo ni
    → (c : Clock format parse_time ni.timestamp) → find ni.extension extensions ≡ some kind
    → parse_name extensions parse_time (build_name format ni)
      ≡ ok (record ni {
        full_name = build_name format ni;
        base_name = base_of ni (c.date ++ (45 ∷ c.frac));
        kind = kind;
        timestamp_string = c.date ++ (45 ∷ c.frac);
      })
unfolding name_timestamp
build_name-parse_name extensions format parse_time ni kind parts c known =
    let tss = c.date ++ (45 ∷ c.frac) in
    let written : build_name format ni ≡ base_of ni tss ++ (46 ∷ ni.extension) =
      build_name-base_of format ni tss parts.no_string
        (rw c.format_eq (replace_dot-append c.date c.frac c.date_plain)) in
    let cut : cut_at_dot (build_name format ni) ≡ some (base_of ni tss, ni.extension) = rw written (
      cut_at_dot-append (base_of ni tss) ni.extension (
        NoDot-base_of ni tss parts
          (NoDot-append c.date (45 ∷ c.frac) c.date_plain (not_dot 45 refl, c.frac_plain)))) in
    parse_name_of extensions parse_time (build_name format ni) (base_of ni tss) ni.extension kind
      ni.syncer_name ni.instance_id tss ni.generation_id ni.extra ni.timestamp cut known
      (split-base_of ni tss parts.syncer.0 parts.instance_part.0 c.is_part parts.generation.0
        parts.extra_parts)
      (read_timestamp-append parse_time c.date c.frac ni.timestamp c.parse_eq c.date_length
        c.frac_length)
