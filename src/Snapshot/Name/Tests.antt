-- ===== src/Snapshot/Name/Tests.antt =====
-- A name, and the theorem at it.
use lightningstream.Base.{
  ℕ, ◌+◌, ◌-◌, ◌≡◌, ◌≢◌, refl, inl, zero, suc, arith, Option, some, [], ◌∷◌, ◌++◌, replicate, All,
  get_or,
}
use lightningstream.Base.Bytes.{Bytes, compare_bytes, equal_bytes}
use lightningstream.Base.Maps.{find}
use lightningstream.Base.Result.{ok, err, bad_name}
use lightningstream.Snapshot.Name.{
  NameInfo, parse_name, build_name, initial_extensions, default_extension, kind_snapshot,
}
use lightningstream.Snapshot.Name.RoundTrip.{
  Clock, IsNameInfo, IsPart, base_of, build_name-parse_name,
}

-- A clock that counts from 0 to 9.
abbrev date : Bytes
date = replicate 15 48

abbrev format : ℕ → Bytes
format ts = date ++ (46 ∷ 48 ∷ 48 ∷ 48 ∷ 48 ∷ 48 ∷ 48 ∷ 48 ∷ 48 ∷ (48 + ts) ∷ [])

abbrev parse_time : Bytes → Option ℕ
parse_time s = some (get_or s 24 0 - 48)

-- "d" and "i", at the time 5, of the generation "G"
abbrev info : NameInfo
info = record {
  full_name = [];
  base_name = [];
  extension = default_extension;
  kind = [];
  syncer_name = 100 ∷ [];
  instance_id = 105 ∷ [];
  generation_id = 71 ∷ [];
  timestamp_string = [];
  timestamp = 5;
  extra = (88 ∷ 49 ∷ []) ∷ [];
}

not_underscore : ◌≢◌ {A = ℕ} 48 95
not_underscore e = absurd (omega arith)

not_dot : ◌≢◌ {A = ℕ} 48 46
not_dot e = absurd (omega arith)

replicate-All : (P : ℕ → Type 0) (n c : ℕ) → P c → All P (replicate n c)
replicate-All P zero c h = tt
replicate-All P (suc n) c h = (h, replicate-All P n c h)

zeros-IsPart : (n : ℕ) (s : Bytes) → IsPart s → IsPart (replicate n 48 ++ s)
zeros-IsPart zero s h = h
zeros-IsPart (suc zero) [] h = not_underscore
zeros-IsPart (suc zero) (c ∷ cs) h = (inl not_underscore, h)
zeros-IsPart (suc (suc n)) s h = (inl not_underscore, zeros-IsPart (suc n) s h)

parse_short :
    parse_name initial_extensions parse_time (100 ∷ 95 ∷ 95 ∷ 46 ∷ default_extension) ≡ err bad_name
unfolding parse_name compare_bytes equal_bytes
parse_short = refl

abbrev clock_at_5 : Clock format parse_time 5
clock_at_5 = record {
  date = date;
  frac = replicate 8 48 ++ (53 ∷ []);
  format_eq = refl;
  parse_eq = refl;
  date_length = refl;
  frac_length = refl;
  date_plain = replicate-All (λ c. c ≢ 46) 15 48 not_dot;
  frac_plain = (
    not_dot,
    (
      not_dot,
      (
        not_dot,
        (not_dot, (not_dot, (not_dot, (not_dot, (not_dot, (λ e. absurd (omega arith), tt)))))),
      ),
    ),
  );
  is_part =
      zeros-IsPart 15 (45 ∷ replicate 8 48 ++ (53 ∷ []))
        (inl (λ e. absurd (omega arith)), zeros-IsPart 8 (53 ∷ []) (λ e. absurd (omega arith)));
}

info-IsNameInfo : IsNameInfo info
info-IsNameInfo = record {
  no_string = refl;
  syncer = (λ e. absurd (omega arith), (λ e. absurd (omega arith), tt));
  instance_part = (λ e. absurd (omega arith), (λ e. absurd (omega arith), tt));
  generation = (λ e. absurd (omega arith), (λ e. absurd (omega arith), tt));
  extra_parts = ((inl (λ e. absurd (omega arith)), λ e. absurd (omega arith)), tt);
  extra_no_dot = ((λ e. absurd (omega arith), (λ e. absurd (omega arith), tt)), tt);
}

build_name-parse_name_example :
    parse_name initial_extensions parse_time (build_name format info)
    ≡ ok (record info {
      full_name = build_name format info;
      base_name = base_of info (date ++ (45 ∷ (replicate 8 48 ++ (53 ∷ []))));
      kind = kind_snapshot;
      timestamp_string = date ++ (45 ∷ (replicate 8 48 ++ (53 ∷ [])));
    })
unfolding find compare_bytes equal_bytes
build_name-parse_name_example =
    build_name-parse_name initial_extensions format parse_time info kind_snapshot info-IsNameInfo
      clock_at_5 refl
