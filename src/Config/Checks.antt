-- ===== src/Config/Checks.antt =====
-- Which configurations `Check` accepts.
use lightningstream.Base.{
  ℕ, ◌+◌, ◌%◌, ◌^◌, ◌<◌, ◌≤◌, ◌≡◌, ◌⊎◌, ◌↔◌, refl, arith, inl, inr, Bool, true, false, not, ◌&&◌,
  ltb, ◌==◌, if◌then◌else◌, Option, none, some, List, [], ◌∷◌, length, is_empty, All, Option-cases,
}
use lightningstream.Base.Bytes.{Bytes}
use lightningstream.Base.Maps.{contains}
use lightningstream.Config.Logger.{LogConfig, log_problem}
use lightningstream.Config.{
  Config, LmdbConfig, Parsers, Problem, lmdb_problem, lmdbs_problem, number_problem, check,
}

-- An LMDB that can be used: a path, masks up to 0o777, and not both of the two schemas.
abbrev pub IsUsable : LmdbConfig → Type 0
IsUsable l =
    (is_empty l.path ≡ false)
    × (l.options.file_mask ≤ 511)
    × (l.options.dir_mask ≤ 511)
    × ((l.schema_tracks_changes && l.dup_sort_hack) ≡ false)

-- At least `least`, and not negative.
abbrev pub IsAtLeast : ℕ → ℕ → Type 0
IsAtLeast least v = (least ≤ v) × (v < 2 ^ 63)

abbrev pub NumbersAllowed : Config → Type 0
NumbersAllowed c =
    IsAtLeast 100_000_000 c.lmdb_poll_interval
    × (IsAtLeast 100_000_000 c.storage_poll_interval
        × (IsAtLeast 100_000_000 c.storage_retry_interval
            × (((c.storage_force_snapshot_interval ≡ 0)
                  ⊎ IsAtLeast 60_000_000_000 c.storage_force_snapshot_interval)
                × (IsAtLeast 1 c.storage_retry_count
                    × (IsAtLeast 1 c.memory_downloaded_snapshots
                        × IsAtLeast 1 c.memory_decompressed_snapshots)))))

-- The integers have 64 bits.
pub record HasWords (c : Config) : Type 0 where
  pub lmdb_poll_interval : c.lmdb_poll_interval < 2 ^ 64
  pub storage_poll_interval : c.storage_poll_interval < 2 ^ 64
  pub storage_retry_interval : c.storage_retry_interval < 2 ^ 64
  pub storage_force_snapshot_interval : c.storage_force_snapshot_interval < 2 ^ 64
  pub storage_retry_count : c.storage_retry_count < 2 ^ 64
  pub memory_downloaded_snapshots : c.memory_downloaded_snapshots < 2 ^ 64
  pub memory_decompressed_snapshots : c.memory_decompressed_snapshots < 2 ^ 64

signed-IsAtLeast :
    (v least : ℕ)
    → v < 2 ^ 64
    → least < 2 ^ 63
    → (ltb ((v + 2 ^ 63) % 2 ^ 64) ((least + 2 ^ 63) % 2 ^ 64) ≡ false) ↔ IsAtLeast least v
signed-IsAtLeast v least h h' = ground arith

-- A check before others, and the last one.
guard_iff {ℓ m} :
    {P : Type ℓ} {Q : Type m} (b : Bool) (x : Problem) (r : Option Problem)
    → ((b ≡ false) ↔ P)
    → ((r ≡ none) ↔ Q)
    → ((if b then some x else r) ≡ none) ↔ (P × Q)
guard_iff true x r i k = (λ h. absurd (ground arith), λ (p, q). absurd (cc (i.1 p)))
guard_iff false x r i k = (λ h. (i.0 refl, k.0 h), λ (p, q). k.1 q)

last_iff {ℓ} :
    {P : Type ℓ} (b : Bool) (x : Problem)
    → ((b ≡ false) ↔ P)
    → ((if b then some x else none) ≡ none) ↔ P
last_iff true x i = (λ h. absurd (ground arith), λ p. absurd (cc (i.1 p)))
last_iff false x i = (λ h. i.0 refl, λ p. refl)

force_iff :
    (b : Bool) (v : ℕ)
    → ((b ≡ false) ↔ IsAtLeast 60_000_000_000 v)
    → ((not (v == 0) && b) ≡ false) ↔ ((v ≡ 0) ⊎ IsAtLeast 60_000_000_000 v)
force_iff true v i = (
  λ h. inl (ground arith),
  λ p. elim p [ inl z ↦ ground (arith, z) | inr l ↦ absurd (cc (i.1 l)) ],
)
force_iff false v i = (λ h. inr (i.0 refl), λ p. ground arith)

number_problem_iff : (c : Config) → HasWords c → (number_problem c ≡ none) ↔ NumbersAllowed c
unfolding number_problem
number_problem_iff c w =
    guard_iff _ _ _
      (signed-IsAtLeast c.lmdb_poll_interval 100_000_000 w.lmdb_poll_interval (omega arith))
      (guard_iff _ _ _
        (signed-IsAtLeast c.storage_poll_interval 100_000_000 w.storage_poll_interval (omega arith))
        (guard_iff _ _ _
          (signed-IsAtLeast c.storage_retry_interval 100_000_000 w.storage_retry_interval
            (omega arith))
          (guard_iff _ _ _
            (force_iff _ c.storage_force_snapshot_interval (
              signed-IsAtLeast c.storage_force_snapshot_interval 60_000_000_000
                w.storage_force_snapshot_interval (omega arith)))
            (guard_iff _ _ _
              (signed-IsAtLeast c.storage_retry_count 1 w.storage_retry_count (omega arith))
              (guard_iff _ _ _
                (signed-IsAtLeast c.memory_downloaded_snapshots 1 w.memory_downloaded_snapshots
                  (omega arith))
                (last_iff _ _ (
                  signed-IsAtLeast c.memory_decompressed_snapshots 1 w.memory_decompressed_snapshots
                    (omega arith))))))))

lmdb_problem_iff : (l : LmdbConfig) → (lmdb_problem l ≡ none) ↔ IsUsable l
unfolding lmdb_problem
lmdb_problem_iff l = ground arith

abbrev AllUsable : List (Bytes × LmdbConfig) → Type 0
AllUsable ls = All (λ e. IsUsable e.1) ls

lmdbs_problem_iff : (ls : List (Bytes × LmdbConfig)) → (lmdbs_problem ls ≡ none) ↔ AllUsable ls
unfolding lmdbs_problem
lmdbs_problem_iff [] = (λ h. tt, λ h. refl)
lmdbs_problem_iff ((name, l) ∷ ls) =
    let one = lmdb_problem_iff l in
    let rest = lmdbs_problem_iff ls in
    elim (Option-cases (lmdb_problem l)) [
      | inl e ↦
          (λ h. (one.0 e, rest.0 (ground (arith, e, h))), λ (u, us). ground (arith, e, rest.1 us))
      | inr (x, e) ↦
          (λ h. absurd (ground (arith, e, h)), λ (u, us). absurd (ground (arith, e, one.1 u)))
    ]

lmdbs_iff {ℓ m} :
    {P : Type ℓ} {Q : Type m} {o r : Option Problem}
    → ((o ≡ none) ↔ P)
    → ((r ≡ none) ↔ Q)
    → ◌≡◌ {A = Option Problem} (elim o [ some e ↦ some e | none ↦ r ]) none ↔ (P × Q)
lmdbs_iff {o = none} i k = (λ h. (i.0 refl, k.0 h), λ (p, q). k.1 q)
lmdbs_iff {o = some e} i k = (λ h. absurd (ground arith), λ (p, q). absurd (cc (i.1 p)))

-- "human", "logfmt" and "json"; "short", "disable" and "full".
abbrev pub format_names : List Bytes
format_names =
    (104 ∷ 117 ∷ 109 ∷ 97 ∷ 110 ∷ [])
    ∷ (108 ∷ 111 ∷ 103 ∷ 102 ∷ 109 ∷ 116 ∷ [])
    ∷ (106 ∷ 115 ∷ 111 ∷ 110 ∷ [])
    ∷ []

abbrev pub timestamp_names : List Bytes
timestamp_names =
    (115 ∷ 104 ∷ 111 ∷ 114 ∷ 116 ∷ [])
    ∷ (100 ∷ 105 ∷ 115 ∷ 97 ∷ 98 ∷ 108 ∷ 101 ∷ [])
    ∷ (102 ∷ 117 ∷ 108 ∷ 108 ∷ [])
    ∷ []

-- The log settings that can be used.
abbrev pub LogAllowed : Parsers → LogConfig → Type 0
LogAllowed ps c =
    (ps.is_level c.level ≡ true)
    × ((contains c.format format_names ≡ true)
        × ((is_empty c.timestamp ≡ true) ⊎ (contains c.timestamp timestamp_names ≡ true)))

log_problem_iff :
    (ps : Parsers) (c : LogConfig) → (log_problem ps.is_level c ≡ false) ↔ LogAllowed ps c
unfolding log_problem
log_problem_iff ps c = ground arith

-- Check accepts a configuration exactly if the level of the log can be parsed, its format is human,
-- logfmt or json and its timestamp is empty, short, disable or full; there is an LMDB, every LMDB
-- can be used, the address of the server is empty or valid, no interval is below its minimum (the
-- interval of forced snapshots may be 0), and the counts are positive; negative numbers are
-- refused. The integers have 64 bits.
pub check_iff :
    (ps : Parsers) (c : Config)
    → HasWords c
    → (check ps c ≡ none) ↔ (
        LogAllowed ps c.log
        × ((0 < length c.lmdbs)
            × (All (λ e. IsUsable e.1) c.lmdbs
                × (((not (is_empty c.http_address) && not (ps.is_host_port c.http_address)) ≡ false)
                    × NumbersAllowed c))))
unfolding check
check_iff ps c w = guard_iff (log_problem ps.is_level c.log) _ _ (log_problem_iff ps c.log) (
    guard_iff {P = 0 < length c.lmdbs} (length c.lmdbs == 0) _ _
      (λ h. ground arith, λ h. ground arith)
      (lmdbs_iff (lmdbs_problem_iff c.lmdbs) (
        guard_iff (not (is_empty c.http_address) && not (ps.is_host_port c.http_address)) _ _
          (λ h. h, λ h. h) (number_problem_iff c w))))
