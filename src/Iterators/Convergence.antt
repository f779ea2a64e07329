-- ===== src/Iterators/Convergence.antt =====
-- Eventual consistency of one key: the entries that instances receive for it may come in any order.
use mathlib.Core.List.{foldl, Perm, Permᴰ}
use mathlib.Core.Logic.{∥∥₁_elim}
use mathlib.Core.Option
use lightningstream.Base.{
  ℕ, ◌≤◌, ◌<◌, ◌≡◌, refl, sym, ◌∙◌, ap, Bool, true, false, Option, none, some, List, [], ◌∷◌, map,
  arith, All, ◌⊎◌, inl, inr,
}
use lightningstream.Base.Bytes.{Bytes}
use lightningstream.Base.Result.{Result, ok, ◌>>=◌, >>=-eq-ok}
use lightningstream.Header.{parse, is_deleted}
use lightningstream.Snapshot.{Kv, masked_flags}
use lightningstream.Iterators.{NativeIterator, merge}
use lightningstream.Iterators.Lww.{
  Version, Version-set, version_of, incoming, lww, lww_right_comm, lww_comm,
}
use lightningstream.Iterators.Writing.{Fits}
use lightningstream.Iterators.Merging.{merge-lww, merge_new}

-- One key of a DBI while snapshots are merged into it: `[]` stands for a key that is not there.
unfoldable pub receive_all : List (NativeIterator × Kv) → Bytes → Result Bytes
receive_all [] val = ok val
receive_all ((it, entry) ∷ rest) val = do
  merged ← merge it entry val
  receive_all rest (Option.get_or merged [])

-- What LMDB holds for a key.
unfoldable pub stored_version : Bytes → Result (Option Version)
stored_version [] = ok none
stored_version (b ∷ bs) = version_of (b ∷ bs) >>= λ v. ok (some v)

abbrev pub join : Option Version → Version → Option Version
join none new = some new
join (some old) new = some (lww old new)

-- An entry that the sweeper's cutoff does not concern.
pub record Fresh (p : NativeIterator × Kv) : Type 0 where
  pub fits : Fits p.0 p.1
  pub has_timestamp : 0 < p.1.timestamp_nano
  pub not_stale : is_deleted (masked_flags p.1) ≡ true → p.0.deleted_cutoff ≤ p.1.timestamp_nano

abbrev pub arrived : List (NativeIterator × Kv) → List Version
arrived l = map (λ p. incoming p.0 p.1) l

keep : {P : Type 0} (b : Bool) → (b ≡ true → P) → (b ≡ false) ⊎ P
keep true h = inr (h refl)
keep false h = inl refl

stored-version_of :
    (val : Bytes) (v : Version) → version_of val ≡ ok v → stored_version val ≡ ok (some v)
unfolding stored_version
stored-version_of [] v e = unfold version_of parse in cc e
stored-version_of (b ∷ bs) v e = rw e

receive_one :
    (it : NativeIterator) (entry : Kv) (val : Bytes) (old : Option Version)
    → Fresh (it, entry)
    → stored_version val ≡ ok old
    → (val' : Bytes) × (merge it entry val ≡ ok (some val'))
      × (stored_version val' ≡ ok (join old (incoming it entry)))
unfolding stored_version
receive_one it entry [] none fresh e =
    let (val', merged, stands) =
      (merge_new it entry fresh.fits).1 (keep (is_deleted (masked_flags entry)) fresh.not_stale) in
    (val', merged, stored-version_of val' _ stands)
receive_one it entry [] (some old) fresh e = absurd (cc e)
receive_one it entry (b ∷ bs) none fresh e =
    let (v, _, same) = >>=-eq-ok (version_of (b ∷ bs)) (λ v. ok (some v)) e in absurd (cc same)
receive_one it entry (b ∷ bs) (some old) fresh e =
    let (v, stands, same) = >>=-eq-ok (version_of (b ∷ bs)) (λ v. ok (some v)) e in
    let (val', merged, stands') =
      merge-lww it entry (b ∷ bs) old fresh.fits fresh.has_timestamp (cc (stands, same)) in
    (val', merged, stored-version_of val' _ stands')

-- For entries that the cutoff does not concern, every merge returns a value, and what the key holds
-- in the end is the last writer among what it held and the entries.
pub receive_all-foldl :
    (l : List (NativeIterator × Kv)) (val : Bytes) (old : Option Version)
    → All Fresh l
    → stored_version val ≡ ok old
    → (val' : Bytes) × (receive_all l val ≡ ok val')
      × (stored_version val' ≡ ok (foldl join old (arrived l)))
unfolding receive_all
receive_all-foldl [] val old fresh e = (val, refl, e)
receive_all-foldl ((it, entry) ∷ rest) val old (fresh, more) e =
    let (val1, merged, stands) = receive_one it entry val old fresh e in
    let (val2, received, stands2) =
      receive_all-foldl rest val1 (join old (incoming it entry)) more stands in
    (val2, rw merged received, stands2)

-- The flags of a version follow from its timestamp and its value.
abbrev pub FlagsFrom : (ℕ → Bytes → ℕ) → Version → Type 0
FlagsFrom flag_of v = v.flags ≡ flag_of v.timestamp v.value

abbrev pub OptFlagsFrom : (ℕ → Bytes → ℕ) → Option Version → Type 0
OptFlagsFrom flag_of none = Unit
OptFlagsFrom flag_of (some v) = FlagsFrom flag_of v

module _ (flag_of : ℕ → Bytes → ℕ) where
  lww-FlagsFrom :
      (a b : Version) → FlagsFrom flag_of a → FlagsFrom flag_of b → FlagsFrom flag_of (lww a b)
  unfolding lww
  lww-FlagsFrom a b ha hb = ground arith

  join-FlagsFrom :
      (o : Option Version) (b : Version)
      → OptFlagsFrom flag_of o
      → FlagsFrom flag_of b
      → OptFlagsFrom flag_of (join o b)
  join-FlagsFrom none b ho hb = hb
  join-FlagsFrom (some a) b ho hb = lww-FlagsFrom a b ho hb

  join_right_comm :
      (o : Option Version) (a b : Version)
      → OptFlagsFrom flag_of o
      → FlagsFrom flag_of a
      → FlagsFrom flag_of b
      → join (join o a) b ≡ join (join o b) a
  join_right_comm none a b ho ha hb = ap some (lww_comm flag_of a b ha hb)
  join_right_comm (some s) a b ho ha hb = ap some (lww_right_comm flag_of s a b ho ha hb)

  All-permᴰ :
      {l m : List Version} → Permᴰ l m → All (FlagsFrom flag_of) l → All (FlagsFrom flag_of) m
  All-permᴰ Permᴰ.nil h = h
  All-permᴰ (Permᴰ.cons e d) (h, hs) = (rw (← e) h, All-permᴰ d hs)
  All-permᴰ (Permᴰ.swap e f) (h, (k, hs)) = (rw (← f) k, (rw (← e) h, hs))
  All-permᴰ (Permᴰ.trans d d') h = All-permᴰ d' (All-permᴰ d h)

  foldl-permᴰ :
      {l m : List Version} (d : Permᴰ l m) (o : Option Version)
      → OptFlagsFrom flag_of o
      → All (FlagsFrom flag_of) l
      → foldl join o l ≡ foldl join o m
  foldl-permᴰ Permᴰ.nil o ho h = refl
  foldl-permᴰ (Permᴰ.cons {a = a} e d) o ho (h, hs) =
      rw (← e) (foldl-permᴰ d (join o a) (join-FlagsFrom o a ho h) hs)
  foldl-permᴰ (Permᴰ.swap {a = a} {b = b} {l = r} e f) o ho (h, (k, hs)) =
      rw (← e, ← f) (ap (λ s. foldl join s r) (join_right_comm o a b ho h k))
  foldl-permᴰ (Permᴰ.trans d d') o ho h = foldl-permᴰ d o ho h ∙ foldl-permᴰ d' o ho (All-permᴰ d h)

-- Take the entries that two instances receive for one key, which stand for the same versions in
-- another order. Let each have a timestamp, numbers that fit 64 bits, no value if it is marked as
-- deleted, and none be concerned by the cutoff; and let both start with the same bytes, which are
-- empty (the key is not there) or accepted by `Parse`. If versions with the same timestamp and value
-- have the same flags, the one at the start included, then every merge of both returns a value, and
-- in the end the key stands for the same version at both.
pub receive_all-perm :
    (flag_of : ℕ → Bytes → ℕ) (l m : List (NativeIterator × Kv)) (val : Bytes)
    (old : Option Version)
    → Perm (arrived l) (arrived m)
    → All Fresh l
    → All Fresh m
    → stored_version val ≡ ok old
    → OptFlagsFrom flag_of old
    → All (FlagsFrom flag_of) (arrived l)
    → (x : Bytes) × (y : Bytes) × (receive_all l val ≡ ok x)
      × (receive_all m val ≡ ok y)
      × (stored_version x ≡ stored_version y)
receive_all-perm flag_of l m val old perm fresh_l fresh_m stands ho h =
    let (x, rx, sx) = receive_all-foldl l val old fresh_l stands in
    let (y, ry, sy) = receive_all-foldl m val old fresh_m stands in
    (
      x,
      y,
      rx,
      ry,
      sx
          ∙ ap ok (∥∥₁_elim perm (hlevel Version-set) (λ d. foldl-permᴰ flag_of d old ho h))
          ∙ sym sy,
    )
