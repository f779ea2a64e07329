-- ===== src/Iterators/Lww.antt =====
-- The specification of a merge: what a value with a header stands for, and which of two wins.
use Prim.Native.Nat.{compare, Ordering}
use mathlib.Core.HLevel.{hedberg}
use native.Mathlib.Decide.{ℕ_discrete}
use lightningstream.Base.{
  ℕ, ◌≡◌, [], ltb, ◌==◌, not, ◌||◌, Bool, true, false, if◌then◌else◌, arith, ◌&&◌,
}
use lightningstream.Base.Bytes.{
  Bytes, compare_bytes_refl, eq_of_compare, Lt_of_gt, gt_of_Lt, Lt-trans,
}
use lightningstream.Base.Result.{Result, ok, ◌>>=◌, >>=-eq-ok}
use lightningstream.Header.{Header, parse, is_deleted}
use lightningstream.Snapshot.{Kv, masked_flags}
use lightningstream.Iterators.{NativeIterator, written_flags, at_most}

-- What the header and the application's value say; the transaction id is local to an instance.
pub record Version : Type 0 where
  pub timestamp : ℕ
  pub flags : ℕ
  pub value : Bytes

pub Version-discrete : Discrete Version
Version-discrete = hlevel ℕ_discrete

pub Version-set : IsSet Version
Version-set = hedberg Version-discrete

abbrev pub as_version : Header × Bytes → Result Version
as_version (h, app) = ok (record { timestamp = h.timestamp; flags = h.flags; value = app })

-- The version that a stored value stands for.
unfoldable pub version_of : Bytes → Result Version
version_of val = parse val >>= as_version

pub version_of-inv :
    (val : Bytes) (v : Version)
    → version_of val ≡ ok v
    → (p : Header × Bytes) × (parse val ≡ ok p)
      × (v ≡ record { timestamp = p.0.timestamp; flags = p.0.flags; value = p.1 })
unfolding version_of
version_of-inv val v e =
    let (p, parsed, same) = >>=-eq-ok (parse val) as_version e in (p, parsed, ground arith)

-- The version that a snapshot's entry stands for.
unfoldable pub incoming : NativeIterator → Kv → Version
incoming it entry = record {
  timestamp = if entry.timestamp_nano == 0 then it.default_timestamp else entry.timestamp_nano;
  flags = written_flags it entry.value (masked_flags entry);
  value =
      if is_deleted (written_flags it entry.value (masked_flags entry)) then [] else entry.value;
}

-- The later timestamp wins, at equal timestamps the lower value, and at equal values the old one.
unfoldable pub lww : Version → Version → Version
lww old new =
    if ltb new.timestamp old.timestamp
    then old
    else if new.timestamp == old.timestamp && at_most old.value new.value
    then old
    else new

pub lww_idem : (v : Version) → lww v v ≡ v
unfolding lww
lww_idem v = ground arith

pub lww-lww_self : (v w : Version) → lww (lww v w) w ≡ lww v w
unfolding lww
lww-lww_self v w = ground (arith, compare_bytes_refl w.value)

-- A merge never goes back in time.
pub lww-timestamp :
    (v w : Version) → (lww v w).timestamp ≡ Prim.Native.Nat.max v.timestamp w.timestamp
unfolding lww
lww-timestamp v w = ground arith

-- Whether `new` replaces `old`: a strict order on timestamps and values.
beats : Version → Version → Bool
beats new old =
    ltb old.timestamp new.timestamp
    || (new.timestamp == old.timestamp && not (at_most old.value new.value))

lww-beats : (old new : Version) → lww old new ≡ (if beats new old then new else old)
unfolding lww beats
lww-beats old new = ground arith

beats_trans : (a b c : Version) → beats a b ≡ true → beats b c ≡ true → beats a c ≡ true
unfolding beats
beats_trans a b c h k = ground (
  arith,
  Lt_of_gt c.value b.value,
  Lt_of_gt b.value a.value,
  gt_of_Lt c.value a.value,
  Lt-trans a.value b.value c.value,
)

beats-asymm : (a b : Version) → beats a b ≡ true → beats b a ≡ false
unfolding beats
beats-asymm a b h = ground (arith, Lt_of_gt b.value a.value, gt_of_Lt a.value b.value)

-- Two versions of which neither replaces the other are one, if their flags follow from the rest.
beats-total :
    (flag_of : ℕ → Bytes → ℕ) (a b : Version)
    → a.flags ≡ flag_of a.timestamp a.value
    → b.flags ≡ flag_of b.timestamp b.value
    → beats a b ≡ false
    → beats b a ≡ false
    → a ≡ b
unfolding beats
beats-total flag_of a b ha hb h k =
    ground (arith, eq_of_compare a.value b.value, gt_of_Lt b.value a.value)

-- Two versions in either order, if equal values at equal timestamps have equal flags.
pub lww_right_comm :
    (flag_of : ℕ → Bytes → ℕ) (s a b : Version)
    → s.flags ≡ flag_of s.timestamp s.value
    → a.flags ≡ flag_of a.timestamp a.value
    → b.flags ≡ flag_of b.timestamp b.value
    → lww (lww s a) b ≡ lww (lww s b) a
lww_right_comm flag_of s a b hs ha hb = ground (
  arith,
  lww-beats s a,
  lww-beats s b,
  lww-beats a b,
  lww-beats b a,
  beats_trans b a s,
  beats_trans a b s,
  beats-asymm a b,
  beats-asymm b a,
  beats-total flag_of a b ha hb,
)

pub lww_comm :
    (flag_of : ℕ → Bytes → ℕ) (a b : Version)
    → a.flags ≡ flag_of a.timestamp a.value
    → b.flags ≡ flag_of b.timestamp b.value
    → lww a b ≡ lww b a
lww_comm flag_of a b ha hb =
    ground (arith, lww-beats a b, lww-beats b a, beats-asymm a b, beats-total flag_of a b ha hb)
