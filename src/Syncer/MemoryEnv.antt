-- ===== src/Syncer/MemoryEnv.antt =====
-- An LMDB environment in memory, which has the behaviour that the syncer relies on.
use lightningstream.Base.{
  sym, ℕ, ◌+◌, ◌-◌, ◌^◌, ◌<◌, ◌≡◌, refl, ◌⊎◌, inl, inr, ◌∙◌, ap, subst, arith, Bool, true, false,
  Option, none, some, List, [], map, ltb, if◌then◌else◌, Bool-cases, ltb→lt, Option-cases,
}
use lightningstream.Base.Bytes.{Bytes, equal_bytes}
use lightningstream.Base.Maps.{find, assign, find-assign, eq_of_equal_bytes}
use lightningstream.Base.Result.{Result, ok, err, external, branch, ok_inj}
use lightningstream.Memory.{MemoryDbi, memory}
use lightningstream.Syncer.Env.{Env}
use lightningstream.Syncer.Loading.{KeepsOthers, NumbersTxns}

abbrev pub Dbis : Type 0
Dbis = List (Bytes × (ℕ × MemoryDbi))

pub record MemoryWorld : Type 0 where
  pub last : ℕ
  pub dbis : Dbis

pub record MemoryTxn : Type 0 where
  pub id : ℕ
  pub dirty : Bool
  pub dbis : Dbis

abbrev no_entries : MemoryDbi
no_entries = record { held = []; is_sorted = tt; has_keys = tt }

unfoldable pub memory_begin : MemoryWorld → Result MemoryTxn
memory_begin w =
    if ltb (w.last + 1) (2 ^ 64)
    then ok (record { id = w.last + 1; dirty = false; dbis = w.dbis })
    else err external

unfoldable pub memory_create : MemoryTxn → Bytes → ℕ → MemoryTxn
unfolding find assign
memory_create t name flags = elim (find name t.dbis) [
  | none ↦ record t { dirty = true; dbis = assign name (flags, no_entries) t.dbis }
  | some d ↦ t
]

abbrev flags_in : Option (ℕ × MemoryDbi) → ℕ
flags_in none = 0
flags_in (some d) = d.0

unfoldable pub memory_save : MemoryTxn → Bytes → MemoryDbi → MemoryTxn
unfolding find assign
memory_save t name d = record t {
  dirty = true;
  dbis = assign name (flags_in (find name t.dbis), d) t.dbis;
}

abbrev pub memory_env : Env memory
memory_env = record {
  World = MemoryWorld;
  Txn = MemoryTxn;
  last_txn_id = λ w. ok w.last;
  begin = memory_begin;
  commit = λ t. ok (record { last = if t.dirty then t.id else t.id - 1; dbis = t.dbis });
  begin_view = λ w. ok (record { id = w.last; dirty = false; dbis = w.dbis });
  txn_id = λ t. t.id;
  root = λ t. ok (map (λ d. (d.0, [])) t.dbis);
  find_dbi = λ t name. ok (find name t.dbis);
  create = λ t name flags. ok (memory_create t name flags);
  save = memory_save;
  is_canceled = λ t. false;
}

find-assign_other :
    (name other : Bytes) (v : ℕ × MemoryDbi) (dbis : Dbis)
    → (name ≡ other → ⊥)
    → find other (assign name v dbis) ≡ find other dbis
find-assign_other name other v dbis differ = elim (Bool-cases (equal_bytes other name)) [
  | inl e ↦ absurd (differ (sym (eq_of_equal_bytes other name e)))
  | inr e ↦ ground (arith, e, find-assign other name v dbis)
]

create_other :
    (t t' : MemoryTxn) (name other : Bytes) (flags : ℕ)
    → (name ≡ other → ⊥)
    → ok (memory_create t name flags) ≡ ok t'
    → ok (find other t'.dbis) ≡ ok (find other t.dbis)
unfolding memory_create
create_other t t' name other flags differ e =
    subst (λ (s : MemoryTxn). ok (find other s.dbis) ≡ ok (find other t.dbis)) (ok_inj e)
      (elim (Option-cases (find name t.dbis)) [
        | inl a ↦
            rw (a, memory_create)
              (ap ok (find-assign_other name other (flags, no_entries) t.dbis differ))
        | inr (d, a) ↦ rw (a, memory_create) refl
      ])

pub memory_env-KeepsOthers : KeepsOthers memory memory_env
unfolding memory_save
memory_env-KeepsOthers = record {
  create_other = create_other;
  save_other = λ t name other d differ. ap ok (find-assign_other name other _ t.dbis differ);
}

id_of_create : (t : MemoryTxn) (name : Bytes) (flags : ℕ) → (memory_create t name flags).id ≡ t.id
unfolding memory_create
id_of_create t name flags = elim (Option-cases (find name t.dbis)) [
  | inl a ↦ rw (a, memory_create) refl
  | inr (d, a) ↦ rw (a, memory_create) refl
]

begun :
    (w : MemoryWorld) (t : MemoryTxn) (last : ℕ)
    → ok w.last ≡ ok last
    → memory_begin w ≡ ok t
    → (t.id ≡ last + 1) × (last + 1 < 2 ^ 64)
unfolding memory_begin
begun w t last e h = elim (branch (ltb (w.last + 1) (2 ^ 64)) _ _ h) [
  | inl (b, h') ↦ (
    sym (ap (λ (s : MemoryTxn). s.id) (ok_inj h')) ∙ ap (λ n. n + 1) (ok_inj e),
    subst (λ n. n + 1 < 2 ^ 64) (ok_inj e) (ltb→lt (w.last + 1) (2 ^ 64) b),
  )
  | inr (b, h') ↦ cc
]

committed :
    (t : MemoryTxn) (w : MemoryWorld)
    → ok (record { last = if t.dirty then t.id else t.id - 1; dbis = t.dbis }) ≡ ok w
    → (ok w.last ≡ ok t.id) ⊎ (ok w.last ≡ ok (t.id - 1))
committed t w h =
    subst (λ (w : MemoryWorld). (ok w.last ≡ ok t.id) ⊎ (ok w.last ≡ ok (t.id - 1))) (ok_inj h)
      (elim (Bool-cases t.dirty) [ inl b ↦ inl (rw b refl) | inr b ↦ inr (rw b refl) ])

pub memory_env-NumbersTxns : NumbersTxns memory memory_env
unfolding memory_save
memory_env-NumbersTxns = record {
  begin_lem = begun;
  create_lem = λ t t' name flags e.
      sym (ap (λ (s : MemoryTxn). s.id) (ok_inj e)) ∙ id_of_create t name flags;
  save_lem = λ t name d. refl;
  commit_lem = committed;
  begin_view_lem = λ w t last e h. sym (ap (λ (s : MemoryTxn). s.id) (ok_inj h)) ∙ ok_inj e;
}
