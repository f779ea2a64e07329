-- ===== src/Syncer/Loading.antt =====
-- What `LoadOnce` promises to the sync loop and to the DBIs that are not its own.
use lightningstream.Base.{
  ℕ, ◌+◌, ◌-◌, ◌^◌, ◌<◌, ◌≡◌, refl, sym, ap, ◌∙◌, subst, ◌⊎◌, inl, inr, arith, Bool, false, Option,
  List,
}
use lightningstream.Base.Bytes.{Bytes}
use lightningstream.Base.Maps.{assign}
use lightningstream.Base.Result.{Result, ok, >>=-eq-ok, ok_inj}
use lightningstream.Lmdb.{Lmdb}
use lightningstream.Syncer.Env.{Env, SyncConfig}
use lightningstream.Syncer.Read.{FilterParams}
use lightningstream.Syncer.Load.{Snap, Update, load_txn, load_once, adjusted, has_local_changes}
use lightningstream.Syncer.Touched.{IsWritten}
use lightningstream.Syncer.Frame.{load_txn-P}

-- A write to one DBI leaves the others as they were.
pub record KeepsOthers (l : Lmdb) (env : Env l) : Type 0 where
  pub create_other :
      (t t' : env.Txn) (name other : Bytes) (flags : ℕ)
      → (name ≡ other → ⊥)
      → env.create t name flags ≡ ok t'
      → env.find_dbi t' other ≡ env.find_dbi t other
  pub save_other :
      (t : env.Txn) (name other : Bytes) (d : l.Dbi)
      → (name ≡ other → ⊥)
      → env.find_dbi (env.save t name d) other ≡ env.find_dbi t other

-- A write transaction has the ID behind the last one. It is recorded as the last one, or, if it has
-- changed nothing, not at all. A read transaction has the ID of the last one.
pub record NumbersTxns (l : Lmdb) (env : Env l) : Type 0 where
  pub begin_lem :
      (w : env.World) (t : env.Txn) (last : ℕ)
      → env.last_txn_id w ≡ ok last
      → env.begin w ≡ ok t
      → (env.txn_id t ≡ last + 1) × (last + 1 < 2 ^ 64)
  pub create_lem :
      (t t' : env.Txn) (name : Bytes) (flags : ℕ)
      → env.create t name flags ≡ ok t'
      → env.txn_id t' ≡ env.txn_id t
  pub save_lem :
      (t : env.Txn) (name : Bytes) (d : l.Dbi) → env.txn_id (env.save t name d) ≡ env.txn_id t
  pub commit_lem :
      (t : env.Txn) (w : env.World)
      → env.commit t ≡ ok w
      → (env.last_txn_id w ≡ ok (env.txn_id t)) ⊎ (env.last_txn_id w ≡ ok (env.txn_id t - 1))
  pub begin_view_lem :
      (w : env.World) (t : env.Txn) (last : ℕ)
      → env.last_txn_id w ≡ ok last
      → env.begin_view w ≡ ok t
      → env.txn_id t ≡ last

module _ (l : Lmdb) (env : Env l) (conf : SyncConfig) (filter : Option (FilterParams → Bool)) where
  -- Where a write to one DBI leaves the others as they were: the transaction of `LoadOnce`, if it
  -- succeeds, leaves every DBI as it was that is neither a main DBI, whose name does not begin with
  -- `SyncDBIPrefix`, nor, where the schema is not native, the shadow of one, whatever DBIs the
  -- snapshot has.
  pub load_txn-find_dbi :
      (now ts : ℕ) (snap : Snap) (last : ℕ) (t t' : env.Txn) (name : Bytes)
      → KeepsOthers l env
      → (IsWritten conf name → ⊥)
      → load_txn l env conf filter now ts snap last t ≡ ok t'
      → env.find_dbi t' name ≡ env.find_dbi t name
  load_txn-find_dbi now ts snap last t t' name keeps private h =
      load_txn-P l env conf filter (λ s. env.find_dbi s name ≡ env.find_dbi t name)
        (record {
          create_lem = λ a b n f o e p.
              keeps.create_other a b n name f (λ same. private (subst (IsWritten conf) same o)) e
              ∙ p;
          save_lem = λ a n d o p.
              keeps.save_other a n name d (λ same. private (subst (IsWritten conf) same o)) ∙ p;
        })
        now ts snap last t t' refl h

  pub txn_id-load_txn :
      (now ts : ℕ) (snap : Snap) (last : ℕ) (t t' : env.Txn)
      → NumbersTxns l env
      → load_txn l env conf filter now ts snap last t ≡ ok t'
      → env.txn_id t' ≡ env.txn_id t
  txn_id-load_txn now ts snap last t t' numbers h =
      load_txn-P l env conf filter (λ s. env.txn_id s ≡ env.txn_id t)
        (record {
          create_lem = λ a b n f o e p. numbers.create_lem a b n f e ∙ p;
          save_lem = λ a n d o p. numbers.save_lem a n d ∙ p;
        })
        now ts snap last t t' refl h

  adjusted_own :
      (last txn_id last' : ℕ)
      → txn_id ≡ last + 1
      → (last' ≡ txn_id) ⊎ (last' ≡ txn_id - 1)
      → last' ≡ adjusted l env conf filter last' txn_id
  adjusted_own last txn_id last' e o = ground arith

  pub own_txn :
      (last txn_id last' : ℕ) (r : Result ℕ)
      → txn_id ≡ last + 1
      → last + 1 < 2 ^ 64
      → (r ≡ ok txn_id) ⊎ (r ≡ ok (txn_id - 1))
      → r ≡ ok last'
      → (has_local_changes last txn_id ≡ false) × (r ≡ ok (adjusted l env conf filter last' txn_id))
  own_txn last txn_id last' r e lt o h =
      let one_of : (last' ≡ txn_id) ⊎ (last' ≡ txn_id - 1) = elim o [
        | inl a ↦ inl (ok_inj (sym h ∙ a))
        | inr a ↦ inr (ok_inj (sym h ∙ a))
      ] in
      (ground arith, h ∙ ap ok (adjusted_own last txn_id last' e one_of))

  -- Where LMDB numbers its transactions one after the other, and its last transaction is the one
  -- that counts as synced: a `LoadOnce` that succeeds reports no local changes, and the last
  -- transaction of LMDB afterwards as its own, whether or not the load has changed anything. For
  -- the instance it notes the time of the file.
  pub load_once-last_txn_id :
      (now ts : ℕ) (i : Bytes) (u : Update) (last txn_id : ℕ) (local_changed : Bool)
      (w w' : env.World) (by by' : List (Bytes × ℕ))
      → NumbersTxns l env
      → env.last_txn_id w ≡ ok last
      → load_once l env conf filter now ts i u last (w, by) ≡ ok (txn_id, local_changed, (w', by'))
      → (local_changed ≡ false)
        × ((env.last_txn_id w' ≡ ok txn_id) × (by' ≡ assign i u.timestamp by))
  unfolding load_once
  load_once-last_txn_id now ts i u last txn_id local_changed w w' by by' numbers e0 h =
      let (t, e1, h1) = >>=-eq-ok (env.begin w) _ h in
      let (t', e2, h2) = >>=-eq-ok (load_txn l env conf filter now ts u.snapshot last t) _ h1 in
      let (w1, e3, h3) = >>=-eq-ok (env.commit t') _ h2 in
      let (last', e4, h4) = >>=-eq-ok (env.last_txn_id w1) _ h3 in
      let (id, lt) = numbers.begin_lem w t last e0 e1 in
      let same = txn_id-load_txn now ts u.snapshot last t t' numbers e2 in
      let o =
        subst (λ n. (env.last_txn_id w1 ≡ ok n) ⊎ (env.last_txn_id w1 ≡ ok (n - 1))) same
          (numbers.commit_lem t' w1 e3) in
      let (f, e5) = own_txn last (env.txn_id t) last' (env.last_txn_id w1) id lt o e4 in
      subst
        (λ (r : ℕ × Bool × (env.World × List (Bytes × ℕ))).
          (r.1 ≡ false) × ((env.last_txn_id r.2.0 ≡ ok r.0) × (r.2.1 ≡ assign i u.timestamp by)))
        (ok_inj h4) (f, (e5, refl))
