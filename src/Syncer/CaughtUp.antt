-- ===== src/Syncer/CaughtUp.antt =====
-- Whether a pass of the loop leaves local changes behind.
use lightningstream.Base.{
  ℕ, zero, suc, ◌≤◌, ◌≡◌, refl, ap, subst, ◌∙◌, inl, inr, arith, Bool, true, false, ◌&&◌, ◌||◌, [],
  ◌∷◌, ltb, if◌then◌else◌,
}
use lightningstream.Base.Bytes.{Bytes}
use lightningstream.Base.Maps.{contains, any}
use lightningstream.Base.Result.{ok, >>=-eq-ok, branch, ok_inj, ok_pair}
use lightningstream.Instances.{InstanceSet, is_done, has_instance}
use lightningstream.Startup.{StartTracker}
use lightningstream.Syncer.Loop.{
  Calls, LoopConfig, LoopState, load_ready, clean_waiting, store_snapshot, send_changes, loop_pass,
  loop_passes, loop_start, sync_loop,
}

-- A `SendOnce` that succeeds returns the last transaction of LMDB.
abbrev pub ReportsLast : Calls → Type 0
ReportsLast c =
    (w w' : c.State) (last txn_id : ℕ)
    → c.last_txn_id w ≡ ok last
    → c.send_once w ≡ ok (txn_id, w')
    → c.last_txn_id w' ≡ ok txn_id

done-has_instance : (s : InstanceSet) (i : Bytes) → is_done s ≡ true → has_instance s i ≡ false
unfolding is_done has_instance contains any
done-has_instance [] i h = refl
done-has_instance (x ∷ xs) i h = cc

module _ (c : Calls) where
  -- Every transaction of LMDB counts as synced.
  abbrev pub IsCaughtUp : LoopState c → Type 0
  IsCaughtUp st = (last : ℕ) × (c.last_txn_id st.world ≡ ok last) × (last ≤ st.last_synced)

module _ (c : Calls) (reports : ReportsLast c) (conf : LoopConfig) where
  IsCaughtUp-store_snapshot :
      (st st' : LoopState c) (last : ℕ)
      → c.last_txn_id st.world ≡ ok last
      → store_snapshot c st ≡ ok st'
      → IsCaughtUp c st'
  unfolding store_snapshot
  IsCaughtUp-store_snapshot st st' last e h =
      let ((txn_id, w), e1, h1) = >>=-eq-ok (c.send_once st.world) _ h in
      subst (IsCaughtUp c) (ok_inj h1) (txn_id, reports st.world w last txn_id e e1, omega arith)

  IsCaughtUp-send_changes :
      (has_data overdue : Bool) (last : ℕ) (st st' : LoopState c)
      → c.last_txn_id st.world ≡ ok last
      → has_instance st'.waiting conf.own_instance ≡ false
      → send_changes c conf has_data last overdue st ≡ ok st'
      → IsCaughtUp c st'
  unfolding send_changes
  IsCaughtUp-send_changes has_data overdue last st st' e own h =
      elim (branch (ltb st.last_synced last || overdue) _ (ok st) h) [
        | inr (f, same) ↦ subst (IsCaughtUp c) (ok_inj same) (last, e, ground (arith, f))
        | inl (t, h1) ↦ elim (branch (has_instance st.waiting conf.own_instance) (ok st) _ h1) [
          | inl (awaited, same) ↦ absurd (
              ground (
                arith,
                own,
                awaited,
                ap (λ (s : LoopState c). has_instance s.waiting conf.own_instance) (ok_inj same),
              ))
          | inr (f, h2) ↦ elim (branch (has_data || ltb 0 last) _ _ h2) [
            | inl (some_data, stored) ↦
                IsCaughtUp-store_snapshot (record st { last_synced = last }) st' last e stored
            | inr (no_data, same) ↦ subst (IsCaughtUp c) (ok_inj same) (last, e, omega arith)
          ]
        ]
      ]

  -- Where a `SendOnce` that succeeds returns the last transaction of LMDB: after a pass of the loop
  -- that succeeds, unless it still waits for the instance's own old snapshot, every transaction of
  -- LMDB counts as synced.
  pub loop_pass-IsCaughtUp :
      (has_data : Bool) (fuel : ℕ) (st st' : LoopState c)
      → has_instance st'.waiting conf.own_instance ≡ false
      → loop_pass c conf has_data fuel st ≡ ok st'
      → IsCaughtUp c st'
  unfolding loop_pass
  loop_pass-IsCaughtUp has_data fuel st st' own h =
      let ((n, st1), e1, h1) = >>=-eq-ok (load_ready c fuel 0 st) _ h in
      let st2 = clean_waiting c st1 in
      let overdue = c.is_overdue st2.world in
      let (w2, e2, h2) =
        >>=-eq-ok (if overdue then c.snapshot_overdue st2.world else ok st2.world) _ h1 in
      let (last, e3, h3) = >>=-eq-ok (c.last_txn_id w2) _ h2 in
      let (st3, e4, h4) =
        >>=-eq-ok (send_changes c conf has_data last overdue (record st2 { world = w2 })) _ h3 in
      subst (IsCaughtUp c) (ok_inj h4) (
        IsCaughtUp-send_changes has_data overdue last (record st2 { world = w2 }) st3 e3
          (ap (λ (s : LoopState c). has_instance s.waiting conf.own_instance) (ok_inj h4) ∙ own) e4)

  loop_passes-IsCaughtUp :
      (has_data : Bool) (fuel passes : ℕ) (st st' : LoopState c)
      → loop_passes c conf has_data fuel passes st ≡ ok (true, st')
      → IsCaughtUp c st'
  unfolding loop_passes
  loop_passes-IsCaughtUp has_data fuel zero st st' h = cc
  loop_passes-IsCaughtUp has_data fuel (suc passes) st st' h =
      let (mid, e, h1) = >>=-eq-ok (loop_pass c conf has_data fuel st) _ h in
      elim (branch (conf.only_once && is_done mid.waiting) _ _ h1) [
        | inl (t, e1) ↦ subst (IsCaughtUp c) (ok_pair e1) (
            loop_pass-IsCaughtUp has_data fuel st mid
              (done-has_instance mid.waiting conf.own_instance (ground (arith, t))) e)
        | inr (f, h2) ↦
            (let (w, e2, h3) = >>=-eq-ok (c.sleep mid.world) _ h2 in
              loop_passes-IsCaughtUp has_data fuel passes (record mid { world = w }) st' h3)
      ]

  -- Where a `SendOnce` that succeeds returns the last transaction of LMDB: when `syncLoop` stops
  -- after a single pass over all instances (`OnlyOnce`), every transaction of LMDB counts as synced.
  pub sync_loop-IsCaughtUp :
      (fuel passes : ℕ) (w : c.State) (tracker : StartTracker) (st : LoopState c)
      → sync_loop c conf fuel passes w tracker ≡ ok (true, st)
      → IsCaughtUp c st
  unfolding sync_loop
  sync_loop-IsCaughtUp fuel passes w tracker st h =
      let (last, e, h1) = >>=-eq-ok (c.last_txn_id w) _ h in
      let (st0, e1, h2) =
        >>=-eq-ok (loop_start c conf (ltb 0 last) (c.first_listing w) tracker) _ h1 in
      loop_passes-IsCaughtUp (ltb 0 last) fuel passes st0 st h2
