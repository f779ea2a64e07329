-- ===== src/Syncer/Echo.antt =====
-- Loading the snapshots of others does not make the loop send snapshots.
use lightningstream.Base.{
  ℕ, zero, suc, ◌+◌, ◌≡◌, subst, ◌∙◌, inl, inr, arith, Bool, false, Option, none, some, [], ◌∷◌,
  ltb, if◌then◌else◌, ◌&&◌, Bool-cases,
}
use lightningstream.Base.Bytes.{Bytes}
use lightningstream.Base.Result.{Result, ok, >>=-eq-ok, branch, ok_inj, ok_pair}
use lightningstream.Instances.{is_done}
use lightningstream.Syncer.Loop.{
  Calls, LoopConfig, loaded, gone, LoopState, load_update, load_next, load_ready, clean_waiting,
  send_changes, loop_pass, loop_passes,
}
use lightningstream.Syncer.Loads.{sent_count, sent_count-append}

-- Only the loop writes to LMDB: a load of a snapshot onto the transaction that counts as synced
-- reports no local changes, and the last transaction as its own. No snapshot is overdue.
pub record IsUntouched (c : Calls) : Type 0 where
  pub next_lem : (w : c.State) → c.last_txn_id (c.next w).1 ≡ c.last_txn_id w
  pub load_once_lem :
      (w w' : c.State) (i : Bytes) (u : c.Update) (last txn_id : ℕ) (local_changed : Bool)
      → c.last_txn_id w ≡ ok last
      → c.load_once w i u last ≡ ok (txn_id, local_changed, w')
      → (local_changed ≡ false) × (c.last_txn_id w' ≡ ok txn_id)
  pub is_overdue_lem : (w : c.State) → c.is_overdue w ≡ false
  pub sleep_lem : (w w' : c.State) → c.sleep w ≡ ok w' → c.last_txn_id w' ≡ c.last_txn_id w

module _ (c : Calls) (untouched : IsUntouched c) (n : ℕ) where
  -- LMDB has nothing that does not count as synced, and `n` snapshots have been sent.
  abbrev IsSynced : LoopState c → Type 0
  IsSynced st = (c.last_txn_id st.world ≡ ok st.last_synced) × (sent_count c st.log ≡ n)

  IsSynced-load_update :
      (st st' : LoopState c) (i : Bytes) (u : c.Update) (b : Bool)
      → IsSynced st
      → load_update c st i u ≡ ok (b, st')
      → IsSynced st'
  unfolding load_update
  IsSynced-load_update st st' i u b (synced, count) h =
      let ((txn_id, changed, w), e, e') = >>=-eq-ok (c.load_once st.world i u st.last_synced) _ h in
      let (f, e2) = untouched.load_once_lem st.world w i u st.last_synced txn_id changed synced e in
      subst IsSynced (ok_pair e')
        (rw f e2, sent_count-append c st.log (loaded i u ∷ []) ∙ omega (arith, count))

  IsSynced-load_next :
      (further : ℕ → LoopState c → Result (ℕ × LoopState c)) (k m : ℕ) (st st' : LoopState c)
      (next : Option (Bytes × c.Update))
      → ((k m : ℕ) (st st' : LoopState c) → IsSynced st → further k st ≡ ok (m, st') → IsSynced st')
      → IsSynced st
      → load_next c further k st next ≡ ok (m, st')
      → IsSynced st'
  unfolding load_next
  IsSynced-load_next further k m st st' none ih s h = subst IsSynced (ok_pair h) s
  IsSynced-load_next further k m st st' (some (i, u)) ih s h =
      let ((b, mid), e, e') = >>=-eq-ok (load_update c st i u) _ h in
      let kept = IsSynced-load_update st mid i u b s e in
      let k' = if c.is_snapshot u then k + 1 else k in
      elim (branch (b && ltb 10 k') (ok (k', mid)) (further k' mid) e') [
        | inl (t, stopped) ↦ subst (λ (r : ℕ × LoopState c). IsSynced r.1) (ok_inj stopped) kept
        | inr (f, goes_on) ↦ ih k' m mid st' kept goes_on
      ]

  IsSynced-load_ready :
      (fuel k m : ℕ) (st st' : LoopState c)
      → IsSynced st
      → load_ready c fuel k st ≡ ok (m, st')
      → IsSynced st'
  unfolding load_ready
  IsSynced-load_ready zero k m st st' s h = cc
  IsSynced-load_ready (suc fuel) k m st st' (synced, count) h =
      IsSynced-load_next (load_ready c fuel) k m (record st { world = (c.next st.world).1 }) st'
        (c.next st.world).0 (IsSynced-load_ready fuel) (untouched.next_lem st.world ∙ synced, count)
        h

  IsSynced-clean_waiting : (st : LoopState c) → IsSynced st → IsSynced (clean_waiting c st)
  unfolding clean_waiting
  IsSynced-clean_waiting st (synced, count) = elim (Bool-cases (is_done st.waiting)) [
    | inl t ↦ rw t (synced, count)
    | inr f ↦ rw f (synced, sent_count-append c st.log (gone _ ∷ []) ∙ omega (arith, count))
  ]

  send_changes_none :
      (conf : LoopConfig) (has_data : Bool) (st : LoopState c)
      → send_changes c conf has_data st.last_synced false st ≡ ok st
  unfolding send_changes
  send_changes_none conf has_data st = ground arith

  IsSynced-loop_pass :
      (conf : LoopConfig) (has_data : Bool) (fuel : ℕ) (st st' : LoopState c)
      → IsSynced st
      → loop_pass c conf has_data fuel st ≡ ok st'
      → IsSynced st'
  unfolding loop_pass
  IsSynced-loop_pass conf has_data fuel st st' s h =
      let ((m, st1), e1, h1) = >>=-eq-ok (load_ready c fuel 0 st) _ h in
      let st2 = clean_waiting c st1 in
      let s2 = IsSynced-clean_waiting st1 (IsSynced-load_ready fuel 0 m st st1 s e1) in
      subst IsSynced
        (ok_inj (
          rw (untouched.is_overdue_lem st2.world, s2.0, send_changes_none conf has_data st2) at h1))
        s2

  -- While only the loop writes to LMDB and no snapshot is overdue, and if LMDB has nothing that does
  -- not count as synced: however many passes the loop makes and whatever it loads, it sends no
  -- snapshot, and LMDB still has nothing that does not count as synced.
  pub loop_passes-IsSynced :
      (conf : LoopConfig) (has_data : Bool) (fuel passes : ℕ) (stopped : Bool)
      (st st' : LoopState c)
      → IsSynced st
      → loop_passes c conf has_data fuel passes st ≡ ok (stopped, st')
      → IsSynced st'
  unfolding loop_passes
  loop_passes-IsSynced conf has_data fuel zero stopped st st' s h = subst IsSynced (ok_pair h) s
  loop_passes-IsSynced conf has_data fuel (suc passes) stopped st st' s h =
      let (mid, e, h1) = >>=-eq-ok (loop_pass c conf has_data fuel st) _ h in
      let kept = IsSynced-loop_pass conf has_data fuel st mid s e in
      elim (branch (conf.only_once && is_done mid.waiting) _ _ h1) [
        | inl (t, e1) ↦ subst IsSynced (ok_pair e1) kept
        | inr (f, h2) ↦
            (let (w, e2, h3) = >>=-eq-ok (c.sleep mid.world) _ h2 in
              loop_passes-IsSynced conf has_data fuel passes stopped (record mid { world = w }) st'
                (untouched.sleep_lem mid.world w e2 ∙ kept.0, kept.1) h3)
      ]
