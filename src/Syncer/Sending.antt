-- ===== src/Syncer/Sending.antt =====
-- No snapshot is sent before the instance's own old snapshot is loaded.
use lightningstream.Base.{
  ℕ, zero, suc, ◌≡◌, refl, ap, ◌∙◌, subst, inl, inr, arith, Bool, true, false, not, ◌&&◌, ◌||◌,
  List, [], ◌∷◌, if◌then◌else◌,
}
use lightningstream.Base.Bytes.{Bytes}
use lightningstream.Base.Maps.{contains, any}
use lightningstream.Base.Result.{ok, >>=-eq-ok, branch, ok_inj, ok_pair}
use lightningstream.Instances.{InstanceSet, has_instance, is_done, add_instance}
use lightningstream.Instances.Cleaning.{add-remove-has_instance}
use lightningstream.Startup.{StartTracker, set_passed, store}
use lightningstream.Syncer.Loop.{
  Calls, LoopConfig, LoopState, load_ready, clean_waiting, send_changes, loop_pass, loop_passes,
  wait_for_all, at_start, loop_start, store_snapshot,
}
use lightningstream.Syncer.Waiting.{
  sends_after, Waits, Sorts, Waits-load_ready, Waits-clean_waiting, Waits-send_changes,
}

has_instance-wait_for_all :
    (i : Bytes) (seen : List Bytes) (s : InstanceSet)
    → has_instance (wait_for_all seen s) i ≡ (contains i seen || has_instance s i)
unfolding wait_for_all contains any
has_instance-wait_for_all i [] s = refl
has_instance-wait_for_all i (x ∷ xs) s =
    ground
      (arith, has_instance-wait_for_all i xs (add_instance s x), (add-remove-has_instance s x i).0)

module _ (c : Calls) (conf : LoopConfig) (sorts : Sorts c conf.own_instance) where
  abbrev Good : LoopState c → Type 0
  Good st = Waits c conf.own_instance st.waiting st.log

  Waits-loop_pass :
      (has_data : Bool) (fuel : ℕ) (st st' : LoopState c)
      → Good st
      → loop_pass c conf has_data fuel st ≡ ok st'
      → Good st'
  unfolding loop_pass
  Waits-loop_pass has_data fuel st st' w h =
      let own = conf.own_instance in
      let ((n, st1), e1, h1) = >>=-eq-ok (load_ready c fuel 0 st) _ h in
      let st2 = clean_waiting c st1 in
      let overdue = c.is_overdue st2.world in
      let (w2, e2, h2) =
        >>=-eq-ok (if overdue then c.snapshot_overdue st2.world else ok st2.world) _ h1 in
      let (last, e3, h3) = >>=-eq-ok (c.last_txn_id w2) _ h2 in
      let (st3, e4, h4) =
        >>=-eq-ok (send_changes c conf has_data last overdue (record st2 { world = w2 })) _ h3 in
      subst Good (ok_inj h4) (
        Waits-send_changes c own conf has_data last overdue (record st2 { world = w2 }) st3 refl
          (Waits-clean_waiting c own sorts st1 (Waits-load_ready c own fuel 0 n st st1 w e1)) e4)

  Waits-loop_passes :
      (has_data : Bool) (fuel n : ℕ) (stopped : Bool) (st st' : LoopState c)
      → Good st
      → loop_passes c conf has_data fuel n st ≡ ok (stopped, st')
      → Good st'
  unfolding loop_passes
  Waits-loop_passes has_data fuel zero stopped st st' w h = subst Good (ok_pair h) w
  Waits-loop_passes has_data fuel (suc n) stopped st st' w h =
      let (mid, e, h1) = >>=-eq-ok (loop_pass c conf has_data fuel st) _ h in
      let kept = Waits-loop_pass has_data fuel st mid w e in
      elim (branch (conf.only_once && is_done mid.waiting) _ _ h1) [
        | inl (t, e1) ↦ subst Good (ok_pair e1) kept
        | inr (f, h2) ↦
            (let (w', e2, h3) = >>=-eq-ok (c.sleep mid.world) _ h2 in
              Waits-loop_passes has_data fuel n stopped (record mid { world = w' }) st' kept h3)
      ]

  Waits-at_start :
      (w : c.State) (seen : List Bytes) (tracker : StartTracker)
      → contains conf.own_instance seen ≡ true
      → Good (at_start c w seen tracker)
  unfolding has_instance any
  Waits-at_start w seen tracker h =
      (refl, inl (has_instance-wait_for_all conf.own_instance seen [] ∙ ap (λ b. b || false) h))

  marked :
      (has_data : Bool) (st : LoopState c)
      → Good st
      → Good (if not has_data then record st { tracker = set_passed store st.tracker } else st)
  marked true st w = w
  marked false st w = w

  Waits-loop_start :
      (has_data : Bool) (w : c.State) (tracker : StartTracker) (st : LoopState c)
      → contains conf.own_instance (c.seen_instances w) ≡ true
      → c.has_snapshots w ≡ true
      → loop_start c conf has_data w tracker ≡ ok st
      → Good st
  unfolding loop_start
  Waits-loop_start has_data w tracker st seen some_snapshot h =
      let (w', e, h1) =
        >>=-eq-ok (if has_data && not conf.schema_tracks_changes then c.save_main w else ok w) _
          h in
      let st0 = at_start c w' (c.seen_instances w) tracker in
      let (st1, e1, h2) =
        >>=-eq-ok (if has_data && not (c.has_snapshots w) then store_snapshot c st0 else ok st0) _
          h1 in
      elim (branch (has_data && not (c.has_snapshots w)) (store_snapshot c st0) (ok st0) e1) [
        | inl (t, a) ↦ absurd (ground arith)
        | inr (f, e2) ↦ subst Good (ok_inj h2) (
            marked has_data (record st1 { world = c.start_receiver st1.world })
              (subst Good (ok_inj e2) (Waits-at_start w' (c.seen_instances w) tracker seen)))
      ]

  -- Where `sort.Strings` keeps the elements, and the listing at the start has a snapshot of the
  -- instance itself: after any number of passes of the loop, and after one more, every snapshot
  -- that the loop has sent was sent after an update of that instance was loaded (a snapshot,
  -- unless there is a hook that decides when the instance is ready), or after the instance had
  -- disappeared from the listing. This holds with and without shadow databases.
  pub loop_pass-sends_after :
      (has_data : Bool) (fuel n : ℕ) (w : c.State) (tracker : StartTracker) (stopped : Bool)
      (st st' st'' : LoopState c)
      → contains conf.own_instance (c.seen_instances w) ≡ true
      → c.has_snapshots w ≡ true
      → loop_start c conf has_data w tracker ≡ ok st
      → loop_passes c conf has_data fuel n st ≡ ok (stopped, st')
      → loop_pass c conf has_data fuel st' ≡ ok st''
      → sends_after c conf.own_instance false st''.log ≡ true
  loop_pass-sends_after has_data fuel n w tracker stopped st st' st'' seen some_snapshot e0 e1 e2 =
      (Waits-loop_pass has_data fuel st' st''
        (Waits-loop_passes has_data fuel n stopped st st'
          (Waits-loop_start has_data w tracker st seen some_snapshot e0) e1)
        e2).0
