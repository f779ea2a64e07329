-- ===== src/Syncer/Waiting.antt =====
-- When the sync loop may store a snapshot.
use lightningstream.Base.{
  ℕ, zero, suc, ◌+◌, ◌≡◌, refl, sym, ap, ◌∙◌, subst, ◌⊎◌, inl, inr, arith, Bool, true, false, not,
  ◌&&◌, ◌||◌, Option, none, some, List, [], ◌∷◌, ◌++◌, ltb, if◌then◌else◌, Bool-cases,
}
use lightningstream.Base.Bytes.{Bytes, equal_bytes}
use lightningstream.Base.Maps.{filter, contains, equal_bytes_sym}
use lightningstream.Base.Result.{Result, ok, err, >>=-eq-ok, branch, ok_inj, ok_pair}
use lightningstream.Instances.{InstanceSet, has_instance, is_done, clean_disappeared}
use lightningstream.Instances.Cleaning.{
  contains-filter, clean_disappeared-has_instance, add-remove-has_instance,
}
use lightningstream.Syncer.Loop.{
  Calls, LoopConfig, LoopStep, loaded, gone, sent, LoopState, ends_wait, wait_after, load_update,
  load_next, load_ready, clean_waiting, store_snapshot, send_changes,
}

both : {a b : Bool} → a ≡ true → b ≡ true → (a && b) ≡ true
both h e = ground arith

module _ (c : Calls) (own : Bytes) where
  -- Whether the load of an update can end the wait for its instance.
  abbrev pub may_end : c.Update → Bool
  may_end u = elim c.instance_ready [ none ↦ c.is_snapshot u | some ready ↦ true ]

  -- The steps after which the instance `own` is no longer awaited: an update of it has been
  -- loaded, or it has disappeared.
  abbrev pub releases : LoopStep c.Update → Bool
  releases (loaded i u) = equal_bytes own i && may_end u
  releases (gone is) = contains own is
  releases sent = false

  abbrev pub released : List (LoopStep c.Update) → Bool
  released [] = false
  released (x ∷ xs) = releases x || released xs

  -- Every snapshot is sent behind such a step, or `done` holds from the start.
  abbrev pub sends_after : Bool → List (LoopStep c.Update) → Bool
  sends_after done [] = true
  sends_after done (sent ∷ xs) = done && sends_after done xs
  sends_after done (x ∷ xs) = sends_after (done || releases x) xs

  -- What holds between two steps of the loop.
  abbrev pub Waits : InstanceSet → List (LoopStep c.Update) → Type 0
  Waits waiting log =
      (sends_after false log ≡ true) × ((has_instance waiting own ≡ true) ⊎ (released log ≡ true))

  released-append :
      (xs ys : List (LoopStep c.Update)) → released (xs ++ ys) ≡ (released xs || released ys)
  released-append [] ys = refl
  released-append (x ∷ xs) ys = ground (arith, released-append xs ys)

  sends_after-append :
      (done : Bool) (xs ys : List (LoopStep c.Update))
      → sends_after done (xs ++ ys) ≡ (sends_after done xs && sends_after (done || released xs) ys)
  sends_after-append done [] ys = ground arith
  sends_after-append done (loaded i u ∷ xs) ys =
      ground (arith, sends_after-append (done || releases (loaded i u)) xs ys)
  sends_after-append done (gone is ∷ xs) ys =
      ground (arith, sends_after-append (done || contains own is) xs ys)
  sends_after-append done (sent ∷ xs) ys = ground (arith, sends_after-append done xs ys)

  wait_after_lem :
      (st : LoopState c) (i : Bytes) (u : c.Update)
      → has_instance st.waiting own ≡ true
      → (has_instance (wait_after c st i u) own ≡ true) ⊎ (releases (loaded i u) ≡ true)
  unfolding wait_after ends_wait
  wait_after_lem st i u h =
      ground (arith, h, (add-remove-has_instance st.waiting i own).1, equal_bytes_sym own i)

  Waits-append :
      (waiting waiting' : InstanceSet) (log : List (LoopStep c.Update)) (x : LoopStep c.Update)
      → (x ≡ sent → released log ≡ true)
      → ((has_instance waiting own ≡ true)
          → (has_instance waiting' own ≡ true) ⊎ (releases x ≡ true))
      → Waits waiting log
      → Waits waiting' (log ++ (x ∷ []))
  Waits-append waiting waiting' log x s f (safe, w) =
      ground
        (arith, s, f, safe, w, sends_after-append false log (x ∷ []), released-append log (x ∷ []))

  Waits-load_update :
      (st st' : LoopState c) (i : Bytes) (u : c.Update) (b : Bool)
      → Waits st.waiting st.log
      → load_update c st i u ≡ ok (b, st')
      → Waits st'.waiting st'.log
  unfolding load_update
  Waits-load_update st st' i u b w h =
      let (p, e, e') = >>=-eq-ok (c.load_once st.world i u st.last_synced) _ h in
      subst (λ (s : LoopState c). Waits s.waiting s.log) (ok_pair e')
        (Waits-append st.waiting (wait_after c st i u) st.log (loaded i u) (λ a. cc)
          (wait_after_lem st i u) w)

  Waits-load_next :
      (further : ℕ → LoopState c → Result (ℕ × LoopState c)) (n m : ℕ) (st st' : LoopState c)
      (next : Option (Bytes × c.Update))
      → ((n m : ℕ) (st st' : LoopState c)
          → Waits st.waiting st.log
          → further n st ≡ ok (m, st')
          → Waits st'.waiting st'.log)
      → Waits st.waiting st.log
      → load_next c further n st next ≡ ok (m, st')
      → Waits st'.waiting st'.log
  unfolding load_next
  Waits-load_next further n m st st' none ih w h =
      subst (λ (s : LoopState c). Waits s.waiting s.log) (ok_pair h) w
  Waits-load_next further n m st st' (some (i, u)) ih w h =
      let ((b, mid), e, e') = >>=-eq-ok (load_update c st i u) _ h in
      let kept = Waits-load_update st mid i u b w e in
      let n' = if c.is_snapshot u then n + 1 else n in
      elim (branch (b && ltb 10 n') (ok (n', mid)) (further n' mid) e') [
        | inl (t, stopped) ↦
            subst (λ (r : ℕ × LoopState c). Waits r.1.waiting r.1.log) (ok_inj stopped) kept
        | inr (f, goes_on) ↦ ih n' m mid st' kept goes_on
      ]

  pub Waits-load_ready :
      (fuel n m : ℕ) (st st' : LoopState c)
      → Waits st.waiting st.log
      → load_ready c fuel n st ≡ ok (m, st')
      → Waits st'.waiting st'.log
  unfolding load_ready
  Waits-load_ready zero n m st st' w h = cc
  Waits-load_ready (suc fuel) n m st st' w h =
      Waits-load_next (load_ready c fuel) n m (record st { world = (c.next st.world).1 }) st'
        (c.next st.world).0 (Waits-load_ready fuel) w h

  -- `sort.Strings` keeps the elements.
  abbrev pub Sorts : Type 0
  Sorts = (i : Bytes) (xs : List Bytes) → contains i (c.sort xs) ≡ contains i xs

  clean_disappeared_lem :
      Sorts
      → (s : InstanceSet) (seen : List Bytes) → has_instance s own ≡ true
      → (has_instance (clean_disappeared c.sort s seen).0 own ≡ true)
        ⊎ (contains own (clean_disappeared c.sort s seen).1 ≡ true)
  unfolding clean_disappeared has_instance
  clean_disappeared_lem sorts s seen h = elim (Bool-cases (contains own seen)) [
    | inl e ↦ inl (clean_disappeared-has_instance c.sort s seen own ∙ both h e)
    | inr e ↦ inr (
        sorts own (filter (λ name. not (contains name seen)) s)
        ∙ contains-filter (λ name. not (contains name seen)) own s
        ∙ both h (ap not e))
  ]

  pub Waits-clean_waiting :
      Sorts
      → (st : LoopState c) → Waits st.waiting st.log
      → Waits (clean_waiting c st).waiting (clean_waiting c st).log
  unfolding clean_waiting
  Waits-clean_waiting sorts st w = elim (Bool-cases (is_done st.waiting)) [
    | inl t ↦ rw t w
    | inr f ↦ rw f (
        Waits-append st.waiting _ st.log (gone _) (λ a. cc)
          (clean_disappeared_lem sorts st.waiting (c.seen_instances st.world)) w)
  ]

  store_snapshot_lem :
      (st st' : LoopState c)
      → store_snapshot c st ≡ ok st'
      → (st'.waiting ≡ st.waiting) × (st'.log ≡ st.log ++ (sent ∷ []))
  unfolding store_snapshot
  store_snapshot_lem st st' h =
      let (p, e, e') = >>=-eq-ok (c.send_once st.world) _ h in
      (
        ap (λ (r : Result (LoopState c)). elim r [ err x ↦ st.waiting | ok s ↦ s.waiting ])
            (sym e'),
        ap (λ (r : Result (LoopState c)). elim r [ err x ↦ st.log | ok s ↦ s.log ]) (sym e'),
      )

  pub Waits-store_snapshot :
      (st st' : LoopState c)
      → has_instance st.waiting own ≡ false
      → Waits st.waiting st.log
      → store_snapshot c st ≡ ok st'
      → Waits st'.waiting st'.log
  Waits-store_snapshot st st' n w h =
      let (e, e') = store_snapshot_lem st st' h in
      rw (e, e')
        (Waits-append st.waiting st.waiting st.log sent (λ a. ground (arith, n, w.1)) (λ a. inl a)
          w)

  pub Waits-send_changes :
      (conf : LoopConfig) (has_data : Bool) (last : ℕ) (overdue : Bool) (st st' : LoopState c)
      → conf.own_instance ≡ own
      → Waits st.waiting st.log
      → send_changes c conf has_data last overdue st ≡ ok st'
      → Waits st'.waiting st'.log
  unfolding send_changes
  Waits-send_changes conf has_data last overdue st st' o w h =
      elim (branch (ltb st.last_synced last || overdue) _ (ok st) h) [
        | inr (f, e) ↦ subst (λ (s : LoopState c). Waits s.waiting s.log) (ok_inj e) w
        | inl (t, h') ↦ elim (branch (has_instance st.waiting conf.own_instance) (ok st) _ h') [
          | inl (i, e) ↦ subst (λ (s : LoopState c). Waits s.waiting s.log) (ok_inj e) w
          | inr (i, h'') ↦ elim (branch (has_data || ltb 0 last) _ _ h'') [
            | inl (d, e) ↦
                Waits-store_snapshot (record st { last_synced = last }) st'
                  (subst (λ x. has_instance st.waiting x ≡ false) o i) w e
            | inr (d, e) ↦ subst (λ (s : LoopState c). Waits s.waiting s.log) (ok_inj e) w
          ]
        ]
      ]
