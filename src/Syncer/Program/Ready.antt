-- ===== src/Syncer/Program/Ready.antt =====
-- The loop over the updates that are ready, with the calls of the program.
use mathlib.Core.Option
use lightningstream.Base.{
  ℕ, ◌+◌, ◌<◌, ◌≡◌, ◌⊎◌, refl, sym, ap, subst, ◌∙◌, inl, inr, arith, Bool, true, false, Option,
  none, some, List, [], ◌∷◌, head?, is_empty, All, Bool-cases, Option-cases,
}
use lightningstream.Base.Bytes.{Bytes, equal_bytes}
use lightningstream.Base.Maps.{find}
use lightningstream.Base.Result.{ok, >>=-eq-ok, ok_inj}
use lightningstream.Climit.{release}
use lightningstream.Lmdb.{Lmdb}
use lightningstream.Snapshot.Name.{kind_snapshot}
use lightningstream.Receiver.Downloader.{Pipeline, Update, remove, next, close}
use lightningstream.Syncer.Env.{Env, SyncConfig}
use lightningstream.Syncer.Read.{FilterParams}
use lightningstream.Syncer.Load.{Snap, load_once, load_txn, has_local_changes}
use lightningstream.Syncer.Loading.{NumbersTxns, txn_id-load_txn}
use lightningstream.Syncer.Send.{Storage}
use lightningstream.Syncer.Loop.{LoopState, load_ready, max_consecutive_snapshot_loads}
use lightningstream.Syncer.Loads.{Stops, load_ready-Stops}
use lightningstream.Syncer.Program.{
  Running, Surroundings, Taken, next_update, load_and_close, with_update, calls,
}

-- The updates that are ready are of the kind of snapshots.
abbrev pub IsSnapshot : Update Snap → Type 0
IsSnapshot u = equal_bytes u.name_info.kind kind_snapshot ≡ true

abbrev pub AllSnapshots : List (Bytes × Update Snap) → Type 0
AllSnapshots m = All (λ (e : Bytes × Update Snap). IsSnapshot e.1) m

OptSnapshot : Option (Update Snap) → Type 0
OptSnapshot none = Unit
OptSnapshot (some u) = IsSnapshot u

find-snapshot :
    (i : Bytes) (m : List (Bytes × Update Snap)) → AllSnapshots m → OptSnapshot (find i m)
unfolding find OptSnapshot
find-snapshot i [] h = tt
find-snapshot i ((x, u) ∷ m) (h, hs) =
    elim (equal_bytes i x) as (λ b. OptSnapshot (elim b [ true ↦ some u | false ↦ find i m ])) [
      | true ↦ h
      | false ↦ find-snapshot i m hs
    ]

remove-snapshots :
    (i : Bytes) (m : List (Bytes × Update Snap)) → AllSnapshots m → AllSnapshots (remove i m)
unfolding remove
remove-snapshots i [] h = tt
remove-snapshots i ((x, u) ∷ m) (h, hs) =
    elim (equal_bytes i x)
      as (λ b. AllSnapshots (elim b [ true ↦ m | false ↦ (x, u) ∷ remove i m ])) [
        | true ↦ hs
        | false ↦ (h, remove-snapshots i m hs)
      ]

some_inj {ℓ} : {A : Type ℓ} {a b : A} → some a ≡ some b → a ≡ b
some_inj {a = a} e = ap (λ o. Option.get_or o a) e

next-snapshots :
    (p p' : Pipeline Snap) (i : Bytes)
    → AllSnapshots p.snapshots_by_instance
    → next p i ≡ some p'
    → AllSnapshots p'.snapshots_by_instance × OptSnapshot (head? p'.taken)
unfolding next OptSnapshot
next-snapshots p p' i h e = elim (Bool-cases (is_empty i)) [
  | inl t ↦ absurd (cc (rw (t, next) at e))
  | inr f ↦ elim (Option-cases (find i p.snapshots_by_instance)) [
    | inl g ↦ absurd (cc (rw (f, g, next) at e))
    | inr (u, g) ↦
        subst
          (λ (q : Pipeline Snap).
            AllSnapshots q.snapshots_by_instance × OptSnapshot (head? q.taken))
          (some_inj (rw (f, g, next) at e))
          (
            remove-snapshots i p.snapshots_by_instance h,
            subst OptSnapshot g (find-snapshot i p.snapshots_by_instance h),
          )
  ]
]

List-cases {ℓ} :
    {A : Type ℓ} (xs : List A) → (xs ≡ []) ⊎ ((y : A) × ((ys : List A) × (xs ≡ y ∷ ys)))
List-cases [] = inl refl
List-cases (y ∷ ys) = inr (y, (ys, refl))

close-snapshots :
    (p p' : Pipeline Snap) → close p ≡ some p' → p'.snapshots_by_instance ≡ p.snapshots_by_instance
unfolding close
close-snapshots p p' e = elim (List-cases p.taken) [
  | inl t ↦ absurd (cc (rw (t, close) at e))
  | inr (u, (us, t)) ↦ elim (Option-cases (release p.decompressed_snapshot_limit u.token)) [
    | inl g ↦ absurd (cc (rw (t, g, close) at e))
    | inr (limit, g) ↦
        ap (λ (q : Pipeline Snap). q.snapshots_by_instance) (sym (some_inj (rw (t, g, close) at e)))
  ]
]

module _ (l : Lmdb) (env : Env l) (conf : SyncConfig) (filter : Option (FilterParams → Bool))
    (s : Storage) (around : Surroundings env s) where
  -- LMDB has a transaction that is newer than the one that counts as synced, and only snapshots are
  -- ready.
  abbrev pub HasChanges : Running env s → ℕ → Type 0
  HasChanges w last =
      ((n : ℕ) × (env.last_txn_id w.world ≡ ok n) × (last < n))
      × AllSnapshots w.pipeline.snapshots_by_instance

  with_update-IsSnapshot :
      (inst i : Bytes) (o : Option (Taken l env conf filter s around))
      (u : Taken l env conf filter s around)
      → OptSnapshot o
      → with_update l env conf filter s around inst o ≡ some (i, u)
      → IsSnapshot u
  unfolding OptSnapshot
  with_update-IsSnapshot inst i none u h e = absurd (cc e)
  with_update-IsSnapshot inst i (some u') u h e =
      subst IsSnapshot (ap (λ (p : Bytes × Update Snap). p.1) (some_inj e)) h

  load_once-changes :
      (now ts : ℕ) (i : Bytes) (u : lightningstream.Syncer.Load.Update) (last n txn_id : ℕ)
      (local_changed : Bool) (w w' : env.World) (by by' : List (Bytes × ℕ))
      → NumbersTxns l env
      → env.last_txn_id w ≡ ok n
      → last < n
      → load_once l env conf filter now ts i u last (w, by) ≡ ok (txn_id, local_changed, (w', by'))
      → (local_changed ≡ true) × (m : ℕ) × (env.last_txn_id w' ≡ ok m) × (last < m)
  unfolding load_once
  load_once-changes now ts i u last n txn_id local_changed w w' by by' numbers e0 le h =
      let (t, e1, h1) = >>=-eq-ok (env.begin w) _ h in
      let (t', e2, h2) = >>=-eq-ok (load_txn l env conf filter now ts u.snapshot last t) _ h1 in
      let (w1, e3, h3) = >>=-eq-ok (env.commit t') _ h2 in
      let (last', e4, h4) = >>=-eq-ok (env.last_txn_id w1) _ h3 in
      let (id, lt) = numbers.begin_lem w t n e0 e1 in
      let same = txn_id-load_txn l env conf filter now ts u.snapshot last t t' numbers e2 in
      let newer : last < last' = elim (numbers.commit_lem t' w1 e3) [
        | inl a ↦ (let g = ok_inj (sym e4 ∙ a) in omega (arith, g, same, id, le))
        | inr a ↦ (let g = ok_inj (sym e4 ∙ a) in omega (arith, g, same, id, le))
      ] in
      let found : has_local_changes last (env.txn_id t) ≡ true = ground (arith, id, le, lt) in
      subst
        (λ (r : ℕ × Bool × (env.World × List (Bytes × ℕ))).
          (r.1 ≡ true) × (m : ℕ) × (env.last_txn_id r.2.0 ≡ ok m) × (last < m))
        (ok_inj h4) (found, last', e4, newer)

  load_and_close-changes :
      (w w' : Running env s) (i : Bytes) (u : Taken l env conf filter s around) (last txn_id : ℕ)
      (local_changed : Bool)
      → NumbersTxns l env
      → HasChanges w last
      → load_and_close l env conf filter s around w i u last ≡ ok (txn_id, local_changed, w')
      → (local_changed ≡ true) × HasChanges w' last
  unfolding load_and_close close
  load_and_close-changes w w' i u last txn_id local_changed numbers ((n, e, le), all) h =
      let (now, ts) = around.times w in
      let ((id, changed, (world, by)), e1, h1) =
        >>=-eq-ok
          (load_once l env conf filter now ts i
            (record { snapshot = u.snapshot; timestamp = u.name_info.timestamp }) last
            (w.world, w.last_by_instance))
          _ h in
      let (f, m, g, newer) =
        load_once-changes now ts i
          (record { snapshot = u.snapshot; timestamp = u.name_info.timestamp }) last n id changed
          w.world world w.last_by_instance by numbers e le e1 in
      elim (Option-cases (close w.pipeline)) [
        | inl c ↦ absurd (cc (rw c at h1))
        | inr (p, c) ↦
            subst (λ (r : ℕ × Bool × Running env s). (r.1 ≡ true) × HasChanges r.2 last)
              (ok_inj (rw c at h1)) (f, ((m, g, newer), rw (close-snapshots w.pipeline p c) all))
      ]

  next_update-changes :
      (w : Running env s) (last : ℕ)
      → HasChanges w last
      → HasChanges (next_update l env conf filter s around w).1 last
  unfolding next_update
  next_update-changes w last (newer, all) =
      elim (Option-cases (next w.pipeline (around.first w.pipeline))) [
        | inl e ↦ rw (e, next_update) (newer, all)
        | inr (p, e) ↦
            rw (e, next_update)
              (newer, (next-snapshots w.pipeline p (around.first w.pipeline) all e).0)
      ]

  next_update-IsSnapshot :
      (w : Running env s) (i : Bytes) (u : Taken l env conf filter s around)
      → AllSnapshots w.pipeline.snapshots_by_instance
      → (next_update l env conf filter s around w).0 ≡ some (i, u)
      → IsSnapshot u
  unfolding next_update OptSnapshot
  next_update-IsSnapshot w i u all h =
      elim (Option-cases (next w.pipeline (around.first w.pipeline))) [
        | inl e ↦ absurd (cc (rw (e, next_update) at h))
        | inr (p, e) ↦
            with_update-IsSnapshot (around.first w.pipeline) i (head? p.taken) u
              (next-snapshots w.pipeline p (around.first w.pipeline) all e).1
              (rw (e, next_update) at h)
      ]

  -- Where LMDB numbers its transactions one after the other, it has a transaction that is newer than
  -- the one that counts as synced, only snapshots are ready, and what the application and the other
  -- goroutines do before a call of `Next` keeps it so: the loop over the updates that are ready ends
  -- within 11 rounds, whatever further updates are ready. It has then loaded at most 11 snapshots,
  -- one more than `MaxConsecutiveSnapshotLoads`, or it ends with an error that `LoadOnce` has
  -- returned.
  pub program-Stops :
      (st : LoopState (calls l env conf filter s around))
      → NumbersTxns l env
      → ((w : Running env s) (last : ℕ) → HasChanges w last → HasChanges (around.meanwhile w) last)
      → HasChanges st.world st.last_synced
      → Stops
          (calls l env conf filter s around)
          HasChanges
          (load_ready (calls l env conf filter s around) (max_consecutive_snapshot_loads + 1) 0 st)
  program-Stops st numbers keeps changes =
      load_ready-Stops (calls l env conf filter s around) HasChanges st
        (record {
          next_lem = λ w last h. next_update-changes (around.meanwhile w) last (keeps w last h);
          snapshot_lem = λ w last i u h e.
              next_update-IsSnapshot (around.meanwhile w) i u (keeps w last h).1 e;
          load_lem = λ w w' i u last txn_id changed h e.
              load_and_close-changes w w' i u last txn_id changed numbers h e;
        })
        changes
