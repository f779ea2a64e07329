-- ===== src/Syncer/Loads.antt =====
-- What the loads of a pass lead to.
use lightningstream.Base.{
  ℕ, zero, suc, ◌+◌, ◌≤◌, ◌≡◌, refl, inl, inr, arith, ◌⊎◌, Bool, true, Option, none, some, List, [],
  ◌∷◌, ◌++◌, ltb, Bool-cases,
}
use lightningstream.Base.Bytes.{Bytes}
use lightningstream.Base.Result.{Result, Error, ok, err, Result-cases}
use lightningstream.Syncer.Loop.{
  Calls, LoopStep, loaded, gone, sent, LoopState, load_update, load_next, load_ready, wait_after,
  max_consecutive_snapshot_loads,
}

module _ (c : Calls) (P : c.State → ℕ → Type 0) where
  -- Where a state and the transaction that counts as synced satisfy `P`: `Next` keeps it, hands out
  -- snapshots only, and a load that succeeds reports local changes and keeps it.
  pub record FindsChanges : Type 0 where
    pub next_lem : (w : c.State) (last : ℕ) → P w last → P (c.next w).1 last
    pub snapshot_lem :
        (w : c.State) (last : ℕ) (i : Bytes) (u : c.Update)
        → P w last
        → (c.next w).0 ≡ some (i, u)
        → c.is_snapshot u ≡ true
    pub load_lem :
        (w w' : c.State) (i : Bytes) (u : c.Update) (last txn_id : ℕ) (local_changed : Bool)
        → P w last
        → c.load_once w i u last ≡ ok (txn_id, local_changed, w')
        → (local_changed ≡ true) × P w' last

  -- The error is one that `LoadOnce` has returned.
  abbrev pub IsRefused : Error → Type 0
  IsRefused e =
      (w : c.State) × (i : Bytes) × (u : c.Update) × (last : ℕ) × (c.load_once w i u last ≡ err e)

  -- The loop ends with a number of snapshots that is at most 11, or with an error of `LoadOnce`.
  abbrev pub Stops : Result (ℕ × LoopState c) → Type 0
  Stops r =
      ((n : ℕ) × (st : LoopState c) × (r ≡ ok (n, st)) × (n ≤ 11))
      ⊎ ((e : Error) × (r ≡ err e) × IsRefused e)

  load_next-Stops :
      (further : ℕ → LoopState c → Result (ℕ × LoopState c)) (k n : ℕ) (st : LoopState c)
      (next : Option (Bytes × c.Update))
      → FindsChanges
      → P st.world st.last_synced
      → ((i : Bytes) (u : c.Update) → next ≡ some (i, u) → c.is_snapshot u ≡ true)
      → n + suc k ≡ 11
      → ((m : ℕ) (st : LoopState c)
          → m + k ≡ 11
          → m ≤ 10
          → P st.world st.last_synced
          → Stops (further m st))
      → Stops (load_next c further n st next)
  unfolding load_next load_update
  load_next-Stops further k n st none finds p snaps e ih = inl (n, st, refl, omega arith)
  load_next-Stops further k n st (some (i, u)) finds p snaps e ih =
      elim (Result-cases (c.load_once st.world i u st.last_synced)) [
        | inr (x, g) ↦ inr (x, rw (g, load_next) refl, (st.world, i, u, st.last_synced, g))
        | inl ((txn_id, local_changed, w), g) ↦
            (let (changed, p') =
                finds.load_lem st.world w i u st.last_synced txn_id local_changed p g in
              let st' : LoopState c = record st {
                world = w;
                waiting = wait_after c st i u;
                log = st.log ++ (loaded i u ∷ []);
              } in
              let eu : load_update c st i u ≡ ok (true, st') = rw (g, changed, load_update) refl in
              elim (Bool-cases (ltb 10 (n + 1))) [
                | inl t ↦ rw (eu, snaps i u refl, t) (inl (n + 1, st', refl, omega arith))
                | inr f ↦
                    rw (eu, snaps i u refl, f) (ih (n + 1) st' (omega arith) (ground arith) p')
              ])
      ]

  load_ready-Stops-from :
      (k n : ℕ) (st : LoopState c)
      → FindsChanges
      → P st.world st.last_synced
      → n + k ≡ 11
      → n ≤ 10
      → Stops (load_ready c k n st)
  unfolding load_ready
  load_ready-Stops-from zero n st finds p e h = absurd (omega arith)
  load_ready-Stops-from (suc k) n st finds p e h =
      load_next-Stops (load_ready c k) k n (record st { world = (c.next st.world).1 })
        (c.next st.world).0 finds (finds.next_lem st.world st.last_synced p)
        (λ i u g. finds.snapshot_lem st.world st.last_synced i u p g) e
        (λ m st' e' h' p'. load_ready-Stops-from k m st' finds p' e' h')

  pub load_ready-Stops :
      (st : LoopState c)
      → FindsChanges
      → P st.world st.last_synced
      → Stops (load_ready c (max_consecutive_snapshot_loads + 1) 0 st)
  load_ready-Stops st finds p = load_ready-Stops-from 11 0 st finds p refl (omega arith)

module _ (c : Calls) where
  -- The number of snapshots that the loop has sent.
  abbrev pub sent_count : List (LoopStep c.Update) → ℕ
  sent_count [] = 0
  sent_count (sent ∷ xs) = suc (sent_count xs)
  sent_count (loaded i u ∷ xs) = sent_count xs
  sent_count (gone is ∷ xs) = sent_count xs

  pub sent_count-append :
      (xs ys : List (LoopStep c.Update)) → sent_count (xs ++ ys) ≡ sent_count xs + sent_count ys
  sent_count-append [] ys = omega arith
  sent_count-append (loaded i u ∷ xs) ys = sent_count-append xs ys
  sent_count-append (gone is ∷ xs) ys = sent_count-append xs ys
  sent_count-append (sent ∷ xs) ys = omega (arith, sent_count-append xs ys)
