-- ===== src/Syncer/Retry.antt =====
-- The loop that stores a snapshot.
use lightningstream.Base.{
  ℕ, zero, suc, ◌+◌, ◌%◌, ◌^◌, ◌<◌, ◌≡◌, refl, subst, ◌⊎◌, inl, inr, arith, Bool, true, false, none,
  some, [], Option-cases,
}
use lightningstream.Base.Bytes.{Bytes}
use lightningstream.Base.Result.{ok, >>=-eq-ok, ok_inj}
use lightningstream.Health.{HealthTracker, add_failure, add_success}
use lightningstream.Syncer.Send.{Storage, store_loop}

module _ (s : Storage) where
  -- The storage answers a number of calls of `Store` with an error, and every sleep that follows
  -- ends without one.
  pub data Fails : ℕ → s.State → s.State → Type 0 where
    no_more : (w : s.State) → Fails 0 w w
    fails :
        (n : ℕ) (w w1 w2 : s.State) (text : Bytes)
        → (s.store w).0 ≡ some text
        → s.sleep (s.store w).1 ≡ ok w1
        → Fails n w1 w2
        → Fails (suc n) w w2

  -- The storage fails for fewer than `n` calls, and then answers without an error.
  abbrev pub Stores : ℕ → s.State → s.State → Type 0
  Stores n w w' =
      (k : ℕ) × (w1 : s.State) × (k < n)
      × Fails k w w1
      × ((s.store w1).0 ≡ none)
      × (s.update_stored (s.store w1).1 ≡ ok w')

  -- What the loop leaves, from what the storage answered: success and a tracker without failures,
  -- or no success and a tracker that has counted all `n` failures.
  abbrev pub Ends : ℕ → HealthTracker → s.State → Bool × HealthTracker × s.State → Type 0
  Ends n ht w (stored, ht', w') =
      (Stores n w w' × (stored ≡ true) × (ht'.sequence ≡ 0) × (ht'.last_err ≡ []))
      ⊎ (Fails n w w' × (stored ≡ false) × (ht'.sequence ≡ (ht.sequence + n) % 2 ^ 32))

  counted :
      (n : ℕ) (ht ht1 : HealthTracker) (w w1 : s.State) (text : Bytes)
      (r : Bool × HealthTracker × s.State)
      → ht1.sequence ≡ (ht.sequence + 1) % 2 ^ 32
      → (s.store w).0 ≡ some text
      → s.sleep (s.store w).1 ≡ ok w1
      → Ends n ht1 w1 r
      → Ends (suc n) ht w r
  counted n ht ht1 w w1 text r e answer slept
        (inl ((k, w2, lt, failed, stored, u), success, quiet, forgotten)) =
      inl (
        (suc k, w2, omega arith, fails k w w1 w2 text answer slept failed, stored, u),
        success,
        quiet,
        forgotten,
      )
  counted n ht ht1 w w1 text r e answer slept (inr (failed, failure, c)) =
      inr (fails n w w1 _ text answer slept failed, failure, omega (arith, e, c))

  store_loop-Ends-from :
      (n : ℕ) (ht : HealthTracker) (w : s.State) (r : Bool × HealthTracker × s.State)
      → ht.sequence < 2 ^ 32
      → store_loop s false n false ht w ≡ ok r
      → Ends n ht w r
  unfolding store_loop add_failure add_success
  store_loop-Ends-from zero ht w r lt h =
      subst (Ends 0 ht w) (ok_inj h) (inr (no_more w, refl, omega arith))
  store_loop-Ends-from (suc n) ht w r lt h = elim (Option-cases (s.store w).0) [
    | inl e ↦
        (let (w2, u, h') = >>=-eq-ok (s.update_stored (s.store w).1) _ (rw (e, store_loop) at h) in
          subst (Ends (suc n) ht w) (ok_inj h')
            (inl ((0, w, omega arith, no_more w, e, u), refl, refl, refl)))
    | inr (text, e) ↦
        (let (w2, u, h') = >>=-eq-ok (s.sleep (s.store w).1) _ (rw (e, store_loop) at h) in
          counted n ht (add_failure ht text (s.now (s.store w).1)) w w2 text r refl e u (
            store_loop-Ends-from n (add_failure ht text (s.now (s.store w).1)) w2 r (omega arith)
              h'))
  ]

  -- With a `StorageRetryCount` of at least 1, where no hook and no cancellation ends the loop
  -- early: either the storage answered without an error after fewer failures than there are
  -- attempts, the loop reports success, and the health tracker has no failure and no error left, or
  -- the storage answered each of the attempts with an error, the loop reports no success, and the
  -- tracker has counted one failure more for each of them.
  pub store_loop-Ends :
      (n : ℕ) (ht : HealthTracker) (w : s.State) (r : Bool × HealthTracker × s.State)
      → ht.sequence < 2 ^ 32
      → store_loop s false (suc n) true ht w ≡ ok r
      → Ends (suc n) ht w r
  unfolding store_loop
  store_loop-Ends n ht w r lt h = store_loop-Ends-from (suc n) ht w r lt h
