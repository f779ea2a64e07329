-- ===== src/Startup/Progress.antt =====
-- When the startup phase is over.
use lightningstream.Base.{
  ℕ, ◌+◌, ◌-◌, ◌≡◌, refl, arith, Bool, true, false, not, ◌&&◌, ◌||◌, List, [], ◌∷◌, leb,
  if◌then◌else◌,
}
use lightningstream.Startup.{
  StartConfig, StartTracker, StartReport, new_start, Passed, listing, store, pass, set_passed,
  check_start,
}

-- The tracker after a history, the last call first.
unfoldable pub after_calls : ℕ → List Passed → StartTracker
unfolding set_passed
after_calls t [] = new_start t
after_calls t (c ∷ cs) = set_passed c (after_calls t cs)

abbrev same_call : Passed → Passed → Bool
same_call listing listing = true
same_call store store = true
same_call pass pass = true
same_call a b = false

abbrev has_call : Passed → List Passed → Bool
has_call p [] = false
has_call p (c ∷ cs) = same_call p c || has_call p cs

-- All three have been called.
abbrev pub is_started : List Passed → Bool
is_started cs = has_call listing cs && has_call store cs && has_call pass cs

after_calls_flags :
    (t : ℕ) (cs : List Passed)
    → ((after_calls t cs).initial_listing ≡ has_call listing cs)
      × (((after_calls t cs).initial_store ≡ has_call store cs)
          × (((after_calls t cs).initial_receive_and_load ≡ has_call pass cs)
              × (((after_calls t cs).since ≡ t) × ((after_calls t cs).registered ≡ true))))
unfolding after_calls
after_calls_flags t [] = (refl, (refl, (refl, (refl, refl))))
after_calls_flags t (listing ∷ cs) = ground (arith, after_calls_flags t cs)
after_calls_flags t (store ∷ cs) = ground (arith, after_calls_flags t cs)
after_calls_flags t (pass ∷ cs) = ground (arith, after_calls_flags t cs)

-- For a tracker made at the time `t` and any calls of its three setters, in any order and number:
-- the check stays registered exactly until all three have been called. Until then it reports by
-- the time since `t`, if it is to report at all: a failure from `ErrorDuration` on, a warning from
-- `WarnDuration` on. Afterwards it reports nothing.
pub check_start-is_started :
    (sc : StartConfig) (t now : ℕ) (cs : List Passed)
    → ((check_start sc (after_calls t cs) now).0.registered ≡ not (is_started cs))
      × ((check_start sc (after_calls t cs) now).1 ≡ (
          if is_started cs || not sc.report_healthz
          then StartReport.passing
          else if leb (t + sc.error_duration) now
          then StartReport.failure (now - t)
          else if leb (t + sc.warn_duration) now
          then StartReport.warning (now - t)
          else StartReport.passing))
unfolding check_start
check_start-is_started sc t now cs = ground (arith, after_calls_flags t cs)
