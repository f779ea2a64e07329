-- ===== src/Health/Tests.antt =====
-- What is reported after two failures behind a success.
use lightningstream.Base.{◌^◌, ◌-◌, ◌≡◌, refl, [], ◌∷◌}
use lightningstream.Health.{
  HealthConfig, HealthTracker, Report, new_tracker, add_failure, add_success, validated, check,
}

abbrev config : HealthConfig
config = record { evaluation_interval = 5; warn_duration = 10; error_duration = 20 }

abbrev failed_twice : HealthTracker
failed_twice =
    add_failure (add_failure (add_success (add_failure new_tracker (3 ∷ []) 1)) (1 ∷ []) 15)
      (2 ∷ []) 25

warns : check config failed_twice 30 ≡ Report.warning 15 (2 ∷ [])
unfolding check validated add_failure add_success
warns = refl

-- A negative duration counts as none.
fails_at_once :
    check (record config { error_duration = 2 ^ 64 - 1 }) failed_twice 15
    ≡ Report.failure 0 (2 ∷ [])
unfolding check validated add_failure add_success
fails_at_once = refl
