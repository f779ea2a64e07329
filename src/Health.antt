-- ===== src/Health.antt =====
-- status/healthtracker/healthtracker.go with config.go: the state of a tracker and what its check
-- reports. Times are nanoseconds. The atomic operations of one call of AddFailure or AddSuccess are
-- taken as one step. That is right for the tracker of the stores, which has one goroutine; the calls
-- of the tracker of the loads, which all downloaders share, interleave, and are not taken from here.
mod Tests
use lightningstream.Base.{
  ℕ, ◌+◌, ◌-◌, ◌%◌, ◌^◌, Option, none, some, ltb, leb, ◌==◌, if◌then◌else◌, List, [], ◌∷◌,
}
use lightningstream.Base.Bytes.{Bytes}

-- `HealthConfig`; the durations are signed.
pub record HealthConfig : Type 0 where
  pub evaluation_interval : ℕ
  pub warn_duration : ℕ
  pub error_duration : ℕ

-- `Validated`, with the constants that it enforces.
abbrev pub min_evaluation_interval : ℕ
min_evaluation_interval = 1000000000

abbrev pub min_duration : ℕ
min_duration = 0

abbrev pub signed_max : ℕ → ℕ → ℕ
signed_max low d = if ltb ((d + 2 ^ 63) % 2 ^ 64) ((low + 2 ^ 63) % 2 ^ 64) then low else d

unfoldable pub validated : HealthConfig → HealthConfig
validated hc = record {
  evaluation_interval = signed_max min_evaluation_interval hc.evaluation_interval;
  warn_duration = signed_max min_duration hc.warn_duration;
  error_duration = signed_max min_duration hc.error_duration;
}

-- `HealthTracker`: the fields that change.
pub record HealthTracker : Type 0 where
  pub sequence : ℕ
  pub since : ℕ
  pub last_err : Bytes

-- What the check registered with healthz returns.
pub data Report : Type 0 where
  healthy : Report
  warning failure : (failing_for : ℕ) → (last_err : Bytes) → Report

-- `New`
abbrev pub new_tracker : HealthTracker
new_tracker = record { sequence = 0; since = 0; last_err = [] }

-- `AddFailure`; the counter has 32 bits.
unfoldable pub add_failure : HealthTracker → Bytes → ℕ → HealthTracker
add_failure ht e now = record {
  sequence = (ht.sequence + 1) % 2 ^ 32;
  since = if ht.sequence == 0 then now else ht.since;
  last_err = e;
}

-- `AddSuccess`
unfoldable pub add_success : HealthTracker → HealthTracker
add_success ht = record ht { sequence = 0; last_err = [] }

-- The function that `RegisterDuration` registers, with the configuration that `New` has validated. `time.Since(t) >= d` is written `t + d <= now`.
unfoldable pub check : HealthConfig → HealthTracker → ℕ → Report
unfolding validated
check hc ht now =
    let conf = validated hc in
    if ltb 0 ht.sequence
    then (if leb (ht.since + conf.error_duration) now
        then Report.failure (now - ht.since) ht.last_err
        else if leb (ht.since + conf.warn_duration) now
        then Report.warning (now - ht.since) ht.last_err
        else Report.healthy)
    else Report.healthy
