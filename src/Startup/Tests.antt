-- ===== src/Startup/Tests.antt =====
-- A startup without a stored snapshot so far, and the theorem at it.
use lightningstream.Base.{◌+◌, ◌-◌, ◌≡◌, refl, true, not, ◌||◌, List, [], ◌∷◌, leb, if◌then◌else◌}
use lightningstream.Startup.{StartConfig, StartReport, Passed, check_start}
use lightningstream.Startup.Progress.{after_calls, is_started, check_start-is_started}

abbrev config : StartConfig
config = record {
  report_healthz = true;
  report_metadata = true;
  warn_duration = 10;
  error_duration = 20;
}

abbrev calls : List Passed
calls = Passed.pass ∷ Passed.listing ∷ []

pending : (check_start config (after_calls 5 calls) 16).1 ≡ StartReport.warning 11
unfolding check_start after_calls
pending = refl

check_start-is_started_example :
    ((check_start config (after_calls 5 calls) 16).0.registered ≡ not (is_started calls))
    × ((check_start config (after_calls 5 calls) 16).1 ≡ (
        if is_started calls || not config.report_healthz
        then StartReport.passing
        else if leb (5 + config.error_duration) 16
        then StartReport.failure (16 - 5)
        else if leb (5 + config.warn_duration) 16
        then StartReport.warning (16 - 5)
        else StartReport.passing))
check_start-is_started_example = check_start-is_started config 5 16 calls
