-- ===== src/Startup.antt =====
-- status/starttracker/starttracker.go: the state of the startup phase and what its check reports.
-- Times are nanoseconds.
pub mod Progress
mod Tests
use lightningstream.Base.{ℕ, ◌+◌, ◌-◌, Bool, true, false, not, ◌&&◌, ◌||◌, leb, if◌then◌else◌}

-- `StartConfig`: the fields that the check reads, as `Validated` leaves them.
pub record StartConfig : Type 0 where
  pub report_healthz : Bool
  pub report_metadata : Bool
  pub warn_duration : ℕ
  pub error_duration : ℕ

-- `StartTracker`: the fields that change, and what it has told healthz: whether its check is
-- registered, and the value of its metadata.
pub record StartTracker : Type 0 where
  pub initial_listing : Bool
  pub initial_store : Bool
  pub initial_receive_and_load : Bool
  pub since : ℕ
  pub registered : Bool
  pub started_meta : Bool

-- What the check returns.
pub data StartReport : Type 0 where
  passing : StartReport
  warning failure : (pending_for : ℕ) → StartReport

-- `New`
abbrev pub new_start : ℕ → StartTracker
new_start now = record {
  initial_listing = false;
  initial_store = false;
  initial_receive_and_load = false;
  since = now;
  registered = true;
  started_meta = false;
}

-- `SetPassedInitialListing`, `SetPassedInitialStore` and `SetPassCompleted`
pub data Passed : Type 0 where
  listing store pass : Passed

unfoldable pub set_passed : Passed → StartTracker → StartTracker
set_passed listing st = record st { initial_listing = true }
set_passed store st = record st { initial_store = true }
set_passed pass st =
    if not st.initial_receive_and_load then record st { initial_receive_and_load = true } else st

-- The function that `RegisterTracker` registers; healthz calls it while it is registered.
unfoldable pub check_start : StartConfig → StartTracker → ℕ → StartTracker × StartReport
check_start sc st now =
    if not st.initial_listing || not st.initial_store || not st.initial_receive_and_load
    then (if sc.report_healthz
        then (if leb (st.since + sc.error_duration) now
            then (st, StartReport.failure (now - st.since))
            else if leb (st.since + sc.warn_duration) now
            then (st, StartReport.warning (now - st.since))
            else (st, StartReport.passing))
        else (st, StartReport.passing))
    else (
      record st {
        registered = false;
        started_meta = if sc.report_metadata then true else st.started_meta;
      },
      StartReport.passing,
    )
