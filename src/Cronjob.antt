-- ===== src/Cronjob.antt =====
-- The cronjob check, a checker pod of its own (cmd/cronjob-checker/main.go). `next` is the next run time
-- of a schedule, a function of the cron library. Logging is left out.
pub mod Last
use kuberhealthy.Prelude.{
  ℕ, zero, suc, ◌+◌, ◌-◌, ◌*◌, ◌==◌, ltb, Bool, true, false, not, ◌&&◌, Option, none, some, List,
  [], ◌∷◌, Text, if◌then◌else◌,
}
use kuberhealthy.Api.Results.{Reply, reply, refuse}
use kuberhealthy.Store.{second}

-- The loop of `findLastCronRunTime`, for a number of rounds
unfoldable pub walk : (rounds : ℕ) (next : ℕ → ℕ) (now time_marker : ℕ) → Option ℕ
walk zero next now time_marker = none
walk (suc rounds) next now time_marker =
    let rest = walk rounds next now (next time_marker) in
    if ltb now (next time_marker) then some time_marker else rest

-- A cronjob: its last schedule time in the listing, and what a Get of it answers: its schedule and that
-- time, which is there.
pub record CronJob : Type 0 where
  pub name : Text
  pub last_schedule_time : Option ℕ
  pub got : Reply ((ℕ → ℕ) × ℕ)
  -- The two readings of the clock when it is looked at.
  pub started : ℕ
  pub now : ℕ

abbrev pub half_window : ℕ
half_window = 300 * second

-- `scheduleWindow`: the time lies within five minutes of another.
abbrev pub is_in_window : (should_have_run last_run_time : ℕ) → Bool
is_in_window should_have_run last_run_time =
    ltb should_have_run (last_run_time + half_window)
    && ltb last_run_time (should_have_run + half_window)

abbrev pub one_year : ℕ
one_year = 366 * (24 * (3600 * second))

-- `findLastCronRunTime`, which reads the clock twice: `started` for the year to go back, and then `now`
unfoldable pub find_last_cron_run_time : (rounds : ℕ) (next : ℕ → ℕ) (started now : ℕ) → Option ℕ
find_last_cron_run_time rounds next started now = walk rounds next now (started - one_year)

abbrev pub is_late : (last_run_time : ℕ) → Option ℕ → Bool
is_late last_run_time none = false
is_late last_run_time (some should_have_run) = not (is_in_window should_have_run last_run_time)

-- One round of the loop over the cronjobs: whether it counts as a problem. One that has not been
-- scheduled, or that a Get does not find, is passed over.
abbrev pub is_problem : (rounds started now : ℕ) → Option ℕ → Reply ((ℕ → ℕ) × ℕ) → Bool
is_problem rounds started now none got = false
is_problem rounds started now (some t) (refuse e) = false
is_problem rounds started now (some t) (reply (next, last_run_time)) =
    is_late last_run_time (find_last_cron_run_time rounds next started now)

-- `probCount` after the loop
unfoldable pub prob_count : (rounds : ℕ) → List CronJob → ℕ
prob_count rounds [] = 0
prob_count rounds (c ∷ jobs) =
    let rest = prob_count rounds jobs in
    if is_problem rounds c.started c.now c.last_schedule_time c.got then suc rest else rest

-- What `main` reports for the listing, which is empty if it fails: whether it is a success.
unfoldable pub reports_success : (rounds : ℕ) → Reply (List CronJob) → Bool
reports_success rounds (refuse e) = true
reports_success rounds (reply jobs) = prob_count rounds jobs == 0
