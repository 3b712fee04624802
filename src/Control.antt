-- ===== src/Control.antt =====
-- The control loop of `Kuberhealthy.Start` (cmd/kuberhealthy/kuberhealthy.go) and what it starts
-- and stops: the checks with their wait group, and the reapers.
pub mod Balance
use kuberhealthy.Prelude.{ℕ, ◌+◌, ◌-◌, Bool, true, false, List, [], ◌∷◌, ltb, ◌==◌, if◌then◌else◌}

-- The counts that decide whether the loop goes on.
pub record Control : Type 0 where
  -- len(k.Checks)
  pub checks : ℕ
  -- the counter of k.wg
  pub wg : ℕ
  -- the `reaper` goroutines that run, and whether k.cancelReaperFunc ends one of them
  pub reapers : ℕ
  pub can_cancel_reaper : Bool
  -- the `khStateResourceReaper` goroutines that run
  pub state_reapers : ℕ

pub data Outcome : Type 0 where
  going : Control → Outcome
  -- `k.wg.Wait()` never returns
  blocked : Outcome
  -- `k.wg.Done()` with a counter of 0 panics
  crashed : Outcome

-- What the `select` receives. A number is how many khchecks are found when checks are configured,
-- and the flag is the value of isMaster when the change is handled.
pub data ControlEvent : Type 0 where
  became_master : (found : ℕ) → ControlEvent
  lost_master : ControlEvent
  -- a khcheck changed, or the configuration did
  reload : (is_master : Bool) → (found : ℕ) → ControlEvent

abbrev pub and_go : Outcome → (Control → Outcome) → Outcome
and_go (going k) f = f k
and_go blocked f = blocked
and_go crashed f = crashed

-- StopChecks: each check of the list calls Done once, and nothing else does.
unfoldable pub stop_checks : Control → Outcome
stop_checks k =
    if ltb k.wg k.checks
    then crashed
    else if k.wg == k.checks
    then going (record k { wg = 0 })
    else blocked

-- StartChecks: wait, replace the list of checks, add one to the wait group for each, and start a
-- khstate reaper with the context of the whole program.
unfoldable pub start_checks : ℕ → Control → Outcome
start_checks found k =
    if k.wg == 0
    then going (record k { checks = found; wg = found; state_reapers = k.state_reapers + 1 })
    else blocked

unfoldable pub start_reaper : Control → Control
start_reaper k = record k { reapers = k.reapers + 1; can_cancel_reaper = true }

unfoldable pub stop_reaper : Control → Control
stop_reaper k =
    if k.can_cancel_reaper
    then record k { reapers = k.reapers - 1; can_cancel_reaper = false }
    else k

-- RestartChecks and RestartReaper
unfoldable pub restart : ℕ → Control → Outcome
unfolding stop_checks start_checks start_reaper stop_reaper
restart found k =
    and_go (and_go (stop_checks k) (start_checks found))
      (λ k'. going (start_reaper (stop_reaper k')))

unfoldable pub control_step : ControlEvent → Control → Outcome
unfolding restart
control_step (became_master found) k = and_go (start_checks found k) (λ k'. going (start_reaper k'))
control_step lost_master k = and_go (stop_checks k) (λ k'. going (stop_reaper k'))
control_step (reload is_master found) k = if is_master then restart found k else going k

unfoldable pub run_control : List ControlEvent → Control → Outcome
unfolding control_step
run_control [] k = going k
run_control (e ∷ es) k = and_go (control_step e k) (run_control es)

-- A Kuberhealthy that has just been made.
abbrev pub new_control : Control
new_control = record {
  checks = 0;
  wg = 0;
  reapers = 0;
  can_cancel_reaper = false;
  state_reapers = 0;
}
