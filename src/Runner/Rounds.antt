-- ===== src/Runner/Rounds.antt =====
-- What the rounds of runCheck record of a run that fails.
use kuberhealthy.Prelude.{ℕ, ◌≡◌, refl, Text, List, Bool, false, suc}
use kuberhealthy.Api.Results.{Err, Result, ok, err, Action}
use kuberhealthy.Api.Cluster.{Cluster, IsQuiet}
use kuberhealthy.Store.Uuid.{Checker}
use kuberhealthy.Runner.{set_check_execution_error, before_recording, run_check_round, run_check}
use kuberhealthy.Runner.Recorded.{IsFailed, set_check_execution_error-IsFailed}

module _ (c : Cluster) (pod_hostname : Text) (wait_for_tick : c.World → c.World)
    (checks : List Checker) (check : Checker) (run_duration : (start now : ℕ) → Text)
    (run : Action c.World (Unit {0})) where
  -- The world in which the error of a run is recorded, and what recording it gives.
  abbrev pub recording : Err → c.World → Result (Unit {0}) × c.World
  recording e w =
      set_check_execution_error c pod_hostname checks check.check_name check.namespace e
        (before_recording c pod_hostname wait_for_tick checks check e w)

  run_check_round-failed :
      (e : Err) (w w₁ : c.World)
      → run w ≡ (err e, w₁)
      → (recording e w₁).0 ≡ ok tt
      → run_check_round c pod_hostname wait_for_tick checks check run_duration run w
        ≡ (ok tt, wait_for_tick (recording e w₁).1)
  unfolding run_check_round
  run_check_round-failed e w w₁ failed recorded = rw (failed, recorded) refl

  -- With nobody else writing, a run that fails, also with the error of an expected removal, which the
  -- log calls skipped, leaves its error in the check's khstate if recording it returns without an
  -- error: a get then answers with an OK of false and with that error alone. The loop waits for a tick
  -- and goes on with the rounds that are left.
  pub run_check-records_failure :
      (rounds : ℕ) (is_cancelled : c.World → Bool) (e : Err) (w w₁ : c.World)
      → IsQuiet c
      → is_cancelled w ≡ false
      → run w ≡ (err e, w₁)
      → (recording e w₁).0 ≡ ok tt
      → IsFailed c check.check_name check.namespace e (recording e w₁).1
        × (run_check c pod_hostname wait_for_tick checks check run_duration
              (suc rounds)
              is_cancelled
              run
              w
            ≡ run_check c pod_hostname wait_for_tick checks check run_duration rounds is_cancelled
                run
                (wait_for_tick (recording e w₁).1))
  unfolding run_check
  run_check-records_failure rounds is_cancelled e w w₁ quiet going failed recorded = (
    set_check_execution_error-IsFailed c pod_hostname checks check.check_name check.namespace e
        (before_recording c pod_hostname wait_for_tick checks check e w₁) quiet recorded,
    rw (going, run_check_round-failed e w w₁ failed recorded) refl,
  )
