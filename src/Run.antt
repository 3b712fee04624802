-- ===== src/Run.antt =====
-- One run of a check: Run, RunOnce, cleanup and the polls of the khstate and of the pods in
-- pkg/checks/external/main.go. Which channel a `select` of RunOnce receives from first is up to the
-- scheduler, and is an argument here; what a waiter that polls sends is what its loop gives.
pub mod Phases
pub mod Polls
pub mod Selects
pub mod Reported
use kuberhealthy.Prelude.{
  ℕ, zero, suc, ◌+◌, ◌*◌, Bool, true, false, not, ◌&&◌, ◌||◌, Option, none, some, List, [], ◌∷◌,
  ◌++◌, any, Text, codes, text_eq, ltb, if◌then◌else◌,
}
use kuberhealthy.Api.Results.{
  Err, Reason, Result, ok, err, panic, new_error, is_not_found, Reply, reply, refuse, Call, Action,
  answer, pure, throw, fault, call, attempt, settle, map_error, and_then, ◌>>=◌, ◌>>◌,
}
use kuberhealthy.Api.Types.{
  KhState, Phase, pod_pending, pod_running, pod_succeeded, pod_failed, pod_unknown, ContainerStatus,
  Pod,
}
use kuberhealthy.Launch.{
  PodSpec, PodMaker, validate_pod_spec, sanity_check, configure_user_pod_spec, new_checker_pod,
}
use kuberhealthy.Store.{second}

-- The calls of a run, for the check that it is about.
pub record RunApi : Type 1 where
  pub World : Type 0
  pub get_state : Call World KhState
  pub create_pod : Pod → Call World (Unit {0})
  -- The pods with the label of this check, and those with the label of this run.
  pub list_check_pods : Call World (List Pod)
  pub list_run_pods : Call World (List Pod)
  pub get_pod : Call World Pod
  -- `evictPod`, whose errors are only logged
  pub evict_pod : Pod → World → World
  pub sleep : ℕ → World → World
  -- `ext.shutdownCTX.Done()` is closed.
  pub is_shut_down : World → Bool

-- What a `select` on the timeout, a waiter and the shutdown receives.
pub data Waited : Type 0 where
  timed_out shut_down : Waited
  finished : Option Err → Waited

-- Which of the three is received from first.
pub data First : Type 0 where
  on_waiter on_timeout on_shutdown : First

-- What is received, for what the waiter has sent by then. One that has sent nothing counts as too late.
abbrev pub receive : First → (sent : Option (Option Err)) → Waited
receive on_timeout sent = timed_out
receive on_shutdown sent = shut_down
receive on_waiter none = timed_out
receive on_waiter (some o) = finished o

-- The second `select`, with the watcher for the pod's removal. What it receives from that and from the
-- waiter for the start of the pod, both of which follow a watch, is given.
pub data Watched : Type 0 where
  pod_removed : Option Err → Watched
  waited : Waited → Watched

-- The third `select`: the removal, or one of the three.
pub data FirstReport : Type 0 where
  removal : Option Err → FirstReport
  report_or : First → FirstReport

-- The four `select`s of RunOnce: what they receive from first, and how often the waiters that poll have
-- polled at most by then.
pub record Schedule : Type 0 where
  pub clear_polls : ℕ
  pub cleared : First
  pub started : Watched
  pub report_polls : ℕ
  pub reported : FirstReport
  pub exit_polls : ℕ
  pub exited : First

abbrev pub err_pod_removed_unexpectedly : Err
err_pod_removed_unexpectedly = new_error (codes "pod deleted unexpectedly")

abbrev pub err_pod_removed_expectedly : Err
err_pod_removed_expectedly = new_error (codes "pod deleted expectedly")

-- `state.Spec.LastRun`, where nil is the zero time.
abbrev pub time_or_zero : Option ℕ → ℕ
time_or_zero none = 0
time_or_zero (some t) = t

abbrev pub last_update_of : Reply KhState → Result ℕ
last_update_of (reply s) = ok (time_or_zero s.spec.last_run)
-- Also an error other than `not found` ends here: the state beside it has no last run.
last_update_of (refuse e) = ok 0

abbrev pub is_in_the_way : Phase → Bool
is_in_the_way pod_pending = true
is_in_the_way pod_unknown = true
is_in_the_way pod_running = true
is_in_the_way _ = false

abbrev pub is_alive : Phase → Bool
is_alive pod_running = true
is_alive pod_pending = true
is_alive _ = false

abbrev pub throw_if : {W : Type 0} → Option Err → Action W (Unit {0})
throw_if none = pure tt
throw_if (some e) = throw e

-- `newError`
abbrev pub check_error : PodMaker → Text → Err
check_error ext s = new_error (ext.namespace ++ b'/' ∷ ext.check_name ++ codes ": " ++ s)

module _ (api : RunApi) where
  -- `getCheckLastUpdateTime`
  unfoldable pub get_check_last_update_time : Action api.World ℕ
  get_check_last_update_time w = let (r, w') = api.get_state w in (last_update_of r, w')

  -- `podHasReportedInAfterTime`
  unfoldable pub pod_has_reported_in_after_time : (t : ℕ) → Action api.World Bool
  pod_has_reported_in_after_time t = do current ← get_check_last_update_time; pure (ltb t current)

  -- The loop of `waitForPodStatusUpdate`: what it sends, `none` if the fuel is used up.
  unfoldable pub wait_for_pod_status_update :
      (fuel : ℕ) (last_update_time : ℕ) → api.World → Option (Option Err) × api.World
  wait_for_pod_status_update zero t w = (none, w)
  wait_for_pod_status_update (suc fuel) t w =
      let w₁ = api.sleep (5 * second) w in
      if api.is_shut_down w₁
      then (some none, w₁)
      else elim (pod_has_reported_in_after_time t w₁).0 [
        | ok true ↦ (some none, (pod_has_reported_in_after_time t w₁).1)
        | ok false ↦ wait_for_pod_status_update fuel t (pod_has_reported_in_after_time t w₁).1
        | err e ↦
            wait_for_pod_status_update fuel t
              (api.sleep second (pod_has_reported_in_after_time t w₁).1)
        | panic ↦ (none, w₁)
      ]

  -- The loop of `waitForAllPodsToClear`.
  unfoldable pub wait_for_all_pods_to_clear :
      (fuel : ℕ) → api.World → Option (Option Err) × api.World
  wait_for_all_pods_to_clear zero w = (none, w)
  wait_for_all_pods_to_clear (suc fuel) w =
      let w₁ = api.sleep (5 * second) w in
      if api.is_shut_down w₁ then (some none, w₁) else elim (api.get_pod w₁).0 [
        | reply p ↦ wait_for_all_pods_to_clear fuel (api.get_pod w₁).1
        | refuse e ↦ (some (if is_not_found e then none else some e), (api.get_pod w₁).1)
      ]

  -- The loop of `waitForPodExit`.
  unfoldable pub wait_for_pod_exit : (fuel : ℕ) → api.World → Option (Option Err) × api.World
  wait_for_pod_exit zero w = (none, w)
  wait_for_pod_exit (suc fuel) w = elim (api.list_run_pods w).0 [
    | refuse e ↦ (some (some e), (api.list_run_pods w).1)
    | reply pods ↦
        if not (any (λ (p : Pod). is_alive p.phase) pods)
        then (some none, (api.list_run_pods w).1)
        else if api.is_shut_down (api.list_run_pods w).1
        then (some none, (api.list_run_pods w).1)
        else wait_for_pod_exit fuel (api.sleep (5 * second) (api.list_run_pods w).1)
  ]

  -- The goroutines of `cleanup`, in the order in which they run.
  unfoldable pub evict_pods : List Pod → api.World → api.World
  evict_pods [] w = w
  evict_pods (p ∷ pods) w = evict_pods pods (if is_in_the_way p.phase then api.evict_pod p w else w)

  -- `cleanup`
  unfoldable pub cleanup : api.World → api.World
  cleanup w = elim (api.list_check_pods w).0 [
    | refuse e ↦ (api.list_check_pods w).1
    | reply pods ↦ evict_pods pods (api.list_check_pods w).1
  ]

  abbrev pub clean_up_early : Action api.World (Unit {0})
  clean_up_early w = (ok tt, cleanup w)

  -- A `select` whose waiter may send an error. A shutdown makes RunOnce return nil at once.
  abbrev pub on_waited :
      PodMaker
      → (timeout message : Text) → Waited
      → (next : Action api.World (Unit {0})) → Action api.World (Unit {0})
  on_waited ext timeout message timed_out next = throw (check_error ext timeout)
  on_waited ext timeout message shut_down next = pure tt
  on_waited ext timeout message (finished none) next = next
  on_waited ext timeout message (finished (some e)) next =
      throw (check_error ext (message ++ e.message))

  abbrev pub on_removed : Option Err → Action api.World (Unit {0})
  on_removed none = throw err_pod_removed_expectedly
  on_removed (some e) = throw err_pod_removed_unexpectedly

  -- The last `select`, for the end of the pod.
  unfoldable pub await_exit : PodMaker → Schedule → Action api.World (Unit {0})
  await_exit ext s w =
      let (sent, w') = wait_for_pod_exit s.exit_polls w in
      on_waited ext (codes "timed out waiting for pod to exit")
        (codes "found an error when waiting for pod to exit: ") (receive s.exited sent) (pure tt) w'

  -- The third `select`, for the report.
  unfoldable pub await_report :
      PodMaker → FirstReport → (last_report_time : ℕ) → Schedule → Action api.World (Unit {0})
  await_report ext (removal o) last_report_time s w = on_removed o w
  await_report ext (report_or f) last_report_time s w =
      let (sent, w') = wait_for_pod_status_update s.report_polls last_report_time w in
      on_waited ext (codes "timed out waiting for checker pod to report in")
        (codes "found an error when waiting for pod status to update: ") (receive f sent)
        (await_exit ext s) w'

  -- The second `select`, for the start of the pod. An error of its waiter is followed by a cleanup.
  abbrev pub await_start :
      PodMaker → Watched → (last_report_time : ℕ) → Schedule → Action api.World (Unit {0})
  await_start ext (pod_removed o) last_report_time s = on_removed o
  await_start ext (waited (finished (some e))) last_report_time s = do
    clean_up_early
    throw (check_error ext (codes "error when waiting for pod to start: " ++ e.message))
  await_start ext (waited r) last_report_time s =
      on_waited ext (codes "failed to see pod running within timeout") [] r
        (await_report ext s.reported last_report_time s)

  -- Creating the pod, and what follows.
  unfoldable pub launch :
      PodMaker → (deadline : Text) (last_report_time : ℕ) → Schedule → Action api.World (Unit {0})
  launch ext deadline last_report_time s = do
    map_error (λ e. check_error ext (codes "failed to create pod for checker: " ++ e.message))
        (call (
          api.create_pod
            (new_checker_pod ext (configure_user_pod_spec ext deadline ext.original_pod_spec))))
    await_start ext s.started last_report_time s

  -- The first `select`, for the end of earlier pods.
  unfoldable pub await_clear :
      PodMaker → (deadline : Text) (last_report_time : ℕ) → Schedule → Action api.World (Unit {0})
  await_clear ext deadline last_report_time s w =
      let (sent, w') = wait_for_all_pods_to_clear s.clear_polls w in
      on_waited ext (codes "failed to see pod cleanup within timeout")
        (codes "error waiting for pod to clean up: ") (receive s.cleared sent)
        (launch ext deadline last_report_time s) w'

  -- RunOnce after it has read the last report time. It validates the spec of the last configuration.
  abbrev pub checks_then :
      PodMaker
      → (last_spec : PodSpec) (deadline : Text) (last_report_time : ℕ) → Schedule
      → Action api.World (Unit {0})
  checks_then ext last_spec deadline last_report_time s = do
    throw_if (validate_pod_spec last_spec)
    throw_if
        (sanity_check ext.namespace (configure_user_pod_spec ext deadline ext.original_pod_spec))
    await_clear ext deadline last_report_time s

  -- RunOnce without its deferred cleanup.
  unfoldable pub run_steps :
      PodMaker → (last_spec : PodSpec) (deadline : Text) → Schedule → Action api.World (Unit {0})
  run_steps ext last_spec deadline s = do
    last_report_time ← get_check_last_update_time
    checks_then ext last_spec deadline last_report_time s

  -- `RunOnce`, with `defer ext.cleanup(ctx)`.
  unfoldable pub run_once :
      PodMaker → (last_spec : PodSpec) (deadline : Text) → Schedule → Action api.World (Unit {0})
  run_once ext last_spec deadline s w =
      let (r, w') = run_steps ext last_spec deadline s w in (r, cleanup w')

  -- An error that says that the pod was removed as expected is replaced by the named one.
  abbrev pub run_error : Err → Err
  run_error e =
      if text_eq e.message err_pod_removed_expectedly.message then err_pod_removed_expectedly else e

  -- `Run`: `set_uuid` is setNewCheckUUID for a new UUID, and `run` is RunOnce with it.
  unfoldable pub run_checker :
      (set_uuid run : Action api.World (Unit {0})) → Action api.World (Unit {0})
  run_checker set_uuid run = do set_uuid; map_error run_error run
