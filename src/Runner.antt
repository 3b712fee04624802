-- ===== src/Runner.antt =====
-- The runner of a check (`runCheck` and `setCheckExecutionError` of cmd/kuberhealthy/kuberhealthy.go,
-- `CurrentStatus` of pkg/checks/external/main.go). The run itself is an argument, and the duration of
-- it as a text, and so is the wait for its ticker. Logging and the metric forwarder are left out.
pub mod Recorded
pub mod Rounds
use kuberhealthy.Prelude.{
  ℕ, zero, suc, Bool, true, false, contains, ◌&&◌, Option, none, some, List, [], ◌∷◌, ◌++◌, Text,
  codes, text_eq, is_empty, if◌then◌else◌,
}
use kuberhealthy.Api.Results.{
  Err, Result, ok, err, panic, new_error, wrap_error, is_not_found, Reply, reply, refuse, Action,
  pure, throw, fault, call, attempt, settle, and_then, map_err, map_error, ◌>>=◌, ◌>>◌,
}
use kuberhealthy.Api.Types.{
  KhWorkload, kh_check, WorkloadDetails, KhState, Pod, new_workload_details,
}
use kuberhealthy.Api.Cluster.{Cluster}
use kuberhealthy.Store.{time_now, get_workload_state, store_check_state}
use kuberhealthy.Store.Uuid.{Checker}
use kuberhealthy.Report.{fetch_pod_by_selector}

-- `getCheck`: the loaded check of the name and namespace.
unfoldable pub get_check : (check_name check_namespace : Text) → List Checker → Option Checker
get_check check_name check_namespace [] = none
get_check check_name check_namespace (c ∷ checks) =
    let rest = get_check check_name check_namespace checks in
    if text_eq c.check_name check_name && text_eq c.namespace check_namespace then some c else rest

-- The details that record an execution error.
unfoldable pub execution_details : (namespace uuid : Text) → Err → WorkloadDetails
unfolding new_workload_details
execution_details namespace uuid e = record (new_workload_details kh_check) {
  namespace = namespace;
  ok = false;
  errors = (codes "Check execution error: " ++ e.message) ∷ [];
  current_uuid = uuid;
}

-- `CurrentStatus` of a checker: a khstate that is not there counts as OK.
unfoldable pub status_of : Reply KhState → Bool × List Text
status_of (refuse e) = if is_not_found e then (true, []) else (false, e.message ∷ [])
status_of (reply s) = (is_empty s.spec.errors, s.spec.errors)

-- What is used of a khstate or a pod that could not be fetched is a zero value.
abbrev pub uuid_or_empty : Result WorkloadDetails → Text
uuid_or_empty (ok d) = d.current_uuid
uuid_or_empty _ = []

abbrev pub node_or_empty : Result Pod → Text
node_or_empty (ok pod) = pod.node_name
node_or_empty _ = []

-- The details that a finished run stores.
unfoldable pub finished_details :
    (namespace uuid node run_duration : Text) → Bool × List Text → WorkloadDetails
unfolding new_workload_details
finished_details namespace uuid node run_duration (good, errors) =
    record (new_workload_details kh_check) {
      namespace = namespace;
      ok = good;
      errors = errors;
      run_duration = run_duration;
      current_uuid = uuid;
      node = node;
    }

-- The text of `ErrPodRemovedExpectedly` that a round looks for.
abbrev pub expected_removal : Text
expected_removal = codes "pod deleted expectedly"

module _ (c : Cluster) (pod_hostname : Text) where
  abbrev pub record_error :
      Option Checker → (check_name check_namespace : Text) → Err → Action c.World (Unit {0})
  record_error none check_name check_namespace e =
      throw (new_error (codes "could not find Kuberhealthy check with name " ++ check_name))
  record_error (some check) check_name check_namespace e = do
    state ←
        map_error (wrap_error (codes "error when setting execution error on check "))
          (get_workload_state c kh_check check.check_name check.namespace)
    map_error
        (wrap_error (codes "unable to write an execution error to the CRD status with error: "))
        (store_check_state c pod_hostname check_name check_namespace
          (execution_details check.namespace state.current_uuid e))

  -- `setCheckExecutionError`
  unfoldable pub set_check_execution_error :
      List Checker → (check_name check_namespace : Text) → Err → Action c.World (Unit {0})
  set_check_execution_error checks check_name check_namespace e =
      record_error (get_check check_name check_namespace checks) check_name check_namespace e

  abbrev pub store_finished :
      Checker → (run_duration uuid : Text) → Reply KhState → Result Pod → Action c.World (Unit {0})
  store_finished check run_duration uuid status pod =
      store_check_state c pod_hostname check.check_name check.namespace
        (finished_details check.namespace uuid (node_or_empty pod) run_duration (status_of status))

  abbrev pub with_status :
      Checker → (run_duration uuid : Text) → Reply KhState × c.World → Result (Unit {0}) × c.World
  with_status check run_duration uuid (status, w) =
      (attempt (fetch_pod_by_selector c (codes "kuberhealthy-run-id=" ++ uuid))
          >>= store_finished check run_duration uuid status)
        w

  -- The rest of a round of `runCheck` after a run without an error, up to storing the details.
  unfoldable pub finish_check : Checker → (run_duration : Text) → Action c.World (Unit {0})
  finish_check check run_duration = do
    check_details ← attempt (get_workload_state c kh_check check.check_name check.namespace)
    λ w.
        with_status check run_duration (uuid_or_empty check_details)
          (c.get_state check.namespace check.check_name w)

  module _ (wait_for_tick : c.World → c.World) (checks : List Checker) (check : Checker) where
    -- After an expected removal a round waits for a tick before it records the error.
    abbrev pub before_recording : Err → c.World → c.World
    before_recording e w = if contains e.message expected_removal then wait_for_tick w else w

    abbrev pub tick : Action c.World (Unit {0})
    tick w = (ok tt, wait_for_tick w)

    -- What recording returns is only logged.
    abbrev pub record_failed : Err → Action c.World (Unit {0})
    record_failed e = do
      λ w. (ok tt, before_recording e w)
      recorded ← attempt (set_check_execution_error checks check.check_name check.namespace e)
      tick

    abbrev pub record_finished : (run_duration : Text) → Action c.World (Unit {0})
    record_finished run_duration = do recorded ← attempt (finish_check check run_duration); tick

    module _ (run_duration : (start now : ℕ) → Text) where
      abbrev pub after_run : (start : ℕ) → Result (Unit {0}) → Action c.World (Unit {0})
      after_run start (ok u) = do now ← time_now c; record_finished (run_duration start now)
      after_run start (err e) = record_failed e
      after_run start panic = fault

      -- A round of the loop of `runCheck`
      unfoldable pub run_check_round : Action c.World (Unit {0}) → Action c.World (Unit {0})
      run_check_round run = do start ← time_now c; r ← attempt run; after_run start r

      -- `runCheck`, for a number of rounds at most, until its context is cancelled
      unfoldable pub run_check :
          (rounds : ℕ) (is_cancelled : c.World → Bool)
          → Action c.World (Unit {0})
          → Action c.World (Unit {0})
      run_check zero is_cancelled run w = (ok tt, w)
      run_check (suc rounds) is_cancelled run w =
          let next = (run_check_round run >> run_check rounds is_cancelled run) w in
          if is_cancelled w then (ok tt, w) else next
