-- ===== src/Report.antt =====
-- The /externalCheckStatus endpoint of cmd/kuberhealthy/kuberhealthy.go: who may report, and what a
-- report does. Logging is left out.
pub mod Fetch
pub mod Authorized
pub mod Found
pub mod Handler
pub mod Accepted
pub mod Refused
use kuberhealthy.Prelude.{
  ℕ, zero, suc, ◌+◌, ◌*◌, Bool, true, false, not, ◌&&◌, Option, none, some, List, [], ◌∷◌, ◌++◌,
  any, all, Text, codes, text_eq, Dict, lookup, is_empty, ltb, if◌then◌else◌,
}
use kuberhealthy.Api.Results.{
  Err, Result, ok, err, panic, new_error, wrap_error, Action, pure, call, throw, fault, attempt,
  settle, map_error, ◌>>=◌, ◌>>◌,
}
use kuberhealthy.Api.Types.{
  KhWorkload, kh_check, kh_job, WorkloadDetails, KhState, Pod, Container, EnvVar,
  new_workload_details,
}
use kuberhealthy.Api.Cluster.{Cluster}
use kuberhealthy.Health.{State}
use kuberhealthy.Status.{item_key, determine_kh_workload, current_status}
use kuberhealthy.Store.{second, wait, time_now, store_check_state}

-- status.Report of pkg/checks/external/status/main.go
pub record Report : Type 0 where
  pub errors : List Text
  pub ok : Bool

-- `NewReport`
unfoldable pub new_report : List Text → Report
new_report error_messages = record { errors = error_messages; ok = is_empty error_messages }

pub record PodReportInfo : Type 0 where
  pub name : Text
  pub uuid : Text
  pub namespace : Text

-- `KHCheckNameAnnotationKey` and `external.KHRunUUID`
abbrev pub check_name_annotation_key : Text
check_name_annotation_key = codes "comcast.github.io/check-name"

abbrev pub kh_run_uuid : Text
kh_run_uuid = codes "KH_RUN_UUID"

-- `m[key]` of a map of texts, which is "" for a key that is not there.
abbrev pub text_or_empty : Option Text → Text
text_or_empty none = []
text_or_empty (some t) = t

-- All environment variables of all containers, in order.
unfoldable pub env_vars : List Container → List EnvVar
env_vars [] = []
env_vars (container ∷ containers) = container.env ++ env_vars containers

-- The loop that looks for KH_RUN_UUID: the last one counts.
unfoldable pub find_uuid : List EnvVar → Option Text → Option Text
find_uuid [] found = found
find_uuid (e ∷ es) found = find_uuid es (if text_eq e.name kh_run_uuid then some e.value else found)

module _ (c : Cluster) where
  -- The pod of a listing that has exactly one, with containers.
  abbrev pub only_pod : List Pod → Action c.World Pod
  only_pod [] = throw (new_error (codes "failed to find a pod with selector"))
  only_pod (pod ∷ []) =
      if is_empty pod.containers
      then throw (new_error (codes "failed to fetch environment variables from pod"))
      else pure pod
  only_pod (pod ∷ other ∷ pods) = throw (new_error (codes "found two or more with same label"))

  -- `fetchPodBySelector`
  unfoldable pub fetch_pod_by_selector : (selector : Text) → Action c.World Pod
  fetch_pod_by_selector selector = do
    pods ←
        map_error
          (λ e. new_error (codes "failed to fetch pod with selector " ++ selector ++ e.message))
          (call (c.list_pods selector))
    only_pod pods

  -- One round of the loop of `fetchPodBySelectorForDuration`, before the rest of it.
  abbrev pub fetched_or : (rest : Action c.World Pod) → Result Pod → Action c.World Pod
  fetched_or rest (ok pod) = pure pod
  fetched_or rest (err e) = wait c second >> rest
  fetched_or rest panic = fault

  -- The loop runs until its time is over. It is given fuel, and what stands for a loop without end.
  unfoldable pub fetch_until :
      (fuel : ℕ) (endless : Action c.World Pod) (end_time : ℕ) (selector : Text)
      → Action c.World Pod
  fetch_until zero endless end_time selector = endless
  fetch_until (suc fuel) endless end_time selector = do
    now ← time_now c
    let round = do
      r ← attempt (fetch_pod_by_selector selector)
      fetched_or (fetch_until fuel endless end_time selector) r
    if ltb end_time now then throw (new_error (codes "Failed to fetch source pod")) else round

  -- `fetchPodBySelectorForDuration(ctx, selector, time.Minute)`. Sixty-two rounds are enough.
  unfoldable pub fetch_pod_for_a_minute : (selector : Text) → Action c.World Pod
  fetch_pod_for_a_minute selector = do
    now ← time_now c
    fetch_until 62 fault (now + 60 * second) selector

  -- `isUUIDWhitelistedForCheck`
  unfoldable pub is_uuid_whitelisted_for_check :
      (check_name check_namespace uuid : Text) → Action c.World Bool
  is_uuid_whitelisted_for_check check_name check_namespace uuid = do
    check_state ← call (c.get_state check_namespace check_name)
    pure (text_eq check_state.spec.current_uuid uuid)

  -- The end of `validateExternalRequest`, for a pod with a check name and a UUID.
  unfoldable pub validate_report_info : PodReportInfo → Action c.World PodReportInfo
  validate_report_info report_info = do
    whitelisted ←
        map_error (wrap_error (codes "failed to fetch whitelisted UUID for check with error: "))
          (is_uuid_whitelisted_for_check report_info.name report_info.namespace report_info.uuid)
    if whitelisted
        then pure report_info
        else throw
            (new_error (codes "pod was not properly whitelisted for reporting status of check"))

  abbrev pub with_uuid_of :
      Pod → (pod_check_name : Text) → Option Text → Action c.World PodReportInfo
  with_uuid_of pod pod_check_name none =
      throw (new_error (codes "error finding environment variable on remote pod: KH_RUN_UUID"))
  with_uuid_of pod pod_check_name (some pod_uuid) =
      if is_empty pod.namespace
      then throw (new_error (codes "pod check namespace was invalid or unset"))
      else if is_empty pod_uuid
      then throw (new_error (codes "pod uuid was invalid or unset"))
      else validate_report_info
          (record { name = pod_check_name; uuid = pod_uuid; namespace = pod.namespace })

  -- `validateExternalRequest` after the pod was fetched.
  unfoldable pub validate_pod : Pod → Action c.World PodReportInfo
  validate_pod pod =
      let pod_check_name = text_or_empty (lookup check_name_annotation_key pod.annotations) in
      if is_empty pod_check_name
      then throw (new_error (codes "error finding check name annotation on calling pod"))
      else with_uuid_of pod pod_check_name (find_uuid (env_vars pod.containers) none)

  unfoldable pub validate_external_request : (selector : Text) → Action c.World PodReportInfo
  validate_external_request selector = do pod ← fetch_pod_for_a_minute selector; validate_pod pod
