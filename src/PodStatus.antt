-- ===== src/PodStatus.antt =====
-- The pod status check, a checker pod of its own (cmd/pod-status-check/main.go). The text of the phase in
-- a message is an argument. Logging is left out.
pub mod Healthy
use kuberhealthy.Prelude.{
  ℕ, ◌+◌, ltb, Bool, true, false, Option, none, some, List, [], ◌∷◌, ◌++◌, Text, codes,
  if◌then◌else◌,
}
use kuberhealthy.Api.Results.{Err, Reply, reply, refuse}
use kuberhealthy.Api.Types.{
  Phase, pod_pending, pod_running, pod_succeeded, pod_failed, pod_unknown, Pod,
}

abbrev pub failure : Pod → List Text
failure pod =
    (codes "pod: "
      ++ pod.name
      ++ codes " in namespace: "
      ++ pod.namespace
      ++ codes " is in pod status phase ")
    ∷ []

-- The `switch` on the phase.
abbrev pub failures_of : Pod → Phase → List Text
failures_of pod pod_running = []
failures_of pod pod_succeeded = []
failures_of pod pod_pending = failure pod
failures_of pod pod_failed = failure pod
failures_of pod pod_unknown = failure pod

-- The loop of `findPodsNotRunning`: a pod that was created after the barrier is skipped.
unfoldable pub find_pods_not_running : (check_time skip_duration : ℕ) → List Pod → List Text
find_pods_not_running check_time skip_duration [] = []
find_pods_not_running check_time skip_duration (pod ∷ pods) =
    let rest = find_pods_not_running check_time skip_duration pods in
    if ltb check_time (pod.creation_timestamp + skip_duration)
    then rest
    else failures_of pod pod.phase ++ rest

abbrev pub report_listed :
    (check_time : ℕ) (skip_duration : Option ℕ) → Reply (List Pod) → List Text
report_listed check_time d (refuse e) = e.message ∷ []
report_listed check_time none (reply pods) = codes "failed to parse skip duration: " ∷ []
report_listed check_time (some d) (reply pods) = find_pods_not_running check_time d pods

-- What `main` reports, for what the listing answers and `time.ParseDuration` makes of SKIP_DURATION: the
-- messages of a failure, none for success.
unfoldable pub report : (check_time : ℕ) (skip_duration : Option ℕ) → Reply (List Pod) → List Text
report check_time skip_duration listed = report_listed check_time skip_duration listed
