-- ===== src/Deployment/Rollout.antt =====
-- The deployment and the service of the deployment check in the cluster: their deletion, the search for
-- earlier ones, when they count as available, and the errors of the pods (cmd/deployment-check/deployment.go
-- and service.go). Logging is left out.
pub mod Deleted
pub mod Recent
use kuberhealthy.Prelude.{
  ℕ, zero, suc, ◌*◌, ◌==◌, ltb, Bool, true, false, not, ◌&&◌, ◌||◌, Option, none, some, List, [],
  ◌∷◌, ◌++◌, any, Text, text_eq, codes, is_empty, contains, to_lower, if◌then◌else◌,
}
use kuberhealthy.Api.Results.{Err, new_error, Reply, reply, refuse, Call}
use kuberhealthy.Store.{second}

-- The calls for the deployments, or for the services, of the namespace of the check. A listing gives
-- names; the one that is named has the name of the check as a field selector.
pub record ResourceApi : Type 1 where
  pub World : Type 0
  pub sleep : ℕ → World → World
  pub is_done : World → Bool
  pub list_all : Call World (List Text)
  pub list_named : (name : Text) → Call World (List Text)
  pub delete_named : (name : Text) → Call World (Unit {0})

abbrev pub found : (name : Text) → Reply (List Text) → Reply Bool
found name (refuse e) = refuse e
found name (reply names) = reply (any (λ n. text_eq n name) names)

module _ (api : ResourceApi) (name : Text) where
  -- `findPreviousService` and `findPreviousDeployment`
  unfoldable pub find_previous : Call api.World Bool
  find_previous w = let (r, w') = api.list_all w in (found name r, w')

  -- The loop of the goroutine, for a number of polls: what it sends first, which is what is received. (The
  -- one for deployments goes on after it has sent the timeout.) An error of a deletion is only logged.
  unfoldable pub wait_until_deleted :
      (polls : ℕ) (timeout : Text) → api.World → Option (Option Err) × api.World
  wait_until_deleted zero timeout w = (none, w)
  wait_until_deleted (suc polls) timeout w =
      let (r, w₁) = api.list_named name (api.sleep (5 * second) w) in
      let (d, w₂) = api.delete_named name w₁ in
      if api.is_done w then (some (some (new_error timeout)), w) else elim (found name r) [
        | refuse e ↦ wait_until_deleted polls timeout w₁
        | reply true ↦ wait_until_deleted polls timeout w₂
        | reply false ↦ (some none, w₁)
      ]

  -- `deleteServiceAndWait`: the goroutine sleeps first, so that the deletion, which follows at once, is
  -- taken to come before its polls.
  unfoldable pub delete_service_and_wait : (polls : ℕ) → api.World → Option (Option Err) × api.World
  delete_service_and_wait polls w =
      let (d, w') = api.delete_named name w in
      wait_until_deleted polls (codes "timed out while waiting for service to delete") w'

  -- `deleteDeploymentAndWait`
  unfoldable pub delete_deployment_and_wait :
      (polls : ℕ) → api.World → Option (Option Err) × api.World
  delete_deployment_and_wait polls w =
      let (d, w') = api.delete_named name w in
      wait_until_deleted polls (codes "timed out while waiting for deployment to delete") w'

-- The status of a deployment that is read.
pub record DeploymentStatus : Type 0 where
  pub has_available_condition : Bool
  pub replicas : ℕ
  pub updated_replicas : ℕ
  pub available_replicas : ℕ
  pub ready_replicas : ℕ
  pub unavailable_replicas : ℕ
  pub observed_generation : ℕ

-- `deploymentAvailable`, where some condition is `Available` with the status `True`
unfoldable pub deployment_available : (check_replicas : ℕ) → DeploymentStatus → Bool
deployment_available check_replicas d =
    d.has_available_condition
    && (d.replicas == check_replicas
        && (d.available_replicas == check_replicas
            && (d.ready_replicas == check_replicas && d.observed_generation == 1)))

-- `rolledPodsAreReady`
unfoldable pub rolled_pods_are_ready : (check_replicas : ℕ) → DeploymentStatus → Bool
rolled_pods_are_ready check_replicas d =
    d.replicas == check_replicas
    && (d.updated_replicas == check_replicas
        && (d.available_replicas == check_replicas
            && (d.ready_replicas == check_replicas
                && (ltb d.unavailable_replicas 1 && ltb 1 d.observed_generation))))

-- `serviceAvailable`, for a service that is not nil
unfoldable pub service_available : (cluster_ip : Text) → Bool
service_available cluster_ip = not (is_empty cluster_ip)

-- An event of a pod.
pub record PodEvent : Type 0 where
  pub reason : Text
  pub message : Text
  pub last_timestamp : ℕ

abbrev pub is_error_event : PodEvent → Bool
is_error_event e =
    let reason = to_lower e.reason in
    contains reason (codes "err")
    || (contains reason (codes "failed") || contains reason (codes "backoff"))

-- The loop over the events of a pod: the reason and the message that it ends with. The time that an
-- event is compared with is new in each round, the zero time.
unfoldable pub recent_error : List PodEvent → (reason_message : Text × Text) → Text × Text
recent_error [] found_so_far = found_so_far
recent_error (e ∷ events) found_so_far = recent_error events (
    if is_error_event e
    then if ltb 0 e.last_timestamp then (e.reason, e.message) else found_so_far
    else found_so_far)

-- A container of a pod: whether it is ready, and its state of waiting.
pub record ContainerState : Type 0 where
  pub is_ready : Bool
  pub waiting_reason : Option Text

pub record DeployedPod : Type 0 where
  pub name : Text
  pub has_failed : Bool
  pub status_reason : Text
  pub containers : List ContainerState

abbrev pub when_reason : (reason_text reason : Text) → Option Err
when_reason reason_text reason = some (new_error (reason_text ++ codes " when " ++ reason))

module _ (pod_events : (pod_name : Text) → Reply (List PodEvent)) (is_missing : Err → Bool)
    (reason : Text) where
  abbrev pub event_error : Reply (List PodEvent) → Option Err
  event_error (refuse e) = if is_missing e then none else some e
  event_error (reply events) =
      let (event_reason, event_message) = recent_error events ([], []) in
      if is_empty event_reason then none else when_reason event_reason reason

  abbrev pub waiting_error :
      (pod_name : Text) (is_ready : Bool) (waiting_reason : Text) → Option Err
  waiting_error pod_name is_ready waiting_reason =
      if not is_ready && not (text_eq waiting_reason (codes "ContainerCreating"))
      then when_reason waiting_reason reason
      else event_error (pod_events pod_name)

  abbrev pub container_error : (pod_name : Text) → ContainerState → Option Err
  container_error pod_name c = elim c.waiting_reason [
    | none ↦ none
    | some [] ↦ none
    | some (x ∷ s) ↦ waiting_error pod_name c.is_ready (x ∷ s)
  ]

  abbrev pub containers_error : (pod_name : Text) → List ContainerState → Option Err
  containers_error pod_name [] = none
  containers_error pod_name (c ∷ containers) =
      let rest = containers_error pod_name containers in
      elim (container_error pod_name c) [ some e ↦ some e | none ↦ rest ]

  -- `checkDeploymentPodEvent`, for the pods of its listing
  unfoldable pub check_deployment_pod_event : List DeployedPod → Option Err
  check_deployment_pod_event [] = none
  check_deployment_pod_event (p ∷ pods) =
      let rest = check_deployment_pod_event pods in
      elim (containers_error p.name p.containers) [
        | some e ↦ some e
        | none ↦ if p.has_failed then when_reason p.status_reason reason else rest
      ]
