-- ===== src/Deployment/Waits.antt =====
-- How the deployment check waits for its deployment, the rolling update and its service
-- (cmd/deployment-check/deployment.go and service.go): what is sent, for the sequence of what the
-- goroutines see. The names of the events say where each comes from. Logging is left out.
pub mod Seen
use kuberhealthy.Prelude.{
  ℕ, Bool, true, false, Option, none, some, List, [], ◌∷◌, ◌++◌, Text, codes, if◌then◌else◌,
}
use kuberhealthy.Api.Results.{Err, Reply, reply, refuse}
use kuberhealthy.Deployment.{
  DeploymentError, DeploymentResult, deployed, deployment_failed, no_deployment, ServiceResult,
  served, service_failed, no_service,
}
use kuberhealthy.Deployment.Rollout.{
  DeploymentStatus, deployment_available, rolled_pods_are_ready, service_available,
}

pub data WaitEvent : Type 0 where
  -- The watch shows the deployment; the context is done or not when it is looked at after that.
  status_seen : DeploymentStatus → (is_expired : Bool) → WaitEvent
  -- The watch shows another object.
  foreign_seen : WaitEvent
  -- The goroutine that looks at the pods sends an error.
  pod_error_sent : (message : Text) → WaitEvent
  -- The watch has ended, and opening the next one gives an error or not.
  watch_ended : Option Err → WaitEvent
  -- The context is done while nothing else happens.
  context_done : WaitEvent

abbrev pub plain_error : Text → DeploymentResult
plain_error message = deployment_failed (record { is_pod_error = false; message = message })

abbrev pub pod_error : Text → DeploymentResult
pod_error message = deployment_failed (record { is_pod_error = true; message = message })

-- What is sent once the context is done, for the error of the cleanup.
abbrev pub after_expiry : Option Err → DeploymentResult
after_expiry none = no_deployment
after_expiry (some e) = plain_error (codes "failed to clean up properly: " ++ e.message)

module _ (check_replicas : ℕ) (name : Text) (clean_up : Option Err) where
  -- The loop of `createDeployment`. It looks at the context after an event of the deployment only.
  unfoldable pub wait_for_available : List WaitEvent → Option DeploymentResult
  wait_for_available [] = none
  wait_for_available (status_seen d is_expired ∷ events) =
      let rest = wait_for_available events in
      if deployment_available check_replicas d
      then some (deployed name)
      else if is_expired
      then some (after_expiry clean_up)
      else rest
  wait_for_available (foreign_seen ∷ events) = wait_for_available events
  wait_for_available (pod_error_sent message ∷ events) = some (pod_error message)
  wait_for_available (watch_ended none ∷ events) = wait_for_available events
  wait_for_available (watch_ended (some e) ∷ events) = some (plain_error e.message)
  wait_for_available (context_done ∷ events) = wait_for_available events

  -- `createDeployment`, for what its Create answers
  unfoldable pub create_deployment : Reply (Unit {0}) → List WaitEvent → Option DeploymentResult
  create_deployment (refuse e) events = some (plain_error e.message)
  create_deployment (reply u) events = wait_for_available events

  -- The loop of `updateDeployment`. A watch that has ended is read on and on.
  unfoldable pub wait_for_rolled : List WaitEvent → Option DeploymentResult
  wait_for_rolled [] = none
  wait_for_rolled (status_seen d is_expired ∷ events) =
      let rest = wait_for_rolled events in
      if rolled_pods_are_ready check_replicas d then some (deployed name) else rest
  wait_for_rolled (foreign_seen ∷ events) = wait_for_rolled events
  wait_for_rolled (pod_error_sent message ∷ events) = some (pod_error message)
  wait_for_rolled (watch_ended reopened ∷ events) = wait_for_rolled events
  wait_for_rolled (context_done ∷ events) = some (after_expiry clean_up)

  abbrev pub watch_rolled : Option Err → List WaitEvent → Option DeploymentResult
  watch_rolled none events = wait_for_rolled events
  watch_rolled (some e) events = some (plain_error e.message)

  -- `updateDeployment`, for what its Update and its Watch answer
  unfoldable pub update_deployment :
      Reply (Unit {0}) → (opened : Option Err) → List WaitEvent → Option DeploymentResult
  update_deployment (refuse e) opened events = some (plain_error e.message)
  update_deployment (reply u) opened events = watch_rolled opened events

pub data ServiceEvent : Type 0 where
  -- The watch shows the service, with the cluster IP; each event is followed by a new watch.
  service_seen : (cluster_ip : Text) → ServiceEvent
  other_seen : ServiceEvent
  -- `serviceHasClusterIP` has found one.
  cluster_ip_found : ServiceEvent
  watch_failed : Err → ServiceEvent
  service_context_done : ServiceEvent

abbrev pub service_after_expiry : Option Err → ServiceResult
service_after_expiry none = no_service
service_after_expiry (some e) = service_failed e

module _ (clean_up : Option Err) where
  unfoldable pub wait_for_service : List ServiceEvent → Option ServiceResult
  wait_for_service [] = none
  wait_for_service (service_seen cluster_ip ∷ events) =
      let rest = wait_for_service events in
      if service_available cluster_ip then some served else rest
  wait_for_service (other_seen ∷ events) = wait_for_service events
  wait_for_service (cluster_ip_found ∷ events) = some served
  wait_for_service (watch_failed e ∷ events) = some (service_failed e)
  wait_for_service (service_context_done ∷ events) = some (service_after_expiry clean_up)

  -- `createService`, for what its Create answers
  unfoldable pub create_service : Reply (Unit {0}) → List ServiceEvent → Option ServiceResult
  create_service (refuse e) events = some (service_failed e)
  create_service (reply u) events = wait_for_service events
