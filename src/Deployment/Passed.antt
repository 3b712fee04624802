-- ===== src/Deployment/Passed.antt =====
-- What a run of the deployment check has done when it reports.
use kuberhealthy.Prelude.{◌≡◌, false, Text, is_empty}
use kuberhealthy.Api.Results.{reply}
use kuberhealthy.Deployment.{DeploymentApi, Reported, reported_ok}

module _ (api : DeploymentApi) where
  -- A request to the service at its address has returned no error, and the run has ended with a
  -- cleanup that deleted the service and the deployment without an error.
  pub record IsDone (w' : api.World) : Type 0 where
    pub address : Text
    pub has_address : is_empty address ≡ false
    pub at : api.World
    pub answered : (api.make_request address at).0 ≡ reply tt
    pub before : api.World
    pub service_deleted : (api.delete_service_and_wait before).0 ≡ reply tt
    pub deployment_deleted :
        (api.delete_deployment_and_wait (api.delete_service_and_wait before).1).0 ≡ reply tt
    pub at_end : w' ≡ (api.delete_deployment_and_wait (api.delete_service_and_wait before).1).1

  abbrev Done : Reported × api.World → Type 0
  Done o = o.0 ≡ reported_ok → IsDone o.1
