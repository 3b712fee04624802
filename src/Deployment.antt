-- ===== src/Deployment.antt =====
-- One run of the deployment check, a checker pod of its own (cmd/deployment-check/run_check.go). What it
-- does with its deployment and its service is a record of calls (deployment.go, service.go and
-- service_requester.go), and what a `select` on a call, the context and the timeout receives first is an
-- argument. Logging, and the wait for kuberhealthy to be reachable, are left out.
pub mod Passed
pub mod Input
pub mod Requester
pub mod Rollout
pub mod Waits
use kuberhealthy.Prelude.{
  Bool, true, false, ◌||◌, Option, none, some, List, [], ◌∷◌, ◌++◌, Text, codes, is_empty,
  if◌then◌else◌,
}
use kuberhealthy.Api.Results.{Err, Reply, reply, refuse, Call}

-- The error of a deployment, and whether it is the one for pods that do not come up.
pub record DeploymentError : Type 0 where
  pub is_pod_error : Bool
  pub message : Text

pub data DeploymentResult : Type 0 where
  deployed : (name : Text) → DeploymentResult
  deployment_failed : DeploymentError → DeploymentResult
  -- Neither a deployment nor an error, which is what is sent after a cleanup that went well.
  no_deployment : DeploymentResult

pub data ServiceResult : Type 0 where
  served : ServiceResult
  service_failed : Err → ServiceResult
  no_service : ServiceResult

pub record DeploymentApi : Type 1 where
  pub World : Type 0
  pub find_previous_service : Call World Bool
  pub find_previous_deployment : Call World Bool
  pub create_deployment : (image : Text) → World → DeploymentResult × World
  pub update_deployment : (image : Text) → World → DeploymentResult × World
  pub create_service : World → ServiceResult × World
  -- Empty if there is none.
  pub get_service_cluster_ip : World → Text × World
  pub make_request : (address : Text) → Call World (Unit {0})
  pub delete_service_and_wait : Call World (Unit {0})
  pub delete_deployment_and_wait : Call World (Unit {0})

pub data Received : Type 0 where
  done interrupted timed_out : Received

-- The receptions of the selects, in the order of the code.
pub record Receptions : Type 0 where
  pub cleaned : Received
  pub created : Received
  pub served_in_time : Received
  pub requested : Received
  pub updated : Received
  pub requested_again : Received

pub record DeploymentConfig : Type 0 where
  pub check_image_url : Text
  pub check_image_url_b : Text
  pub rolling_update : Bool

-- What the run has reported when it ends: errors, or OK, or that it panics: it reads the name of a nil
-- deployment or service.
pub data Reported : Type 0 where
  crashed : Reported
  reported_errors : List Text → Reported
  reported_ok : Reported

abbrev pub error_text : (message : Text) → Reply (Unit {0}) → Text
error_text message (reply u) = []
error_text message (refuse e) = message ++ e.message

-- The two messages of `cleanUp`, with a bar between them if there are both.
abbrev pub joined : Text → Text → Text
joined [] t = t
joined (c ∷ s) [] = c ∷ s
joined (c ∷ s) (d ∷ t) = c ∷ s ++ codes " | " ++ d ∷ t

-- The messages of an error that may be nil.
abbrev pub as_list : Text → List Text
as_list [] = []
as_list (c ∷ s) = (c ∷ s) ∷ []

abbrev pub shown : (message : Text) → DeploymentError → Text
shown message e = if e.is_pod_error then e.message else message

abbrev pub service_message : Text
service_message = codes "error cleaning up service:"

abbrev pub deployment_message : Text
deployment_message = codes "error cleaning up deployment:"

module _ (api : DeploymentApi) where
  abbrev pub Run : Type 0
  Run = api.World → Reported × api.World

  abbrev pub report_errors_to_kuberhealthy : List Text → Run
  report_errors_to_kuberhealthy errors w = (reported_errors errors, w)

  -- `cleanUp`: the message of its error, empty for nil.
  unfoldable pub clean_up : api.World → Text × api.World
  clean_up w =
      let (s, w₁) = api.delete_service_and_wait w in
      let (d, w₂) = api.delete_deployment_and_wait w₁ in
      (joined (error_text service_message s) (error_text deployment_message d), w₂)

  -- A cleanup whose error, if there is one, comes after the error that led to it.
  abbrev pub clean_up_after : Text → Run
  clean_up_after message w = let (e, w') = clean_up w in (reported_errors (message ∷ as_list e), w')

  abbrev pub on_received : Received → (timeout : Text) → Run → Run
  on_received done timeout next = next
  on_received interrupted timeout next = report_errors_to_kuberhealthy (timeout ∷ [])
  on_received timed_out timeout next = report_errors_to_kuberhealthy (timeout ∷ [])

  abbrev pub exists_ : Reply Bool → Bool
  exists_ (reply b) = b
  exists_ (refuse e) = false

  -- `cleanUpOrphanedResources`: an error of a search counts as nothing found.
  unfoldable pub clean_up_orphaned_resources : api.World → Text × api.World
  clean_up_orphaned_resources w =
      let (s, w₁) = api.find_previous_service w in
      let (d, w₂) = api.find_previous_deployment w₁ in
      if exists_ s || exists_ d then clean_up w₂ else ([], w₂)

  abbrev pub after_orphans : Text × api.World → Run → Reported × api.World
  after_orphans ([], w) next = next w
  after_orphans (c ∷ message, w) next = (reported_errors ((c ∷ message) ∷ []), w)

  abbrev pub after_deployment :
      (message : Text) → DeploymentResult × api.World → (Text → Run) → Reported × api.World
  after_deployment message (deployed name, w) next = next name w
  after_deployment message (deployment_failed e, w) next =
      (reported_errors (shown message e ∷ []), w)
  after_deployment message (no_deployment, w) next = (crashed, w)

  -- A reply of a call whose error is reported after a cleanup.
  abbrev pub after_call : Reply (Unit {0}) × api.World → Run → Reported × api.World
  after_call (reply u, w) next = next w
  after_call (refuse e, w) next = clean_up_after e.message w

  abbrev pub after_service : ServiceResult × api.World → Run → Reported × api.World
  after_service (served, w) next = next w
  after_service (service_failed e, w) next = clean_up_after e.message w
  after_service (no_service, w) next = (crashed, w)

  abbrev pub end_of : Text × api.World → Reported × api.World
  end_of ([], w) = (reported_ok, w)
  end_of (c ∷ message, w) = (reported_errors ((c ∷ message) ∷ []), w)

  abbrev pub finish : Run
  finish w = end_of (clean_up w)

  abbrev pub request : (address : Text) → Received → Run → Run
  request address r next =
      on_received r
        (codes "failed to make http request to the deployment service cluster IP at "
          ++ address
          ++ codes " within timeout")
        (λ w. after_call (api.make_request address w) next)

  abbrev pub roll : DeploymentConfig → Receptions → (name address : Text) → Run
  roll config rs name address =
      on_received rs.updated
        (codes "failed to update deployment " ++ name ++ codes " within timeout")
        (λ w.
          after_deployment (codes "error occurred rolling-update deployment")
            (api.update_deployment config.check_image_url_b w)
            (λ updated_name. request address rs.requested_again finish))

  abbrev pub serve : DeploymentConfig → Receptions → (name address : Text) → Run
  serve config rs name address =
      request address rs.requested
        (if config.rolling_update then roll config rs name address else finish)

  -- What follows the cluster IP of the service; the cleanup's error comes first here.
  abbrev pub with_address :
      DeploymentConfig → Receptions → (name : Text) → Text × api.World → Reported × api.World
  with_address config rs name ([], w) =
      let (e, w') = clean_up w in
      (reported_errors (as_list e ++ codes "service cluster IP address is nil: " ∷ []), w')
  with_address config rs name (c ∷ address, w) = serve config rs name (c ∷ address) w

  abbrev pub with_deployment : DeploymentConfig → Receptions → (name : Text) → Run
  with_deployment config rs name =
      on_received rs.served_in_time (codes "failed to create service within timeout") (λ w.
        after_service (api.create_service w)
          (λ w'. with_address config rs name (api.get_service_cluster_ip w')))

  abbrev pub with_clean_slate : DeploymentConfig → Receptions → Run
  with_clean_slate config rs =
      on_received rs.created (codes "failed to create deployment within timeout") (λ w.
        after_deployment (codes "error occurred creating deployment")
          (api.create_deployment config.check_image_url w) (with_deployment config rs))

  -- `runDeploymentCheck`
  unfoldable pub run_deployment_check : DeploymentConfig → Receptions → Run
  run_deployment_check config rs =
      on_received rs.cleaned (codes "failed to perform pre-check cleanup within timeout")
        (λ w. after_orphans (clean_up_orphaned_resources w) (with_clean_slate config rs))
