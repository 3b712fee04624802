-- ===== src/Deployment/Requester.antt =====
-- The request to the service (cmd/deployment-check/service_requester.go). What the `select` on the
-- backoff, the timeout of three minutes and the context receives first is an argument.
pub mod Late
use kuberhealthy.Prelude.{
  ℕ, zero, suc, ◌+◌, ◌*◌, ◌==◌, Option, none, some, List, [], ◌∷◌, ◌++◌, Text, codes, starts_with,
  if◌then◌else◌,
}
use kuberhealthy.Api.Results.{Err, new_error, wrap_error, Reply, reply, refuse, Call}
use kuberhealthy.Store.{second}

-- `http.Get` answers with the status code.
pub record RequesterApi : Type 1 where
  pub World : Type 0
  pub now : World → ℕ
  pub sleep : ℕ → World → World
  pub http_get : (address : Text) → Call World ℕ
  pub clean_up : World → Option Err × World

pub data RequestResult : Type 0 where
  blank : RequestResult
  response : (status : ℕ) → RequestResult
  request_failed : Err → RequestResult

pub data RequestReceived : Type 0 where
  answered timed_out cancelled : RequestReceived

abbrev pub max_retries : ℕ
max_retries = 10

abbrev pub backoff_timeout : ℕ
backoff_timeout = 180 * second

abbrev pub with_protocol : (hostname : Text) → Text
with_protocol hostname =
    if starts_with hostname (codes "http://") then hostname else codes "http://" ++ hostname

abbrev pub clean_error : Option Err → Option Err
clean_error none = none
clean_error (some e) = some (wrap_error (codes "failed to clean up properly: ") e)

abbrev pub result_error : RequestResult → Option Err
result_error blank = some (new_error (codes "got a blank request result from the backoff process"))
result_error (request_failed e) = some e
result_error (response status) = none

module _ (api : RequesterApi) where
  -- The loop of `getRequestBackoff`: an answer other than 200 or 502 ends it without a result.
  unfoldable pub retry_get :
      (left attempts : ℕ) (last : Err) (address : Text) → api.World → RequestResult × api.World
  retry_get zero attempts last address w = (request_failed last, w)
  retry_get (suc left) attempts last address w =
      let (r, w₁) = api.http_get address w in
      let w₂ = api.sleep (attempts * (5 * second)) w₁ in
      elim r [
        | refuse e ↦ retry_get left (attempts + 1) e address w₂
        | reply status ↦
            let again = retry_get left (attempts + 1) (new_error []) address w₂ in
            if status == 200
            then (response status, w₁)
            else if status == 502
            then again
            else (blank, w₂)
      ]

  -- `getRequestBackoff`
  unfoldable pub get_request_backoff : (address : Text) → api.World → RequestResult × api.World
  get_request_backoff address w = retry_get max_retries 1 (new_error []) address w

  abbrev pub cleaned : Option Err × api.World → Option Err × api.World
  cleaned (e, w) = (clean_error e, w)

  -- `makeRequestToDeploymentCheckService`: the error that it sends, or nil.
  unfoldable pub make_request_to_deployment_check_service :
      RequestReceived → (hostname : Text) → api.World → Option Err × api.World
  make_request_to_deployment_check_service r [] w =
      (some (new_error (codes "given blank hostname for service load balancer endpoint")), w)
  make_request_to_deployment_check_service answered (c ∷ hostname) w =
      let (r, w') = get_request_backoff (with_protocol (c ∷ hostname)) w in (result_error r, w')
  make_request_to_deployment_check_service timed_out (c ∷ hostname) w = cleaned (api.clean_up w)
  make_request_to_deployment_check_service cancelled (c ∷ hostname) w = cleaned (api.clean_up w)
