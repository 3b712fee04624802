-- ===== src/Deployment/Requester/Late.antt =====
-- A service that never answers.
use kuberhealthy.Prelude.{◌≡◌, refl, ℕ, zero, suc, ◌+◌, ◌*◌, ◌≤◌, ◌<◌, none, [], ◌∷◌, Text, arith}
use kuberhealthy.Api.Results.{Err, new_error, refuse}
use kuberhealthy.Store.{second}
use kuberhealthy.Deployment.Requester.{
  RequesterApi, timed_out, max_retries, backoff_timeout, with_protocol, retry_get,
  get_request_backoff, make_request_to_deployment_check_service,
}

-- Sleeping takes its time, and no request turns the clock back.
pub record ClockRuns (api : RequesterApi) : Type 0 where
  pub sleep_takes_time : (d : ℕ) (w : api.World) → api.now w + d ≤ api.now (api.sleep d w)
  pub get_takes_time :
      (address : Text) (w : api.World) → api.now w ≤ api.now (api.http_get address w).1

-- Every request to the address fails.
abbrev pub NeverAnswers : RequesterApi → Text → Type 0
NeverAnswers api address = (w : api.World) → (e : Err) × ((api.http_get address w).0 ≡ refuse e)

abbrev pauses : (left attempts : ℕ) → ℕ
pauses zero attempts = 0
pauses (suc left) attempts = attempts * (5 * second) + pauses left (attempts + 1)

module _ (api : RequesterApi) (runs : ClockRuns api) (address : Text)
    (never : NeverAnswers api address) where
  retry_get-slow :
      (left attempts : ℕ) (last : Err) (w : api.World)
      → api.now w + pauses left attempts ≤ api.now (retry_get api left attempts last address w).1
  unfolding retry_get
  retry_get-slow zero attempts last w = omega arith
  retry_get-slow (suc left) attempts last w =
      let (e, failed) = never w in
      let w₁ = (api.http_get address w).1 in
      let w₂ = api.sleep (attempts * (5 * second)) w₁ in
      rw (failed, retry_get)
        (omega (
          arith,
          runs.get_takes_time address w,
          runs.sleep_takes_time (attempts * (5 * second)) w₁,
          retry_get-slow left (attempts + 1) e w₂,
        ))

-- A service that never answers is taken for one that does: its retries take longer than the timeout of
-- three minutes, so that the timeout comes first, and where the cleanup that follows it has no error,
-- no error is sent.
pub make_request_forgives :
    (api : RequesterApi) (c : ℕ) (hostname : Text) (w : api.World)
    → ClockRuns api
    → NeverAnswers api (with_protocol (c ∷ hostname))
    → (api.clean_up w).0 ≡ none
    → (api.now w + backoff_timeout
        < api.now (get_request_backoff api (with_protocol (c ∷ hostname)) w).1)
      × ((make_request_to_deployment_check_service api timed_out (c ∷ hostname) w).0 ≡ none)
unfolding get_request_backoff make_request_to_deployment_check_service
make_request_forgives api c hostname w runs never clean = (
  omega (
    arith,
    retry_get-slow api runs (with_protocol (c ∷ hostname)) never max_retries 1 (new_error []) w,
  ),
  rw clean refl,
)
