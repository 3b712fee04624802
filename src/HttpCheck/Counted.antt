-- ===== src/HttpCheck/Counted.antt =====
-- What the HTTP check counts.
use kuberhealthy.Prelude.{
  ◌≡◌, refl, inl, inr, ℕ, zero, suc, ◌+◌, ◌==◌, true, Bool-cases, Text, arith,
}
use kuberhealthy.Api.Results.{Reply-cases}
use kuberhealthy.HttpCheck.{HttpApi, or_default, call_api, run_requests, check}

module _ (api : HttpApi) (request_type : Text) (code : ℕ) where
  run_requests-counted :
      (left passed failed : ℕ) (w : api.World)
      → let counts = (run_requests api request_type code left (passed, failed) w).0 in
        counts.0 + counts.1 ≡ passed + failed + left
  unfolding run_requests
  run_requests-counted zero passed failed w = omega arith
  run_requests-counted (suc left) passed failed w =
      let w' = (call_api api request_type code w).1 in
      let lost = run_requests-counted left passed (failed + 1) w' in
      elim (Reply-cases (call_api api request_type code w).0) [
        | inr (e, refused) ↦ rw (refused, run_requests) (omega (arith, lost))
        | inl (status, got) ↦ elim (Bool-cases (status == or_default code 200)) [
          | inl good ↦
              rw (got, good, run_requests)
                (omega (arith, run_requests-counted left (passed + 1) failed (api.wait w')))
          | inr bad ↦ rw (got, bad, run_requests) (omega (arith, lost))
        ]
      ]

-- Every one of the requests counts as passed or as failed; and with a count of 0, which is the default,
-- the check reports success without a request, if no request has to pass.
pub run_requests_counted :
    (api : HttpApi) (request_type : Text) (code : ℕ) (pass_score : (passing count : ℕ) → ℕ)
    (passing count : ℕ) (w : api.World)
    → pass_score (or_default passing 100) 0 ≡ 0
    → let counts = (run_requests api request_type code count (0, 0) w).0 in
      (counts.0 + counts.1 ≡ count)
      × (check api request_type code pass_score passing 0 w ≡ (true, w))
unfolding check run_requests
run_requests_counted api request_type code pass_score passing count w none_needed =
    (omega (arith, run_requests-counted api request_type code count 0 0 w), rw none_needed refl)
