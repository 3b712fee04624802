-- ===== src/HttpCheck.antt =====
-- The HTTP check, a checker pod of its own (cmd/http-check/main.go): its loop of requests and its report.
-- The number of requests that have to pass, a product of floating point numbers that is cut off, is an
-- argument. Logging is left out.
pub mod Counted
use kuberhealthy.Prelude.{
  ℕ, zero, suc, ◌+◌, ◌==◌, ltb, not, Bool, true, false, ◌||◌, List, [], ◌∷◌, Text, codes, text_eq,
  is_empty, starts_with, if◌then◌else◌,
}
use kuberhealthy.Api.Results.{Err, new_error, Reply, reply, refuse, Call}

-- `send` is a request of a type that is not GET, and `wait` the receive from the ticker, if there is one.
pub record HttpApi : Type 1 where
  pub World : Type 0
  pub get : Call World ℕ
  pub send : (request_type : Text) → Call World ℕ
  pub wait : World → World

abbrev pub is_other_type : Text → Bool
is_other_type t =
    text_eq t (codes "POST")
    || (text_eq t (codes "PUT") || (text_eq t (codes "DELETE") || text_eq t (codes "PATCH")))

-- `checksPassed` and `checksFailed`
abbrev pub Counts : Type 0
Counts = ℕ × ℕ

abbrev pub or_default : (n d : ℕ) → ℕ
or_default zero d = d
or_default (suc n) d = suc n

module _ (api : HttpApi) (request_type : Text) (expected_status_code : ℕ) where
  -- `callAPI`
  unfoldable pub call_api : Call api.World ℕ
  call_api w =
      if text_eq request_type (codes "GET")
      then api.get w
      else if is_other_type request_type
      then api.send request_type w
      else (refuse (new_error (codes "wrong request type found")), w)

  -- The loop, for the requests that are left
  unfoldable pub run_requests : (left : ℕ) → Counts → api.World → Counts × api.World
  run_requests zero counts w = (counts, w)
  run_requests (suc left) (passed, failed) w =
      let (r, w') = call_api w in
      let lost = run_requests left (passed, failed + 1) w' in
      elim r [
        | refuse e ↦ lost
        | reply status ↦
            let won = run_requests left (passed + 1, failed) (api.wait w') in
            if status == or_default expected_status_code 200 then won else lost
      ]

  -- `main` after the input, and whether it reports success
  unfoldable pub check :
      (pass_score : (passing count : ℕ) → ℕ) (passing count : ℕ) → api.World → Bool × api.World
  check pass_score passing count w =
      let (counts, w') = run_requests count (0, 0) w in
      (not (ltb counts.0 (pass_score (or_default passing 100) count)), w')
