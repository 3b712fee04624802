-- ===== src/Client.antt =====
-- The client with which a check reports (pkg/checks/external/checkclient/main.go). The environment is
-- an argument, and so are the encoding of a report (`json.Marshal`) and the number of tries that the
-- backoff library makes within 30 seconds.
pub mod Valid
pub mod Tries
use kuberhealthy.Prelude.{
  ℕ, zero, suc, Bool, true, false, ◌||◌, ◌==◌, Option, none, some, List, [], ◌∷◌, ◌++◌, Text, codes,
  is_empty, if◌then◌else◌,
}
use kuberhealthy.Api.Results.{Err, new_error, wrap_error, Reply, reply, refuse}
use kuberhealthy.Report.{Report, new_report}

-- `client.Do` of a POST: the status code or an error, and what it leaves unread of the body.
pub record ClientApi : Type 1 where
  pub World : Type 0
  pub post : (url run_uuid body : Text) → World → (Reply ℕ × Text) × World

-- The variables KH_REPORTING_URL and KH_RUN_UUID, empty if they are not set.
pub record ClientEnv : Type 0 where
  pub reporting_url : Text
  pub run_uuid : Text

-- `getKuberhealthyURL` and `getKuberhealthyRunUUID`
unfoldable pub get_variable : (variable value : Text) → Reply Text
get_variable variable value =
    if is_empty value
    then refuse
        (new_error (codes "fetched " ++ variable ++ codes " environment variable but it was blank"))
    else reply value

-- The statuses that end the retries.
abbrev pub is_final : ℕ → Bool
is_final status = status == 200 || status == 400

abbrev pub bad_status : Err
bad_status = new_error (codes "bad status code from kuberhealthy status reporting url")

-- The function that is retried.
abbrev pub outcome : Reply ℕ → Option Err
outcome (refuse e) = some e
outcome (reply status) = if is_final status then none else some bad_status

module _ (api : ClientApi) where
  -- `backoff.Retry`: one request object serves every try, so that a try sends what the tries before it
  -- have left of the body: nothing, all of it where no connection was made, or all of it again where the
  -- transport rewinds it.
  unfoldable pub retry_post :
      (tries : ℕ) (last : Err) (url run_uuid body : Text) → api.World → Option Err × api.World
  retry_post zero last url run_uuid body w = (some last, w)
  retry_post (suc tries) last url run_uuid body w =
      elim (outcome (api.post url run_uuid body w).0.0) [
        | none ↦ (none, (api.post url run_uuid body w).1)
        | some e ↦
            retry_post tries e url run_uuid (api.post url run_uuid body w).0.1
              (api.post url run_uuid body w).1
      ]

  module _ (encode : Report → Text) (env : ClientEnv) where
    abbrev pub send_with :
        (tries : ℕ) → Report → (url run_uuid : Reply Text) → api.World → Option Err × api.World
    send_with tries s (refuse e) u w =
        (some (wrap_error (codes "failed to fetch the kuberhealthy url: ") e), w)
    send_with tries s (reply url) (refuse e) w =
        (some (wrap_error (codes "failed to fetch the kuberhealthy run uuid: ") e), w)
    send_with tries s (reply url) (reply run_uuid) w =
        retry_post tries bad_status url run_uuid (encode s) w

    -- `sendReport`, without the prefix of the last error.
    unfoldable pub send_report : (tries : ℕ) → Report → api.World → Option Err × api.World
    send_report tries s w =
        send_with tries s (get_variable (codes "KH_REPORTING_URL") env.reporting_url)
          (get_variable (codes "KH_RUN_UUID") env.run_uuid) w

    unfoldable pub report_success : (tries : ℕ) → api.World → Option Err × api.World
    report_success tries w = send_report tries (new_report []) w

    unfoldable pub report_failure :
        (tries : ℕ) (error_messages : List Text) → api.World → Option Err × api.World
    report_failure tries error_messages w = send_report tries (new_report error_messages) w

-- `GetDeadline`, in seconds of Unix time, for the value of KH_CHECK_RUN_DEADLINE; `atoi` is
-- `strconv.Atoi` on values that are not negative.
unfoldable pub get_deadline : (atoi : Text → Reply ℕ) (unix_deadline : Text) → Reply ℕ
get_deadline atoi [] =
    refuse (new_error (codes "fetched KH_CHECK_RUN_DEADLINE environment variable but it was blank"))
get_deadline atoi (c ∷ unix_deadline) = elim (atoi (c ∷ unix_deadline)) [
  | refuse e ↦ refuse (wrap_error (codes "unable to parse KH_CHECK_RUN_DEADLINE: ") e)
  | reply seconds ↦ reply seconds
]
