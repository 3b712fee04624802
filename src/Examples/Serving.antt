-- ===== src/Examples/Serving.antt =====
-- The status page, the metrics, the limiter and the client on samples.
use kuberhealthy.Prelude.{
  is_empty, ℕ, zero, suc, ◌+◌, ◌<◌, ◌≡◌, refl, ◌≤◌, false, some, [], ◌∷◌, ◌++◌, Text, codes, has,
  length, join,
}
use kuberhealthy.Api.Results.{new_error, Reply, reply, refuse}
use kuberhealthy.Api.Demo.{demo}
use kuberhealthy.Health.{State}
use kuberhealthy.Status.{}
use kuberhealthy.Page.{requested_namespaces, health_check_handler, get_current_state}
use kuberhealthy.Page.Query.{
  IsNamespace, no_parts, blank_part, name_part, requested_namespaces-join,
}
use kuberhealthy.Page.Shown.{IsHonest, health_check_handler-IsHonest}
use kuberhealthy.Metrics.{PromMetricsConfig, quoted, check_labels, prom_metric_name}
use kuberhealthy.Metrics.Label.{prom_metric_name-label}
use kuberhealthy.Limiter.{message, quiet, closed, idle, notify_chan_limiter}
use kuberhealthy.Limiter.Smooth.{bursts, notify_chan_limiter-bursts}
use kuberhealthy.Report.{new_report}
use kuberhealthy.Client.{ClientApi, ClientEnv, retry_post, get_variable, send_report}
use kuberhealthy.Client.Tries.{Answered, send_report-Answered}
use kuberhealthy.Examples.{kh_ns, ssl, run_1, sample_state, sample_world}

abbrev other_ns : Text
other_ns = codes "prod"

kh_ns-IsNamespace : IsNamespace kh_ns
kh_ns-IsNamespace = record { has_text = refl; no_comma = refl }

other_ns-IsNamespace : IsNamespace other_ns
other_ns-IsNamespace = record { has_text = refl; no_comma = refl }

requested_namespaces-join_example :
    requested_namespaces (join b',' (kh_ns ∷ [] ∷ other_ns ∷ [] ∷ [])) ≡ kh_ns ∷ other_ns ∷ []
requested_namespaces-join_example =
    requested_namespaces-join (kh_ns ∷ [] ∷ other_ns ∷ [] ∷ []) (kh_ns ∷ other_ns ∷ []) (
      name_part kh_ns kh_ns-IsNamespace
        (blank_part (name_part other_ns other_ns-IsNamespace (blank_part no_parts))))

abbrev shown : State
shown = (get_current_state demo (some (some sample_state ∷ [])) [] [] sample_world).0

health_check_handler-IsHonest_example : IsHonest shown
unfolding requested_namespaces health_check_handler
health_check_handler-IsHonest_example =
    health_check_handler-IsHonest demo (some (some sample_state ∷ [])) [] [] [] shown sample_world
      refl

abbrev bounded : PromMetricsConfig
bounded = record { suppress_error_label = false; error_label_max_length = 4 }

prom_metric_name-label_example :
    (value : Text) × (prom_metric_name bounded
        (codes "check")
        ssl
        kh_ns
        (codes "0")
        (codes "a \"b\"" ∷ [])
      ≡ (codes "kuberhealthy_"
          ++ codes "check"
          ++ check_labels ssl kh_ns
          ++ codes ",status="
          ++ quoted (codes "0"))
        ++ (codes ",error=" ++ quoted value ++ codes "}"))
    × (has b'"' value ≡ false)
    × (0 < 4 → length value ≤ 4)
prom_metric_name-label_example =
    prom_metric_name-label bounded (codes "check") ssl kh_ns (codes "0") (codes "a \"b\"" ∷ []) refl

notify_chan_limiter-bursts_example :
    (notify_chan_limiter (message ∷ message ∷ quiet ∷ quiet ∷ message ∷ quiet ∷ closed ∷ []) idle).1
    ≡ bursts (message ∷ message ∷ quiet ∷ quiet ∷ message ∷ quiet ∷ closed ∷ [])
notify_chan_limiter-bursts_example =
    notify_chan_limiter-bursts (message ∷ message ∷ quiet ∷ quiet ∷ message ∷ quiet ∷ closed ∷ [])

-- A server that is not ready for its first request, which cannot connect: the world counts the tries.
abbrev answer_to : Text → ℕ → Reply ℕ × Text
answer_to body zero = (refuse (new_error (codes "connection refused")), body)
answer_to body (suc n) = (reply 200, [])

abbrev late : ClientApi
late = record { World = ℕ; post = λ url run_uuid body n. (answer_to body n, n + 1) }

abbrev pod_env : ClientEnv
pod_env = record { reporting_url = codes "url"; run_uuid = run_1 }

send_report-Answered_example :
    (is_empty pod_env.reporting_url ≡ false)
    × (is_empty pod_env.run_uuid ≡ false)
    × Answered late pod_env.reporting_url pod_env.run_uuid 3
        (codes "{}")
        0
        (send_report late (λ r. codes "{}") pod_env 3 (new_report []) 0).1
unfolding retry_post get_variable send_report
send_report-Answered_example =
    send_report-Answered late (λ r. codes "{}") pod_env 3 (new_report []) 0 refl
