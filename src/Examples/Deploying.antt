-- ===== src/Examples/Deploying.antt =====
-- The deployment check, the DNS and cronjob checks, and the set of the pod names, on samples.
use kuberhealthy.Prelude.{
  lookup, All, has, ℕ, zero, suc, ◌+◌, ◌-◌, ◌≡◌, ◌<◌, refl, false, not, ◌&&◌, all, none, some,
  Option, List, [], ◌∷◌, Text, codes, text_eq, is_empty, map, join, arith, if◌then◌else◌,
}
use mathlib.Core.Quot.{Quot}
use kuberhealthy.Api.Results.{Err, new_error, ok, reply, refuse}
use kuberhealthy.Api.Demo.{demo}
use kuberhealthy.Master.{calculate_master}
use kuberhealthy.Master.Choice.{IsLeast, pod_names}
use kuberhealthy.Master.Names.{least_name, result_of, calculate_master-least_name}
use kuberhealthy.Deployment.Requester.{
  RequesterApi, timed_out, backoff_timeout, with_protocol, get_request_backoff,
  make_request_to_deployment_check_service,
}
use kuberhealthy.Deployment.Requester.Late.{ClockRuns, NeverAnswers, make_request_forgives}
use kuberhealthy.Deployment.Rollout.{
  ResourceApi, delete_service_and_wait, delete_deployment_and_wait,
}
use kuberhealthy.Deployment.Rollout.Deleted.{IsGone, delete_and_wait-IsGone}
use kuberhealthy.Deployment.Input.{parse_node_selectors}
use kuberhealthy.Deployment.Input.Parsed.{IsField, IsPart, text_of, parse_node_selectors-pairs}
use kuberhealthy.Dns.{ips_of, check_endpoints}
use kuberhealthy.Dns.Resolved.{is_none, resolves, check_endpoints-resolves}
use kuberhealthy.Cronjob.{one_year, find_last_cron_run_time}
use kuberhealthy.Cronjob.Last.{Advances, IsLastBefore, find_last_cron_run_time-IsLastBefore}
use kuberhealthy.Examples.{master_pods, sample_world}

calculate_master-least_name_example :
    ((calculate_master demo sample_world).0
      ≡ result_of (least_name (Quot.mk (pod_names master_pods))))
    × ((m : Text)
        → (calculate_master demo sample_world).0 ≡ ok m
        → IsLeast m (pod_names master_pods))
calculate_master-least_name_example =
    calculate_master-least_name demo sample_world master_pods (Quot.mk (pod_names master_pods)) refl
      refl

-- A service that refuses every connection; the world is the clock.
abbrev refusing : RequesterApi
refusing = record {
  World = ℕ;
  now = λ n. n;
  sleep = λ d n. n + d;
  http_get = λ address n. (refuse (new_error (codes "connection refused")), n);
  clean_up = λ n. (none, n);
}

refusing-ClockRuns : ClockRuns refusing
refusing-ClockRuns = record {
  sleep_takes_time = λ d n. omega arith;
  get_takes_time = λ address n. omega arith;
}

refusing-NeverAnswers : NeverAnswers refusing (with_protocol (codes "10.1.0.1"))
refusing-NeverAnswers n = (new_error (codes "connection refused"), refl)

make_request_forgives_example :
    (0 + backoff_timeout < (get_request_backoff refusing (with_protocol (codes "10.1.0.1")) 0).1)
    × ((make_request_to_deployment_check_service refusing timed_out (codes "10.1.0.1") 0).0 ≡ none)
make_request_forgives_example =
    make_request_forgives refusing b'1' (codes "0.1.0.1") 0 refusing-ClockRuns refusing-NeverAnswers
      refl

-- What was deleted is gone at the second listing; the world counts the listings.
abbrev names_left : ℕ → List Text
names_left zero = codes "check" ∷ []
names_left (suc n) = []

abbrev slow_deletion : ResourceApi
slow_deletion = record {
  World = ℕ;
  sleep = λ d n. n;
  is_done = λ n. false;
  list_all = λ n. (reply [], n);
  list_named = λ name n. (reply (names_left n), n + 1);
  delete_named = λ name n. (reply tt, n);
}

delete_and_wait-IsGone_example :
    ((delete_deployment_and_wait slow_deletion (codes "check") 3 0).0 ≡ some none
      → IsGone slow_deletion
          (codes "check")
          (delete_deployment_and_wait slow_deletion (codes "check") 3 0).1)
    × ((delete_service_and_wait slow_deletion (codes "check") 3 0).0 ≡ some none
        → IsGone slow_deletion
            (codes "check")
            (delete_service_and_wait slow_deletion (codes "check") 3 0).1)
delete_and_wait-IsGone_example = delete_and_wait-IsGone slow_deletion (codes "check") 3 0

abbrev field : {f : Text} → has b'=' f ≡ false → has b',' f ≡ false → IsField f
field e c = record { no_equals = e; no_comma = c }

disk_parts-IsPart :
    All IsPart ((codes "disk", codes "hdd" ∷ []) ∷ (codes "a", codes "b" ∷ codes "c" ∷ []) ∷ [])
disk_parts-IsPart = (
  (field refl refl, (field refl refl, tt)),
  ((field refl refl, (field refl refl, (field refl refl, tt))), tt),
)

parse_node_selectors-pairs_example :
    lookup (codes "disk") (
      parse_node_selectors
        (join b',' (
          map text_of (
            (codes "disk", codes "ssd" ∷ [])
            ∷ (codes "disk", codes "hdd" ∷ [])
            ∷ (codes "a", codes "b" ∷ codes "c" ∷ [])
            ∷ [])))
        [])
    ≡ some (codes "ssd")
unfolding text_eq lookup
parse_node_selectors-pairs_example =
    parse_node_selectors-pairs (codes "disk") (codes "disk", codes "ssd" ∷ [])
      ((codes "disk", codes "hdd" ∷ []) ∷ (codes "a", codes "b" ∷ codes "c" ∷ []) ∷ []) []
      (field refl refl, (field refl refl, tt)) disk_parts-IsPart

abbrev answers_at : Text → Option Err
answers_at ip =
    if text_eq ip (codes "10.0.0.10") then none else some (new_error (codes "no such host"))

check_endpoints-resolves_example :
    is_none (check_endpoints answers_at none (reply (((codes "10.0.0.10" ∷ []) ∷ []) ∷ []))) ≡ (
      not (is_empty (ips_of (((codes "10.0.0.10" ∷ []) ∷ []) ∷ [])))
      && all (resolves answers_at none) (ips_of (((codes "10.0.0.10" ∷ []) ∷ []) ∷ [])))
check_endpoints-resolves_example =
    check_endpoints-resolves answers_at none (((codes "10.0.0.10" ∷ []) ∷ []) ∷ [])

abbrev each_minute : ℕ → ℕ
each_minute t = t + 60000000000

each_minute-Advances : Advances each_minute
each_minute-Advances t = omega arith

find_last_cron_run_time-IsLastBefore_example :
    (m : ℕ) × (find_last_cron_run_time (suc (one_year + 5)) each_minute 90000000000 90000000005
      ≡ some m)
    × IsLastBefore each_minute 90000000005 (90000000000 - one_year) m
find_last_cron_run_time-IsLastBefore_example =
    find_last_cron_run_time-IsLastBefore each_minute 90000000000 90000000005 each_minute-Advances
      (omega arith)
