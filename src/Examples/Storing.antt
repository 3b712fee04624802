-- ===== src/Examples/Storing.antt =====
-- Storing and whitelisting on samples.
use kuberhealthy.Prelude.{
  ◌+◌, ◌*◌, ◌≤◌, ◌≡◌, refl, true, Option, none, some, List, [], ◌∷◌, ◌++◌, Text, codes, text_eq,
  lookup, insert, contains, replace, to_lower, is_empty, IsMap,
}
use kuberhealthy.Api.Results.{reply}
use kuberhealthy.Api.Cluster.{Cluster}
use kuberhealthy.Api.Types.{WorkloadDetails, KhState, KhWorkload, kh_check}
use kuberhealthy.Api.Demo.{DemoWorld, demo, demo-IsQuiet, demo_get, demo_update, demo_create}
use kuberhealthy.Health.{State}
use kuberhealthy.Status.{determine_kh_workload, current_status, get_current_status_for_namespaces}
use kuberhealthy.Status.Summary.{
  listed_errors, map_errors, current_status-errors, namespaces-errors,
}
use kuberhealthy.Status.Details.{details_of, shown_items, current_status-lookup}
use kuberhealthy.Store.{
  second, sanitize_resource_name, write_over, set_check_state_resource,
  ensure_state_resource_exists, is_modified, too_many_tries, retry, store_check_state,
}
use kuberhealthy.Store.Written.{Written, store_check_state-Written}
use kuberhealthy.Store.Retries.{
  AlwaysConflicts, GivesUp, store_check_state-bounded, store_check_state-GivesUp,
}
use kuberhealthy.Store.Uuid.{
  Checker, verify, set_fetched, set_uuid, Whitelisted, set_uuid-Whitelisted,
}
use kuberhealthy.Examples.{
  kh_ns, ssl, host, sample_spec, sample_state, sample_world, refusal, stubborn, demo-IsMetered,
  stubborn-IsMetered,
}

abbrev healthy : WorkloadDetails
healthy = record sample_spec { errors = []; ok = true; kh_workload = some kh_check }

store_check_state-Written_example :
    Written demo host
      (sanitize_resource_name ssl)
      kh_ns
      healthy
      (store_check_state demo host ssl kh_ns healthy sample_world).1
unfolding text_eq lookup insert contains replace to_lower demo_get demo_update demo_create
    write_over set_check_state_resource ensure_state_resource_exists is_modified retry
    store_check_state sanitize_resource_name
store_check_state-Written_example =
    store_check_state-Written demo host ssl kh_ns healthy sample_world demo-IsQuiet refl

store_check_state-bounded_example :
    let w' = (store_check_state demo host ssl kh_ns healthy sample_world).1 in
    (w'.writes ≤ 0 + 9) × (w'.slept ≤ 0 + 255 * second)
store_check_state-bounded_example =
    store_check_state-bounded demo (λ w. w.writes) (λ w. w.slept) host ssl kh_ns healthy
      sample_world demo-IsMetered

stubborn-AlwaysConflicts : AlwaysConflicts stubborn kh_ns (sanitize_resource_name ssl)
unfolding is_modified contains
stubborn-AlwaysConflicts = record {
  state_exists = λ w. (sample_state, refl);
  update_conflicts = λ s w. (refusal, refl, refl);
}

store_check_state-GivesUp_example :
    GivesUp {W = DemoWorld}
      (λ w. w.writes)
      (λ w. w.slept)
      (too_many_tries ssl kh_ns)
      9
      (255 * second)
      sample_world
      (store_check_state stubborn host ssl kh_ns healthy sample_world)
store_check_state-GivesUp_example =
    store_check_state-GivesUp stubborn (λ w. w.writes) (λ w. w.slept) host ssl kh_ns healthy
      kh_check sample_world stubborn-IsMetered stubborn-AlwaysConflicts refl

abbrev ssl_checker : Checker
ssl_checker = record {
  check_name = ssl;
  namespace = kh_ns;
  hostname = host;
  kh_workload = kh_check;
}

set_uuid-Whitelisted_example :
    Whitelisted demo ssl_checker
      (codes "u2")
      (set_uuid demo ssl_checker (codes "u2") sample_world).1
unfolding text_eq lookup insert demo_get demo_update verify set_fetched set_uuid
set_uuid-Whitelisted_example =
    set_uuid-Whitelisted demo ssl_checker (codes "u2") sample_world demo-IsQuiet refl

abbrev two_items : List (Option KhState)
two_items = none ∷ some sample_state ∷ []

current_status-errors_example :
    let s = (current_status demo (some two_items) sample_world).0 in
    (s.errors ≡ listed_errors two_items) × (s.ok ≡ is_empty (listed_errors two_items))
current_status-errors_example = current_status-errors demo two_items sample_world

-- A server that has every khcheck.
abbrev all_checks : (name namespace : Text) → Option KhWorkload
all_checks name namespace = some kh_check

abbrev with_checks : Cluster
with_checks = record demo { get_check = λ ns n w. (reply tt, w) }

all_checks-steady :
    (n ns : Text) (w : DemoWorld) → determine_kh_workload with_checks n ns w ≡ (all_checks n ns, w)
unfolding determine_kh_workload
all_checks-steady n ns w = refl

current_status-lookup_example :
    lookup
      (codes "kh/ssl")
      (details_of kh_check (current_status with_checks (some two_items) sample_world).0)
    ≡ shown_items all_checks kh_check two_items (codes "kh/ssl")
current_status-lookup_example =
    current_status-lookup with_checks all_checks all_checks-steady kh_check two_items sample_world
      (codes "kh/ssl")

abbrev one_check : State
one_check = record {
  ok = true;
  errors = [];
  check_details =
      (codes "kh/ssl", sample_spec)
      ∷ (codes "ns/dns", record sample_spec { namespace = codes "ns" })
      ∷ [];
  job_details = [];
  current_master = [];
  metadata = [];
}

namespaces-errors_example :
    let s = get_current_status_for_namespaces (kh_ns ∷ []) one_check in
    let es =
      map_errors (kh_ns ∷ []) one_check.check_details
      ++ map_errors (kh_ns ∷ []) one_check.job_details in
    (s.errors ≡ es) × (s.ok ≡ is_empty es)
namespaces-errors_example = namespaces-errors (kh_ns ∷ []) one_check refl

one_check-IsMap : IsMap one_check.check_details
unfolding lookup text_eq
one_check-IsMap = (refl, (refl, tt))
