-- ===== src/Examples/Reporting.antt =====
-- The report endpoint and the checker pod on samples.
use kuberhealthy.Prelude.{
  ◌+◌, ◌*◌, ◌≡◌, refl, false, none, some, [], ◌∷◌, codes, text_eq, lookup, insert, contains,
  replace, to_lower, is_blank,
}
use kuberhealthy.Api.Results.{ok, fault}
use kuberhealthy.Api.Types.{new_workload_details, new_kuberhealthy_state}
use kuberhealthy.Api.Demo.{
  demo, demo-IsQuiet, demo_get, demo_update, demo_create, demo_find, demo_pods,
}
use kuberhealthy.Health.{add_error, new_state}
use kuberhealthy.Status.{
  report_errors, store_details, determine_kh_workload, visit_item, visit_items, current_status,
}
use kuberhealthy.Store.{
  second, sanitize_resource_name, write_over, set_check_state_resource,
  ensure_state_resource_exists, is_modified, retry, store_check_state,
}
use kuberhealthy.Report.{
  PodReportInfo, env_vars, find_uuid, fetch_pod_by_selector, fetch_until, fetch_pod_for_a_minute,
  is_uuid_whitelisted_for_check, validate_report_info, validate_pod, validate_external_request,
}
use kuberhealthy.Report.Fetch.{fetch_pod_for_a_minute-ends}
use kuberhealthy.Report.Handler.{
  Request, report, is_valid, report_details, validate_by_source_ip, validate_request,
  external_check_report_handler,
}
use kuberhealthy.Report.Accepted.{Accepted, external_check_report_handler-Accepted}
use kuberhealthy.Report.Refused.{external_check_report_handler-bad_request}
use kuberhealthy.Launch.{PodSpec, PodMaker, configure_user_pod_spec, new_checker_pod}
use kuberhealthy.Launch.Reports.{new_checker_pod-validates}
use kuberhealthy.Examples.{
  kh_ns, ssl, run_1, host, sample_container, sample_state, sample_world, demo-IsWriteMeter,
  demo-ClockRuns,
}

abbrev failing : Request
failing = record {
  run_uuid = run_1;
  remote_ip = none;
  body = report (record { errors = codes "expired" ∷ []; ok = false });
}

abbrev unexplained : Request
unexplained = record failing { body = report (record { errors = []; ok = false }) }

abbrev sample_info : PodReportInfo
sample_info = record { name = ssl; uuid = run_1; namespace = kh_ns }

external_check_report_handler-Accepted_example :
    Accepted demo host failing
      (external_check_report_handler demo host
        (some (some sample_state ∷ []))
        failing
        sample_world).1
unfolding text_eq lookup insert contains replace to_lower is_blank new_workload_details
    new_kuberhealthy_state demo_get demo_update demo_create demo_find demo_pods add_error new_state
    report_errors store_details determine_kh_workload visit_item visit_items current_status
    sanitize_resource_name write_over set_check_state_resource ensure_state_resource_exists
    is_modified retry store_check_state env_vars find_uuid fetch_pod_by_selector fetch_until
    fetch_pod_for_a_minute is_uuid_whitelisted_for_check validate_report_info validate_pod
    validate_external_request is_valid report_details validate_by_source_ip validate_request
    external_check_report_handler
external_check_report_handler-Accepted_example =
    external_check_report_handler-Accepted demo host (some (some sample_state ∷ [])) failing
      sample_world demo-IsQuiet refl

external_check_report_handler-bad_request_example :
    (external_check_report_handler demo host none unexplained sample_world).1.writes ≡ 0
unfolding text_eq lookup demo_get demo_pods env_vars find_uuid fetch_pod_by_selector fetch_until
    fetch_pod_for_a_minute is_uuid_whitelisted_for_check validate_report_info validate_pod
    validate_external_request is_valid validate_by_source_ip validate_request
    external_check_report_handler
external_check_report_handler-bad_request_example =
    external_check_report_handler-bad_request demo (λ w. w.writes) host none unexplained
      sample_world demo-IsWriteMeter refl

fetch_pod_for_a_minute-ends_example :
    fetch_pod_for_a_minute demo (codes "kuberhealthy-run-id=u2") sample_world
    ≡ fetch_until demo 62 fault
        (sample_world.clock + 60 * second)
        (codes "kuberhealthy-run-id=u2")
        sample_world
fetch_pod_for_a_minute-ends_example =
    fetch_pod_for_a_minute-ends demo fault (codes "kuberhealthy-run-id=u2") sample_world
      demo-ClockRuns

abbrev sample_pod_spec : PodSpec
sample_pod_spec = record {
  containers = sample_container ∷ [];
  init_containers = [];
  restart_policy = codes "Always";
}

abbrev sample_maker : PodMaker
sample_maker = record {
  check_name = ssl;
  namespace = kh_ns;
  check_pod_name = codes "ssl-5";
  original_pod_spec = sample_pod_spec;
  kuberhealthy_reporting_url = codes "http://kuberhealthy/externalCheckStatus";
  current_check_uuid = run_1;
  extra_labels = (codes "app", codes "mine") ∷ [];
  extra_annotations = [];
}

new_checker_pod-validates_example :
    (validate_pod demo
      (new_checker_pod sample_maker
        (configure_user_pod_spec sample_maker (codes "9") sample_pod_spec))
      sample_world).0
    ≡ ok sample_info
unfolding text_eq lookup demo_get
new_checker_pod-validates_example =
    new_checker_pod-validates demo sample_maker (codes "9") sample_pod_spec sample_state
      sample_world refl refl refl refl refl refl
