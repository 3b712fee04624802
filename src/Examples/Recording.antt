-- ===== src/Examples/Recording.antt =====
-- The runner of a check on samples.
use kuberhealthy.Prelude.{
  ℕ, false, ◌≡◌, Text, [], ◌∷◌, codes, text_eq, lookup, insert, contains, starts_with, replace,
  to_lower, refl,
}
use kuberhealthy.Api.Results.{Err, err, new_error, Action}
use kuberhealthy.Api.Types.{kh_check, new_workload_details}
use kuberhealthy.Api.Demo.{demo, demo-IsQuiet, demo_get, demo_update, demo_pods}
use kuberhealthy.Store.{
  sanitize_resource_name, write_over, set_check_state_resource, ensure_state_resource_exists,
  get_workload_state, is_modified, retry, store_check_state,
}
use kuberhealthy.Store.Uuid.{Checker}
use kuberhealthy.Report.{fetch_pod_by_selector}
use kuberhealthy.Runner.{
  get_check, execution_details, status_of, finished_details, set_check_execution_error,
  finish_check, run_check,
}
use kuberhealthy.Runner.Recorded.{IsFailed, IsConsistent, finish_check-IsConsistent}
use kuberhealthy.Runner.Rounds.{recording, run_check-records_failure}
use kuberhealthy.Examples.{kh_ns, ssl, host, sample_world}

abbrev loaded : Checker
loaded = record { check_name = ssl; namespace = kh_ns; hostname = host; kh_workload = kh_check }

abbrev removed : Err
removed = new_error (codes "pod deleted expectedly")

abbrev runs_minute : (start now : ℕ) → Text
runs_minute start now = codes "1m"

abbrev failing : Action demo.World (Unit {0})
failing w = (err removed, demo.sleep 60 w)

abbrev ticking : demo.World → demo.World
ticking w = demo.sleep 600 w

abbrev after_failure : demo.World
after_failure =
    (recording demo host ticking (loaded ∷ []) loaded runs_minute failing removed
      (demo.sleep 60 sample_world)).1

run_check-records_failure_example :
    IsFailed demo ssl kh_ns removed after_failure
    × (run_check demo host ticking
          (loaded ∷ [])
          loaded
          runs_minute
          1
          (λ w. false)
          failing
          sample_world
        ≡ run_check demo host ticking
            (loaded ∷ [])
            loaded
            runs_minute
            0
            (λ w. false)
            failing
            (ticking after_failure))
unfolding text_eq lookup insert contains starts_with replace to_lower demo_get demo_update
    new_workload_details sanitize_resource_name write_over set_check_state_resource
    ensure_state_resource_exists get_workload_state is_modified retry store_check_state get_check
    execution_details set_check_execution_error
run_check-records_failure_example =
    run_check-records_failure demo host ticking (loaded ∷ []) loaded runs_minute failing 0
      (λ w. false) removed sample_world (demo.sleep 60 sample_world) demo-IsQuiet refl refl refl

finish_check-IsConsistent_example :
    IsConsistent demo ssl kh_ns (finish_check demo host loaded (codes "3s") sample_world).1
unfolding text_eq lookup insert contains replace to_lower demo_get demo_update demo_pods
    new_workload_details sanitize_resource_name write_over set_check_state_resource
    ensure_state_resource_exists get_workload_state is_modified retry store_check_state
    fetch_pod_by_selector status_of finished_details finish_check
finish_check-IsConsistent_example =
    finish_check-IsConsistent demo host loaded (codes "3s") sample_world demo-IsQuiet refl
