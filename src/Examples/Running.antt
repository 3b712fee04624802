-- ===== src/Examples/Running.antt =====
-- Runs of a check, the reapers and the scan of the khchecks on samples.
use kuberhealthy.Prelude.{
  pos, ℕ, zero, suc, ◌+◌, ◌≡◌, ◌⊎◌, refl, true, false, ◌||◌, none, some, List, [], ◌∷◌, codes,
  text_eq, Dict, arith, ◌∙◌, ◌&&◌, text_eq_iff, if◌then◌else◌,
}
use kuberhealthy.Api.Results.{Err, not_found, is_not_found, reply, refuse}
use kuberhealthy.Api.Types.{
  KhState, Pod, Phase, pod_pending, pod_running, pod_succeeded, pod_failed, pod_unknown,
}
use kuberhealthy.Launch.{
  PodSpec, PodMaker, validate_pod_spec, sanity_check, configure_user_pod_spec,
}
use kuberhealthy.Run.{
  RunApi, finished, waited, Schedule, on_waiter, report_or, get_check_last_update_time, evict_pods,
  cleanup, launch, run_steps, run_once, await_clear, await_report, await_exit,
  wait_for_all_pods_to_clear, wait_for_pod_status_update, pod_has_reported_in_after_time,
  wait_for_pod_exit,
}
use kuberhealthy.Run.Phases.{IsAborted, Completed, run_once-ok}
use kuberhealthy.Run.Selects.{pod_of}
use kuberhealthy.Reaper.{
  ReaperApi, ReaperConfig, is_succeeded, is_failed, delete_filtered_checker_pods,
}
use kuberhealthy.Reaper.Due.{IsDue, delete_filtered_checker_pods-only_due}
use kuberhealthy.Resources.{Named, StatesApi, CheckConfig, KhCheck, reap_kh_state_resources}
use kuberhealthy.Resources.Rogue.{HasNoOwner, reap_kh_state_resources-only_rogue}
use kuberhealthy.Examples.{kh_ns, ssl, run_1, sample_container, sample_pod, sample_state}

-- A cluster whose world is how often the khstate was read: the second read finds a report.
abbrev reads : RunApi
reads = record {
  World = ℕ;
  get_state = λ n. (reply sample_state, suc n);
  create_pod = λ p n. (reply tt, n);
  list_check_pods = λ n. (reply (sample_pod ∷ []), n);
  list_run_pods = λ n. (reply (sample_pod ∷ []), n);
  get_pod = λ n. (reply sample_pod, n);
  evict_pod = λ p n. n + 100;
  sleep = λ d n. n;
  is_shut_down = λ n. false;
}

abbrev ssl_spec : PodSpec
ssl_spec = record {
  containers = sample_container ∷ [];
  init_containers = [];
  restart_policy = codes "Always";
}

abbrev ssl_maker : PodMaker
ssl_maker = record {
  check_name = ssl;
  namespace = kh_ns;
  check_pod_name = codes "ssl-5";
  original_pod_spec = ssl_spec;
  kuberhealthy_reporting_url = codes "http://kuberhealthy/externalCheckStatus";
  current_check_uuid = run_1;
  extra_labels = [];
  extra_annotations = [];
}

abbrev gone : Err
gone = record { reason = not_found; message = codes "not found" }

-- A cluster without an earlier pod, whose pod reports and ends at once: the world is the clock.
abbrev polite : RunApi
polite = record reads {
  get_state = λ n.
      (reply (record sample_state { spec = record sample_state.spec { last_run = some n } }), n);
  list_run_pods = λ n. (reply (record sample_pod { phase = pod_succeeded } ∷ []), n);
  get_pod = λ n. (refuse gone, n);
  sleep = λ d n. n + d;
}

abbrev smooth : Schedule
smooth = record {
  clear_polls = 1;
  cleared = on_waiter;
  started = waited (finished none);
  report_polls = 1;
  reported = report_or on_waiter;
  exit_polls = 1;
  exited = on_waiter;
}

run_once-ok_example :
    (validate_pod_spec ssl_spec ≡ none)
    × (IsAborted smooth
        ⊎ ((end : ℕ) × Completed polite (pod_of ssl_maker (codes "9")) 0 smooth 0 end
            × ((run_once polite ssl_maker ssl_spec (codes "9") smooth 0).1 ≡ cleanup polite end)))
unfolding validate_pod_spec sanity_check configure_user_pod_spec get_check_last_update_time
    evict_pods cleanup launch run_steps run_once await_clear await_report await_exit
    wait_for_all_pods_to_clear wait_for_pod_status_update pod_has_reported_in_after_time
    wait_for_pod_exit is_not_found
run_once-ok_example = run_once-ok polite ssl_maker ssl_spec (codes "9") smooth 0 refl

abbrev broken : Err
broken = record { reason = not_found; message = codes "timeout" }

-- A cluster whose first read fails.
abbrev flaky : RunApi
flaky = record reads {
  get_state = λ n. elim n [ zero ↦ (refuse broken, 1) | suc m ↦ (reply sample_state, suc (suc m)) ];
}

abbrev ended_pod : Pod
ended_pod = record sample_pod {
  phase = pod_succeeded;
  container_statuses =
      record { terminated = some 40; waiting = none }
      ∷ record { terminated = some 30; waiting = none }
      ∷ [];
}

abbrev one_more : Phase → ℕ → ℕ
one_more pod_running n = suc n
one_more pod_pending n = n
one_more pod_succeeded n = n
one_more pod_failed n = n
one_more pod_unknown n = n

-- A cluster that counts the deleted pods that are still running.
abbrev counting : ReaperApi
counting = record {
  World = ℕ;
  now = λ n. 100;
  list_checker_pods = λ n. (reply (ended_pod ∷ []), n);
  delete_pod = λ p n. (reply tt, one_more p.phase n);
  list_jobs = λ n. (reply [], n);
  delete_job = λ j n. (reply tt, n);
}

abbrev small_ages : ReaperConfig
small_ages = record {
  max_check_pod_age = 50;
  max_kh_job_age = 50;
  max_completed_pod_count = pos 4;
  max_error_pod_count = pos 4;
}

abbrev pods_there : Dict Pod
pods_there = (codes "a", sample_pod) ∷ (codes "b", ended_pod) ∷ []

one_more-ended : (p : Phase) (n : ℕ) → (is_succeeded p || is_failed p) ≡ true → one_more p n ≡ n
one_more-ended pod_running n h = cc
one_more-ended pod_pending n h = cc
one_more-ended pod_succeeded n h = refl
one_more-ended pod_failed n h = refl
one_more-ended pod_unknown n h = cc

no_running_deleted :
    (v : Pod) (u : ℕ) → IsDue small_ages pods_there v 100 → u ≡ 0 → (counting.delete_pod v u).1 ≡ 0
no_running_deleted v u due h = one_more-ended v.phase u due.has_ended ∙ h

delete_filtered_checker_pods-only_due_example :
    (delete_filtered_checker_pods counting small_ages pods_there (pods_there, 0)).1 ≡ 0
delete_filtered_checker_pods-only_due_example =
    delete_filtered_checker_pods-only_due counting small_ages pods_there pods_there (λ n. n ≡ 0) 0
      no_running_deleted refl

-- A cluster with one khcheck, which counts the deletions of khstates by that name.
abbrev owned : StatesApi
owned = record {
  World = ℕ;
  list_states = λ n. (reply (sample_state ∷ record sample_state { name = codes "dns" } ∷ []), n);
  list_checks = λ n. (reply (record { name = ssl; namespace = kh_ns } ∷ []), n);
  list_jobs = λ n. (reply [], n);
  delete_state = λ s n. if text_eq ssl s.name && text_eq kh_ns s.namespace then suc n else n;
}

abbrev ssl_owner : List Named
ssl_owner = record { name = ssl; namespace = kh_ns } ∷ []

no_owned_deleted :
    (s : KhState) (u : ℕ) → HasNoOwner ssl_owner [] s → u ≡ 0 → owned.delete_state s u ≡ 0
no_owned_deleted s u rogue h =
    ground (arith, h, text_eq_iff ssl s.name, text_eq_iff kh_ns s.namespace, rogue.no_check.0)

reap_kh_state_resources-only_rogue_example : (reap_kh_state_resources owned 0).1 ≡ 0
reap_kh_state_resources-only_rogue_example =
    reap_kh_state_resources-only_rogue owned (λ n. n ≡ 0)
      (sample_state ∷ record sample_state { name = codes "dns" } ∷ []) ssl_owner [] 0 0 0 0 refl
      refl refl no_owned_deleted refl

abbrev ssl_config : CheckConfig
ssl_config = record {
  run_interval = codes "5m";
  timeout = codes "2m";
  pod_spec = codes "image";
  extra_labels = some ((codes "team", codes "a") ∷ []);
  extra_annotations = none;
}

abbrev ssl_check : KhCheck
ssl_check = record { name = ssl; namespace = kh_ns; spec = ssl_config }
