-- ===== src/Examples/Checking.antt =====
-- The check programs and the khjobs on samples.
use kuberhealthy.Prelude.{
  Bool, ℕ, ◌+◌, ◌≡◌, ◌≢◌, refl, ◌≤◌, ◌↔◌, false, true, List, [], ◌∷◌, codes, text_eq, not, any, all,
  leb, arith, ◌&&◌, ◌||◌, ◌*◌,
}
use kuberhealthy.Api.Results.{Err, not_found, reply, refuse}
use kuberhealthy.Api.Cluster.{Cluster}
use kuberhealthy.Daemonset.{
  Taint, Toleration, Node, DsPod, is_eligible, node_statuses, mark_pods,
  find_all_unique_tolerations, get_nodes_missing_ds_pod,
}
use kuberhealthy.Daemonset.Missing.{hosts, get_nodes_missing_ds_pod-missing}
use kuberhealthy.Daemonset.Tolerated.{
  HasTwins, first_taint, later_taint, find_all_unique_tolerations-one_key,
}
use kuberhealthy.Daemonset.Input.Written.{IsWord}
use kuberhealthy.Daemonset.Steps.{DsApi, list_missing, wait_for_pods_to_come_online}
use kuberhealthy.Daemonset.Steps.Deployed.{IsKept, wait_for_pods_to_come_online-five}
use kuberhealthy.Deployment.{DeploymentApi, deployed, done, served, Receptions, DeploymentConfig}
use kuberhealthy.PodRestarts.{Event, RestartsApi, add_bad_pods, do_checks}
use kuberhealthy.PodRestarts.Kept.{do_checks-keeps}
use kuberhealthy.Quota.{
  QuotaConfig, ResourceQuota, examined, quota_success, run_resource_quota_check,
}
use kuberhealthy.Quota.Targets.{is_target, is_good, run_resource_quota_check-success}
use kuberhealthy.Jobs.{
  KuberhealthyJob, JobApi, job_running, job_added, set_job_phase, monitor_kh_jobs, JobEvent,
  job_error,
}
use kuberhealthy.Jobs.Once.{KeepsPhase, set_job_phase-once}

abbrev gpu : Taint
gpu = record { key = codes "gpu"; value = codes "true"; effect = codes "NoSchedule" }

abbrev spot : Taint
spot = record { key = codes "spot"; value = codes "true"; effect = codes "NoSchedule" }

abbrev node_a : Node
node_a = record {
  name = codes "a";
  labels = [];
  taints = gpu ∷ [];
  addresses = record { type = codes "InternalIP"; address = codes "10.0.0.1" } ∷ [];
}

abbrev node_b : Node
node_b = record node_a { name = codes "b"; taints = gpu ∷ spot ∷ [] }

abbrev tolerated : List Toleration
tolerated =
    record { key = codes "gpu"; operator = []; value = codes "true"; effect = codes "NoSchedule" }
    ∷ []

abbrev pod_a : DsPod
pod_a = record { phase = codes "Pending"; host_ip = codes "10.0.0.1"; node_name = codes "a" }

get_nodes_missing_ds_pod-missing_example :
    any
      (text_eq (codes "a"))
      (get_nodes_missing_ds_pod tolerated [] (node_a ∷ node_b ∷ []) (pod_a ∷ []))
    ≡ (any
          (λ (n : Node). text_eq n.name (codes "a") && is_eligible tolerated [] n)
          (node_a ∷ node_b ∷ [])
        && not (any (hosts tolerated (codes "a") (node_a ∷ node_b ∷ [])) (pod_a ∷ [])))
get_nodes_missing_ds_pod-missing_example =
    get_nodes_missing_ds_pod-missing tolerated [] (node_a ∷ node_b ∷ []) (pod_a ∷ []) (codes "a")

false≢true : false ≢ true
false≢true h = cc

unlike : gpu.key ≢ spot.key
unlike h = cc

node_b-HasTwins : HasTwins (gpu ∷ spot ∷ [])
node_b-HasTwins = record {
  one = gpu;
  other = spot;
  one_listed = first_taint;
  other_listed = later_taint gpu first_taint;
  same_value = refl;
  other_key = unlike;
}

find_all_unique_tolerations-one_key_example :
    any (text_eq (codes "b")) (
      get_nodes_missing_ds_pod
        (find_all_unique_tolerations [] (node_a ∷ node_b ∷ []))
        []
        (node_a ∷ node_b ∷ [])
        [])
    ≡ false
unfolding text_eq
find_all_unique_tolerations-one_key_example =
    find_all_unique_tolerations-one_key [] (node_a ∷ node_b ∷ []) (node_a ∷ node_b ∷ []) [] []
      (codes "b") (λ h. absurd (false≢true h), (λ h. node_b-HasTwins, tt))

gpu-IsWord : IsWord (codes "gpu")
gpu-IsWord = record { has_text = refl; no_equals = refl; no_colon = refl }

true-IsWord : IsWord (codes "true")
true-IsWord = record { has_text = refl; no_equals = refl; no_colon = refl }

-- A cluster without nodes: the world counts the listings.
abbrev no_nodes : DsApi
no_nodes = record {
  World = ℕ;
  sleep = λ d n. n;
  is_done = λ n. false;
  has_ticked = λ n. (false, n);
  list_nodes = λ n. (reply [], n);
  list_pods = λ n. (reply [], n + 1);
  create_daemonset = λ n. (reply tt, n);
  delete_daemonset = λ name n. (reply tt, n);
  delete_pods = λ name n. (reply tt, n);
  list_daemonsets = λ more n. (reply (record { names = []; continue = [] }), n);
}

counts-IsKept : IsKept no_nodes [] [] (λ c n. c ≡ n)
unfolding list_missing get_nodes_missing_ds_pod node_statuses mark_pods
counts-IsKept = record {
  on_error = λ c n e h r. cc;
  on_missing = λ c n name nodes h r. cc;
  on_ready = λ c n h r. omega (arith, r);
}

wait_for_pods_to_come_online-five_example :
    (c : ℕ) × (5 ≤ c) × (c ≡ (wait_for_pods_to_come_online no_nodes [] [] 7 0 0).1)
unfolding list_missing get_nodes_missing_ds_pod node_statuses mark_pods wait_for_pods_to_come_online
wait_for_pods_to_come_online-five_example =
    wait_for_pods_to_come_online-five no_nodes [] [] (λ c n. c ≡ n) 7 0 counts-IsKept refl refl

-- A cluster on which the deployment check goes well.
abbrev fine : DeploymentApi
fine = record {
  World = ℕ;
  find_previous_service = λ n. (reply true, n);
  find_previous_deployment = λ n. (reply false, n);
  create_deployment = λ image n. (deployed (codes "deployment-1"), n + 1);
  update_deployment = λ image n. (deployed (codes "deployment-1"), n + 1);
  create_service = λ n. (served, n + 1);
  get_service_cluster_ip = λ n. (codes "10.1.0.1", n);
  make_request = λ address n. (reply tt, n);
  delete_service_and_wait = λ n. (reply tt, n + 1);
  delete_deployment_and_wait = λ n. (reply tt, n + 1);
}

abbrev rolling : DeploymentConfig
rolling = record {
  check_image_url = codes "nginx:1";
  check_image_url_b = codes "nginx:2";
  rolling_update = true;
}

abbrev in_time : Receptions
in_time = record {
  cleaned = done;
  created = done;
  served_in_time = done;
  requested = done;
  updated = done;
  requested_again = done;
}

abbrev back_off : Event
back_off = record {
  kind = codes "Pod";
  reason = codes "BackOff";
  count = 12;
  name = codes "web-1";
  namespace = codes "prod";
}

abbrev absent : Err
absent = record { reason = not_found; message = codes "not found" }

-- The pod of the event is gone.
abbrev gone : RestartsApi
gone = record {
  World = ℕ;
  list_warnings = λ n. (reply (back_off ∷ []), n);
  get_pod = λ ns name n. (refuse absent, n);
}

do_checks-keeps_example : (do_checks gone 10 0).0.1 ≡ add_bad_pods 10 (back_off ∷ []) []
do_checks-keeps_example = do_checks-keeps gone 10 (back_off ∷ []) 0 refl

abbrev quotas : QuotaConfig
quotas = record {
  blacklist = codes "kube-system" ∷ [];
  whitelist = [];
  reaches = λ used limit. leb (9 * limit) (10 * used);
}

abbrev used : ResourceQuota
used = record { used_cpu = 95; limit_cpu = 100; used_memory = 10; limit_memory = 100 }

run_resource_quota_check-success_example :
    (run_resource_quota_check quotas
        (λ ns. reply (used ∷ []))
        (reply (codes "kube-system" ∷ []))
        examined
      ≡ quota_success)
    ↔ (all
          (λ ns. not (is_target quotas ns) || is_good quotas (reply (used ∷ [])))
          (codes "kube-system" ∷ [])
        ≡ true)
run_resource_quota_check-success_example =
    run_resource_quota_check-success quotas (λ ns. reply (used ∷ [])) (codes "kube-system" ∷ [])

-- A cluster whose world is one khjob.
abbrev keeper : Cluster
keeper = record {
  World = KuberhealthyJob;
  now = λ w. 0;
  sleep = λ d w. w;
  get_state = λ ns n w. (refuse absent, w);
  create_state = λ ns s w. (refuse absent, w);
  update_state = λ ns s w. (refuse absent, w);
  get_check = λ ns n w. (refuse absent, w);
  get_job = λ ns n w. (refuse absent, w);
  list_kuberhealthy_pods = λ w. (reply [], w);
  list_pods = λ selector w. (reply [], w);
}

abbrev fresh_job : KuberhealthyJob
fresh_job = record {
  name = codes "backup";
  namespace = codes "kh";
  resource_version = 1;
  phase = [];
  timeout = [];
  pod_spec = codes "pod";
}

abbrev one_job : JobApi keeper
one_job = record { get_khjob = λ ns name w. (reply w, w); update_khjob = λ ns j w. (reply tt, j) }

one_job-KeepsPhase : KeepsPhase keeper one_job (codes "kh") (codes "backup") (λ w. w.phase)
one_job-KeepsPhase = record {
  read = λ w kj h. cc;
  got = λ other_ns other w. refl;
  updated = λ job w same h. refl;
}

abbrev additions : List (Bool × JobEvent)
additions = (true, job_added fresh_job) ∷ (false, job_error) ∷ (true, job_added fresh_job) ∷ []

set_job_phase-once_example :
    let o =
      monitor_kh_jobs keeper one_job additions
        (set_job_phase keeper one_job (codes "backup") (codes "kh") job_running fresh_job).1 in
    (any
        (λ (job : KuberhealthyJob).
          text_eq job.namespace (codes "kh") && text_eq job.name (codes "backup"))
        o.0
      ≡ false)
    × (o.1.phase ≡ job_running)
unfolding set_job_phase
set_job_phase-once_example =
    set_job_phase-once keeper one_job (codes "backup") (codes "kh") job_running (λ w. w.phase)
      additions fresh_job one_job-KeepsPhase refl refl
