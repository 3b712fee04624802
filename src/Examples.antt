-- ===== src/Examples.antt =====
-- Sample clusters, pods and khstates on which the theorems are tried out.
mod Reporting
mod Storing
mod Mastering
mod Running
mod Recording
mod Reaping
mod Serving
mod Checking
mod Deploying
use kuberhealthy.Prelude.{
  ℕ, suc, ◌+◌, ◌≡◌, refl, inl, inr, Bool, true, false, Bool-cases, Option, none, some, Option-cases,
  List, [], ◌∷◌, Text, codes, lookup, ◌==◌, arith,
}
use kuberhealthy.Api.Results.{Err, conflict, Reply, reply, refuse}
use kuberhealthy.Api.Types.{
  kh_check, WorkloadDetails, zero_details, KhState, Pod, Container, EnvVar, pod_running,
  pod_succeeded,
}
use kuberhealthy.Api.Cluster.{Cluster, IsQuiet}
use kuberhealthy.Api.Demo.{DemoWorld, demo, demo_key, demo_get, demo_update, demo_create, demo_pods}
use kuberhealthy.Store.Retries.Meter.{IsMetered}
use kuberhealthy.Report.{check_name_annotation_key, kh_run_uuid}
use kuberhealthy.Report.Refused.{IsWriteMeter}
use kuberhealthy.Report.Fetch.{ClockRuns}

abbrev pub kh_ns : Text
kh_ns = codes "kh"

abbrev pub ssl : Text
ssl = codes "ssl"

abbrev pub run_1 : Text
run_1 = codes "u1"

abbrev pub host : Text
host = codes "kuberhealthy-0"

abbrev pub sample_container : Container
sample_container = record {
  name = codes "main";
  image = codes "checks/ssl";
  env = record { name = kh_run_uuid; value = run_1; value_from = none } ∷ [];
}

abbrev pub sample_pod : Pod
sample_pod = record {
  name = codes "ssl-1";
  namespace = kh_ns;
  labels = (codes "kuberhealthy-check-name", ssl) ∷ [];
  annotations = (check_name_annotation_key, ssl) ∷ [];
  creation_timestamp = 5;
  phase = pod_running;
  container_statuses = [];
  containers = sample_container ∷ [];
  node_name = codes "node-1";
}

abbrev pub sample_spec : WorkloadDetails
sample_spec = record zero_details {
  namespace = kh_ns;
  errors = codes "expired" ∷ [];
  current_uuid = run_1;
  authoritative_pod = host;
  last_run = some 7;
}

abbrev pub sample_state : KhState
sample_state = record { name = ssl; namespace = kh_ns; resource_version = 3; spec = sample_spec }

abbrev pub master_pods : List Pod
master_pods =
    record sample_pod { name = codes "kuberhealthy-1" } ∷ record sample_pod { name = host } ∷ []

abbrev pub sample_world : DemoWorld
sample_world = record {
  clock = 100;
  states = (demo_key kh_ns ssl, sample_state) ∷ [];
  checks = demo_key kh_ns ssl ∷ [];
  jobs = [];
  pods = (codes "kuberhealthy-run-id=u1", sample_pod ∷ []) ∷ [];
  masters = master_pods;
  writes = 0;
  slept = 0;
}

-- A server that refuses every update.
abbrev pub refusal : Err
refusal = record { reason = conflict; message = codes "the object has been modified" }

abbrev pub stubborn : Cluster
stubborn = record {
  World = DemoWorld;
  now = demo.now;
  sleep = demo.sleep;
  get_state = λ ns n w. (reply sample_state, w);
  create_state = λ ns s w. (reply s, w);
  update_state = λ ns s w. (refuse refusal, record w { writes = w.writes + 1 });
  get_check = demo.get_check;
  get_job = demo.get_job;
  list_kuberhealthy_pods = demo.list_kuberhealthy_pods;
  list_pods = demo.list_pods;
}

-- The cluster counts its updates and the time slept.
demo_update_writes :
    (ns : Text) (s : KhState) (w : DemoWorld) → (demo_update ns s w).1.writes ≡ w.writes + 1
unfolding demo_update
demo_update_writes ns s w = elim (Option-cases (lookup (demo_key ns s.name) w.states)) [
  | inl none_there ↦ rw none_there
  | inr (old, there) ↦ elim (Bool-cases (old.resource_version == s.resource_version)) [
    | inl fresh ↦ rw (there, fresh)
    | inr stale ↦ rw (there, stale)
  ]
]

demo_update_slept :
    (ns : Text) (s : KhState) (w : DemoWorld) → (demo_update ns s w).1.slept ≡ w.slept
unfolding demo_update
demo_update_slept ns s w = elim (Option-cases (lookup (demo_key ns s.name) w.states)) [
  | inl none_there ↦ rw none_there
  | inr (old, there) ↦ elim (Bool-cases (old.resource_version == s.resource_version)) [
    | inl fresh ↦ rw (there, fresh)
    | inr stale ↦ rw (there, stale)
  ]
]

pub demo-IsMetered : IsMetered demo (λ w. w.writes) (λ w. w.slept)
unfolding demo_get demo_create
demo-IsMetered = record {
  get_writes = λ ns n w. refl;
  get_slept = λ ns n w. refl;
  create_writes = λ ns s w. refl;
  create_slept = λ ns s w. refl;
  update_writes = demo_update_writes;
  update_slept = demo_update_slept;
  sleep_writes = λ d w. refl;
  sleep_slept = λ d w. refl;
}

pub stubborn-IsMetered : IsMetered stubborn (λ w. w.writes) (λ w. w.slept)
stubborn-IsMetered = record {
  get_writes = λ ns n w. refl;
  get_slept = λ ns n w. refl;
  create_writes = λ ns s w. refl;
  create_slept = λ ns s w. refl;
  update_writes = λ ns s w. refl;
  update_slept = λ ns s w. refl;
  sleep_writes = λ d w. refl;
  sleep_slept = λ d w. refl;
}

pub demo-IsWriteMeter : IsWriteMeter demo (λ w. w.writes)
unfolding demo_get demo_pods
demo-IsWriteMeter = record {
  get_keeps = λ ns n w. refl;
  list_keeps = λ selector w. refl;
  sleep_keeps = λ d w. refl;
}

pub demo-ClockRuns : ClockRuns demo
unfolding demo_pods
demo-ClockRuns = record {
  list_pods_takes_time = λ selector w. omega arith;
  sleep_takes_time = λ d w. omega arith;
}
