-- ===== src/Jobs.antt =====
-- Khjobs: their phases (`setJobPhase` of cmd/kuberhealthy/crd.go), the monitor that triggers them, and one
-- run of a job (`monitorKHJobs`, `verifyNewKHJob`, `triggerKHJob`, `runJob`, `setJobExecutionError` of
-- cmd/kuberhealthy/kuberhealthy.go). The run of its pod, and the duration of it as a text, are
-- arguments. Logging and the metric forwarder are left out.
pub mod Once
use kuberhealthy.Prelude.{
  ℕ, Bool, true, false, ◌&&◌, Option, none, some, List, [], ◌∷◌, ◌++◌, Text, codes, text_eq,
  is_empty, if◌then◌else◌,
}
use kuberhealthy.Api.Results.{
  Err, Result, ok, err, panic, new_error, wrap_error, Reply, reply, refuse, Call, Action, pure,
  throw, fault, call, attempt, settle, and_then, map_err, map_error, ◌>>=◌, ◌>>◌,
}
use kuberhealthy.Api.Types.{KhWorkload, kh_job, WorkloadDetails, KhState, Pod, new_workload_details}
use kuberhealthy.Api.Cluster.{Cluster}
use kuberhealthy.Store.{time_now, get_workload_state, store_check_state}
use kuberhealthy.Report.{fetch_pod_by_selector}
use kuberhealthy.Runner.{status_of, uuid_or_empty, node_or_empty, finished_details}

pub record KuberhealthyJob : Type 0 where
  pub name : Text
  pub namespace : Text
  pub resource_version : ℕ
  pub phase : Text
  pub timeout : Text
  pub pod_spec : Text

-- `KuberhealthyJobs(namespace).Get(name)` and `.Update(&job)`
pub record JobApi (c : Cluster) : Type 0 where
  pub get_khjob : (namespace name : Text) → Call c.World KuberhealthyJob
  pub update_khjob : (namespace : Text) → KuberhealthyJob → Call c.World (Unit {0})

abbrev pub job_running : Text
job_running = codes "Running"

abbrev pub job_completed : Text
job_completed = codes "Completed"

-- The namespace that `NewJob` gives the checker.
abbrev pub check_namespace : KuberhealthyJob → Text
check_namespace job = if is_empty job.namespace then codes "kuberhealthy" else job.namespace

-- The details that record an execution error of a job.
unfoldable pub job_execution_details : (namespace uuid : Text) → Err → WorkloadDetails
unfolding new_workload_details
job_execution_details namespace uuid e = record (new_workload_details kh_job) {
  namespace = namespace;
  ok = false;
  errors = (codes "Job execution error: " ++ e.message) ∷ [];
  current_uuid = uuid;
}

-- An event of the watch on khjobs; its object is a khjob if it is an addition.
pub data JobEvent : Type 0 where
  job_added : KuberhealthyJob → JobEvent
  job_error other_job_event : JobEvent

module _ (c : Cluster) (api : JobApi c) where
  -- `setJobPhase`
  unfoldable pub set_job_phase :
      (job_name job_namespace job_phase : Text) → Action c.World (Unit {0})
  set_job_phase job_name job_namespace job_phase = do
    kj ← call (api.get_khjob job_namespace job_name)
    call (
        api.update_khjob job_namespace
          (record kj { name = job_name; namespace = job_namespace; phase = job_phase }))

  abbrev pub is_new : Reply KuberhealthyJob → Bool
  is_new (refuse e) = false
  is_new (reply kj) = is_empty kj.phase

  -- `verifyNewKHJob`
  unfoldable pub verify_new_kh_job : (job_name job_namespace : Text) → c.World → Bool × c.World
  verify_new_kh_job job_name job_namespace w =
      let (r, w') = api.get_khjob job_namespace job_name w in (is_new r, w')

  -- An event of the loop of `monitorKHJobs`, with `triggerKHJob`: the job that a goroutine is started
  -- for, if there is one.
  abbrev pub triggered :
      (is_master : Bool) → KuberhealthyJob → Bool × c.World → Option KuberhealthyJob × c.World
  triggered is_master job (found_new, w) = (if found_new && is_master then some job else none, w)

  unfoldable pub monitor_kh_job :
      (is_master : Bool) → JobEvent → c.World → Option KuberhealthyJob × c.World
  monitor_kh_job is_master (job_added job) w =
      triggered is_master job (verify_new_kh_job job.name job.namespace w)
  monitor_kh_job is_master job_error w = (none, w)
  monitor_kh_job is_master other_job_event w = (none, w)

  abbrev pub prepend : Option KuberhealthyJob → List KuberhealthyJob → List KuberhealthyJob
  prepend none jobs = jobs
  prepend (some job) jobs = job ∷ jobs

  -- The loop over the events of the watches, each with whether this replica is the master then: the
  -- jobs that goroutines are started for, in order.
  unfoldable pub monitor_kh_jobs : List (Bool × JobEvent) → c.World → List KuberhealthyJob × c.World
  monitor_kh_jobs [] w = ([], w)
  monitor_kh_jobs ((is_master, e) ∷ events) w =
      let (o, w₁) = monitor_kh_job is_master e w in
      let (started, w₂) = monitor_kh_jobs events w₁ in (prepend o started, w₂)

  module _ (pod_hostname : Text) where
    -- `setJobExecutionError`, which gets the khjob twice.
    unfoldable pub set_job_execution_error :
        (job_name job_namespace : Text) → Err → Action c.World (Unit {0})
    set_job_execution_error job_name job_namespace e = do
      job ← call (api.get_khjob job_namespace job_name)
      khj ←
          map_error (wrap_error (codes "error when setting execution error on job "))
            (call (api.get_khjob job_namespace job_name))
      job_state ←
          map_error (wrap_error (codes "error when setting execution error on job "))
            (get_workload_state c kh_job khj.name (check_namespace khj))
      map_error
          (wrap_error (codes "unable to write an execution error to the CRD status with error: "))
          (store_check_state c pod_hostname job_name job_namespace
            (job_execution_details (check_namespace job) job_state.current_uuid e))

    abbrev pub store_job :
        KuberhealthyJob
        → (run_duration uuid : Text) → Reply KhState × c.World
        → Result (Unit {0}) × c.World
    store_job job run_duration uuid (status, w) =
        (attempt (fetch_pod_by_selector c (codes "kuberhealthy-run-id=" ++ uuid)) >>= λ pod.
        store_check_state c pod_hostname job.name (check_namespace job)
          (record (finished_details (check_namespace job) uuid (node_or_empty pod) run_duration
            (status_of status)) { kh_workload = some kh_job }))
          w

    -- The end of `runJob` after a run without an error: what is stored, and the phase. Errors are only
    -- logged.
    abbrev pub finish_job : KuberhealthyJob → (run_duration : Text) → Action c.World (Unit {0})
    finish_job job run_duration = do
      job_details ← attempt (get_workload_state c kh_job job.name (check_namespace job))
      stored ← attempt (λ w.
          store_job job run_duration (uuid_or_empty job_details)
            (c.get_state (check_namespace job) job.name w))
      set_phase ← attempt (set_job_phase job.name (check_namespace job) job_completed)
      pure tt

    abbrev pub after_job :
        KuberhealthyJob → (run_duration : Text) → Result (Unit {0}) → Action c.World (Unit {0})
    after_job job run_duration (ok u) = finish_job job run_duration
    after_job job run_duration (err e) = do
      recorded ← attempt (set_job_execution_error job.name (check_namespace job) e)
      pure tt
    after_job job run_duration panic = fault

    -- `runJob`, with whether its context is done before it starts
    unfoldable pub run_job :
        KuberhealthyJob
        → (is_cancelled : Bool) (run_duration : (start now : ℕ) → Text) → Action c.World (Unit {0})
        → Action c.World (Unit {0})
    run_job job true run_duration run = pure tt
    run_job job false run_duration run = do
      start ← time_now c
      set_phase ← attempt (set_job_phase job.name job.namespace job_running)
      r ← attempt run
      now ← time_now c
      after_job job (run_duration start now) r
