-- ===== src/Report/Handler.antt =====
-- `externalCheckReportHandler` itself: its answers, and what a report that is accepted stores.
use kuberhealthy.Prelude.{
  Bool, not, ◌&&◌, ◌||◌, Option, none, some, List, [], ◌++◌, any, Text, codes, lookup, is_empty,
  if◌then◌else◌,
}
use kuberhealthy.Api.Results.{
  new_error, Result, ok, err, panic, Action, pure, throw, attempt, ◌>>=◌,
}
use kuberhealthy.Api.Types.{
  KhWorkload, kh_check, kh_job, WorkloadDetails, KhState, new_workload_details,
}
use kuberhealthy.Api.Cluster.{Cluster}
use kuberhealthy.Health.{State}
use kuberhealthy.Status.{item_key, determine_kh_workload, current_status}
use kuberhealthy.Store.{store_check_state}
use kuberhealthy.Report.{Report, PodReportInfo, validate_external_request}

-- What reading and decoding the request body gives.
pub data Body : Type 0 where
  unreadable malformed : Body
  report : Report → Body

pub record Request : Type 0 where
  -- the header kh-run-uuid
  pub run_uuid : Text
  -- the host part of the remote address, if `net.SplitHostPort` finds one
  pub remote_ip : Option Text
  pub body : Body

pub data Response : Type 0 where
  status_ok bad_request internal_server_error : Response
  -- `NewWorkloadDetails` panics on an empty workload, and net/http drops the connection
  panicked : Response

-- `if !state.OK { … }`: a report of failure wants errors, and no blank one.
unfoldable pub is_valid : Report → Bool
is_valid r = r.ok || (not (is_empty r.errors) && not (any is_empty r.errors))

-- `checkDetails[key].RunDuration`
abbrev pub run_duration_of : Option WorkloadDetails → Text
run_duration_of none = []
run_duration_of (some d) = d.run_duration

-- The `switch khWorkload` that looks up the last run duration.
abbrev pub last_run_duration : KhWorkload → Text → State → Text
last_run_duration kh_check key s = run_duration_of (lookup key s.check_details)
last_run_duration kh_job key s = run_duration_of (lookup key s.job_details)

-- The details that an accepted report stores.
unfoldable pub report_details :
    KhWorkload → PodReportInfo → Report → (run_duration : Text) → WorkloadDetails
unfolding new_workload_details
report_details workload info r run_duration = record (new_workload_details workload) {
  errors = r.errors;
  ok = r.ok;
  run_duration = run_duration;
  namespace = info.namespace;
  current_uuid = info.uuid;
}

abbrev pub answer_stored : {W : Type 0} → Result (Unit {0}) × W → Response × W
answer_stored (ok u, w) = (status_ok, w)
answer_stored (err e, w) = (internal_server_error, w)
answer_stored (panic, w) = (panicked, w)

module _ (c : Cluster) where
  -- `validatePodReportBySourceIP`
  unfoldable pub validate_by_source_ip : Option Text → Action c.World PodReportInfo
  validate_by_source_ip none = throw (new_error (codes "missing port in address"))
  validate_by_source_ip (some ip) =
      validate_external_request c (codes "status.podIP==" ++ ip ++ codes ",status.phase==Running")

  -- A header that does not validate is only logged, and the address is tried.
  abbrev pub or_by_ip : Option Text → Result PodReportInfo → Action c.World PodReportInfo
  or_by_ip ip (ok info) = pure info
  or_by_ip ip (err e) = validate_by_source_ip ip
  or_by_ip ip panic = λ w. (panic, w)

  -- `validateUsingRequestHeader`, and the fall back to the address.
  unfoldable pub validate_request : Request → Action c.World PodReportInfo
  unfolding validate_by_source_ip
  validate_request r = if is_empty r.run_uuid then validate_by_source_ip r.remote_ip else do
    v ← attempt (validate_external_request c (codes "kuberhealthy-run-id=" ++ r.run_uuid))
    or_by_ip r.remote_ip v

-- `pod_hostname` is the global podHostname, and `items` is what the reflector's cache lists.
module _ (c : Cluster) (pod_hostname : Text) (items : Option (List (Option KhState))) where
  abbrev pub store_report :
      PodReportInfo → Report → Option KhWorkload × c.World → Response × c.World
  store_report info r (none, w) = (panicked, w)
  store_report info r (some workload, w) =
      let (s, w') = current_status c items w in
      let run_duration = last_run_duration workload (item_key info.namespace info.name) s in
      answer_stored (
        store_check_state c pod_hostname info.name info.namespace
          (report_details workload info r run_duration) w')

  abbrev pub take_body : PodReportInfo → Body → c.World → Response × c.World
  take_body info unreadable w = (bad_request, w)
  take_body info malformed w = (bad_request, w)
  take_body info (report r) w =
      if is_valid r
      then store_report info r (determine_kh_workload c info.name info.namespace w)
      else (bad_request, w)

  abbrev pub with_info : Body → Result PodReportInfo × c.World → Response × c.World
  with_info body (ok info, w) = take_body info body w
  with_info body (err e, w) = (bad_request, w)
  with_info body (panic, w) = (panicked, w)

  unfoldable pub external_check_report_handler : Request → c.World → Response × c.World
  external_check_report_handler r w = with_info r.body (validate_request c r w)
