-- ===== src/Loading.antt =====
-- Loading the checks and jobs (`configureChecks`, `addExternalChecks`, `configureJob` of
-- cmd/kuberhealthy/kuberhealthy.go, `NewCheck` and `NewJob` of pkg/checks/external/main.go), and the watch
-- that asks for it (`watchForKHCheckChanges`). What `time.ParseDuration` makes of a text is an argument.
use kuberhealthy.Prelude.{
  ℕ, suc, ◌*◌, Bool, true, false, Option, none, some, List, [], ◌∷◌, ◌++◌, map, Text, codes, Dict,
  is_empty, if◌then◌else◌,
}
use kuberhealthy.Api.Results.{Reply, reply, refuse}
use kuberhealthy.Store.{second}
use kuberhealthy.Resources.{KhCheck}
use kuberhealthy.Jobs.{KuberhealthyJob, check_namespace}
use kuberhealthy.Watch.{EventKind, added, modified, deleted, watch_error, other_event}

-- What is set of a checker.
pub record LoadedCheck : Type 0 where
  pub check_name : Text
  pub namespace : Text
  pub run_interval : ℕ
  pub run_timeout : ℕ
  pub extra_labels : Option (Dict Text)
  pub extra_annotations : Option (Dict Text)
  pub pod_spec : Text

abbrev pub default_run_interval : ℕ
default_run_interval = 600 * second

-- `DefaultTimeout`
abbrev pub default_timeout : ℕ
default_timeout = 300 * second

-- `NewCheck`
unfoldable pub new_check : KhCheck → LoadedCheck
new_check check_config = record {
  check_name = check_config.name;
  namespace =
      if is_empty check_config.namespace then codes "kuberhealthy" else check_config.namespace;
  run_interval = 0;
  run_timeout = 900 * second;
  extra_labels = some [];
  extra_annotations = some [];
  pod_spec = check_config.spec.pod_spec;
}

-- `NewJob`
unfoldable pub new_job : KuberhealthyJob → LoadedCheck
new_job job_config = record {
  check_name = job_config.name;
  namespace = check_namespace job_config;
  run_interval = 0;
  run_timeout = 0;
  extra_labels = some [];
  extra_annotations = some [];
  pod_spec = job_config.pod_spec;
}

abbrev pub or_default : ℕ → Option ℕ → ℕ
or_default n none = n
or_default n (some d) = d

module _ (parse_duration : Text → Option ℕ) where
  -- A timeout that cannot be read is what `ParseDuration` returns beside its error, which is 0.
  abbrev pub timeout_of : Text → ℕ
  timeout_of timeout =
      if is_empty timeout then default_timeout else or_default 0 (parse_duration timeout)

  -- The body of the loop of `addExternalChecks`. The maps of a new checker are never nil.
  unfoldable pub load_check : KhCheck → LoadedCheck
  load_check kc = record (new_check kc) {
    run_interval = or_default default_run_interval (parse_duration kc.spec.run_interval);
    run_timeout = timeout_of kc.spec.timeout;
    extra_labels = kc.spec.extra_labels;
    extra_annotations = kc.spec.extra_annotations;
  }

  -- `configureJob`, for the extra labels and annotations of the khjob. The maps of a new job are never
  -- nil.
  unfoldable pub configure_job :
      (extra_labels extra_annotations : Option (Dict Text)) → KuberhealthyJob → LoadedCheck
  configure_job extra_labels extra_annotations job = record (new_job job) {
    run_timeout = timeout_of job.timeout;
    extra_labels = extra_labels;
    extra_annotations = extra_annotations;
  }

  -- `addExternalChecks`, for what its listing answers
  unfoldable pub add_external_checks :
      Reply (List KhCheck) → (checks : List LoadedCheck) → List LoadedCheck
  add_external_checks (refuse e) checks = checks
  add_external_checks (reply items) checks = checks ++ map load_check items

  -- `configureChecks`
  unfoldable pub configure_checks :
      Reply (List KhCheck) → (checks : List LoadedCheck) → List LoadedCheck
  configure_checks listed checks = add_external_checks listed []

abbrev pub is_change : EventKind → Bool
is_change added = true
is_change modified = true
is_change deleted = true
is_change watch_error = false
is_change other_event = false

-- The events of the watch, in order, and the number of notifications sent for them.
unfoldable pub watch_for_kh_check_changes : List EventKind → ℕ
watch_for_kh_check_changes [] = 0
watch_for_kh_check_changes (e ∷ events) =
    let rest = watch_for_kh_check_changes events in if is_change e then suc rest else rest
