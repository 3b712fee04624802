-- ===== src/Api/Types.antt =====
-- The resources: khstate (pkg/apis/khstate/v1), and of a pod what the program reads.
-- Times are nanoseconds on one clock; `metav1.Time{}` is 0, and a nil `*metav1.Time` is `none`.
use kuberhealthy.Prelude.{ℕ, Bool, false, Option, none, some, List, [], Text, Dict}

pub data KhWorkload : Type 0 where
  kh_check kh_job : KhWorkload

pub record WorkloadDetails : Type 0 where
  pub ok : Bool
  pub errors : List Text
  pub run_duration : Text
  pub namespace : Text
  pub node : Text
  pub last_run : Option ℕ
  pub authoritative_pod : Text
  pub current_uuid : Text
  -- An unexported field: the API server never holds it, and `none` is the nil pointer.
  pub kh_workload : Option KhWorkload

-- The zero value of the struct.
abbrev pub zero_details : WorkloadDetails
zero_details = record {
  ok = false;
  errors = [];
  run_duration = [];
  namespace = [];
  node = [];
  last_run = none;
  authoritative_pod = [];
  current_uuid = [];
  kh_workload = none;
}

-- `NewWorkloadDetails`, for a workload that is not the empty string.
unfoldable pub new_workload_details : KhWorkload → WorkloadDetails
new_workload_details workload = record zero_details { kh_workload = some workload }

pub record KhState : Type 0 where
  pub name : Text
  pub namespace : Text
  pub resource_version : ℕ
  pub spec : WorkloadDetails

-- `NewKuberhealthyState`
unfoldable pub new_kuberhealthy_state : Text → WorkloadDetails → KhState
new_kuberhealthy_state name spec = record {
  name = name;
  namespace = [];
  resource_version = 0;
  spec = spec;
}

pub data Phase : Type 0 where
  pod_pending pod_running pod_succeeded pod_failed pod_unknown : Phase

-- One entry of `pod.Status.ContainerStatuses`: `State.Terminated` with its finishing time, and the
-- reason in `State.Waiting`.
pub record ContainerStatus : Type 0 where
  pub terminated : Option ℕ
  pub waiting : Option Text

pub record EnvVar : Type 0 where
  pub name : Text
  pub value : Text
  pub value_from : Option Text

pub record Container : Type 0 where
  pub name : Text
  pub image : Text
  pub env : List EnvVar

pub record Pod : Type 0 where
  pub name : Text
  pub namespace : Text
  pub labels : Dict Text
  pub annotations : Dict Text
  pub creation_timestamp : ℕ
  pub phase : Phase
  pub container_statuses : List ContainerStatus
  pub containers : List Container
  pub node_name : Text
