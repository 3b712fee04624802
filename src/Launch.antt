-- ===== src/Launch.antt =====
-- The checker pod of pkg/checks/external/main.go: validatePodSpec, sanityCheck, configureUserPodSpec
-- and createPod. The owner reference of a pod in the namespace of kuberhealthy is left out.
pub mod Spec
pub mod Reports
use kuberhealthy.Prelude.{
  ℕ, zero, suc, Bool, true, false, not, ◌||◌, Option, none, some, List, [], ◌∷◌, ◌++◌, map, any,
  select, Text, codes, text_eq, is_empty, Dict, insert, to_lower, if◌then◌else◌,
}
use kuberhealthy.Api.Results.{Err, new_error}
use kuberhealthy.Api.Types.{Pod, Container, EnvVar, Phase, pod_pending}
use kuberhealthy.Report.{check_name_annotation_key, kh_run_uuid}

pub record PodSpec : Type 0 where
  pub containers : List Container
  pub init_containers : List Container
  pub restart_policy : Text

-- The fields of `Checker` that are read to make a pod.
pub record PodMaker : Type 0 where
  pub check_name : Text
  pub namespace : Text
  pub check_pod_name : Text
  pub original_pod_spec : PodSpec
  pub kuberhealthy_reporting_url : Text
  pub current_check_uuid : Text
  pub extra_labels : Dict Text
  pub extra_annotations : Dict Text

abbrev pub kh_reporting_url : Text
kh_reporting_url = codes "KH_REPORTING_URL"

abbrev pub kh_deadline : Text
kh_deadline = codes "KH_CHECK_RUN_DEADLINE"

abbrev pub kh_pod_namespace : Text
kh_pod_namespace = codes "KH_POD_NAMESPACE"

-- The injected names that configureUserPodSpec removes before it appends its own.
abbrev pub injected_vars : List Text
injected_vars = kh_reporting_url ∷ kh_run_uuid ∷ kh_pod_namespace ∷ kh_deadline ∷ []

-- `regeneratePodName`, for the time as a text.
unfoldable pub regenerate_pod_name : (check_name time : Text) → Text
regenerate_pod_name check_name time = to_lower (check_name ++ b'-' ∷ time)

abbrev pub first_without_image : List Container → Option Err
first_without_image [] = none
first_without_image (c ∷ containers) =
    if is_empty c.image
    then some (
        new_error (codes "no image found in check's PodSpec for container " ++ c.name ++ codes "."))
    else first_without_image containers

-- `validatePodSpec`, with `none` for no error.
unfoldable pub validate_pod_spec : PodSpec → Option Err
validate_pod_spec spec =
    if is_empty spec.containers
    then some (new_error (codes "no containers found in checks PodSpec"))
    else first_without_image spec.containers

-- `sanityCheck`, for a client that is not nil.
unfoldable pub sanity_check : (namespace : Text) → PodSpec → Option Err
sanity_check namespace spec =
    if is_empty namespace
    then some (new_error (codes "check namespace can not be empty"))
    else if is_empty spec.containers
    then some (new_error (codes "pod has no configured containers"))
    else none

-- `containsEnvVarName`
abbrev pub contains_env_var_name : Text → List Text → Bool
contains_env_var_name env_var injected = any (text_eq env_var) injected

-- `resetInjectedContainerEnvVars`
unfoldable pub reset_injected_container_env_vars :
    List EnvVar → (injected : List Text) → List EnvVar
reset_injected_container_env_vars pod_vars injected =
    select (λ v. not (contains_env_var_name v.name injected)) pod_vars

module _ (ext : PodMaker) (deadline : Text) where
  -- The variables that configureUserPodSpec sets; the deadline is a text of seconds.
  abbrev pub overwrite_env_vars : List EnvVar
  overwrite_env_vars =
      record { name = kh_reporting_url; value = ext.kuberhealthy_reporting_url; value_from = none }
      ∷ record { name = kh_run_uuid; value = ext.current_check_uuid; value_from = none }
      ∷ record { name = kh_deadline; value = deadline; value_from = none }
      ∷ record {
        name = kh_pod_namespace;
        value = [];
        value_from = some (codes "metadata.namespace");
      }
      ∷ []

  unfoldable pub configure_container : Container → Container
  configure_container c = record c {
    env = reset_injected_container_env_vars c.env injected_vars ++ overwrite_env_vars;
  }

  abbrev pub configure_containers : List Container → List Container
  configure_containers [] = []
  configure_containers (c ∷ containers) = configure_container c ∷ configure_containers containers

  -- `configureUserPodSpec`, of the spec that it starts from.
  unfoldable pub configure_user_pod_spec : PodSpec → PodSpec
  configure_user_pod_spec spec = record spec {
    containers = configure_containers spec.containers;
    restart_policy = codes "Never";
  }

abbrev pub insert_all : Dict Text → Dict Text → Dict Text
insert_all [] m = m
insert_all ((k, v) ∷ extra) m = insert_all extra (insert k v m)

-- `addKuberhealthyLabels`: the labels, and the annotations, of a new pod.
unfoldable pub kuberhealthy_labels : PodMaker → Dict Text
kuberhealthy_labels ext = insert (codes "app") (codes "kuberhealthy-check") (
    insert (codes "kuberhealthy-check-name") ext.check_name (
      insert (codes "kuberhealthy-run-id") ext.current_check_uuid (insert_all ext.extra_labels [])))

unfoldable pub kuberhealthy_annotations : PodMaker → Dict Text
kuberhealthy_annotations ext =
    insert check_name_annotation_key ext.check_name (insert_all ext.extra_annotations [])

-- The pod that `createPod` sends to the API server.
unfoldable pub new_checker_pod : PodMaker → PodSpec → Pod
new_checker_pod ext spec = record {
  name = ext.check_pod_name;
  namespace = ext.namespace;
  labels = kuberhealthy_labels ext;
  annotations = kuberhealthy_annotations ext;
  creation_timestamp = 0;
  phase = pod_pending;
  container_statuses = [];
  containers = spec.containers;
  node_name = [];
}
