-- ===== src/Launch/Reports.antt =====
-- The pod that a run creates may report for it.
use kuberhealthy.Prelude.{
  ◌≡◌, refl, ◌∙◌, false, Option, none, some, List, [], ◌∷◌, ◌++◌, Text, text_eq, text_eq_refl,
  is_empty, lookup, lookup-insert,
}
use kuberhealthy.Api.Results.{ok, reply}
use kuberhealthy.Api.Types.{KhState, Container, EnvVar}
use kuberhealthy.Api.Cluster.{Cluster}
use kuberhealthy.Report.{
  check_name_annotation_key, text_or_empty, env_vars, find_uuid, is_uuid_whitelisted_for_check,
  validate_report_info, validate_pod,
}
use kuberhealthy.Launch.{
  PodSpec, PodMaker, injected_vars, reset_injected_container_env_vars, overwrite_env_vars,
  configure_container, configure_containers, configure_user_pod_spec, insert_all,
  kuberhealthy_annotations, new_checker_pod,
}

find_uuid-append :
    (es fs : List EnvVar) (o : Option Text) → find_uuid (es ++ fs) o ≡ find_uuid fs (find_uuid es o)
unfolding find_uuid
find_uuid-append [] fs o = refl
find_uuid-append (e ∷ es) fs o = find_uuid-append es fs _

module _ (ext : PodMaker) (deadline : Text) where
  find_uuid-overwrite :
      (o : Option Text)
      → find_uuid (overwrite_env_vars ext deadline) o ≡ some ext.current_check_uuid
  unfolding find_uuid text_eq
  find_uuid-overwrite o = refl

  container_uuid :
      (c : Container) (o : Option Text)
      → find_uuid (configure_container ext deadline c).env o ≡ some ext.current_check_uuid
  unfolding configure_container
  container_uuid c o =
      find_uuid-append (reset_injected_container_env_vars c.env injected_vars)
        (overwrite_env_vars ext deadline) o
      ∙ find_uuid-overwrite _

  containers_uuid :
      (cs : List Container) (o : Option Text)
      → o ≡ some ext.current_check_uuid
      → find_uuid (env_vars (configure_containers ext deadline cs)) o ≡ some ext.current_check_uuid
  unfolding env_vars
  containers_uuid [] o e = unfold find_uuid in e
  containers_uuid (c ∷ cs) o e =
      find_uuid-append (configure_container ext deadline c).env
        (env_vars (configure_containers ext deadline cs)) o
      ∙ containers_uuid cs _ (container_uuid c o)

  pod_uuid :
      (cs : List Container)
      → is_empty cs ≡ false
      → find_uuid (env_vars (configure_containers ext deadline cs)) none
        ≡ some ext.current_check_uuid
  unfolding env_vars
  pod_uuid [] h = cc
  pod_uuid (c ∷ cs) h =
      find_uuid-append (configure_container ext deadline c).env
        (env_vars (configure_containers ext deadline cs)) none
      ∙ containers_uuid cs _ (container_uuid c none)

  pod_name :
      text_or_empty (lookup check_name_annotation_key (kuberhealthy_annotations ext))
      ≡ ext.check_name
  unfolding kuberhealthy_annotations
  pod_name = rw (
    lookup-insert check_name_annotation_key check_name_annotation_key ext.check_name
        (insert_all ext.extra_annotations []),
    text_eq_refl check_name_annotation_key,
  )

-- The pod that a run creates passes the validation of the report endpoint, under the name, the
-- namespace and the UUID of its run, whatever the user's spec, labels and annotations say, while the
-- khstate has that UUID as the current one. The spec has a container, and name, namespace and UUID
-- are not empty.
pub new_checker_pod-validates :
    (c : Cluster) (ext : PodMaker) (deadline : Text) (spec : PodSpec) (s : KhState) (w : c.World)
    → is_empty spec.containers ≡ false
    → is_empty ext.check_name ≡ false
    → is_empty ext.namespace ≡ false
    → is_empty ext.current_check_uuid ≡ false
    → (c.get_state ext.namespace ext.check_name w).0 ≡ reply s
    → s.spec.current_uuid ≡ ext.current_check_uuid
    → (validate_pod c (new_checker_pod ext (configure_user_pod_spec ext deadline spec)) w).0
      ≡ ok (record {
        name = ext.check_name;
        uuid = ext.current_check_uuid;
        namespace = ext.namespace;
      })
unfolding validate_pod new_checker_pod configure_user_pod_spec
new_checker_pod-validates c ext deadline spec s w has_container has_name has_namespace has_uuid got
      current =
    rw
      (
        pod_name ext deadline,
        has_name,
        pod_uuid ext deadline spec.containers has_container,
        has_namespace,
        has_uuid,
      )
      (unfold validate_report_info is_uuid_whitelisted_for_check in
        rw (got, current, text_eq_refl ext.current_check_uuid))
