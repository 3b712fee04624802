-- ===== src/Launch/Spec.antt =====
-- Configuring a pod spec that an earlier run has configured. The copy that configureUserPodSpec
-- starts from shares its containers with the user's spec, so that each run finds the last one's.
use kuberhealthy.Prelude.{
  ◌≡◌, refl, ap, ◌∙◌, Bool, not, List, [], ◌∷◌, ◌++◌, select, select-append, Text, text_eq, arith,
}
use kuberhealthy.Api.Types.{Container, EnvVar}
use kuberhealthy.Launch.{
  PodSpec, PodMaker, injected_vars, contains_env_var_name, reset_injected_container_env_vars,
  overwrite_env_vars, configure_container, configure_containers, configure_user_pod_spec,
}

select_idem : (p : EnvVar → Bool) (vs : List EnvVar) → select p (select p vs) ≡ select p vs
select_idem p [] = refl
select_idem p (v ∷ vs) = ground (arith, select_idem p vs)

append-nil : (vs : List EnvVar) → vs ++ [] ≡ vs
append-nil [] = refl
append-nil (v ∷ vs) = ap (λ (t : List EnvVar). v ∷ t) (append-nil vs)

reset-overwrite :
    (ext : PodMaker) (deadline : Text) (vs : List EnvVar)
    → reset_injected_container_env_vars
        (reset_injected_container_env_vars vs injected_vars ++ overwrite_env_vars ext deadline)
        injected_vars
      ≡ reset_injected_container_env_vars vs injected_vars
unfolding reset_injected_container_env_vars text_eq
reset-overwrite ext deadline vs =
    let p = λ (v : EnvVar). not (contains_env_var_name v.name injected_vars) in
    select-append p (select p vs) (overwrite_env_vars ext deadline)
    ∙ append-nil _
    ∙ select_idem p vs

module _ (ext ext' : PodMaker) (deadline deadline' : Text) where
  containers_again :
      (cs : List Container)
      → configure_containers ext' deadline' (configure_containers ext deadline cs)
        ≡ configure_containers ext' deadline' cs
  unfolding configure_container
  containers_again [] = refl
  containers_again (c ∷ cs) = rw (reset-overwrite ext deadline c.env, containers_again cs)

-- Configuring a pod spec for a run forgets what an earlier run configured: no variable of the
-- earlier run is left in any container, and none stands twice.
pub configure_user_pod_spec-again :
    (ext ext' : PodMaker) (deadline deadline' : Text) (spec : PodSpec)
    → configure_user_pod_spec ext' deadline' (configure_user_pod_spec ext deadline spec)
      ≡ configure_user_pod_spec ext' deadline' spec
unfolding configure_user_pod_spec
configure_user_pod_spec-again ext ext' deadline deadline' spec =
    rw (containers_again ext ext' deadline deadline' spec.containers)
