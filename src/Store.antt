-- ===== src/Store.antt =====
-- The khstate resources: cmd/kuberhealthy/crd.go, `storeCheckState` of
-- cmd/kuberhealthy/kuberhealthy.go, and `setUUID` of pkg/checks/external/main.go.
pub mod Written
pub mod Retries
pub mod Uuid
use kuberhealthy.Prelude.{
  ℕ, zero, suc, ◌+◌, Bool, true, false, Option, none, some, ◌++◌, Text, codes, text_eq, to_lower,
  contains, replace, if◌then◌else◌,
}
use kuberhealthy.Api.Results.{
  Err, Result, ok, err, panic, new_error, wrap_error, is_not_found, Action, pure, call, throw,
  fault, attempt, map_error, ◌>>=◌, ◌>>◌,
}
use kuberhealthy.Api.Types.{
  KhWorkload, kh_check, WorkloadDetails, KhState, zero_details, new_workload_details,
  new_kuberhealthy_state,
}
use kuberhealthy.Api.Cluster.{Cluster}

-- `time.Second`, in nanoseconds
abbrev pub second : ℕ
second = 1000000000

unfoldable pub sanitize_resource_name : Text → Text
sanitize_resource_name c = replace b' ' b'-' (to_lower c)

module _ (c : Cluster) where
  abbrev pub time_now : Action c.World ℕ
  time_now w = (ok (c.now w), w)

  abbrev pub wait : ℕ → Action c.World (Unit {0})
  wait d w = (ok tt, c.sleep d w)

  -- The second half of `setCheckStateResource`: the new khstate over the existing one.
  unfoldable pub write_over :
      (pod_hostname name check_namespace : Text)
      → WorkloadDetails
      → KhState
      → Action c.World (Unit {0})
  unfolding new_kuberhealthy_state
  write_over pod_hostname name check_namespace state existing_state = do
    now ← time_now
    let written = record state { authoritative_pod = pod_hostname; last_run = some now }
    let khstate = record (new_kuberhealthy_state name written) {
      resource_version = existing_state.resource_version;
    }
    call (c.update_state check_namespace khstate)
    pure tt

  -- `setCheckStateResource`; `pod_hostname` is the global podHostname.
  unfoldable pub set_check_state_resource :
      (pod_hostname check_name check_namespace : Text) → WorkloadDetails → Action c.World (Unit {0})
  unfolding write_over
  set_check_state_resource pod_hostname check_name check_namespace state = do
    let name = sanitize_resource_name check_name
    existing_state ←
        map_error
          (λ e. new_error (codes "Error retrieving CRD for: " ++ name ++ codes " " ++ e.message))
          (call (c.get_state check_namespace name))
    write_over pod_hostname name check_namespace state existing_state

  abbrev create_missing :
      (name check_namespace : Text) → KhWorkload → Result KhState → Action c.World (Unit {0})
  create_missing name check_namespace workload (ok state) = pure tt
  create_missing name check_namespace workload (err e) =
      let create = do
        map_error
            (λ e'.
              new_error
                (codes "Error creating custom resource: " ++ name ++ codes ": " ++ e'.message))
            (call (
              c.create_state check_namespace
                (new_kuberhealthy_state name (new_workload_details workload))))
        pure tt
      in if is_not_found e then create else throw e
  create_missing name check_namespace workload panic = fault

  unfoldable pub ensure_state_resource_exists :
      (check_name check_namespace : Text) → KhWorkload → Action c.World (Unit {0})
  unfolding new_kuberhealthy_state
  ensure_state_resource_exists check_name check_namespace workload = do
    let name = sanitize_resource_name check_name
    found ← attempt (call (c.get_state check_namespace name))
    create_missing name check_namespace workload found

  -- `getCheckState` and `getJobState`, which differ in the workload. On an error they return the
  -- details of `NewWorkloadDetails` beside it.
  unfoldable pub get_workload_state :
      KhWorkload → (check_name check_namespace : Text) → Action c.World WorkloadDetails
  unfolding ensure_state_resource_exists
  get_workload_state workload check_name check_namespace = do
    let name = sanitize_resource_name check_name
    map_error
        (λ e. new_error (codes "Error validating CRD exists: " ++ name ++ codes " " ++ e.message))
        (ensure_state_resource_exists check_name check_namespace workload)
    khstate ←
        map_error
          (λ e.
            new_error (
              codes "Error retrieving custom khstate resource: " ++ name ++ codes " " ++ e.message))
          (call (c.get_state check_namespace name))
    pure khstate.spec

-- `strings.Contains(err.Error(), "the object has been modified")`
unfoldable pub is_modified : Err → Bool
is_modified e = contains e.message (codes "the object has been modified")

abbrev pub max_tries : ℕ
max_tries = 7

-- What storeCheckState returns when the tries are used up.
abbrev pub too_many_tries : (check_name check_namespace : Text) → Err → Err
too_many_tries check_name check_namespace e =
    wrap_error
      (codes "failed to update khstate for check "
        ++ check_name
        ++ codes " in namespace "
        ++ check_namespace
        ++ codes " after 7 with error ")
      e

module _ (c : Cluster) (set : Action c.World (Unit {0})) (give_up : Err → Err) where
  -- The loop `for err != nil && strings.Contains(…)` of storeCheckState, over the error of the last
  -- try. `left` is `maxTries + 1 - tries`, so that `tries > maxTries` is `left = 0`.
  unfoldable pub retry : (left delay : ℕ) → Result (Unit {0}) → Action c.World (Unit {0})
  retry left delay (ok u) = pure tt
  retry left delay panic = fault
  retry zero delay (err e) = if is_modified e then throw (give_up e) else throw e
  retry (suc left) delay (err e) = do
    let again = do wait c delay; r ← attempt set; retry left (delay + delay) r
    if is_modified e then again else throw e

module _ (c : Cluster) where
  abbrev with_workload :
      Option KhWorkload → (KhWorkload → Action c.World (Unit {0})) → Action c.World (Unit {0})
  with_workload none k = fault
  with_workload (some workload) k = k workload

  -- `storeCheckState`. `GetKHWorkload` panics on a nil pointer.
  unfoldable pub store_check_state :
      (pod_hostname check_name check_namespace : Text) → WorkloadDetails → Action c.World (Unit {0})
  store_check_state pod_hostname check_name check_namespace details = do
    let set = set_check_state_resource c pod_hostname check_name check_namespace details
    with_workload details.kh_workload (ensure_state_resource_exists c check_name check_namespace)
    first ← attempt set
    retry c set (too_many_tries check_name check_namespace) (suc max_tries) second first
