-- ===== src/Runner/Recorded.antt =====
-- What a round of runCheck leaves in the khstate.
use kuberhealthy.Prelude.{
  ◌≡◌, refl, sym, ap, ◌∙◌, inl, inr, false, Bool-cases, Option, none, some, List, [], ◌∷◌, ◌++◌,
  Text, codes, is_empty,
}
use kuberhealthy.Api.Results.{
  Err, Result, ok, err, panic, is_not_found, Reply, reply, refuse, wrap_error, map_err, map_error,
}
use kuberhealthy.Api.Types.{kh_check, WorkloadDetails, KhState}
use kuberhealthy.Api.Ensures.{Ensures, Ensures-and_then, Ensures-settle}
use kuberhealthy.Api.Cluster.{Cluster, IsQuiet}
use kuberhealthy.Store.{sanitize_resource_name, get_workload_state, store_check_state}
use kuberhealthy.Store.Written.{Written, store_check_state-Written}
use kuberhealthy.Store.Uuid.{Checker}
use kuberhealthy.Report.{fetch_pod_by_selector}
use kuberhealthy.Runner.{
  get_check, execution_details, status_of, uuid_or_empty, node_or_empty, finished_details,
  record_error, set_check_execution_error, store_finished, with_status, finish_check,
}

-- A get of the check's khstate answers with the error of its run, and not with an OK.
pub record IsFailed (c : Cluster) (check_name ns : Text) (e : Err) (w : c.World) : Type 0 where
  pub khstate : KhState
  pub read : (c.get_state ns (sanitize_resource_name check_name) w).0 ≡ reply khstate
  pub not_ok : khstate.spec.ok ≡ false
  pub error_stored : khstate.spec.errors ≡ (codes "Check execution error: " ++ e.message) ∷ []

-- A get of the check's khstate answers with an OK exactly if it answers with no errors.
pub record IsConsistent (c : Cluster) (check_name ns : Text) (w : c.World) : Type 0 where
  pub khstate : KhState
  pub read : (c.get_state ns (sanitize_resource_name check_name) w).0 ≡ reply khstate
  pub consistent : khstate.spec.ok ≡ is_empty khstate.spec.errors

status_of-consistent : (r : Reply KhState) → (status_of r).0 ≡ is_empty (status_of r).1
unfolding status_of
status_of-consistent (reply s) = refl
status_of-consistent (refuse e) = elim (Bool-cases (is_not_found e)) [
  | inl missing ↦ rw missing
  | inr other ↦ rw other
]

map_err-ok : (f : Err → Err) (r : Result (Unit {0})) → map_err f r ≡ ok tt → r ≡ ok tt
map_err-ok f (ok u) h = h
map_err-ok f (err e) h = cc
map_err-ok f panic h = cc

module _ (c : Cluster) (quiet : IsQuiet c) (pod_hostname : Text) where
  IsFailed-Written :
      (check_name ns namespace uuid : Text) (e : Err) (w : c.World)
      → Written c pod_hostname
          (sanitize_resource_name check_name)
          ns
          (execution_details namespace uuid e)
          w
      → IsFailed c check_name ns e w
  unfolding execution_details
  IsFailed-Written check_name ns namespace uuid e w (t, got, time, same) = record {
    khstate = t;
    read = got;
    not_ok = ap (λ (d : WorkloadDetails). d.ok) same;
    error_stored = ap (λ (d : WorkloadDetails). d.errors) same;
  }

  IsConsistent-Written :
      (check_name ns namespace uuid node duration : Text) (r : Reply KhState) (w : c.World)
      → Written c pod_hostname
          (sanitize_resource_name check_name)
          ns
          (finished_details namespace uuid node duration (status_of r))
          w
      → IsConsistent c check_name ns w
  unfolding finished_details
  IsConsistent-Written check_name ns namespace uuid node duration r w (t, got, time, same) =
      record {
        khstate = t;
        read = got;
        consistent =
            ap (λ (d : WorkloadDetails). d.ok) same
            ∙ status_of-consistent r
            ∙ ap (λ (d : WorkloadDetails). is_empty d.errors) (sym same);
      }

  record_error-Ensures :
      (o : Option Checker) (check_name ns : Text) (e : Err) (w : c.World)
      → Ensures (IsFailed c check_name ns e) (record_error c pod_hostname o check_name ns e w)
  record_error-Ensures none check_name ns e w = λ h. cc
  record_error-Ensures (some check) check_name ns e w =
      let recorded = λ (state : WorkloadDetails).
        map_error
          (wrap_error (codes "unable to write an execution error to the CRD status with error: "))
          (store_check_state c pod_hostname check_name ns
            (execution_details check.namespace state.current_uuid e)) in
      let fetched =
        map_error (wrap_error (codes "error when setting execution error on check "))
          (get_workload_state c kh_check check.check_name check.namespace) w in
      Ensures-and_then (IsFailed c check_name ns e) fetched.0 recorded fetched.1 (λ state got h.
        IsFailed-Written check_name ns check.namespace state.current_uuid e
          (recorded state fetched.1).1
          (store_check_state-Written c pod_hostname check_name ns
            (execution_details check.namespace state.current_uuid e) fetched.1 quiet
            (map_err-ok _ _ h)))

  with_status-Ensures :
      (check : Checker) (run_duration uuid : Text) (o : Reply KhState × c.World)
      → Ensures
          (IsConsistent c check.check_name check.namespace)
          (with_status c pod_hostname check run_duration uuid o)
  with_status-Ensures check run_duration uuid (status, w) =
      let fetched = fetch_pod_by_selector c (codes "kuberhealthy-run-id=" ++ uuid) w in
      Ensures-settle (IsConsistent c check.check_name check.namespace)
        (store_finished c pod_hostname check run_duration uuid status) fetched.0 fetched.1
        (λ pod _ h.
          IsConsistent-Written check.check_name check.namespace check.namespace uuid
            (node_or_empty pod) run_duration status
            (store_finished c pod_hostname check run_duration uuid status pod fetched.1).1
            (store_check_state-Written c pod_hostname check.check_name check.namespace
              (finished_details check.namespace uuid (node_or_empty pod) run_duration
                (status_of status))
              fetched.1 quiet h))

-- With nobody else writing, setCheckExecutionError returns without an error only if a get of the
-- check's khstate then answers with an OK of false and the error of the run as its only error.
pub set_check_execution_error-IsFailed :
    (c : Cluster) (pod_hostname : Text) (checks : List Checker) (check_name ns : Text) (e : Err)
    (w : c.World)
    → IsQuiet c
    → (set_check_execution_error c pod_hostname checks check_name ns e w).0 ≡ ok tt
    → IsFailed c check_name ns e
        (set_check_execution_error c pod_hostname checks check_name ns e w).1
unfolding set_check_execution_error
set_check_execution_error-IsFailed c pod_hostname checks check_name ns e w quiet =
    record_error-Ensures c quiet pod_hostname (get_check check_name ns checks) check_name ns e w

-- With nobody else writing, what a run without an error stores is an OK exactly if it has no errors,
-- whatever the check had reported: storing without an error leaves such a khstate.
pub finish_check-IsConsistent :
    (c : Cluster) (pod_hostname : Text) (check : Checker) (run_duration : Text) (w : c.World)
    → IsQuiet c
    → (finish_check c pod_hostname check run_duration w).0 ≡ ok tt
    → IsConsistent c check.check_name check.namespace
        (finish_check c pod_hostname check run_duration w).1
unfolding finish_check
finish_check-IsConsistent c pod_hostname check run_duration w quiet =
    let fetched = get_workload_state c kh_check check.check_name check.namespace w in
    Ensures-settle (IsConsistent c check.check_name check.namespace)
      (λ details u.
        with_status c pod_hostname check run_duration (uuid_or_empty details)
          (c.get_state check.namespace check.check_name u))
      fetched.0 fetched.1
      (λ details _.
        with_status-Ensures c quiet pod_hostname check run_duration (uuid_or_empty details)
          (c.get_state check.namespace check.check_name fetched.1))
