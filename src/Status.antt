-- ===== src/Status.antt =====
-- The status page: cmd/kuberhealthy/reflector.go (`CurrentStatus`, `determineKHWorkload`) and of
-- cmd/kuberhealthy/kuberhealthy.go the functions that filter the cached status by namespace.
pub mod Summary
pub mod Details
use kuberhealthy.Prelude.{
  Bool, true, false, not, ◌&&◌, Option, none, some, List, [], ◌∷◌, ◌++◌, any, Text, text_eq, Dict,
  insert, is_empty, is_blank, if◌then◌else◌,
}
use kuberhealthy.Api.Results.{Reply, reply, refuse}
use kuberhealthy.Api.Types.{WorkloadDetails, KhState, KhWorkload, kh_check, kh_job}
use kuberhealthy.Api.Cluster.{Cluster}
use kuberhealthy.Health.{State, add_error, new_state}

-- The key of a resource in the status maps: `namespace + "/" + name`.
abbrev pub item_key : (namespace name : Text) → Text
item_key namespace name = namespace ++ b'/' ∷ name

-- The loop over the errors of one check, in both functions: blank errors are skipped, and any other
-- one is added and sets the global OK to false.
unfoldable pub report_errors : List Text → State → State
unfolding add_error
report_errors [] state = state
report_errors (e ∷ es) state =
    report_errors es
      (if is_blank e then state else record (add_error state (e ∷ [])) { ok = false })

-- The `switch khWorkload` that stores the details under their key.
unfoldable pub store_details : Option KhWorkload → Text → WorkloadDetails → State → State
store_details none key details state = state
store_details (some kh_check) key details state = record state {
  check_details = insert key details state.check_details;
}
store_details (some kh_job) key details state = record state {
  job_details = insert key details state.job_details;
}

module _ (c : Cluster) where
  abbrev job_or_unset : Reply (Unit {0}) × c.World → Option KhWorkload × c.World
  job_or_unset (reply _, w) = (some kh_job, w)
  job_or_unset (refuse _, w) = (none, w)

  abbrev check_or_job :
      (name namespace : Text) → Reply (Unit {0}) × c.World → Option KhWorkload × c.World
  check_or_job name namespace (reply _, w) = (some kh_check, w)
  check_or_job name namespace (refuse _, w) = job_or_unset (c.get_job namespace name w)

  -- `determineKHWorkload`: any error of a lookup counts as absence, and `none` is the empty text.
  unfoldable pub determine_kh_workload : Text → Text → c.World → Option KhWorkload × c.World
  determine_kh_workload name namespace w =
      check_or_job name namespace (c.get_check namespace name w)

  abbrev take_item : KhState → State → Option KhWorkload × c.World → State × c.World
  take_item khstate state (workload, w) =
      (store_details workload (item_key khstate.namespace khstate.name) khstate.spec state, w)

  -- One round of the loop of `CurrentStatus`. An item that is no khstate is `none`.
  unfoldable pub visit_item : Option KhState → State → c.World → State × c.World
  visit_item none state w = (state, w)
  visit_item (some khstate) state w =
      if is_empty khstate.spec.authoritative_pod
      then (state, w)
      else take_item khstate (report_errors khstate.spec.errors state)
          (determine_kh_workload khstate.name khstate.namespace w)

  unfoldable pub visit_items : List (Option KhState) → State → c.World → State × c.World
  visit_items [] state w = (state, w)
  visit_items (item ∷ items) state w =
      let (state', w') = visit_item item state w in visit_items items state' w'

  -- `CurrentStatus`, over the items that the reflector's cache lists; `none` is a nil store.
  unfoldable pub current_status : Option (List (Option KhState)) → c.World → State × c.World
  current_status none w = (new_state, w)
  current_status (some items) w = visit_items items new_state w

-- `containsString`
unfoldable pub contains_string : Text → List Text → Bool
contains_string s list = any (text_eq s) list

-- A check that has run, in one of the namespaces.
unfoldable pub is_shown : List Text → WorkloadDetails → Bool
is_shown namespaces details =
    contains_string details.namespace namespaces && not (is_empty details.authoritative_pod)

-- `validateCurrentStatusForNamespaces`: the range over the details of one workload.
unfoldable pub validate_current_status_for_namespaces :
    Dict WorkloadDetails → List Text → State → KhWorkload → State
validate_current_status_for_namespaces [] namespaces state workload = state
validate_current_status_for_namespaces ((name, details) ∷ rest) namespaces state workload =
    validate_current_status_for_namespaces rest namespaces
      (if is_shown namespaces details
        then store_details (some workload) name details (report_errors details.errors state)
        else state)
      workload

-- `getCurrentStatusForNamespaces`, from what the reflector returns.
unfoldable pub get_current_status_for_namespaces : List Text → State → State
get_current_status_for_namespaces namespaces states =
    let cleared = record states { errors = []; ok = true; check_details = []; job_details = [] } in
    if is_empty namespaces
    then cleared
    else validate_current_status_for_namespaces states.job_details namespaces
        (validate_current_status_for_namespaces states.check_details namespaces cleared kh_check)
        kh_job
