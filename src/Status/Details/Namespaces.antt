-- ===== src/Status/Details/Namespaces.antt =====
-- Which checks and jobs the summary for some namespaces holds, key by key.
use kuberhealthy.Prelude.{
  Bool, true, false, ◌&&◌, Option, none, some, List, [], ◌∷◌, ◌≡◌, inl, inr, refl, ◌∙◌, Text,
  text_eq, eq_of_text_eq, Dict, IsMap, lookup, is_empty, arith, Bool-cases, if◌then◌else◌,
}
use kuberhealthy.Api.Types.{WorkloadDetails, KhWorkload, kh_check, kh_job}
use kuberhealthy.Health.{State}
use kuberhealthy.Status.{
  report_errors, store_details, is_shown, validate_current_status_for_namespaces,
  get_current_status_for_namespaces,
}
use kuberhealthy.Status.Details.{
  details_of, or_else, or_else-none, report_errors-details, store_details-lookup,
}

-- What a request for namespaces lets through.
abbrev pub visible : List Text → Option WorkloadDetails → Option WorkloadDetails
visible namespaces none = none
visible namespaces (some d) = if is_shown namespaces d then some d else none

stored-lookup :
    (b : Bool) (k : KhWorkload) (name j : Text) (d : WorkloadDetails) (s : State)
    → lookup j
        (details_of k (if b then store_details (some k) name d (report_errors d.errors s) else s))
      ≡ (if b && text_eq name j then some d else lookup j (details_of k s))
stored-lookup false k name j d s = refl
stored-lookup true kh_check name j d s =
    rw store_details-lookup (rw (report_errors-details kh_check d.errors s))
stored-lookup true kh_job name j d s =
    rw store_details-lookup (rw (report_errors-details kh_job d.errors s))

visible_step :
    (namespaces : List Text) (name j : Text) (d : WorkloadDetails) (rest : Dict WorkloadDetails)
    (o : Option WorkloadDetails)
    → lookup name rest ≡ none
    → or_else
        (visible namespaces (lookup j rest))
        (if is_shown namespaces d && text_eq name j then some d else o)
      ≡ or_else (visible namespaces (lookup j ((name, d) ∷ rest))) o
unfolding lookup
visible_step namespaces name j d rest o fresh = elim (Bool-cases (text_eq name j)) [
  | inl same ↦ rw (same, rw (eq_of_text_eq name j same) at fresh) (ground arith)
  | inr other ↦ rw other (ground arith)
]

validate-lookup :
    (namespaces : List Text) (k : KhWorkload) (details : Dict WorkloadDetails) (s : State)
    (j : Text)
    → IsMap details
    → lookup j (details_of k (validate_current_status_for_namespaces details namespaces s k))
      ≡ or_else (visible namespaces (lookup j details)) (lookup j (details_of k s))
unfolding validate_current_status_for_namespaces lookup
validate-lookup namespaces k [] s j h = refl
validate-lookup namespaces k ((name, d) ∷ rest) s j (fresh, h) =
    validate-lookup namespaces k rest _ j h
    ∙ rw (stored-lookup (is_shown namespaces d) k name j d s)
        (visible_step namespaces name j d rest (lookup j (details_of k s)) fresh)

cleared_lookup :
    (namespaces : List Text) (k : KhWorkload) (details : Dict WorkloadDetails) (s : State)
    (j : Text)
    → details_of k s ≡ []
    → IsMap details
    → lookup j (details_of k (validate_current_status_for_namespaces details namespaces s k))
      ≡ visible namespaces (lookup j details)
unfolding lookup
cleared_lookup namespaces k details s j none_yet h =
    validate-lookup namespaces k details s j h ∙ rw none_yet (or_else-none _)

validate-other :
    (namespaces : List Text) (details : Dict WorkloadDetails) (s : State)
    → (validate_current_status_for_namespaces details namespaces s kh_check).job_details
      ≡ s.job_details
unfolding validate_current_status_for_namespaces store_details
validate-other namespaces [] s = refl
validate-other namespaces ((name, d) ∷ rest) s =
    validate-other namespaces rest _ ∙ ground (arith, report_errors-details kh_job d.errors s)

validate_jobs-other :
    (namespaces : List Text) (details : Dict WorkloadDetails) (s : State)
    → (validate_current_status_for_namespaces details namespaces s kh_job).check_details
      ≡ s.check_details
unfolding validate_current_status_for_namespaces store_details
validate_jobs-other namespaces [] s = refl
validate_jobs-other namespaces ((name, d) ∷ rest) s =
    validate_jobs-other namespaces rest _
    ∙ ground (arith, report_errors-details kh_check d.errors s)

-- With namespaces requested, the filtered summary holds under a key, for checks and for jobs, what
-- the cached summary holds there if that has run and lies in one of the namespaces, and otherwise
-- nothing.
pub namespaces-lookup :
    (namespaces : List Text) (k : KhWorkload) (states : State) (j : Text)
    → is_empty namespaces ≡ false
    → IsMap (details_of k states)
    → lookup j (details_of k (get_current_status_for_namespaces namespaces states))
      ≡ visible namespaces (lookup j (details_of k states))
unfolding get_current_status_for_namespaces
namespaces-lookup namespaces kh_check states j some_requested h =
    rw some_requested
      (rw validate_jobs-other (cleared_lookup namespaces kh_check states.check_details _ j refl h))
namespaces-lookup namespaces kh_job states j some_requested h = rw some_requested (
    cleared_lookup namespaces kh_job states.job_details _ j
      (validate-other namespaces states.check_details _) h)
