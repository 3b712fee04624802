-- ===== src/Status/Summary.antt =====
-- What the summary of CurrentStatus says: its list of errors and its OK flag, against the plain
-- list of what the khstates report.
use kuberhealthy.Prelude.{
  true, false, not, Option, none, some, List, [], ◌∷◌, ◌++◌, ◌≡◌, inl, inr, refl, sym, ap, ◌∙◌,
  select, Text, Dict, is_empty, is_blank, not_empty_of_not_blank, Bool-cases, if◌then◌else◌,
}
use mathlib.Core.List.{append-nil, append_assoc}
use kuberhealthy.Api.Types.{WorkloadDetails, KhState, KhWorkload, kh_check, kh_job}
use kuberhealthy.Api.Cluster.{Cluster}
use kuberhealthy.Health.{State, add_error, new_state}
use kuberhealthy.Status.{
  report_errors, store_details, determine_kh_workload, visit_item, visit_items, current_status,
  is_shown, validate_current_status_for_namespaces, get_current_status_for_namespaces,
}

-- The errors that are worth showing.
abbrev pub shown_errors : List Text → List Text
shown_errors = select (λ e. not (is_blank e))

abbrev pub item_errors : Option KhState → List Text
item_errors none = []
item_errors (some s) = if is_empty s.spec.authoritative_pod then [] else shown_errors s.spec.errors

abbrev pub listed_errors : List (Option KhState) → List Text
listed_errors [] = []
listed_errors (item ∷ items) = item_errors item ++ listed_errors items

-- What a step may do to the summary: the texts are added, and OK tells whether there is any.
pub record Adds (es : List Text) (s t : State) : Type 0 where
  pub errors_added : t.errors ≡ s.errors ++ es
  pub ok_exact : s.ok ≡ is_empty s.errors → t.ok ≡ is_empty t.errors

is_empty-append_cons :
    (xs : List Text) (y : Text) (ys : List Text) → is_empty (xs ++ y ∷ ys) ≡ false
is_empty-append_cons [] y ys = refl
is_empty-append_cons (x ∷ xs) y ys = refl

Adds-refl : (s : State) → Adds [] s s
Adds-refl s = record { errors_added = sym (append-nil s.errors); ok_exact = λ h. h }

Adds-trans : {xs ys : List Text} {s t u : State} → Adds xs s t → Adds ys t u → Adds (xs ++ ys) s u
Adds-trans {xs} {ys} {s} {t} {u} a b = record {
  errors_added = cc (append_assoc s.errors xs ys);
  ok_exact = λ h. b.ok_exact (a.ok_exact h);
}

Adds-quiet : {xs : List Text} {s t u : State} → Adds xs s t → Adds [] t u → Adds xs s u
Adds-quiet {t} a b = record {
  errors_added = b.errors_added ∙ append-nil t.errors ∙ a.errors_added;
  ok_exact = λ h. b.ok_exact (a.ok_exact h);
}

add_shown :
    (e : Text) (s : State)
    → is_blank e ≡ false
    → Adds (e ∷ []) s (record (add_error s (e ∷ [])) { ok = false })
unfolding add_error
add_shown e s shown =
    rw (not_empty_of_not_blank e shown)
      (record { errors_added = refl; ok_exact = λ _. sym (is_empty-append_cons s.errors e []) })

pub report_errors-Adds :
    (es : List Text) (s : State) → Adds (shown_errors es) s (report_errors es s)
unfolding report_errors
report_errors-Adds [] s = Adds-refl s
report_errors-Adds (e ∷ es) s = elim (Bool-cases (is_blank e)) [
  | inl blank ↦ rw blank (report_errors-Adds es s)
  | inr shown ↦ rw shown (Adds-trans (add_shown e s shown) (report_errors-Adds es _))
]

store_details-Adds :
    (o : Option KhWorkload) (key : Text) (d : WorkloadDetails) (s : State)
    → Adds [] s (store_details o key d s)
unfolding store_details
store_details-Adds none key d s = Adds-refl s
store_details-Adds (some kh_check) key d s = record {
  errors_added = sym (append-nil s.errors);
  ok_exact = λ h. h;
}
store_details-Adds (some kh_job) key d s = record {
  errors_added = sym (append-nil s.errors);
  ok_exact = λ h. h;
}

module _ (c : Cluster) where
  visit_item-Adds :
      (item : Option KhState) (s : State) (w : c.World)
      → Adds (item_errors item) s (visit_item c item s w).0
  unfolding visit_item
  visit_item-Adds none s w = Adds-refl s
  visit_item-Adds (some k) s w = elim (Bool-cases (is_empty k.spec.authoritative_pod)) [
    | inl hidden ↦ rw hidden (Adds-refl s)
    | inr run ↦ rw run (
        Adds-quiet (report_errors-Adds k.spec.errors s)
          (store_details-Adds (determine_kh_workload c k.name k.namespace w).0 _ _ _))
  ]

  visit_items-Adds :
      (items : List (Option KhState)) (s : State) (w : c.World)
      → Adds (listed_errors items) s (visit_items c items s w).0
  unfolding visit_items
  visit_items-Adds [] s w = Adds-refl s
  visit_items-Adds (item ∷ items) s w =
      let (s', w') = visit_item c item s w in
      Adds-trans (visit_item-Adds item s w) (visit_items-Adds items s' w')

-- The summary of the cached khstates, whatever the lookups of khchecks and khjobs answer: its
-- errors are the non-blank errors of the khstates that have an authoritative pod, in the order of
-- the cache, and OK is true exactly when there is none.
pub current_status-errors :
    (c : Cluster) (items : List (Option KhState)) (w : c.World)
    → let s = (current_status c (some items) w).0 in
      (s.errors ≡ listed_errors items) × (s.ok ≡ is_empty (listed_errors items))
unfolding current_status new_state
current_status-errors c items w =
    let a = visit_items-Adds c items new_state w in
    (a.errors_added, a.ok_exact refl ∙ ap is_empty a.errors_added)

-- The errors of the details in a map, for the checks that are shown.
abbrev pub map_errors : List Text → Dict WorkloadDetails → List Text
map_errors namespaces [] = []
map_errors namespaces ((name, d) ∷ rest) =
    (if is_shown namespaces d then shown_errors d.errors else []) ++ map_errors namespaces rest

validate-Adds :
    (details : Dict WorkloadDetails) (namespaces : List Text) (s : State) (workload : KhWorkload)
    → Adds
        (map_errors namespaces details)
        s
        (validate_current_status_for_namespaces details namespaces s workload)
unfolding validate_current_status_for_namespaces
validate-Adds [] namespaces s workload = Adds-refl s
validate-Adds ((name, d) ∷ rest) namespaces s workload = elim (Bool-cases (is_shown namespaces d)) [
  | inl shown ↦ rw shown (
      Adds-trans
        (Adds-quiet (report_errors-Adds d.errors s) (store_details-Adds (some workload) name d _))
        (validate-Adds rest namespaces _ workload))
  | inr hidden ↦ rw hidden (validate-Adds rest namespaces s workload)
]

-- With namespaces requested, the errors are the non-blank errors of the cached checks, and then of
-- the cached jobs, that have run and lie in one of them, and OK is true exactly when there is none:
-- neither depends on the errors or the OK flag of the summary that is filtered.
pub namespaces-errors :
    (namespaces : List Text) (states : State)
    → is_empty namespaces ≡ false
    → let s = get_current_status_for_namespaces namespaces states in
      let es =
        map_errors namespaces states.check_details ++ map_errors namespaces states.job_details in
      (s.errors ≡ es) × (s.ok ≡ is_empty es)
unfolding get_current_status_for_namespaces
namespaces-errors namespaces states some_requested =
    let cleared = record states { errors = []; ok = true; check_details = []; job_details = [] } in
    let checks = validate-Adds states.check_details namespaces cleared kh_check in
    let jobs = validate-Adds states.job_details namespaces _ kh_job in
    let a = Adds-trans checks jobs in
    rw some_requested (a.errors_added, a.ok_exact refl ∙ ap is_empty a.errors_added)
