-- ===== src/Status/Details.antt =====
-- Which checks and jobs the two summaries hold, key by key.
pub mod Namespaces
use kuberhealthy.Prelude.{
  Bool, true, false, ◌&&◌, Option, none, some, List, [], ◌∷◌, ◌≡◌, inl, inr, refl, ◌∙◌, Text,
  text_eq, eq_of_text_eq, Dict, IsMap, lookup, lookup-insert, insert-IsMap, is_empty, arith,
  Bool-cases, if◌then◌else◌,
}
use kuberhealthy.Api.Types.{WorkloadDetails, KhState, KhWorkload, kh_check, kh_job}
use kuberhealthy.Api.Cluster.{Cluster}
use kuberhealthy.Health.{State, new_state}
use kuberhealthy.Status.{
  item_key, report_errors, store_details, determine_kh_workload, visit_item, visit_items,
  current_status, is_shown, validate_current_status_for_namespaces,
  get_current_status_for_namespaces,
}

-- The map of a workload.
abbrev pub details_of : KhWorkload → State → Dict WorkloadDetails
details_of kh_check s = s.check_details
details_of kh_job s = s.job_details

abbrev same_workload : KhWorkload → Option KhWorkload → Bool
same_workload kh_check (some kh_check) = true
same_workload kh_job (some kh_job) = true
same_workload _ _ = false

abbrev pub or_else : Option WorkloadDetails → Option WorkloadDetails → Option WorkloadDetails
or_else (some d) o = some d
or_else none o = o

-- A test that chooses between an entry and what was there.
if-or_else :
    (b : Bool) (d : WorkloadDetails) (o : Option WorkloadDetails)
    → (if b then some d else o) ≡ or_else (if b then some d else none) o
if-or_else true d o = refl
if-or_else false d o = refl

or_else_assoc : (a b o : Option WorkloadDetails) → or_else a (or_else b o) ≡ or_else (or_else a b) o
or_else_assoc (some d) b o = refl
or_else_assoc none b o = refl

pub or_else-none : (o : Option WorkloadDetails) → or_else o none ≡ o
or_else-none (some d) = refl
or_else-none none = refl

pub report_errors-details :
    (k : KhWorkload) (es : List Text) (s : State)
    → details_of k (report_errors es s) ≡ details_of k s
unfolding report_errors
report_errors-details k [] s = refl
report_errors-details kh_check (e ∷ es) s = report_errors-details kh_check es _ ∙ ground arith
report_errors-details kh_job (e ∷ es) s = report_errors-details kh_job es _ ∙ ground arith

pub store_details-lookup :
    (k : KhWorkload) (o : Option KhWorkload) (key j : Text) (d : WorkloadDetails) (s : State)
    → lookup j (details_of k (store_details o key d s))
      ≡ (if same_workload k o && text_eq key j then some d else lookup j (details_of k s))
unfolding store_details
store_details-lookup kh_check none key j d s = refl
store_details-lookup kh_check (some kh_check) key j d s = lookup-insert key j d s.check_details
store_details-lookup kh_check (some kh_job) key j d s = refl
store_details-lookup kh_job none key j d s = refl
store_details-lookup kh_job (some kh_check) key j d s = refl
store_details-lookup kh_job (some kh_job) key j d s = lookup-insert key j d s.job_details

-- What a reported khstate puts under a key of a workload's map.
abbrev pub shown_item :
    (kind : (name namespace : Text) → Option KhWorkload)
    → KhWorkload
    → Option KhState
    → Text
    → Option WorkloadDetails
shown_item kind k none j = none
shown_item kind k (some s) j =
    if is_empty s.spec.authoritative_pod
    then none
    else if same_workload k (kind s.name s.namespace) && text_eq (item_key s.namespace s.name) j
    then some s.spec
    else none

-- The last one of a key wins.
abbrev pub shown_items :
    (kind : (name namespace : Text) → Option KhWorkload)
    → KhWorkload
    → List (Option KhState)
    → Text
    → Option WorkloadDetails
shown_items kind k [] j = none
shown_items kind k (item ∷ items) j =
    or_else (shown_items kind k items j) (shown_item kind k item j)

module _ (c : Cluster) (kind : (name namespace : Text) → Option KhWorkload)
    (steady : (n ns : Text) (w : c.World) → determine_kh_workload c n ns w ≡ (kind n ns, w)) where
  visit_item-lookup :
      (k : KhWorkload) (item : Option KhState) (s : State) (w : c.World) (j : Text)
      → lookup j (details_of k (visit_item c item s w).0)
        ≡ or_else (shown_item kind k item j) (lookup j (details_of k s))
  unfolding visit_item
  visit_item-lookup k none s w j = refl
  visit_item-lookup k (some t) s w j = elim (Bool-cases (is_empty t.spec.authoritative_pod)) [
    | inl hidden ↦ rw hidden
    | inr run ↦ rw run (
        rw steady (
          rw store_details-lookup (
            rw report_errors-details (
              if-or_else
                (same_workload k (kind t.name t.namespace)
                  && text_eq (item_key t.namespace t.name) j)
                t.spec (lookup j (details_of k s))))))
  ]

  visit_items-lookup :
      (k : KhWorkload) (items : List (Option KhState)) (s : State) (w : c.World) (j : Text)
      → lookup j (details_of k (visit_items c items s w).0)
        ≡ or_else (shown_items kind k items j) (lookup j (details_of k s))
  unfolding visit_items
  visit_items-lookup k [] s w j = refl
  visit_items-lookup k (item ∷ items) s w j =
      let (s', w') = visit_item c item s w in
      visit_items-lookup k items s' w' j
      ∙ rw (visit_item-lookup k item s w j) (or_else_assoc (shown_items kind k items j) _ _)

-- Where the lookups of khchecks and khjobs have steady answers, the summary holds under a key, in
-- the map of each workload, exactly the details of the last cached khstate of that key which has an
-- authoritative pod and is of that workload; under any other key it holds nothing.
pub current_status-lookup :
    (c : Cluster) (kind : (name namespace : Text) → Option KhWorkload)
    → ((n ns : Text) (w : c.World) → determine_kh_workload c n ns w ≡ (kind n ns, w))
    → (k : KhWorkload) (items : List (Option KhState)) (w : c.World) (j : Text)
    → lookup j (details_of k (current_status c (some items) w).0) ≡ shown_items kind k items j
unfolding current_status new_state lookup
current_status-lookup c kind steady kh_check items w j =
    visit_items-lookup c kind steady kh_check items new_state w j ∙ or_else-none _
current_status-lookup c kind steady kh_job items w j =
    visit_items-lookup c kind steady kh_job items new_state w j ∙ or_else-none _

-- Every map that the summary holds has one entry for each key.
pub store_details-IsMap :
    (k : KhWorkload) (o : Option KhWorkload) (key : Text) (d : WorkloadDetails) (s : State)
    → IsMap (details_of k s)
    → IsMap (details_of k (store_details o key d s))
unfolding store_details
store_details-IsMap k none key d s h = h
store_details-IsMap kh_check (some kh_check) key d s h = insert-IsMap key d s.check_details h
store_details-IsMap kh_check (some kh_job) key d s h = h
store_details-IsMap kh_job (some kh_check) key d s h = h
store_details-IsMap kh_job (some kh_job) key d s h = insert-IsMap key d s.job_details h

visit_item-IsMap :
    (c : Cluster) (k : KhWorkload) (item : Option KhState) (s : State) (w : c.World)
    → IsMap (details_of k s)
    → IsMap (details_of k (visit_item c item s w).0)
unfolding visit_item
visit_item-IsMap c k none s w h = h
visit_item-IsMap c k (some t) s w h = elim (Bool-cases (is_empty t.spec.authoritative_pod)) [
  | inl hidden ↦ rw hidden h
  | inr run ↦ rw run (
      store_details-IsMap k (determine_kh_workload c t.name t.namespace w).0 _ t.spec _
        (rw report_errors-details h))
]

visit_items-IsMap :
    (c : Cluster) (k : KhWorkload) (items : List (Option KhState)) (s : State) (w : c.World)
    → IsMap (details_of k s)
    → IsMap (details_of k (visit_items c items s w).0)
unfolding visit_items
visit_items-IsMap c k [] s w h = h
visit_items-IsMap c k (item ∷ items) s w h =
    let (s', w') = visit_item c item s w in
    visit_items-IsMap c k items s' w' (visit_item-IsMap c k item s w h)

-- Whatever the lookups of khchecks and khjobs answer, each key stands once in the map of the checks and
-- once in the map of the jobs.
pub current_status-IsMap :
    (c : Cluster) (k : KhWorkload) (o : Option (List (Option KhState))) (w : c.World)
    → IsMap (details_of k (current_status c o w).0)
unfolding current_status new_state
current_status-IsMap c kh_check none w = tt
current_status-IsMap c kh_job none w = tt
current_status-IsMap c kh_check (some items) w = visit_items-IsMap c kh_check items new_state w tt
current_status-IsMap c kh_job (some items) w = visit_items-IsMap c kh_job items new_state w tt
