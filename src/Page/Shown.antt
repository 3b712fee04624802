-- ===== src/Page/Shown.antt =====
-- What the page shows, for every query.
use kuberhealthy.Prelude.{
  ◌≡◌, refl, sym, ap, ◌∙◌, inl, inr, false, Bool-cases, Option, none, some, List, [], ◌∷◌, Text,
  is_empty, Dict,
}
use kuberhealthy.Api.Types.{KhState}
use kuberhealthy.Api.Cluster.{Cluster}
use kuberhealthy.Health.{State, new_state}
use kuberhealthy.Status.{current_status, get_current_status_for_namespaces}
use kuberhealthy.Status.Summary.{current_status-errors, namespaces-errors}
use kuberhealthy.Master.{calculate_master}
use kuberhealthy.Page.{
  requested_namespaces, page, status_for, get_current_state, health_check_handler,
}

-- OK exactly if there are no errors.
abbrev pub IsHonest : State → Type 0
IsHonest s = s.ok ≡ is_empty s.errors

module _ (c : Cluster) (items : Option (List (Option KhState))) where
  current_status-IsHonest :
      (o : Option (List (Option KhState))) (w : c.World) → IsHonest (current_status c o w).0
  current_status-IsHonest none w = unfold current_status new_state in refl
  current_status-IsHonest (some l) w =
      let (errors, good) = current_status-errors c l w in good ∙ sym (ap is_empty errors)

  namespaces-IsHonest :
      (namespaces : List Text) (s : State)
      → is_empty namespaces ≡ false
      → IsHonest (get_current_status_for_namespaces namespaces s)
  namespaces-IsHonest namespaces s some_requested =
      let (errors, good) = namespaces-errors namespaces s some_requested in
      good ∙ sym (ap is_empty errors)

  module _ (state_metadata : Dict Text) where
    status_for-IsHonest :
        (namespaces : List Text) (w : c.World)
        → IsHonest (status_for c items state_metadata namespaces w).0
    unfolding status_for
    status_for-IsHonest namespaces w = elim (Bool-cases (is_empty namespaces)) [
      | inl all_of_them ↦ rw all_of_them (current_status-IsHonest items w)
      | inr requested ↦
          rw requested (namespaces-IsHonest namespaces (current_status c items w).0 requested)
    ]

    get_current_state-IsHonest :
        (namespaces : List Text) (w : c.World)
        → IsHonest (get_current_state c items state_metadata namespaces w).0
    unfolding get_current_state
    get_current_state-IsHonest namespaces w =
        status_for-IsHonest namespaces (calculate_master c w).1

-- For every query, and whatever the cache, the lookups and the choice of the master give, the status
-- page says OK exactly if it shows no errors.
pub health_check_handler-IsHonest :
    (c : Cluster) (items : Option (List (Option KhState))) (state_metadata : Dict Text)
    (body namespace_value : Text) (s : State) (w : c.World)
    → (health_check_handler c items state_metadata body namespace_value w).0 ≡ page s
    → IsHonest s
unfolding health_check_handler
health_check_handler-IsHonest c items state_metadata (x ∷ body) namespace_value s w h = cc
health_check_handler-IsHonest c items state_metadata [] namespace_value s w h =
    let t = (get_current_state c items state_metadata (requested_namespaces namespace_value) w).0 in
    let same : t ≡ s = cc in
    ap (λ (u : State). u.ok) (sym same)
    ∙ (get_current_state-IsHonest c items state_metadata (requested_namespaces namespace_value) w
        ∙ ap (λ (u : State). is_empty u.errors) same)
