-- ===== src/Daemonset.antt =====
-- The daemonset check, a checker pod of its own (cmd/daemonset-check): its taints and tolerations, and
-- which nodes lack a pod of its daemonset. Logging is left out.
pub mod Cleanup
pub mod Input
pub mod Steps
pub mod Missing
pub mod Tolerated
use kuberhealthy.Prelude.{
  ℕ, Bool, true, false, not, ◌&&◌, ◌||◌, Option, none, some, List, [], ◌∷◌, ◌++◌, any, Text,
  text_eq, codes, Dict, lookup, insert, if◌then◌else◌,
}

pub record Taint : Type 0 where
  pub key : Text
  pub value : Text
  pub effect : Text

-- The operator is empty, `Equal` or `Exists`.
pub record Toleration : Type 0 where
  pub key : Text
  pub operator : Text
  pub value : Text
  pub effect : Text

pub record Address : Type 0 where
  pub type : Text
  pub address : Text

pub record Node : Type 0 where
  pub name : Text
  pub labels : Dict Text
  pub taints : List Taint
  pub addresses : List Address

-- A pod of the daemonset: its phase and the address of its host.
pub record DsPod : Type 0 where
  pub phase : Text
  pub host_ip : Text
  pub node_name : Text

-- The inner loop of `taintsAreTolerated`.
abbrev pub matches : Taint → Toleration → Bool
matches taint toleration = text_eq taint.key toleration.key && text_eq taint.value toleration.value

-- `taintsAreTolerated`
unfoldable pub taints_are_tolerated : List Taint → List Toleration → Bool
taints_are_tolerated [] tolerations = true
taints_are_tolerated (taint ∷ taints) tolerations =
    let rest = taints_are_tolerated taints tolerations in
    if any (matches taint) tolerations then rest else false

abbrev pub is_label : Option Text → Text → Bool
is_label none selector_value = false
is_label (some label_value) selector_value = text_eq label_value selector_value

-- `nodeLabelsMatch`
unfoldable pub node_labels_match : (labels node_selectors : Dict Text) → Bool
node_labels_match labels [] = true
node_labels_match labels ((k, v) ∷ node_selectors) =
    let rest = node_labels_match labels node_selectors in
    if is_label (lookup k labels) v then rest else false

-- The taint is one that `ALLOWED_TAINTS` lists.
abbrev pub is_effect : Option Text → Text → Bool
is_effect none effect = false
is_effect (some val) effect = text_eq val effect

abbrev pub is_allowed : (allowed_taints : Dict Text) → Taint → Bool
is_allowed allowed_taints t = is_effect (lookup t.key allowed_taints) t.effect

abbrev pub toleration_of : Taint → Toleration
toleration_of t = record { key = t.key; operator = []; value = t.value; effect = t.effect }

-- The inner loop of `findAllUniqueTolerations`; `keys` are the values seen so far.
unfoldable pub add_tolerations :
    (allowed_taints : Dict Text)
    → List Taint
    → (keys : Dict Bool) (unique_tolerations : List Toleration) → Dict Bool × List Toleration
add_tolerations allowed_taints [] keys unique_tolerations = (keys, unique_tolerations)
add_tolerations allowed_taints (t ∷ taints) keys unique_tolerations =
    let seen = add_tolerations allowed_taints taints keys unique_tolerations in
    let added =
      add_tolerations allowed_taints taints (insert t.value true keys)
        (unique_tolerations ++ toleration_of t ∷ []) in
    if is_allowed allowed_taints t
    then seen
    else elim (lookup t.value keys) [ none ↦ added | some b ↦ seen ]

unfoldable pub add_nodes :
    (allowed_taints : Dict Text)
    → List Node
    → (keys : Dict Bool) (unique_tolerations : List Toleration) → Dict Bool × List Toleration
add_nodes allowed_taints [] keys unique_tolerations = (keys, unique_tolerations)
add_nodes allowed_taints (n ∷ nodes) keys unique_tolerations =
    let (keys', found) = add_tolerations allowed_taints n.taints keys unique_tolerations in
    add_nodes allowed_taints nodes keys' found

-- `findAllUniqueTolerations`, for the nodes of its listing
unfoldable pub find_all_unique_tolerations :
    (allowed_taints : Dict Text) → List Node → List Toleration
find_all_unique_tolerations allowed_taints nodes = (add_nodes allowed_taints nodes [] []).1

abbrev pub is_host : DsPod → Address → Bool
is_host pod a = text_eq a.type (codes "InternalIP") && text_eq a.address pod.host_ip

abbrev pub is_running : DsPod → Bool
is_running pod = text_eq pod.phase (codes "Running")

module _ (tolerations : List Toleration) where
  abbrev pub is_tolerated : Node → Bool
  is_tolerated n = taints_are_tolerated n.taints tolerations

  -- The loop over the addresses of a node, up to the first that makes it count.
  unfoldable pub mark_node : DsPod → Node → List Address → Dict Bool → Dict Bool
  mark_node pod node [] m = m
  mark_node pod node (a ∷ addresses) m =
      let rest = mark_node pod node addresses m in
      if is_host pod a then if is_tolerated node then insert node.name true m else rest else rest

  unfoldable pub mark_nodes : DsPod → List Node → Dict Bool → Dict Bool
  mark_nodes pod [] m = m
  mark_nodes pod (node ∷ nodes) m = mark_nodes pod nodes (mark_node pod node node.addresses m)

  unfoldable pub mark_pods : List DsPod → List Node → Dict Bool → Dict Bool
  mark_pods [] nodes m = m
  mark_pods (pod ∷ pods) nodes m =
      mark_pods pods nodes (if is_running pod then mark_nodes pod nodes m else m)

abbrev pub without_pod : Dict Bool → List Text
without_pod [] = []
without_pod ((node_name, has_ds) ∷ m) =
    let rest = without_pod m in if has_ds then rest else node_name ∷ rest

module _ (tolerations : List Toleration) (ds_node_selectors : Dict Text) where
  abbrev pub is_eligible : Node → Bool
  is_eligible n = is_tolerated tolerations n && node_labels_match n.labels ds_node_selectors

  -- `nodeStatuses`, before the pods are looked at
  unfoldable pub node_statuses : List Node → Dict Bool → Dict Bool
  node_statuses [] m = m
  node_statuses (n ∷ nodes) m =
      node_statuses nodes (if is_eligible n then insert n.name false m else m)

  -- `getNodesMissingDSPod`, for the nodes and the pods of its listings
  unfoldable pub get_nodes_missing_ds_pod : List Node → List DsPod → List Text
  get_nodes_missing_ds_pod nodes pods =
      without_pod (mark_pods tolerations pods nodes (node_statuses nodes []))
