-- ===== src/Daemonset/Missing.antt =====
-- Which nodes count as lacking a pod of the daemonset.
use kuberhealthy.Prelude.{
  ◌≡◌, refl, ap, ◌∙◌, inl, inr, Bool, true, false, Bool-cases, not, ◌&&◌, Option, none, some, List,
  [], ◌∷◌, any, Text, text_eq, text_eq_iff, eq_of_text_eq, Dict, lookup, insert, lookup-insert,
  IsMap, insert-IsMap, if◌then◌else◌, arith,
}
use kuberhealthy.Daemonset.{
  Toleration, Node, Address, DsPod, is_eligible, node_statuses, is_host, is_running, is_tolerated,
  mark_node, mark_nodes, mark_pods, without_pod, get_nodes_missing_ds_pod,
}

abbrev is_false : Option Bool → Bool
is_false (some false) = true
is_false _ = false

module _ (tolerations : List Toleration) (name : Text) where
  -- A node with the name, whose taints are tolerated, has an address on which the pod runs.
  abbrev pub is_on : DsPod → Node → Bool
  is_on pod n = text_eq n.name name && (is_tolerated tolerations n && any (is_host pod) n.addresses)

  abbrev pub hosts : List Node → DsPod → Bool
  hosts nodes pod = is_running pod && any (is_on pod) nodes

  lookup-node_statuses :
      (ds_node_selectors : Dict Text) (nodes : List Node) (m : Dict Bool)
      → lookup name (node_statuses tolerations ds_node_selectors nodes m) ≡ (
          if any
            (λ (n : Node). text_eq n.name name && is_eligible tolerations ds_node_selectors n)
            nodes
          then some false
          else lookup name m)
  unfolding node_statuses
  lookup-node_statuses sel [] m = refl
  lookup-node_statuses sel (n ∷ nodes) m = ground (
    arith,
    lookup-node_statuses sel nodes m,
    lookup-node_statuses sel nodes (insert n.name false m),
    lookup-insert n.name name false m,
  )

  lookup-mark_node :
      (pod : DsPod) (node : Node) (addresses : List Address) (m : Dict Bool)
      → lookup name (mark_node tolerations pod node addresses m) ≡ (
          if text_eq node.name name
            && (is_tolerated tolerations node && any (is_host pod) addresses)
          then some true
          else lookup name m)
  unfolding mark_node
  lookup-mark_node pod node [] m = ground arith
  lookup-mark_node pod node (a ∷ addresses) m =
      ground (arith, lookup-mark_node pod node addresses m, lookup-insert node.name name true m)

  lookup-mark_nodes :
      (pod : DsPod) (nodes : List Node) (m : Dict Bool)
      → lookup name (mark_nodes tolerations pod nodes m)
        ≡ (if any (is_on pod) nodes then some true else lookup name m)
  unfolding mark_nodes
  lookup-mark_nodes pod [] m = refl
  lookup-mark_nodes pod (node ∷ nodes) m = ground (
    arith,
    lookup-mark_nodes pod nodes (mark_node tolerations pod node node.addresses m),
    lookup-mark_node pod node node.addresses m,
  )

  lookup-mark_pods :
      (pods : List DsPod) (nodes : List Node) (m : Dict Bool)
      → lookup name (mark_pods tolerations pods nodes m)
        ≡ (if any (hosts nodes) pods then some true else lookup name m)
  unfolding mark_pods
  lookup-mark_pods [] nodes m = refl
  lookup-mark_pods (pod ∷ pods) nodes m = ground (
    arith,
    lookup-mark_pods pods nodes m,
    lookup-mark_pods pods nodes (mark_nodes tolerations pod nodes m),
    lookup-mark_nodes pod nodes m,
  )

  any-without_pod :
      (m : Dict Bool) → IsMap m → any (text_eq name) (without_pod m) ≡ is_false (lookup name m)
  unfolding lookup
  any-without_pod [] h = refl
  any-without_pod ((j, b) ∷ m) (fresh, h) = elim (Bool-cases (text_eq j name)) [
    | inl same ↦
        let missing : lookup name m ≡ none = rw (← eq_of_text_eq j name same) fresh in
        let unlisted : any (text_eq name) (without_pod m) ≡ false =
          any-without_pod m h ∙ ap is_false missing in
        ground (arith, same, unlisted, text_eq_iff name j, text_eq_iff j name)
    | inr other ↦ ground (arith, other, any-without_pod m h, text_eq_iff name j, text_eq_iff j name)
  ]

node_statuses-IsMap :
    (tolerations : List Toleration) (sel : Dict Text) (nodes : List Node) (m : Dict Bool)
    → IsMap m
    → IsMap (node_statuses tolerations sel nodes m)
unfolding node_statuses
node_statuses-IsMap tolerations sel [] m h = h
node_statuses-IsMap tolerations sel (n ∷ nodes) m h =
    node_statuses-IsMap tolerations sel nodes _ (elim (Bool-cases (is_eligible tolerations sel n)) [
      | inl hit ↦ rw hit (insert-IsMap n.name false m h)
      | inr miss ↦ rw miss h
    ])

module _ (tolerations : List Toleration) where
  mark_node-IsMap :
      (pod : DsPod) (node : Node) (addresses : List Address) (m : Dict Bool)
      → IsMap m
      → IsMap (mark_node tolerations pod node addresses m)
  unfolding mark_node
  mark_node-IsMap pod node [] m h = h
  mark_node-IsMap pod node (a ∷ addresses) m h =
      let rest = mark_node-IsMap pod node addresses m h in
      elim (Bool-cases (is_host pod a)) [
        | inr miss ↦ rw miss rest
        | inl hit ↦ elim (Bool-cases (is_tolerated tolerations node)) [
          | inl fine ↦ rw (hit, fine) (insert-IsMap node.name true m h)
          | inr tainted ↦ rw (hit, tainted) rest
        ]
      ]

  mark_nodes-IsMap :
      (pod : DsPod) (nodes : List Node) (m : Dict Bool)
      → IsMap m
      → IsMap (mark_nodes tolerations pod nodes m)
  unfolding mark_nodes
  mark_nodes-IsMap pod [] m h = h
  mark_nodes-IsMap pod (node ∷ nodes) m h =
      mark_nodes-IsMap pod nodes _ (mark_node-IsMap pod node node.addresses m h)

  mark_pods-IsMap :
      (pods : List DsPod) (nodes : List Node) (m : Dict Bool)
      → IsMap m
      → IsMap (mark_pods tolerations pods nodes m)
  unfolding mark_pods
  mark_pods-IsMap [] nodes m h = h
  mark_pods-IsMap (pod ∷ pods) nodes m h =
      mark_pods-IsMap pods nodes _ (elim (Bool-cases (is_running pod)) [
        | inl hit ↦ rw hit (mark_nodes-IsMap pod nodes m h)
        | inr miss ↦ rw miss h
      ])

-- A node name counts as missing a pod of the daemonset exactly if some node of that name tolerates
-- and matches the selectors, and no running pod is on an internal address of a node of that name whose
-- taints are tolerated.
pub get_nodes_missing_ds_pod-missing :
    (tolerations : List Toleration) (sel : Dict Text) (nodes : List Node) (pods : List DsPod)
    (name : Text)
    → any (text_eq name) (get_nodes_missing_ds_pod tolerations sel nodes pods) ≡ (
        any (λ (n : Node). text_eq n.name name && is_eligible tolerations sel n) nodes
        && not (any (hosts tolerations name nodes) pods))
unfolding get_nodes_missing_ds_pod lookup
get_nodes_missing_ds_pod-missing tolerations sel nodes pods name =
    let m = node_statuses tolerations sel nodes [] in
    let last = mark_pods tolerations pods nodes m in
    any-without_pod tolerations name last
      (mark_pods-IsMap tolerations pods nodes m (node_statuses-IsMap tolerations sel nodes [] tt))
    ∙ (ap is_false (lookup-mark_pods tolerations name pods nodes m)
        ∙ ground (arith, lookup-node_statuses tolerations name sel nodes []))
