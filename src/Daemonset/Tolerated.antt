-- ===== src/Daemonset/Tolerated.antt =====
-- Which taints the default tolerations cover.
use kuberhealthy.Prelude.{
  All, ◌≡◌, refl, sym, ap, ◌∙◌, ◌≢◌, inl, inr, Bool, true, false, Bool-cases, not, ◌&&◌, Option,
  Option-cases, none, some, List, [], ◌∷◌, ◌++◌, any, any-append, Text, text_eq, text_eq_iff, Dict,
  lookup, insert, lookup-insert, arith,
}
use kuberhealthy.Daemonset.{
  Taint, Toleration, Node, matches, is_allowed, toleration_of, taints_are_tolerated,
  add_tolerations, add_nodes, find_all_unique_tolerations, is_eligible, DsPod,
  get_nodes_missing_ds_pod,
}
use kuberhealthy.Daemonset.Missing.{get_nodes_missing_ds_pod-missing}

abbrev pub has_value : Text → List Toleration → Bool
has_value v found = any (λ (t : Toleration). text_eq t.value v) found

abbrev is_some : Option Bool → Bool
is_some none = false
is_some (some b) = true

-- No two tolerations have the same value.
abbrev pub distinct : List Toleration → Bool
distinct [] = true
distinct (t ∷ found) = not (has_value t.value found) && distinct found

distinct-append :
    (found : List Toleration) (t : Toleration)
    → distinct found ≡ true
    → has_value t.value found ≡ false
    → distinct (found ++ t ∷ []) ≡ true
distinct-append [] t h fresh = refl
distinct-append (u ∷ found) t h fresh = ground (
  arith,
  h,
  fresh,
  distinct-append found t,
  any-append (λ (x : Toleration). text_eq x.value u.value) found (t ∷ []),
  text_eq_iff u.value t.value,
  text_eq_iff t.value u.value,
)

-- The keys of the map are the values of the tolerations, which are distinct.
record InStep (keys : Dict Bool) (found : List Toleration) : Type 0 where
  pub same : (v : Text) → is_some (lookup v keys) ≡ has_value v found
  pub distinct_values : distinct found ≡ true

InStep-add :
    (t : Taint) (keys : Dict Bool) (found : List Toleration)
    → lookup t.value keys ≡ none
    → InStep keys found
    → InStep (insert t.value true keys) (found ++ toleration_of t ∷ [])
InStep-add t keys found fresh h = record {
  same = λ v.
      rw
        (
          lookup-insert,
          any-append (λ (x : Toleration). text_eq x.value v) found (toleration_of t ∷ []),
        )
        (ground (arith, h.same v));
  distinct_values =
      distinct-append found (toleration_of t) h.distinct_values
        (sym (h.same t.value) ∙ ap is_some fresh);
}

module _ (allowed_taints : Dict Text) where
  add_tolerations-InStep :
      (taints : List Taint) (keys : Dict Bool) (found : List Toleration)
      → InStep keys found
      → let o = add_tolerations allowed_taints taints keys found in InStep o.0 o.1
  unfolding add_tolerations
  add_tolerations-InStep [] keys found h = h
  add_tolerations-InStep (t ∷ taints) keys found h =
      let skipped = add_tolerations-InStep taints keys found h in
      elim (Bool-cases (is_allowed allowed_taints t)) [
        | inl allowed ↦ rw allowed skipped
        | inr other ↦ elim (Option-cases (lookup t.value keys)) [
          | inl fresh ↦
              rw (other, fresh)
                (add_tolerations-InStep taints (insert t.value true keys)
                  (found ++ toleration_of t ∷ []) (InStep-add t keys found fresh h))
          | inr (b, seen) ↦ rw (other, seen) skipped
        ]
      ]

  add_nodes-InStep :
      (nodes : List Node) (keys : Dict Bool) (found : List Toleration)
      → InStep keys found
      → let o = add_nodes allowed_taints nodes keys found in InStep o.0 o.1
  unfolding add_nodes
  add_nodes-InStep [] keys found h = h
  add_nodes-InStep (n ∷ nodes) keys found h =
      add_nodes-InStep nodes _ _ (add_tolerations-InStep n.taints keys found h)

has_value-matches :
    (b : Taint) (found : List Toleration)
    → any (matches b) found ≡ true
    → has_value b.value found ≡ true
has_value-matches b [] h = h
has_value-matches b (t ∷ found) h =
    ground (
      arith,
      h,
      has_value-matches b found,
      text_eq_iff b.value t.value,
      text_eq_iff t.value b.value,
    )

same_key :
    (a b : Taint) (found : List Toleration)
    → distinct found ≡ true
    → a.value ≡ b.value
    → any (matches a) found ≡ true
    → any (matches b) found ≡ true
    → a.key ≡ b.key
same_key a b [] d e h k = cc
same_key a b (t ∷ found) d e h k = ground (
  arith,
  d,
  e,
  h,
  k,
  same_key a b found,
  has_value-matches a found,
  has_value-matches b found,
  text_eq_iff a.value t.value,
  text_eq_iff b.value t.value,
  text_eq_iff a.key t.key,
  text_eq_iff b.key t.key,
)

-- The taint is one of the taints.
pub data Among (a : Taint) : List Taint → Type 0 where
  first_taint : {taints : List Taint} → Among a (a ∷ taints)
  later_taint : {taints : List Taint} (t : Taint) → Among a taints → Among a (t ∷ taints)

-- Two of the taints have one value under different keys.
pub record HasTwins (taints : List Taint) : Type 0 where
  pub one : Taint
  pub other : Taint
  pub one_listed : Among one taints
  pub other_listed : Among other taints
  pub same_value : one.value ≡ other.value
  pub other_key : one.key ≢ other.key

tolerated-matches :
    {a : Taint} {taints : List Taint} (found : List Toleration)
    → Among a taints
    → taints_are_tolerated taints found ≡ true
    → any (matches a) found ≡ true
unfolding taints_are_tolerated
tolerated-matches found first_taint h = ground (arith, h)
tolerated-matches found (later_taint t listed) h =
    tolerated-matches found listed (ground (arith, h))

twins_untolerated :
    (allowed_taints : Dict Text) (nodes : List Node) (taints : List Taint)
    → HasTwins taints
    → taints_are_tolerated taints (find_all_unique_tolerations allowed_taints nodes) ≡ false
unfolding find_all_unique_tolerations
twins_untolerated allowed_taints nodes taints twins =
    let found = (add_nodes allowed_taints nodes [] []).1 in
    let h =
      add_nodes-InStep allowed_taints nodes [] []
        (record { same = λ v. unfold lookup in refl; distinct_values = refl }) in
    elim (Bool-cases (taints_are_tolerated taints found)) [
      | inr untolerated ↦ untolerated
      | inl tolerated ↦ absurd (
          twins.other_key (
            same_key twins.one twins.other found h.distinct_values twins.same_value
              (tolerated-matches found twins.one_listed tolerated)
              (tolerated-matches found twins.other_listed tolerated)))
    ]

none_eligible :
    (tolerations : List Toleration) (sel : Dict Text) (name : Text) (nodes : List Node)
    → All
        (λ (n : Node).
          text_eq n.name name ≡ true → taints_are_tolerated n.taints tolerations ≡ false)
        nodes
    → any (λ (n : Node). text_eq n.name name && is_eligible tolerations sel n) nodes ≡ false
none_eligible tolerations sel name [] h = refl
none_eligible tolerations sel name (n ∷ nodes) (h, hs) =
    ground (arith, h, none_eligible tolerations sel name nodes hs)

twins_everywhere :
    (allowed_taints : Dict Text) (all_nodes : List Node) (name : Text) (nodes : List Node)
    → All (λ (n : Node). text_eq n.name name ≡ true → HasTwins n.taints) nodes
    → All
        (λ (n : Node).
          text_eq n.name name ≡ true
          → taints_are_tolerated n.taints (find_all_unique_tolerations allowed_taints all_nodes)
            ≡ false)
        nodes
twins_everywhere allowed_taints all_nodes name [] h = tt
twins_everywhere allowed_taints all_nodes name (n ∷ nodes) (h, hs) = (
  λ same. twins_untolerated allowed_taints all_nodes n.taints (h same),
  twins_everywhere allowed_taints all_nodes name nodes hs,
)

-- If all listed nodes of a name have among their taints two of one value under different keys, then
-- with the tolerations that findAllUniqueTolerations finds on any nodes, the name is never reported as
-- missing a pod of the daemonset, whatever the pods: it makes one toleration for each value and forgets
-- the other keys.
pub find_all_unique_tolerations-one_key :
    (allowed_taints : Dict Text) (tolerated_nodes nodes : List Node) (sel : Dict Text)
    (pods : List DsPod) (name : Text)
    → All (λ (n : Node). text_eq n.name name ≡ true → HasTwins n.taints) nodes
    → any (text_eq name) (
        get_nodes_missing_ds_pod
          (find_all_unique_tolerations allowed_taints tolerated_nodes)
          sel
          nodes
          pods)
      ≡ false
find_all_unique_tolerations-one_key allowed_taints tolerated_nodes nodes sel pods name twins =
    let tolerations = find_all_unique_tolerations allowed_taints tolerated_nodes in
    get_nodes_missing_ds_pod-missing tolerations sel nodes pods name
    ∙ ground (
      arith,
      none_eligible tolerations sel name nodes
          (twins_everywhere allowed_taints tolerated_nodes name nodes twins),
    )
