-- ===== src/Deployment/Input.antt =====
-- How the deployment check reads tolerations, node selectors and variables for its containers
-- (cmd/deployment-check/input.go), and the daemonset check its node selectors
-- (cmd/daemonset-check/input.go).
pub mod Parsed
use kuberhealthy.Prelude.{
  ℕ, Option, none, some, List, [], ◌∷◌, ◌++◌, Text, codes, Dict, lookup, insert, split,
  if◌then◌else◌,
}
use kuberhealthy.Daemonset.{Toleration}

-- The operator is Equal, or Exists where no single equals sign stands in the text.
abbrev pub equal : (key value effect : Text) → Toleration
equal key value effect = record {
  key = key;
  operator = codes "Equal";
  value = value;
  effect = effect;
}

abbrev pub exists_ : (key : Text) → Toleration
exists_ key = record { key = key; operator = codes "Exists"; value = []; effect = [] }

abbrev pub with_effect : (key value : Text) → List Text → Toleration
with_effect key value (v ∷ effect ∷ []) = equal key v effect
with_effect key value parts = equal key value []

abbrev pub toleration_of_parts : List Text → Toleration
toleration_of_parts [] = exists_ []
toleration_of_parts (key ∷ value ∷ []) = with_effect key value (split b':' value)
toleration_of_parts (key ∷ parts) = exists_ key

abbrev pub tolerations_of : List Text → List Toleration
tolerations_of [] = []
tolerations_of (pair ∷ pairs) = toleration_of_parts (split b'=' pair) ∷ tolerations_of pairs

-- CHECK_DEPLOYMENT tolerations
unfoldable pub parse_deployment_tolerations : (tolerations_env : Text) → List Toleration
parse_deployment_tolerations [] = []
parse_deployment_tolerations (c ∷ tolerations_env) =
    tolerations_of (split b',' (c ∷ tolerations_env))

-- A key that is there keeps its value.
abbrev pub insert_new : (key value : Text) → Dict Text → Dict Text
insert_new key value m = elim (lookup key m) [ none ↦ insert key value m | some v ↦ m ]

abbrev pub add_selector : List Text → Dict Text → Dict Text
add_selector (key ∷ value ∷ []) m = insert_new key value m
add_selector parts m = m

abbrev pub add_selectors : List Text → Dict Text → Dict Text
add_selectors [] m = m
add_selectors (pair ∷ pairs) m = add_selectors pairs (add_selector (split b'=' pair) m)

-- The node selectors: a pair that cannot be read is skipped.
unfoldable pub parse_node_selectors : (selectors_env : Text) → Dict Text → Dict Text
parse_node_selectors [] m = m
parse_node_selectors (c ∷ selectors_env) m = add_selectors (split b',' (c ∷ selectors_env)) m

-- A variable: the part after the equals sign is read whether or not it is there, unless the key is
-- known. `none` is the panic.
abbrev pub add_variable : List Text → Dict Text → Option (Dict Text)
add_variable (key ∷ value ∷ parts) m = some (insert_new key value m)
add_variable (key ∷ []) m = elim (lookup key m) [ none ↦ none | some v ↦ some m ]
add_variable [] m = none

abbrev pub add_variables : List Text → Option (Dict Text) → Option (Dict Text)
add_variables pairs none = none
add_variables [] (some m) = some m
add_variables (pair ∷ pairs) (some m) = add_variables pairs (add_variable (split b'=' pair) m)

-- ADDITIONAL_ENV_VARS
unfoldable pub parse_additional_env_vars : (variables_env : Text) → Dict Text → Option (Dict Text)
parse_additional_env_vars [] m = some m
parse_additional_env_vars (c ∷ variables_env) m =
    add_variables (split b',' (c ∷ variables_env)) (some m)
