-- ===== src/Daemonset/Input.antt =====
-- How the daemonset check reads tolerations and allowed taints (cmd/daemonset-check/input.go).
pub mod Written
use kuberhealthy.Prelude.{
  ℕ, Bool, true, false, Option, none, some, List, [], ◌∷◌, ◌++◌, Text, codes, Dict, insert,
  is_empty, split, if◌then◌else◌,
}
use kuberhealthy.Api.Results.{Err, Result, ok, err, panic, new_error}
use kuberhealthy.Daemonset.{Toleration}

-- `findValEffect`, on the parts of its text between colons
abbrev pub val_effect_of : (find : Text) → List Text → Result (Text × Text)
val_effect_of find (t_value ∷ t_effect ∷ parts) =
    if is_empty t_value
    then err (new_error (codes "Empty value after split on :"))
    else ok (t_value, t_effect)
val_effect_of find parts = ok (find, [])

unfoldable pub find_val_effect : (find : Text) → Result (Text × Text)
find_val_effect find =
    if is_empty find
    then err (new_error (codes "Empty string in findValEffect"))
    else val_effect_of find (split b':' find)

abbrev pub with_key : (key : Text) → Result (Text × Text) → Result Toleration
with_key key (err e) = err e
with_key key panic = panic
with_key key (ok (value, effect)) =
    ok (record { key = key; operator = codes "Equal"; value = value; effect = effect })

-- `createToleration`, on the parts between the equals signs
abbrev pub toleration_of_parts : (toleration : Text) → List Text → Result Toleration
toleration_of_parts toleration (key ∷ rest ∷ parts) =
    if is_empty key
    then err (new_error (codes "Empty key after split on ="))
    else with_key key (find_val_effect rest)
toleration_of_parts toleration parts =
    ok (record { key = toleration; operator = codes "Exists"; value = []; effect = [] })

unfoldable pub create_toleration : (toleration : Text) → Result Toleration
create_toleration toleration =
    if is_empty toleration
    then err (new_error (codes "Must pass toleration value to createToleration"))
    else toleration_of_parts toleration (split b'=' toleration)

abbrev pub effect_of : Result (Text × Text) → Result Text
effect_of (ok (value, effect)) = ok effect
effect_of (err e) = err e
effect_of panic = panic

abbrev pub put : Dict Text → (key : Text) → Result Text → Result (Dict Text)
put taint_map key (ok effect) = ok (insert key effect taint_map)
put taint_map key (err e) = err e
put taint_map key panic = panic

-- The taint without an equals sign: the second part is read whether or not it is there.
abbrev pub key_effect_of : Dict Text → List Text → Result (Dict Text)
key_effect_of taint_map [] = panic
key_effect_of taint_map (key ∷ []) =
    if is_empty key then err (new_error (codes "Empty key after split on :")) else panic
key_effect_of taint_map (key ∷ effect ∷ parts) =
    if is_empty key
    then err (new_error (codes "Empty key after split on :"))
    else ok (insert key effect taint_map)

abbrev pub taint_map_of_parts : Dict Text → (taint : Text) → List Text → Result (Dict Text)
taint_map_of_parts taint_map taint (key ∷ rest ∷ parts) =
    if is_empty key
    then err (new_error (codes "Empty key after split on ="))
    else put taint_map key (effect_of (find_val_effect rest))
taint_map_of_parts taint_map taint parts = key_effect_of taint_map (split b':' taint)

-- `createTaintMap`: the map after it, where it returns no error.
unfoldable pub create_taint_map : Dict Text → (taint : Text) → Result (Dict Text)
create_taint_map taint_map taint = taint_map_of_parts taint_map taint (split b'=' taint)

-- The loop over the parts of TOLERATIONS: what cannot be read is skipped.
abbrev pub add_read : Result Toleration → List Toleration → List Toleration
add_read (ok t) tolerations = tolerations ++ t ∷ []
add_read _ tolerations = tolerations

abbrev pub read_each : List Text → List Toleration → List Toleration
read_each [] tolerations = tolerations
read_each (s ∷ parts) tolerations = read_each parts (add_read (create_toleration s) tolerations)

abbrev pub several : List Text → Bool
several (p ∷ q ∷ parts) = true
several _ = false

-- The part of `parseInputValues` that reads TOLERATIONS. The text as a whole is read too, also where
-- it has several parts.
unfoldable pub parse_tolerations : (tolerations_env : Text) → List Toleration
parse_tolerations [] = []
parse_tolerations (c ∷ tolerations_env) =
    let parts = split b',' (c ∷ tolerations_env) in
    add_read (create_toleration (c ∷ tolerations_env))
      (if several parts then read_each parts [] else [])
