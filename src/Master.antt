-- ===== src/Master.antt =====
-- Which replica is the master: pkg/masterCalculation/masterCalculation.go, and the monitor of
-- cmd/kuberhealthy/kuberhealthy.go that follows it (`masterStatusWatcher`, `masterMonitor`).
pub mod Order
pub mod Choice
pub mod Names
pub mod Monitor
use kuberhealthy.Prelude.{
  ℕ, Bool, true, false, ◌&&◌, ◌||◌, Option, none, some, List, [], ◌∷◌, map, Text, codes, text_eq,
  to_lower, is_empty, ltb, ◌==◌, if◌then◌else◌,
}
use kuberhealthy.Api.Results.{
  Err, Result, ok, err, panic, new_error, Action, call, throw, pure, ◌>>=◌,
}
use kuberhealthy.Api.Types.{Pod}
use kuberhealthy.Api.Cluster.{Cluster}

-- `a <= b` on strings.
unfoldable pub text_leb : Text → Text → Bool
text_leb [] t = true
text_leb (c ∷ s) [] = false
text_leb (c ∷ s) (d ∷ t) = ltb c d || (c == d && text_leb s t)

-- `sort.Strings`
unfoldable pub insert_text : Text → List Text → List Text
insert_text x [] = x ∷ []
insert_text x (y ∷ ys) = if text_leb x y then x ∷ y ∷ ys else y ∷ insert_text x ys

unfoldable pub sort_strings : List Text → List Text
unfolding insert_text
sort_strings [] = []
sort_strings (x ∷ xs) = insert_text x (sort_strings xs)

abbrev pub head? : List Text → Option Text
head? [] = none
head? (x ∷ xs) = some x

-- The first of the pod names in alphabetical order; there is none in an empty list.
unfoldable pub choose_master : List Text → Option Text
unfolding sort_strings
choose_master podlist = head? (sort_strings podlist)

-- `getEnvVar`, with the variable's content given: an error comes back beside the content.
unfoldable pub get_env_var : (name content : Text) → Text × Option Err
get_env_var name content =
    if is_empty content
    then (content, some (new_error (codes "Could not retrieve environment variable")))
    else (content, none)

module _ (c : Cluster) where
  abbrev pub found_master : Option Text → Action c.World Text
  found_master none = throw (new_error (codes "Failed to retrieve list of Kuberhealthy pods"))
  found_master (some master) = pure master

  unfoldable pub calculate_master : Action c.World Text
  calculate_master = do
    pods ← call c.list_kuberhealthy_pods
    found_master (choose_master (map (λ (p : Pod). p.name) pods))

  -- `my_pod` is what POD_NAME holds.
  abbrev compare_master : (my_pod : Text) → Result Text × c.World → (Bool × Option Err) × c.World
  compare_master my_pod (ok master, w) =
      let (name, e) = get_env_var (codes "POD_NAME") my_pod in
      ((text_eq (to_lower name) (to_lower master), e), w)
  compare_master my_pod (err e, w) = ((false, some e), w)
  compare_master my_pod (panic, w) = ((false, none), w)

  -- `IAmMaster`, with the debugging flag `enableForceMaster`.
  unfoldable pub i_am_master : Bool → Text → c.World → (Bool × Option Err) × c.World
  unfolding calculate_master get_env_var
  i_am_master enable_force_master my_pod w =
      if enable_force_master then ((true, none), w) else compare_master my_pod (calculate_master w)
