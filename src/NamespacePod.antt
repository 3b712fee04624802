-- ===== src/NamespacePod.antt =====
-- The namespace pod check, a checker pod of its own (cmd/namespace-pod-check/main.go). Logging is left
-- out.
pub mod Tested
use kuberhealthy.Prelude.{ℕ, ◌+◌, ◌==◌, Bool, List, [], ◌∷◌, Text}
use kuberhealthy.Api.Results.{Reply, reply, refuse, Call}

-- The calls for the test pod of a namespace.
pub record NamespacePodApi : Type 1 where
  pub World : Type 0
  pub list_namespaces : Call World (List Text)
  pub create_pod : (namespace : Text) → Call World (Unit {0})
  pub delete_pod : (namespace : Text) → Call World (Unit {0})

-- What a step adds to `failedPods`.
abbrev pub failures : {A : Type 0} → Reply A → ℕ
failures (reply u) = 0
failures (refuse e) = 1

-- The client's list is empty, and not nil, beside an error.
abbrev pub items : Reply (List Text) → List Text
items (reply names) = names
items (refuse e) = []

module _ (api : NamespacePodApi) where
  -- A round of the loop of `main`: a pod that is not created is not deleted.
  abbrev pub test_namespace : (namespace : Text) → api.World → ℕ × api.World
  test_namespace namespace w = elim (api.create_pod namespace w).0 [
    | refuse e ↦ (1, (api.create_pod namespace w).1)
    | reply u ↦
        let (r, w') = api.delete_pod namespace (api.create_pod namespace w).1 in (failures r, w')
  ]

  -- `failedPods` after the loop
  unfoldable pub failed_pods : (namespaces : List Text) → api.World → ℕ × api.World
  failed_pods [] w = (0, w)
  failed_pods (n ∷ namespaces) w =
      let (k, w₁) = test_namespace n w in
      let (rest, w₂) = failed_pods namespaces w₁ in (k + rest, w₂)

  -- Whether `main` reports success.
  unfoldable pub reports_tested : api.World → Bool × api.World
  reports_tested w =
      let (listed, w₁) = api.list_namespaces w in
      let (failed, w₂) = failed_pods (items listed) w₁ in (failed == 0, w₂)
