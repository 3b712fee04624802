-- ===== src/NamespacePod/Tested.antt =====
-- When the namespace pod check succeeds.
use mathlib.Core.Path.{subst}
use kuberhealthy.Prelude.{◌≡◌, refl, true, List, [], ◌∷◌, Text, arith, sym, ap, ◌∙◌, inl, inr}
use kuberhealthy.Api.Results.{Reply, reply, Reply-cases}
use kuberhealthy.NamespacePod.{
  NamespacePodApi, failures, items, test_namespace, failed_pods, reports_tested,
}

module _ (api : NamespacePodApi) where
  -- From the world, the test pod was created and deleted in each of the namespaces, one after the other.
  pub data IsTested : List Text → api.World → Type 0 where
    nothing_left : (w : api.World) → IsTested [] w
    tested :
        (n : Text) (namespaces : List Text) (w : api.World)
        → (api.create_pod n w).0 ≡ reply tt
        → (api.delete_pod n (api.create_pod n w).1).0 ≡ reply tt
        → IsTested namespaces (api.delete_pod n (api.create_pod n w).1).1
        → IsTested (n ∷ namespaces) w

  test_namespace-failures :
      (n : Text) (w : api.World)
      → (test_namespace api n w).0 ≡ 0
      → ((api.create_pod n w).0 ≡ reply tt)
        × ((api.delete_pod n (api.create_pod n w).1).0 ≡ reply tt)
        × ((test_namespace api n w).1 ≡ (api.delete_pod n (api.create_pod n w).1).1)
  test_namespace-failures n w = elim (Reply-cases (api.create_pod n w).0) [
    | inr (e, refused) ↦ rw (refused, test_namespace) (λ k. absurd (omega (arith, k)))
    | inl (u, created) ↦
        rw (created, test_namespace)
          (λ k. elim (Reply-cases (api.delete_pod n (api.create_pod n w).1).0) [
            | inr (e, kept) ↦ absurd (omega (arith, sym (ap failures kept) ∙ k))
            | inl (v, deleted) ↦ (refl, deleted, refl)
          ])
  ]

  failed_pods-IsTested :
      (namespaces : List Text) (w : api.World)
      → (failed_pods api namespaces w).0 ≡ 0
      → IsTested namespaces w
  unfolding failed_pods
  failed_pods-IsTested [] w h = nothing_left w
  failed_pods-IsTested (n ∷ namespaces) w h =
      let (created, deleted, same) = test_namespace-failures n w (omega (arith, h)) in
      tested n namespaces w created deleted (
        subst (IsTested namespaces) same
          (failed_pods-IsTested namespaces (test_namespace api n w).1 (omega (arith, h))))

  -- The namespace pod check reports success, where the listing of the namespaces is answered, only if a
  -- test pod was created and then deleted in every namespace.
  pub reports_tested-IsTested :
      (namespaces : List Text) (w : api.World)
      → (api.list_namespaces w).0 ≡ reply namespaces
      → (reports_tested api w).0 ≡ true
      → IsTested namespaces (api.list_namespaces w).1
  unfolding reports_tested
  reports_tested-IsTested namespaces w listed success =
      failed_pods-IsTested namespaces (api.list_namespaces w).1 (
        subst
          (λ (r : Reply (List Text)). (failed_pods api (items r) (api.list_namespaces w).1).0 ≡ 0)
          listed (ground (arith, success)))
