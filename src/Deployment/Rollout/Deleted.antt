-- ===== src/Deployment/Rollout/Deleted.antt =====
-- When a deletion counts as done.
use kuberhealthy.Prelude.{
  ◌≡◌, refl, inl, inr, ℕ, zero, suc, ◌*◌, false, Bool-cases, none, some, List, any, Text, text_eq,
}
use kuberhealthy.Api.Results.{Reply-cases, reply}
use kuberhealthy.Store.{second}
use kuberhealthy.Deployment.Rollout.{
  ResourceApi, wait_until_deleted, delete_service_and_wait, delete_deployment_and_wait,
}

-- The world is the one after a listing without the name.
abbrev pub IsGone : (api : ResourceApi) → Text → api.World → Type 0
IsGone api name w =
    (u : api.World) × (names : List Text) × ((api.list_named name u).0 ≡ reply names)
    × (any (λ n. text_eq n name) names ≡ false)
    × (w ≡ (api.list_named name u).1)

module _ (api : ResourceApi) (name : Text) where
  wait_until_deleted-IsGone :
      (polls : ℕ) (timeout : Text) (w : api.World)
      → (wait_until_deleted api name polls timeout w).0 ≡ some none
      → IsGone api name (wait_until_deleted api name polls timeout w).1
  unfolding wait_until_deleted
  wait_until_deleted-IsGone zero timeout w = λ h. cc
  wait_until_deleted-IsGone (suc polls) timeout w =
      let u = api.sleep (5 * second) w in
      let listed = api.list_named name u in
      elim (Bool-cases (api.is_done w)) [
        | inl over ↦ rw (over, wait_until_deleted) (λ h. cc)
        | inr on ↦ elim (Reply-cases listed.0) [
          | inr (e, failed) ↦
              rw (on, failed, wait_until_deleted) (wait_until_deleted-IsGone polls timeout listed.1)
          | inl (names, got) ↦ elim (Bool-cases (any (λ n. text_eq n name) names)) [
            | inl there ↦
                rw (on, got, there, wait_until_deleted)
                  (wait_until_deleted-IsGone polls timeout (api.delete_named name listed.1).1)
            | inr absent ↦
                rw (on, got, absent, wait_until_deleted) (λ h. (u, names, got, absent, refl))
          ]
        ]
      ]

-- Deleting the deployment, and deleting the service, returns without an error only at a listing that
-- does not hold its name any more, which is the last call that it makes.
pub delete_and_wait-IsGone :
    (api : ResourceApi) (name : Text) (polls : ℕ) (w : api.World)
    → ((delete_deployment_and_wait api name polls w).0 ≡ some none
        → IsGone api name (delete_deployment_and_wait api name polls w).1)
      × ((delete_service_and_wait api name polls w).0 ≡ some none
          → IsGone api name (delete_service_and_wait api name polls w).1)
unfolding delete_deployment_and_wait delete_service_and_wait
delete_and_wait-IsGone api name polls w =
    let w' = (api.delete_named name w).1 in
    (wait_until_deleted-IsGone api name polls _ w', wait_until_deleted-IsGone api name polls _ w')
