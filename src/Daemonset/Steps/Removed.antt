-- ===== src/Daemonset/Steps/Removed.antt =====
-- When the daemonset counts as removed.
use kuberhealthy.Prelude.{◌≡◌, refl, inl, inr, ℕ, zero, suc, none, some, [], ◌∷◌, Text, codes}
use kuberhealthy.Api.Results.{Reply-cases, reply}
use kuberhealthy.Store.{second}
use kuberhealthy.Daemonset.Steps.{
  DsApi, Received, done, deadline, interrupted, Returned, go_on, wrapped, reissue,
  wait_for_pod_removal, ask_removal, await_ds_removal, await_pod_removal, remove,
}

module _ (api : DsApi) (name : Text) where
  -- If it returned without an error, the last listing of the daemonset's pods was empty.
  abbrev pub Cleared : Returned × api.World → Type 0
  Cleared o =
      o.0 ≡ some none
      → (u : api.World) × ((api.list_pods u).0 ≡ reply [])
        × (o.1 ≡ (reissue api name (api.has_ticked (api.list_pods u).1)).1)

  go_on-Cleared :
      (prefix : Text) (o : Returned × api.World) (next : api.World → Returned × api.World)
      → ((w : api.World) → Cleared (next w))
      → Cleared (go_on api prefix o next)
  go_on-Cleared prefix (none, w) next h = λ k. cc
  go_on-Cleared prefix (some none, w) next h = h w
  go_on-Cleared prefix (some (some e), w) next h = λ k. cc

  wrapped-Cleared :
      (prefix : Text) (o : Returned × api.World) → Cleared o → Cleared (wrapped api prefix o)
  wrapped-Cleared prefix (none, w) h = λ k. cc
  wrapped-Cleared prefix (some none, w) h = h
  wrapped-Cleared prefix (some (some e), w) h = λ k. cc

  wait_for_pod_removal-Cleared :
      (polls : ℕ) (w : api.World) → Cleared (wait_for_pod_removal api polls name w)
  unfolding wait_for_pod_removal
  wait_for_pod_removal-Cleared zero w = λ k. cc
  wait_for_pod_removal-Cleared (suc polls) w = elim (Reply-cases (api.list_pods w).0) [
    | inr (e, failed) ↦ rw (failed, wait_for_pod_removal) (λ k. cc)
    | inl ([], clear) ↦ rw (clear, wait_for_pod_removal) (λ k. (w, clear, refl))
    | inl (p ∷ pods, listed) ↦
        rw (listed, wait_for_pod_removal)
          (go_on-Cleared [] (reissue api name (api.has_ticked (api.list_pods w).1))
            (λ u. wait_for_pod_removal api polls name (api.sleep second u))
            (λ u. wait_for_pod_removal-Cleared polls (api.sleep second u)))
  ]

  await_pod_removal-Cleared :
      (polls : ℕ) (r : Received) (w : api.World) → Cleared (await_pod_removal api polls name r w)
  await_pod_removal-Cleared polls done w =
      wrapped-Cleared (codes "error waiting for daemonset pods removal: ")
        (wait_for_pod_removal api polls name w) (wait_for_pod_removal-Cleared polls w)
  await_pod_removal-Cleared polls deadline w = λ k. cc
  await_pod_removal-Cleared polls interrupted w = λ k. cc

-- Removing the daemonset succeeds only at a listing of its pods that came back empty, whatever its
-- selects receive first; nothing but the receive from the ticker, and the deletion of pods if it has
-- ticked, comes after that listing.
pub remove-Cleared :
    (api : DsApi) (polls pages : ℕ) (name : Text) (asked ds_gone pods_gone : Received)
    (w : api.World)
    → (remove api polls pages name asked ds_gone pods_gone w).0 ≡ some none
    → (u : api.World) × ((api.list_pods u).0 ≡ reply [])
      × ((remove api polls pages name asked ds_gone pods_gone w).1
          ≡ (reissue api name (api.has_ticked (api.list_pods u).1)).1)
unfolding remove
remove-Cleared api polls pages name asked ds_gone pods_gone w =
    go_on-Cleared api name [] (ask_removal api name asked w)
      (λ w₁.
        go_on api [] (await_ds_removal api polls pages name ds_gone w₁)
          (await_pod_removal api polls name pods_gone))
      (λ w₁.
        go_on-Cleared api name [] (await_ds_removal api polls pages name ds_gone w₁)
          (await_pod_removal api polls name pods_gone)
          (await_pod_removal-Cleared api name polls pods_gone))
