-- ===== src/Daemonset/Steps/Deployed.antt =====
-- When the daemonset counts as deployed.
use kuberhealthy.Prelude.{
  ◌≡◌, inl, inr, ℕ, zero, suc, ◌+◌, ◌≤◌, Bool-cases, Option, none, some, List, [], ◌∷◌, Text, Dict,
  leb, leb→le,
}
use kuberhealthy.Api.Results.{Err, Reply-cases, reply, refuse}
use kuberhealthy.Store.{second}
use kuberhealthy.Daemonset.{Toleration}
use kuberhealthy.Daemonset.Steps.{DsApi, list_missing, wait_for_pods_to_come_online}

-- A property of the counter and the world that every poll keeps, as far as its answer goes.
pub record IsKept (api : DsApi) (tolerations : List Toleration) (sel : Dict Text)
    (R : ℕ → api.World → Type 0) : Type 0 where
  pub on_error :
      (c : ℕ) (w : api.World) (e : Err)
      → (list_missing api tolerations sel (api.sleep second w)).0 ≡ refuse e
      → R c w
      → R c (list_missing api tolerations sel (api.sleep second w)).1
  pub on_missing :
      (c : ℕ) (w : api.World) (n : Text) (nodes : List Text)
      → (list_missing api tolerations sel (api.sleep second w)).0 ≡ reply (n ∷ nodes)
      → R c w
      → R 0 (list_missing api tolerations sel (api.sleep second w)).1
  pub on_ready :
      (c : ℕ) (w : api.World)
      → (list_missing api tolerations sel (api.sleep second w)).0 ≡ reply []
      → R c w
      → R (c + 1) (list_missing api tolerations sel (api.sleep second w)).1

module _ (api : DsApi) (tolerations : List Toleration) (sel : Dict Text)
    (R : ℕ → api.World → Type 0) where
  abbrev Deployed : Option (Option Err) × api.World → Type 0
  Deployed o = o.0 ≡ some none → (c : ℕ) × (5 ≤ c) × R c o.1

  counted :
      IsKept api tolerations sel R
      → (polls c : ℕ) (w : api.World) → R c w
      → Deployed (wait_for_pods_to_come_online api tolerations sel polls c w)
  unfolding wait_for_pods_to_come_online
  counted k zero c w r = λ h. cc
  counted k (suc polls) c w r = elim (Bool-cases (api.is_done w)) [
    | inl over ↦ rw over (λ h. cc)
    | inr on ↦ elim (Reply-cases (list_missing api tolerations sel (api.sleep second w)).0) [
      | inr (e, failed) ↦ rw (on, failed) (counted k polls c _ (k.on_error c w e failed r))
      | inl (n ∷ nodes, missing) ↦
          rw (on, missing) (counted k polls 0 _ (k.on_missing c w n nodes missing r))
      | inl ([], ready) ↦
          let r' = k.on_ready c w ready r in
          elim (Bool-cases (leb 5 (c + 1))) [
            | inl enough ↦ rw (on, ready, enough) (λ h. (c + 1, leb→le 5 (c + 1) enough, r'))
            | inr few ↦ rw (on, ready, few) (counted k polls (c + 1) _ r')
          ]
    ]
  ]

-- The pods count as online only after at least five polls that found no node without one, with no
-- poll between them that found such a node: a property of a counter and the world, which starts at
-- 0, goes up at a poll without missing nodes, back to 0 at one with missing nodes, and stays at a poll
-- that failed, holds at the end for a counter of at least five.
pub wait_for_pods_to_come_online-five :
    (api : DsApi) (tolerations : List Toleration) (sel : Dict Text) (R : ℕ → api.World → Type 0)
    (polls : ℕ) (w : api.World)
    → IsKept api tolerations sel R
    → R 0 w
    → (wait_for_pods_to_come_online api tolerations sel polls 0 w).0 ≡ some none
    → (c : ℕ) × (5 ≤ c) × R c (wait_for_pods_to_come_online api tolerations sel polls 0 w).1
wait_for_pods_to_come_online-five api tolerations sel R polls w k r =
    counted api tolerations sel R k polls 0 w r
