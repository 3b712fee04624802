-- ===== src/Daemonset/Steps.antt =====
-- How the daemonset check deploys its daemonset and removes it (cmd/daemonset-check/run_check.go), with
-- the calls of kube_api.go, retries included, as a record. What a `select` on a worker, the deadline
-- and the context receives first is an argument.
pub mod Deployed
pub mod Removed
use kuberhealthy.Prelude.{
  ℕ, zero, suc, ◌+◌, ◌*◌, leb, Bool, true, false, Option, none, some, List, [], ◌∷◌, ◌++◌, any,
  Text, text_eq, codes, Dict, is_empty, if◌then◌else◌,
}
use kuberhealthy.Api.Results.{Err, new_error, wrap_error, Reply, reply, refuse, Call}
use kuberhealthy.Store.{second}
use kuberhealthy.Daemonset.{Toleration, Node, DsPod, get_nodes_missing_ds_pod}

-- A page of a listing: the names of the daemonsets, and the token of the next page.
pub record DsPage : Type 0 where
  pub names : List Text
  pub continue : Text

pub record DsApi : Type 1 where
  pub World : Type 0
  pub sleep : ℕ → World → World
  -- The context is done.
  pub is_done : World → Bool
  -- A receive from the ticker of 30 seconds that does not wait.
  pub has_ticked : World → Bool × World
  pub list_nodes : Call World (List Node)
  pub list_pods : Call World (List DsPod)
  pub create_daemonset : Call World (Unit {0})
  pub delete_daemonset : (name : Text) → Call World (Unit {0})
  pub delete_pods : (name : Text) → Call World (Unit {0})
  pub list_daemonsets : (more : Text) → Call World DsPage

abbrev pub half_second : ℕ
half_second = 500000000

-- What a `select` receives first.
pub data Received : Type 0 where
  done deadline interrupted : Received

-- What a worker returns: nothing yet, or an error that may be nil.
abbrev pub Returned : Type 0
Returned = Option (Option Err)

abbrev pub returns : Text → Returned
returns message = some (some (new_error message))

module _ (api : DsApi) where
  -- The code goes on with the next step if there is no error.
  abbrev pub go_on :
      (prefix : Text)
      → Returned × api.World
      → (api.World → Returned × api.World)
      → Returned × api.World
  go_on prefix (none, w) next = (none, w)
  go_on prefix (some none, w) next = next w
  go_on prefix (some (some e), w) next = (some (some (wrap_error prefix e)), w)

  -- The error of a step, with a prefix.
  abbrev pub wrapped : (prefix : Text) → Returned × api.World → Returned × api.World
  wrapped prefix o = go_on prefix o (λ w. (some none, w))

  abbrev pub ask : Reply (Unit {0}) × api.World → Returned × api.World
  ask (reply u, w) = (some none, w)
  ask (refuse e, w) = (some (some e), w)

  abbrev pub on_received :
      Received
      → (timeout : Text) → (worker : api.World → Returned × api.World) → api.World
      → Returned × api.World
  on_received done timeout worker w = worker w
  on_received deadline timeout worker w =
      (returns (codes "Reached check pod timeout: " ++ timeout), w)
  on_received interrupted timeout worker w =
      (returns (codes "failed to complete check due to an interrupt signal"), w)

  module _ (tolerations : List Toleration) (ds_node_selectors : Dict Text) where
    abbrev pub missing_of : List Node → Reply (List DsPod) → Reply (List Text)
    missing_of nodes (refuse e) = refuse (wrap_error (codes "Failed to list daemonset pods: ") e)
    missing_of nodes (reply pods) =
        reply (get_nodes_missing_ds_pod tolerations ds_node_selectors nodes pods)

    -- `getNodesMissingDSPod`, with its listings
    unfoldable pub list_missing : api.World → Reply (List Text) × api.World
    list_missing w =
        let w₁ = (api.list_nodes w).1 in
        elim (api.list_nodes w).0 [
          | refuse e ↦ (refuse (wrap_error (codes "Failed to list nodes: ") e), w₁)
          | reply nodes ↦ (missing_of nodes (api.list_pods w₁).0, (api.list_pods w₁).1)
        ]

    -- `waitForPodsToComeOnline`, for a number of polls. An error keeps the counter.
    unfoldable pub wait_for_pods_to_come_online :
        (polls : ℕ) (counter : ℕ) → api.World → Returned × api.World
    wait_for_pods_to_come_online zero counter w = (none, w)
    wait_for_pods_to_come_online (suc polls) counter w =
        let o = list_missing (api.sleep second w) in
        if api.is_done w
        then (
          returns (
              codes
                "DaemonsetChecker: Node(s) which were unable to schedule before context was cancelled"),
          w,
        )
        else elim o.0 [
          | refuse e ↦ wait_for_pods_to_come_online polls counter o.1
          | reply (missing ∷ nodes) ↦ wait_for_pods_to_come_online polls 0 o.1
          | reply [] ↦ elim (leb 5 (counter + 1)) [
            | true ↦ (some none, o.1)
            | false ↦ wait_for_pods_to_come_online polls (counter + 1) o.1
          ]
        ]

    -- `deploy`, with doDeploy
    unfoldable pub deploy : (polls : ℕ) → Received → api.World → Returned × api.World
    deploy polls r w =
        go_on (codes "error deploying daemonset: ") (ask (api.create_daemonset w)) (λ w₁.
          on_received r (codes "waiting for all pods to come online")
            (λ w₂.
              wrapped (codes "error waiting for pods to come online: ")
                (wait_for_pods_to_come_online polls 0 w₂))
            w₁)

  -- `deleteDS`
  unfoldable pub delete_ds : (name : Text) → api.World → Returned × api.World
  delete_ds name w = elim (api.list_pods w).0 [
    | refuse e ↦
        (some (some (wrap_error (codes "Failed to list daemonset pods: ") e)), (api.list_pods w).1)
    | reply pods ↦
        go_on (codes "Failed to delete daemonset: ")
          (ask (api.delete_daemonset name (api.list_pods w).1))
          (λ w₁.
            wrapped (codes "Failed to delete daemonset pods: ") (ask (api.delete_pods name w₁)))
  ]

  -- `fetchDS`, for a number of pages: whether a daemonset of the name exists, `none` if they were too
  -- few.
  unfoldable pub fetch_ds :
      (pages : ℕ) (name more : Text) → api.World → Option (Reply Bool) × api.World
  fetch_ds zero name more w = (none, w)
  fetch_ds (suc pages) name more w =
      let w₁ = (api.list_daemonsets more w).1 in
      elim (api.list_daemonsets more w).0 [
        | refuse e ↦ (some (refuse e), w₁)
        | reply page ↦
            let rest = fetch_ds pages name page.continue w₁ in
            if any (text_eq name) page.names
            then (some (reply true), w₁)
            else if is_empty page.continue
            then (some (reply false), w₁)
            else rest
      ]

  -- `waitForDSRemoval`, for a number of polls
  unfoldable pub wait_for_ds_removal :
      (polls pages : ℕ) (name : Text) → api.World → Returned × api.World
  wait_for_ds_removal zero pages name w = (none, w)
  wait_for_ds_removal (suc polls) pages name w =
      let o = fetch_ds pages name [] (api.sleep half_second w) in
      if api.is_done w
      then (returns (codes "Waiting for daemonset removal aborted by context cancellation."), w)
      else elim o.0 [
        | none ↦ (none, o.1)
        | some (refuse e) ↦ (some (some e), o.1)
        | some (reply true) ↦ wait_for_ds_removal polls pages name o.1
        | some (reply false) ↦ (some none, o.1)
      ]

  -- The `select` on the ticker and the context in `waitForPodRemoval`.
  abbrev pub reissue : (name : Text) → Bool × api.World → Returned × api.World
  reissue name (true, w) =
      wrapped (codes "Failed to delete daemonset pods: ") (ask (api.delete_pods name w))
  reissue name (false, w) = (
    if api.is_done w then returns (codes "timed out when waiting for pod removal") else some none,
    w,
  )

  -- `waitForPodRemoval`, for a number of polls
  unfoldable pub wait_for_pod_removal : (polls : ℕ) (name : Text) → api.World → Returned × api.World
  wait_for_pod_removal zero name w = (none, w)
  wait_for_pod_removal (suc polls) name w =
      let w₁ = (api.list_pods w).1 in
      elim (api.list_pods w).0 [
        | refuse e ↦ (some (some (wrap_error (codes "Failed to list daemonset pods: ") e)), w₁)
        | reply [] ↦ reissue name (api.has_ticked w₁)
        | reply (p ∷ pods) ↦
            go_on [] (reissue name (api.has_ticked w₁))
              (λ w₂. wait_for_pod_removal polls name (api.sleep second w₂))
      ]

  -- The three parts of `remove`, each with what its `select` receives first.
  abbrev pub ask_removal : (name : Text) → Received → api.World → Returned × api.World
  ask_removal name r =
      on_received r (codes "waiting for daemonset removal command to complete.")
        (λ w. wrapped (codes "error trying to delete daemonset: ") (delete_ds name w))

  abbrev pub await_ds_removal :
      (polls pages : ℕ) (name : Text) → Received → api.World → Returned × api.World
  await_ds_removal polls pages name r = on_received r (codes "waiting for daemonset removal.") (λ w.
      wrapped (codes "error waiting for daemonset removal: ")
        (wait_for_ds_removal polls pages name w))

  abbrev pub await_pod_removal :
      (polls : ℕ) (name : Text) → Received → api.World → Returned × api.World
  await_pod_removal polls name r =
      on_received r (codes "waiting for daemonset pods removal. ") (λ w.
        wrapped (codes "error waiting for daemonset pods removal: ")
          (wait_for_pod_removal polls name w))

  -- `remove`
  unfoldable pub remove :
      (polls pages : ℕ) (name : Text) (asked ds_gone pods_gone : Received)
      → api.World
      → Returned × api.World
  remove polls pages name asked ds_gone pods_gone w = go_on [] (ask_removal name asked w) (λ w₁.
      go_on [] (await_ds_removal polls pages name ds_gone w₁)
        (λ w₂. await_pod_removal polls name pods_gone w₂))
