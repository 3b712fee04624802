-- ===== src/Store/Written.antt =====
-- What a khstate holds once storeCheckState has returned without an error.
use kuberhealthy.Prelude.{ℕ, zero, suc, ◌+◌, ◌≡◌, refl, ◌∙◌, inl, inr, some, Bool-cases, Text, []}
use kuberhealthy.Api.Results.{Err, Result, ok, err, panic, reply, Reply-cases, Action}
use kuberhealthy.Api.Types.{WorkloadDetails, KhState}
use kuberhealthy.Api.Ensures.{Ensures, Ensures-and_then, Ensures-settle}
use kuberhealthy.Api.Cluster.{Cluster, IsQuiet, sent}
use kuberhealthy.Store.{
  second, sanitize_resource_name, write_over, set_check_state_resource,
  ensure_state_resource_exists, is_modified, max_tries, too_many_tries, retry, with_workload,
  store_check_state,
}

-- A get of the khstate answers with the details that were to be stored, under this host's name and
-- with some time of writing.
abbrev pub Written :
    (c : Cluster) (pod_hostname name ns : Text) → WorkloadDetails → c.World → Type 0
Written c pod_hostname name ns details w =
    (t : KhState) × ((c.get_state ns name w).0 ≡ reply t)
    × (time : ℕ) × (t.spec
        ≡ sent (record details { authoritative_pod = pod_hostname; last_run = some time }))

module _ (c : Cluster) (set : Action c.World (Unit {0})) (give_up : Err → Err)
    (P : c.World → Type 0) (set_ensures : (w : c.World) → Ensures P (set w)) where
  -- The loop returns without an error only after a try that did.
  retry-Ensures :
      (left delay : ℕ) (r : Result (Unit {0})) (w : c.World)
      → (r ≡ ok tt → P w)
      → Ensures P (retry c set give_up left delay r w)
  unfolding retry
  retry-Ensures left delay (ok u) w start = λ h. start refl
  retry-Ensures left delay panic w start = λ h. cc
  retry-Ensures zero delay (err e) w start = elim (Bool-cases (is_modified e)) [
    | inl modified ↦ rw modified (λ h. cc)
    | inr other ↦ rw other (λ h. cc)
  ]
  retry-Ensures (suc left) delay (err e) w start = elim (Bool-cases (is_modified e)) [
    | inl modified ↦ rw modified (
        Ensures-settle P (retry c set give_up left (delay + delay)) (set (c.sleep delay w)).0 _
          (λ r' same.
            retry-Ensures left (delay + delay) r' _
              λ done. set_ensures (c.sleep delay w) (same ∙ done)))
    | inr other ↦ rw other (λ h. cc)
  ]

module _ (c : Cluster) (quiet : IsQuiet c) (pod_hostname check_name ns : Text)
    (details : WorkloadDetails) where
  abbrev Stored : c.World → Type 0
  Stored = Written c pod_hostname (sanitize_resource_name check_name) ns details

  write_over-Written :
      (name : Text) (existing : KhState) (w : c.World)
      → (write_over c pod_hostname name ns details existing w).0 ≡ ok tt
      → Written c pod_hostname name ns details
          (write_over c pod_hostname name ns details existing w).1
  unfolding write_over
  write_over-Written name existing w h =
      let khstate : KhState = record {
        name = name;
        namespace = [];
        resource_version = existing.resource_version;
        spec = record details { authoritative_pod = pod_hostname; last_run = some (c.now w) };
      } in
      elim (Reply-cases (c.update_state ns khstate w).0) [
        | inl (t, written) ↦
            let (read, same) = quiet.update_written ns khstate t w written in
            rw written (t, read, c.now w, same)
        | inr (e, refused) ↦ cc
      ]

  set-Written :
      (w : c.World)
      → (set_check_state_resource c pod_hostname check_name ns details w).0 ≡ ok tt
      → Stored (set_check_state_resource c pod_hostname check_name ns details w).1
  unfolding set_check_state_resource
  set-Written w h =
      Ensures-and_then Stored _
        (write_over c pod_hostname (sanitize_resource_name check_name) ns details) _
        (λ existing _. write_over-Written (sanitize_resource_name check_name) existing _) h

-- With nobody else writing, storeCheckState returns without an error only if a get of the sanitized
-- name then answers with the details that it was given, under this host's name and with a time of
-- writing, however many tries it took.
pub store_check_state-Written :
    (c : Cluster) (pod_hostname check_name ns : Text) (details : WorkloadDetails) (w : c.World)
    → IsQuiet c
    → (store_check_state c pod_hostname check_name ns details w).0 ≡ ok tt
    → Written c pod_hostname
        (sanitize_resource_name check_name)
        ns
        details
        (store_check_state c pod_hostname check_name ns details w).1
unfolding store_check_state
store_check_state-Written c pod_hostname check_name ns details w quiet =
    Ensures-and_then P (ensured w).0 _ (ensured w).1 λ _ _.
      Ensures-settle P (retry c set give_up (suc max_tries) second) (set (ensured w).1).0 _
        λ r' same.
          retry-Ensures c set give_up P (set-Written c quiet pod_hostname check_name ns details)
            (suc max_tries) second r' _
            λ done.
              set-Written c quiet pod_hostname check_name ns details (ensured w).1 (same ∙ done)
  where
    P : c.World → Type 0
    P = Written c pod_hostname (sanitize_resource_name check_name) ns details

    set : Action c.World (Unit {0})
    set = set_check_state_resource c pod_hostname check_name ns details

    give_up : Err → Err
    give_up = too_many_tries check_name ns

    ensured : Action c.World (Unit {0})
    ensured = with_workload c details.kh_workload (ensure_state_resource_exists c check_name ns)
