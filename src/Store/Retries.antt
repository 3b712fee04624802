-- ===== src/Store/Retries.antt =====
-- How often storeCheckState writes and how long it sleeps.
pub mod Meter
use kuberhealthy.Prelude.{
  ℕ, zero, suc, ◌+◌, ◌*◌, ◌≤◌, ◌≡◌, refl, ap, inl, inr, Option, none, some, true, Bool-cases, [],
  Text, arith,
}
use kuberhealthy.Api.Results.{Err, Result, ok, err, panic, reply, refuse, Action, settle, and_then}
use kuberhealthy.Api.Types.{KhWorkload, WorkloadDetails, KhState}
use kuberhealthy.Api.Cluster.{Cluster}
use kuberhealthy.Store.{
  second, sanitize_resource_name, set_check_state_resource, ensure_state_resource_exists,
  is_modified, max_tries, too_many_tries, retry, with_workload, store_check_state,
}
use kuberhealthy.Store.Retries.Meter.{
  IsMetered, total_delay, Costs, Costs-and_then, Costs-settle, retry-Costs, set-Costs, ensure-Costs,
}

module _ (c : Cluster) (writes slept : c.World → ℕ) (m : IsMetered c writes slept)
    (pod_hostname check_name ns : Text) (details : WorkloadDetails) where
  abbrev set : Action c.World (Unit {0})
  set = set_check_state_resource c pod_hostname check_name ns details

  abbrev loop : Result (Unit {0}) → Action c.World (Unit {0})
  loop = retry c set (too_many_tries check_name ns) (suc max_tries) second

  once : (w : c.World) → Costs writes slept 1 0 w (set w).1
  once = set-Costs c writes slept m pod_hostname check_name ns details

  tries-Costs :
      (w : c.World)
      → Costs writes slept 9 (255 * second) w (and_then (settle (set w).0) loop (set w).1).1
  tries-Costs w =
      Costs-settle writes slept 1 0 8 (255 * second) loop (set w).0 w _ (once w)
        (λ r. retry-Costs c writes slept m set (too_many_tries check_name ns) once 8 second r _)

  after_ensure :
      (o : Result (Unit {0})) (w v : c.World)
      → Costs writes slept 0 0 w v
      → Costs writes slept 9
          (255 * second)
          w
          (and_then o (λ _ u. and_then (settle (set u).0) loop (set u).1) v).1
  after_ensure (ok u) w v h = omega (arith, h, tries-Costs v)
  after_ensure (err e) w v h = omega (arith, h)
  after_ensure panic w v h = omega (arith, h)

  workload-Costs :
      (o : Option KhWorkload) (w : c.World)
      → Costs writes slept 0 0 w
          (with_workload c o (ensure_state_resource_exists c check_name ns) w).1
  workload-Costs none w = omega arith
  workload-Costs (some workload) w = ensure-Costs c writes slept m check_name ns workload w

  store-Costs :
      (w : c.World)
      → Costs writes slept 9
          (255 * second)
          w
          (store_check_state c pod_hostname check_name ns details w).1
  unfolding store_check_state
  store-Costs w = after_ensure _ w _ (workload-Costs details.kh_workload w)

-- storeCheckState sends at most nine updates and sleeps at most 255 seconds, on every path.
pub store_check_state-bounded :
    (c : Cluster) (writes slept : c.World → ℕ) (pod_hostname check_name ns : Text)
    (details : WorkloadDetails) (w : c.World)
    → IsMetered c writes slept
    → let w' = (store_check_state c pod_hostname check_name ns details w).1 in
      (writes w' ≤ writes w + 9) × (slept w' ≤ slept w + 255 * second)
store_check_state-bounded c writes slept pod_hostname check_name ns details w m =
    let h = store-Costs c writes slept m pod_hostname check_name ns details w in
    (h.few_writes, h.short_sleep)

-- Against a server that refuses every update as a conflict.
pub record AlwaysConflicts (c : Cluster) (ns name : Text) : Type 0 where
  pub state_exists : (w : c.World) → (s : KhState) × ((c.get_state ns name w).0 ≡ reply s)
  pub update_conflicts :
      (s : KhState) (w : c.World)
      → (e : Err) × ((c.update_state ns s w).0 ≡ refuse e) × (is_modified e ≡ true)

-- The exact costs of a run that ends in giving up.
pub record GivesUp {W : Type 0} (writes slept : W → ℕ) (give_up : Err → Err) (tries time : ℕ)
    (w : W) (o : Result (Unit {0}) × W) : Type 0 where
  pub last : Err
  pub gave_up : o.0 ≡ err (give_up last)
  pub exact_writes : writes o.1 ≡ writes w + tries
  pub exact_sleep : slept o.1 ≡ slept w + time

module _ (c : Cluster) (writes slept : c.World → ℕ) (m : IsMetered c writes slept)
    (pod_hostname check_name ns : Text) (details : WorkloadDetails)
    (conflicts : AlwaysConflicts c ns (sanitize_resource_name check_name)) where
  abbrev SetFails : Result (Unit {0}) × c.World → c.World → Type 0
  SetFails o w =
      (e : Err) × (o.0 ≡ err e)
      × (is_modified e ≡ true)
      × (writes o.1 ≡ writes w + 1)
      × (slept o.1 ≡ slept w)

  set_fails :
      (w : c.World) → SetFails (set_check_state_resource c pod_hostname check_name ns details w) w
  unfolding set_check_state_resource
  set_fails w =
      let name = sanitize_resource_name check_name in
      let (s, got) = conflicts.state_exists w in
      let v = (c.get_state ns name w).1 in
      let khstate : KhState = record {
        name = name;
        namespace = [];
        resource_version = s.resource_version;
        spec = record details { authoritative_pod = pod_hostname; last_run = some (c.now v) };
      } in
      let (e, refused, modified) = conflicts.update_conflicts khstate v in
      (
        e,
        rw (got, refused),
        modified,
        rw (got, refused) (omega (arith, m.get_writes ns name w, m.update_writes ns khstate v)),
        rw (got, refused) (omega (arith, m.get_slept ns name w, m.update_slept ns khstate v)),
      )

  retry-GivesUp :
      (give_up : Err → Err) (left delay : ℕ) (e : Err) (w : c.World)
      → is_modified e ≡ true
      → GivesUp writes slept give_up left (total_delay left delay) w (
          retry c
            (set_check_state_resource c pod_hostname check_name ns details)
            give_up
            left
            delay
            (err e)
            w)
  unfolding retry
  retry-GivesUp give_up zero delay e w modified =
      rw modified
        (record { last = e; gave_up = refl; exact_writes = omega arith; exact_sleep = omega arith })
  retry-GivesUp give_up (suc left) delay e w modified =
      let (e', failed, modified', one, none_slept) = set_fails (c.sleep delay w) in
      let rest =
        retry-GivesUp give_up left (delay + delay) e'
          (set_check_state_resource c pod_hostname check_name ns details (c.sleep delay w)).1
          modified' in
      rw (modified, failed)
        (record {
          last = rest.last;
          gave_up = rest.gave_up;
          exact_writes = omega (arith, rest.exact_writes, one, m.sleep_writes delay w);
          exact_sleep = omega (arith, rest.exact_sleep, none_slept, m.sleep_slept delay w);
        })

  ensure_exists :
      (workload : KhWorkload) (w : c.World)
      → ((ensure_state_resource_exists c check_name ns workload w).0 ≡ ok tt)
        × ((ensure_state_resource_exists c check_name ns workload w).1
            ≡ (c.get_state ns (sanitize_resource_name check_name) w).1)
  unfolding ensure_state_resource_exists
  ensure_exists workload w = let (s, got) = conflicts.state_exists w in (rw got, rw got)

-- Against a server that refuses every update of an existing khstate as a conflict, storeCheckState
-- returns its error for too many tries after exactly nine updates and 255 seconds of sleep: the
-- first try and eight more, although its limit of tries is seven.
pub store_check_state-GivesUp :
    (c : Cluster) (writes slept : c.World → ℕ) (pod_hostname check_name ns : Text)
    (details : WorkloadDetails) (workload : KhWorkload) (w : c.World)
    → IsMetered c writes slept
    → AlwaysConflicts c ns (sanitize_resource_name check_name)
    → details.kh_workload ≡ some workload
    → GivesUp writes slept
        (too_many_tries check_name ns)
        9
        (255 * second)
        w
        (store_check_state c pod_hostname check_name ns details w)
unfolding store_check_state
store_check_state-GivesUp c writes slept pod_hostname check_name ns details workload w m conflicts
      e =
    let name = sanitize_resource_name check_name in
    let v = (c.get_state ns name w).1 in
    let (done, stays) =
      ensure_exists c writes slept m pod_hostname check_name ns details conflicts workload w in
    let (e', failed, modified, one, none_slept) =
      set_fails c writes slept m pod_hostname check_name ns details conflicts v in
    let rest =
      retry-GivesUp c writes slept m pod_hostname check_name ns details conflicts
        (too_many_tries check_name ns) (suc max_tries) second e'
        (set_check_state_resource c pod_hostname check_name ns details v).1 modified in
    rw
      (
        ap (λ o. with_workload c o (ensure_state_resource_exists c check_name ns) w) e,
        done,
        stays,
        failed,
      )
      (record {
        last = rest.last;
        gave_up = rest.gave_up;
        exact_writes = omega (arith, rest.exact_writes, one, m.get_writes ns name w);
        exact_sleep = omega (arith, rest.exact_sleep, none_slept, m.get_slept ns name w);
      })
