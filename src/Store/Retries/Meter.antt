-- ===== src/Store/Retries/Meter.antt =====
-- The meters of what the steps of storeCheckState cost.
use kuberhealthy.Prelude.{ℕ, zero, suc, ◌+◌, ◌*◌, ◌≤◌, ◌≡◌, refl, inl, inr, Bool-cases, Text, arith}
use kuberhealthy.Api.Results.{Err, Result, ok, err, panic, Action, settle, and_then}
use kuberhealthy.Api.Types.{KhWorkload, WorkloadDetails, KhState}
use kuberhealthy.Api.Cluster.{Cluster}
use kuberhealthy.Store.{
  second, set_check_state_resource, ensure_state_resource_exists, is_modified, max_tries, retry,
}

-- Two meters on the world: one counts the updates that are sent, the other the time slept.
pub record IsMetered (c : Cluster) (writes slept : c.World → ℕ) : Type 0 where
  pub get_writes : (ns n : Text) (w : c.World) → writes (c.get_state ns n w).1 ≡ writes w
  pub get_slept : (ns n : Text) (w : c.World) → slept (c.get_state ns n w).1 ≡ slept w
  pub create_writes :
      (ns : Text) (s : KhState) (w : c.World) → writes (c.create_state ns s w).1 ≡ writes w
  pub create_slept :
      (ns : Text) (s : KhState) (w : c.World) → slept (c.create_state ns s w).1 ≡ slept w
  pub update_writes :
      (ns : Text) (s : KhState) (w : c.World) → writes (c.update_state ns s w).1 ≡ writes w + 1
  pub update_slept :
      (ns : Text) (s : KhState) (w : c.World) → slept (c.update_state ns s w).1 ≡ slept w
  pub sleep_writes : (d : ℕ) (w : c.World) → writes (c.sleep d w) ≡ writes w
  pub sleep_slept : (d : ℕ) (w : c.World) → slept (c.sleep d w) ≡ slept w + d

-- The sum of the delays of so many retries, each twice the one before.
abbrev pub total_delay : (left delay : ℕ) → ℕ
total_delay zero delay = 0
total_delay (suc left) delay = delay + total_delay left (delay + delay)

total_delay_eight : total_delay (suc max_tries) second ≡ 255 * second
total_delay_eight = refl

-- From one world to another, at most so many updates are sent and so much time is slept.
pub record Costs {W : Type 0} (writes slept : W → ℕ) (tries time : ℕ) (w w' : W) : Type 0 where
  pub few_writes : writes w' ≤ writes w + tries
  pub short_sleep : slept w' ≤ slept w + time

module _ {W : Type 0} (writes slept : W → ℕ) where
  pub Costs-and_then :
      {A : Type 0} (tries time : ℕ) (r : Result A) (f : A → Action W (Unit {0})) (w v : W)
      → Costs writes slept 0 0 w v
      → ((a : A) → Costs writes slept tries time v (f a v).1)
      → Costs writes slept tries time w (and_then r f v).1
  Costs-and_then tries time (ok a) f w v h rest = omega (arith, h, rest a)
  Costs-and_then tries time (err e) f w v h rest = omega (arith, h)
  Costs-and_then tries time panic f w v h rest = omega (arith, h)

  pub Costs-settle :
      (n₁ t₁ n₂ t₂ : ℕ) (k : Result (Unit {0}) → Action W (Unit {0})) (r : Result (Unit {0}))
      (w v : W)
      → Costs writes slept n₁ t₁ w v
      → ((r' : Result (Unit {0})) → Costs writes slept n₂ t₂ v (k r' v).1)
      → Costs writes slept (n₁ + n₂) (t₁ + t₂) w (and_then (settle r) k v).1
  Costs-settle n₁ t₁ n₂ t₂ k (ok u) w v h rest = omega (arith, h, rest (ok u))
  Costs-settle n₁ t₁ n₂ t₂ k (err e) w v h rest = omega (arith, h, rest (err e))
  Costs-settle n₁ t₁ n₂ t₂ k panic w v h rest = omega (arith, h)

module _ (c : Cluster) (writes slept : c.World → ℕ) (m : IsMetered c writes slept) where
  module _ (set : Action c.World (Unit {0})) (give_up : Err → Err)
      (once : (w : c.World) → Costs writes slept 1 0 w (set w).1) where
    pub retry-Costs :
        (left delay : ℕ) (r : Result (Unit {0})) (w : c.World)
        → Costs writes slept left (total_delay left delay) w (retry c set give_up left delay r w).1
    unfolding retry
    retry-Costs left delay (ok u) w = omega arith
    retry-Costs left delay panic w = omega arith
    retry-Costs zero delay (err e) w = elim (Bool-cases (is_modified e)) [
      | inl modified ↦ rw modified (omega arith)
      | inr other ↦ rw other (omega arith)
    ]
    retry-Costs (suc left) delay (err e) w = elim (Bool-cases (is_modified e)) [
      | inl modified ↦
          let slept_once : Costs writes slept 1 delay w (set (c.sleep delay w)).1 =
            omega (arith, once (c.sleep delay w), m.sleep_writes delay w, m.sleep_slept delay w) in
          let rest =
            Costs-settle writes slept 1 delay left (total_delay left (delay + delay))
              (retry c set give_up left (delay + delay)) (set (c.sleep delay w)).0 w _ slept_once
              (λ r'. retry-Costs left (delay + delay) r' _) in
          rw modified (omega (arith, rest))
      | inr other ↦ rw other (omega arith)
    ]

  pub set-Costs :
      (pod_hostname check_name ns : Text) (details : WorkloadDetails) (w : c.World)
      → Costs writes slept 1 0 w (set_check_state_resource c pod_hostname check_name ns details w).1
  unfolding set_check_state_resource
  set-Costs pod_hostname check_name ns details w =
      grind (arith, m.get_writes, m.get_slept, m.update_writes, m.update_slept)

  pub ensure-Costs :
      (check_name ns : Text) (workload : KhWorkload) (w : c.World)
      → Costs writes slept 0 0 w (ensure_state_resource_exists c check_name ns workload w).1
  unfolding ensure_state_resource_exists
  ensure-Costs check_name ns workload w =
      grind (arith, m.get_writes, m.get_slept, m.create_writes, m.create_slept)
