-- ===== src/Report/Fetch.antt =====
-- fetchPodBySelectorForDuration comes to an end.
use kuberhealthy.Prelude.{
  ℕ, zero, suc, ◌+◌, ◌*◌, ◌≤◌, ◌<◌, ◌≡◌, ◌≢◌, refl, inl, inr, false, Bool-cases, Text, ltb, arith,
}
use kuberhealthy.Api.Results.{Result, ok, err, panic, fault, Action, settle, and_then}
use kuberhealthy.Api.Types.{Pod}
use kuberhealthy.Api.Cluster.{Cluster}
use kuberhealthy.Store.{second}
use kuberhealthy.Report.{fetch_pod_by_selector, fetched_or, fetch_until, fetch_pod_for_a_minute}

-- The clock never goes back, and a sleep takes its time.
pub record ClockRuns (c : Cluster) : Type 0 where
  pub list_pods_takes_time :
      (selector : Text) (w : c.World) → c.now w ≤ c.now (c.list_pods selector w).1
  pub sleep_takes_time : (d : ℕ) (w : c.World) → c.now w + d ≤ c.now (c.sleep d w)

not_early : (a b : ℕ) → a < b → ltb a b ≢ false
not_early a b h = ground arith

module _ (c : Cluster) (clock : ClockRuns c) (this that : Action c.World Pod)
    (selector : Text) where
  fetch_takes_time : (w : c.World) → c.now w ≤ c.now (fetch_pod_by_selector c selector w).1
  unfolding fetch_pod_by_selector
  fetch_takes_time w = grind (arith, clock.list_pods_takes_time)

  round_same :
      (r : Result Pod) (f g : Action c.World Pod) (v : c.World)
      → f (c.sleep second v) ≡ g (c.sleep second v)
      → and_then (settle r) (fetched_or c f) v ≡ and_then (settle r) (fetched_or c g) v
  round_same (ok pod) f g v h = refl
  round_same (err e) f g v h = h
  round_same panic f g v h = refl

  -- With a round left for every second until the end, and one more, the fuel does not run out.
  fetch_until-irrelevant :
      (fuel end_time : ℕ) (w : c.World)
      → end_time < c.now w + fuel * second
      → fetch_until c (suc fuel) this end_time selector w
        ≡ fetch_until c (suc fuel) that end_time selector w
  unfolding fetch_until
  fetch_until-irrelevant zero end_time w h = elim (Bool-cases (ltb end_time (c.now w))) [
    | inl past ↦ rw past
    | inr early ↦ absurd (not_early end_time (c.now w) (omega arith) early)
  ]
  fetch_until-irrelevant (suc fuel) end_time w h = elim (Bool-cases (ltb end_time (c.now w))) [
    | inl past ↦ rw past
    | inr early ↦
        let v = (fetch_pod_by_selector c selector w).1 in
        rw early (
          round_same (fetch_pod_by_selector c selector w).0
            (fetch_until c (suc fuel) this end_time selector)
            (fetch_until c (suc fuel) that end_time selector) v
            (fetch_until-irrelevant fuel end_time (c.sleep second v)
              (omega (arith, fetch_takes_time w, clock.sleep_takes_time second v))))
  ]

-- On a clock that runs, the loop that looks for a pod for a minute comes to an end within
-- sixty-two rounds: what it gives is the same whatever stands for a loop without end.
pub fetch_pod_for_a_minute-ends :
    (c : Cluster) (endless : Action c.World Pod) (selector : Text) (w : c.World)
    → ClockRuns c
    → fetch_pod_for_a_minute c selector w
      ≡ fetch_until c 62 endless (c.now w + 60 * second) selector w
unfolding fetch_pod_for_a_minute
fetch_pod_for_a_minute-ends c endless selector w clock =
    fetch_until-irrelevant c clock fault endless selector 61 (c.now w + 60 * second) w (omega arith)
