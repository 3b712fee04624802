-- ===== src/Reaper/Completed.antt =====
-- When a pod has completed.
use kuberhealthy.Prelude.{
  ℕ, ◌≤◌, ◌≡◌, ◌⊎◌, inl, inr, Bool, true, false, Bool-cases, none, some, Option-cases, List, [],
  ◌∷◌, All, any, ◌==◌, ltb, ltb→lt, arith,
}
use kuberhealthy.Api.Types.{ContainerStatus, Pod}
use kuberhealthy.Reaper.{latest_finish, get_pod_completed_time}

-- The container has terminated, and by this time.
abbrev pub HasFinishedBy : ℕ → ContainerStatus → Type 0
HasFinishedBy t cs = (finished : ℕ) × (cs.terminated ≡ some finished) × (finished ≤ t)

abbrev pub finishes_at : ℕ → ContainerStatus → Bool
finishes_at t cs = elim cs.terminated [ none ↦ false | some finished ↦ finished == t ]

-- What the loop gives, from a time that was found before.
record IsLatest (statuses : List ContainerStatus) (so_far t : ℕ) : Type 0 where
  later : so_far ≤ t
  finished : All (HasFinishedBy t) statuses
  reached : (t ≡ so_far) ⊎ (any (finishes_at t) statuses ≡ true)

finishes_at-itself : (n : ℕ) → (n == n) ≡ true
finishes_at-itself n = ground arith

latest_finish-IsLatest :
    (statuses : List ContainerStatus) (so_far t : ℕ)
    → latest_finish statuses so_far ≡ some t
    → IsLatest statuses so_far t
unfolding latest_finish
latest_finish-IsLatest [] so_far t =
    λ h. record { later = ground (arith, h); finished = tt; reached = inl (ground (arith, h)) }
latest_finish-IsLatest (cs ∷ statuses) so_far t = elim (Option-cases cs.terminated) [
  | inl running ↦ λ h. let bad = rw running at h in cc
  | inr (finished, e) ↦ elim (Bool-cases (ltb so_far finished)) [
    | inl later ↦ λ h.
        let h' = rw (e, later) at h in
        let rest = latest_finish-IsLatest statuses finished t h' in
        record {
          later = omega (arith, rest.later, ltb→lt so_far finished later);
          finished = ((finished, e, rest.later), rest.finished);
          reached = inr (elim rest.reached [
            | inl same ↦ rw (e, same, finishes_at-itself finished)
            | inr found ↦ ground (arith, found)
          ]);
        }
    | inr earlier ↦ λ h.
        let h' = rw (e, earlier) at h in
        let rest = latest_finish-IsLatest statuses so_far t h' in
        record {
          later = rest.later;
          finished = ((finished, e, ground (arith, earlier, rest.later)), rest.finished);
          reached = elim rest.reached [
            | inl same ↦ inl same
            | inr found ↦ inr (ground (arith, found))
          ];
        }
  ]
]

-- getPodCompletedTime gives a time only if every container has terminated, none after it, and it is
-- the finishing time of one of them or the zero time.
pub get_pod_completed_time-latest :
    (pod : Pod) (t : ℕ)
    → get_pod_completed_time pod ≡ some t
    → All (HasFinishedBy t) pod.container_statuses
      × ((t ≡ 0) ⊎ (any (finishes_at t) pod.container_statuses ≡ true))
unfolding get_pod_completed_time
get_pod_completed_time-latest pod t h =
    let found = latest_finish-IsLatest pod.container_statuses 0 t h in
    (found.finished, found.reached)
