-- ===== src/Cronjob/Last.antt =====
-- The walk to the last run time ends, and is right.
use kuberhealthy.Prelude.{
  ℕ, zero, suc, ◌+◌, ◌-◌, ◌≤◌, ◌<◌, ◌≡◌, refl, inl, inr, Bool-cases, ltb, ltb→lt, some, arith,
}
use kuberhealthy.Cronjob.{walk, one_year, find_last_cron_run_time}

-- The next run time is later.
abbrev pub Advances : (ℕ → ℕ) → Type 0
Advances next = (t : ℕ) → t < next t

-- The time is not later than now, and the next run time after it is.
pub record IsLastBefore (next : ℕ → ℕ) (now time_marker m : ℕ) : Type 0 where
  pub not_earlier : time_marker ≤ m
  pub past : m ≤ now
  pub next_is_future : now < next m

walk-IsLastBefore :
    (rounds : ℕ) (next : ℕ → ℕ) (now time_marker : ℕ)
    → Advances next
    → time_marker ≤ now
    → now < time_marker + rounds
    → (m : ℕ) × (walk rounds next now time_marker ≡ some m) × IsLastBefore next now time_marker m
unfolding walk
walk-IsLastBefore zero next now t advances past enough = absurd (omega (arith, past, enough))
walk-IsLastBefore (suc rounds) next now t advances past enough =
    elim (Bool-cases (ltb now (next t))) [
      | inl future ↦ rw future (
        t,
        refl,
        record {
          not_earlier = omega arith;
          past = past;
          next_is_future = ltb→lt now (next t) future;
        },
      )
      | inr still ↦
          let (m, e, l) =
            walk-IsLastBefore rounds next now (next t) advances (ground (arith, still))
              (omega (arith, enough, advances t)) in
          rw still (
            m,
            e,
            record {
              not_earlier = omega (arith, advances t, l.not_earlier);
              past = l.past;
              next_is_future = l.next_is_future;
            },
          )
    ]

-- For a schedule whose next run time is always later, and a clock that does not go back between its two
-- readings, the walk over the run times since a year before the first ends within as many rounds as
-- that time has nanoseconds, and one more, at a time within it after which the next run is yet to come.
pub find_last_cron_run_time-IsLastBefore :
    (next : ℕ → ℕ) (started now : ℕ)
    → Advances next
    → started ≤ now
    → (m : ℕ) × (find_last_cron_run_time (suc (one_year + (now - started))) next started now
        ≡ some m)
      × IsLastBefore next now (started - one_year) m
unfolding find_last_cron_run_time
find_last_cron_run_time-IsLastBefore next started now advances onward =
    walk-IsLastBefore (suc (one_year + (now - started))) next now (started - one_year) advances
      (omega (arith, onward)) (omega (arith, onward))
