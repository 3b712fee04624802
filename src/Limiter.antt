-- ===== src/Limiter.antt =====
-- `notifyChanLimiter` of cmd/kuberhealthy/util.go: a machine over what happens on its input channel.
-- A receiver of the output channel is taken to be ready.
pub mod Smooth
use kuberhealthy.Prelude.{ℕ, zero, suc, ◌+◌, List, [], ◌∷◌, Bool, true, false}

-- A message comes in, the input has been quiet for the whole of `maxSpeed`, or the input is closed.
pub data LimiterEvent : Type 0 where
  message quiet closed : LimiterEvent

-- The outer range, the inner loop, the inner loop on a closed input, and the end. A closed channel is
-- always ready, so that the inner loop on it makes a new timer in each round and never sees one fire.
pub data LimiterState : Type 0 where
  idle waiting spinning stopped : LimiterState

-- The next state, and whether something is sent.
unfoldable pub limiter_step : LimiterEvent → LimiterState → LimiterState × Bool
limiter_step message idle = (waiting, false)
limiter_step quiet idle = (idle, false)
limiter_step closed idle = (stopped, false)
limiter_step message waiting = (waiting, false)
limiter_step quiet waiting = (idle, true)
limiter_step closed waiting = (spinning, false)
limiter_step e spinning = (spinning, false)
limiter_step e stopped = (stopped, false)

abbrev pub count_sent : Bool → ℕ
count_sent true = 1
count_sent false = 0

-- The state after the events, and the number of notifications sent.
unfoldable pub notify_chan_limiter : List LimiterEvent → LimiterState → LimiterState × ℕ
notify_chan_limiter [] s = (s, 0)
notify_chan_limiter (e ∷ events) s =
    let (s', sent) = limiter_step e s in
    let (last, n) = notify_chan_limiter events s' in (last, count_sent sent + n)
