-- ===== src/Limiter/Smooth.antt =====
-- What the limiter sends.
use kuberhealthy.Prelude.{◌≡◌, refl, ap, ℕ, suc, List, [], ◌∷◌, ◌++◌, arith}
use kuberhealthy.Limiter.{
  LimiterEvent, message, quiet, closed, LimiterState, idle, waiting, spinning, stopped,
  limiter_step, notify_chan_limiter,
}

-- The messages that are followed by a quiet time at once, before the input is closed.
abbrev pub bursts : List LimiterEvent → ℕ
bursts [] = 0
bursts (closed ∷ events) = 0
bursts (quiet ∷ events) = bursts events
bursts (message ∷ []) = 0
bursts (message ∷ quiet ∷ events) = suc (bursts events)
bursts (message ∷ message ∷ events) = bursts (message ∷ events)
bursts (message ∷ closed ∷ events) = 0

ended : (events : List LimiterEvent) → (notify_chan_limiter events stopped).1 ≡ 0
unfolding notify_chan_limiter limiter_step
ended [] = refl
ended (e ∷ events) = omega (arith, ended events)

spins : (events : List LimiterEvent) → notify_chan_limiter events spinning ≡ (spinning, 0)
unfolding notify_chan_limiter limiter_step
spins [] = refl
spins (e ∷ events) = rw (spins events) refl

-- From the outer loop and, after a message, from the inner one.
from_both :
    (events : List LimiterEvent)
    → ((notify_chan_limiter events idle).1 ≡ bursts events)
      × ((notify_chan_limiter events waiting).1 ≡ bursts (message ∷ events))
unfolding notify_chan_limiter limiter_step
from_both [] = (refl, refl)
from_both (message ∷ events) = let h = from_both events in (omega (arith, h.1), omega (arith, h.1))
from_both (quiet ∷ events) = let h = from_both events in (omega (arith, h.0), omega (arith, h.0))
from_both (closed ∷ events) =
    (omega (arith, ended events), omega (arith, ap (λ (o : LimiterState × ℕ). o.1) (spins events)))

-- The limiter sends exactly one notification for each burst of messages: for each message that is
-- followed at once by a quiet time, before the input is closed.
pub notify_chan_limiter-bursts :
    (events : List LimiterEvent) → (notify_chan_limiter events idle).1 ≡ bursts events
notify_chan_limiter-bursts events = (from_both events).0

spins_after :
    (before after : List LimiterEvent) (s : LimiterState)
    → (notify_chan_limiter before s).0 ≡ waiting
    → notify_chan_limiter (before ++ closed ∷ after) s
      ≡ (spinning, (notify_chan_limiter before s).1)
unfolding notify_chan_limiter limiter_step
spins_after [] after s h = rw (h, spins after) refl
spins_after (e ∷ before) after s h = rw (spins_after before after (limiter_step e s).0 h) refl

-- If the input is closed while the limiter waits for it to be quiet, the limiter neither stops nor
-- sends anything more, whatever comes after: it spins.
pub notify_chan_limiter-spins :
    (before after : List LimiterEvent)
    → (notify_chan_limiter before idle).0 ≡ waiting
    → notify_chan_limiter (before ++ closed ∷ after) idle
      ≡ (spinning, (notify_chan_limiter before idle).1)
notify_chan_limiter-spins before after h = spins_after before after idle h
