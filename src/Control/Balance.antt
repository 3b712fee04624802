-- ===== src/Control/Balance.antt =====
-- The wait group of the checks stays balanced as long as the signals come in order.
use kuberhealthy.Prelude.{
  ℕ, ◌+◌, ◌-◌, ◌<◌, Bool, true, false, ◌≡◌, refl, List, [], ◌∷◌, arith, if◌then◌else◌,
}
use kuberhealthy.Control.{
  Control, Outcome, going, blocked, crashed, ControlEvent, became_master, lost_master, reload,
  and_go, stop_checks, start_checks, stop_reaper, restart, control_step, run_control, new_control,
}

-- The events as a loop sees them that hears of each change of mastership before it handles the next
-- reload: from a flag to a flag.
abbrev pub InOrder : Bool → List ControlEvent → Bool → Type 0
InOrder b [] b' = b ≡ b'
InOrder false (became_master found ∷ es) b' = InOrder true es b'
InOrder true (lost_master ∷ es) b' = InOrder false es b'
InOrder true (reload true found ∷ es) b' = InOrder true es b'
InOrder false (reload false found ∷ es) b' = InOrder false es b'
InOrder _ (_ ∷ es) b' = ⊥

-- While the checks run, the wait group counts them all; while they do not, it counts nothing. One
-- reaper runs for as long.
pub record IsBalanced (running : Bool) (k : Control) : Type 0 where
  pub counted : k.wg ≡ (if running then k.checks else 0)
  pub one_reaper : k.reapers ≡ (if running then 1 else 0)
  pub cancels : k.can_cancel_reaper ≡ running

-- An outcome that goes on, with a property of its counts.
abbrev pub Goes : (Control → Type 0) → Outcome → Type 0
Goes P (going k) = P k
Goes P blocked = ⊥
Goes P crashed = ⊥

start_checks_free :
    (found : ℕ) (k : Control)
    → k.wg ≡ 0
    → start_checks found k
      ≡ going (record k { checks = found; wg = found; state_reapers = k.state_reapers + 1 })
unfolding start_checks
start_checks_free found k h = ground arith

stop_checks_full : (k : Control) → k.wg ≡ k.checks → stop_checks k ≡ going (record k { wg = 0 })
unfolding stop_checks
stop_checks_full k h = ground arith

became-IsBalanced :
    (found : ℕ) (k : Control)
    → IsBalanced false k
    → Goes (IsBalanced true) (control_step (became_master found) k)
unfolding control_step
became-IsBalanced found k b =
    rw (start_checks_free found k b.counted)
      (record { counted = refl; one_reaper = omega (arith, b.one_reaper); cancels = refl })

stop_reaper_balanced :
    (k : Control)
    → k.can_cancel_reaper ≡ true
    → stop_reaper k ≡ record k { reapers = k.reapers - 1; can_cancel_reaper = false }
unfolding stop_reaper
stop_reaper_balanced k h = rw h

lost-IsBalanced :
    (k : Control) → IsBalanced true k → Goes (IsBalanced false) (control_step lost_master k)
unfolding control_step
lost-IsBalanced k b =
    rw (stop_checks_full k b.counted, stop_reaper_balanced (record k { wg = 0 }) b.cancels)
      (record { counted = refl; one_reaper = omega (arith, b.one_reaper); cancels = refl })

restart_full :
    (found : ℕ) (k : Control)
    → k.wg ≡ k.checks
    → k.can_cancel_reaper ≡ true
    → restart found k
      ≡ going (record k {
        checks = found;
        wg = found;
        reapers = k.reapers - 1 + 1;
        can_cancel_reaper = true;
        state_reapers = k.state_reapers + 1;
      })
unfolding restart
restart_full found k full cancels = ground arith

restart-IsBalanced :
    (found : ℕ) (k : Control)
    → IsBalanced true k
    → Goes (IsBalanced true) (control_step (reload true found) k)
unfolding control_step
restart-IsBalanced found k b =
    rw (restart_full found k b.counted b.cancels)
      (record { counted = refl; one_reaper = omega (arith, b.one_reaper); cancels = refl })

step-IsBalanced :
    (b b' : Bool) (o : Outcome) (es : List ControlEvent)
    → ((k : Control) → IsBalanced b k → Goes (IsBalanced b') (run_control es k))
    → Goes (IsBalanced b) o
    → Goes (IsBalanced b') (and_go o (run_control es))
step-IsBalanced b b' (going k) es rest h = rest k h
step-IsBalanced b b' blocked es rest h = h
step-IsBalanced b b' crashed es rest h = h

-- As long as changes of mastership alternate and are handled before the reloads that follow them,
-- the control loop never blocks in Wait and never crashes in Done, and it ends with the wait group
-- counting the checks, and one reaper running, exactly if the last change made it the master.
pub run_control-IsBalanced :
    (b b' : Bool) (es : List ControlEvent) (k : Control)
    → InOrder b es b'
    → IsBalanced b k
    → Goes (IsBalanced b') (run_control es k)
unfolding run_control
run_control-IsBalanced b b' [] k o h = rw (← o) h
run_control-IsBalanced false b' (became_master found ∷ es) k o h =
    step-IsBalanced true b' _ es (λ k'. run_control-IsBalanced true b' es k' o)
      (became-IsBalanced found k h)
run_control-IsBalanced true b' (lost_master ∷ es) k o h =
    step-IsBalanced false b' _ es (λ k'. run_control-IsBalanced false b' es k' o)
      (lost-IsBalanced k h)
run_control-IsBalanced true b' (reload true found ∷ es) k o h =
    step-IsBalanced true b' _ es (λ k'. run_control-IsBalanced true b' es k' o)
      (restart-IsBalanced found k h)
run_control-IsBalanced false b' (reload false found ∷ es) k o h =
    run_control-IsBalanced false b' es k o h
run_control-IsBalanced true b' (became_master found ∷ es) k o h = absurd o
run_control-IsBalanced true b' (reload false found ∷ es) k o h = absurd o
run_control-IsBalanced false b' (lost_master ∷ es) k o h = absurd o
run_control-IsBalanced false b' (reload true found ∷ es) k o h = absurd o

-- A reload handled with isMaster already set, but before the signal that set it, starts the checks;
-- when that signal is then handled, the loop waits for ever, unless no khcheck was found.
pub early_reload_blocks :
    (found again : ℕ) (es : List ControlEvent)
    → 0 < found
    → run_control (reload true found ∷ became_master again ∷ es) new_control ≡ blocked
unfolding run_control control_step stop_checks start_checks
early_reload_blocks found again es h = ground arith

-- Once the checks are stopped, stopping them again crashes the program if there is any: a replica
-- that has lost the mastership crashes when it shuts down.
pub stop_twice_crashes :
    (k : Control) → 0 < k.checks → k.wg ≡ k.checks → and_go (stop_checks k) stop_checks ≡ crashed
unfolding stop_checks
stop_twice_crashes k some_checks full = ground arith

-- How often an event starts the checks.
abbrev starts_once : ControlEvent → ℕ
starts_once (became_master found) = 1
starts_once lost_master = 0
starts_once (reload is_master found) = if is_master then 1 else 0

abbrev pub starts : List ControlEvent → ℕ
starts [] = 0
starts (e ∷ es) = starts_once e + starts es

control_step-starts :
    (e : ControlEvent) (k k' : Control)
    → control_step e k ≡ going k'
    → k'.state_reapers ≡ k.state_reapers + starts_once e
unfolding control_step
control_step-starts (became_master found) k k' h = ground arith
control_step-starts lost_master k k' h = ground arith
control_step-starts (reload is_master found) k k' h = ground arith

going_cases :
    (o : Outcome) (f : Control → Outcome) (k'' : Control)
    → and_go o f ≡ going k''
    → (k' : Control) × (o ≡ going k') × (f k' ≡ going k'')
going_cases (going k) f k'' h = (k, refl, h)
going_cases blocked f k'' h = cc
going_cases crashed f k'' h = cc

-- No event ends a khstate reaper: a run of the loop that goes on leaves as many more of them as it
-- has started checks, reloads included.
pub run_control-starts :
    (es : List ControlEvent) (k k' : Control)
    → run_control es k ≡ going k'
    → k'.state_reapers ≡ k.state_reapers + starts es
unfolding run_control
run_control-starts [] k k' h = ground arith
run_control-starts (e ∷ es) k k'' h =
    let (k', one, rest) = going_cases (control_step e k) (run_control es) k'' h in
    omega (arith, control_step-starts e k k' one, run_control-starts es k' k'' rest)
