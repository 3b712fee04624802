-- ===== src/Master/Monitor.antt =====
-- masterStatusWatcher and masterMonitor of cmd/kuberhealthy/kuberhealthy.go as one machine over pod
-- events and ticks.
use kuberhealthy.Prelude.{
  ℕ, ◌-◌, Bool, true, false, not, ◌&&◌, ◌≡◌, refl, inl, inr, ◌∙◌, List, [], ◌∷◌, ◌++◌, map, any,
  ltb, leb, arith, if◌then◌else◌, Bool-cases,
}

-- The globals isMaster, upcomingMasterState and lastMasterChangeTime.
pub record Monitor : Type 0 where
  pub is_master : Bool
  pub upcoming_master_state : Bool
  pub last_master_change_time : ℕ

pub data Signal : Type 0 where
  became_master lost_master : Signal

pub data Event : Type 0 where
  -- A watched pod changed, and IAmMaster answers the Boolean.
  pod_event : (now : ℕ) → (answer : Bool) → Event
  -- The ticker fires.
  tick : (now : ℕ) → Event

-- `interval := time.Second * 10`
abbrev pub interval : ℕ
interval = 10000000000

-- The two sends of a tick.
abbrev pub signals_of : (going_to_be_master is_master : Bool) → List Signal
signals_of going_to_be_master is_master =
    if going_to_be_master && not is_master
    then became_master ∷ []
    else if not going_to_be_master && is_master
    then lost_master ∷ []
    else []

unfoldable pub monitor_step : Monitor → Event → Monitor × List Signal
monitor_step m (pod_event now answer) =
    (record m { upcoming_master_state = answer; last_master_change_time = now }, [])
monitor_step m (tick now) = if ltb (now - m.last_master_change_time) interval then (m, []) else (
  record m { is_master = m.upcoming_master_state },
  signals_of m.upcoming_master_state m.is_master,
)

unfoldable pub run_monitor : Monitor → List Event → Monitor × List Signal
unfolding monitor_step
run_monitor m [] = (m, [])
run_monitor m (e ∷ es) =
    let (m', sent) = monitor_step m e in let (m'', rest) = run_monitor m' es in (m'', sent ++ rest)

-- The signals take a listener that starts from the first flag to the second, and each one changes
-- the listener's mind.
abbrev pub Alternates : Bool → List Signal → Bool → Type 0
Alternates b [] b' = b ≡ b'
Alternates false (became_master ∷ s) b' = Alternates true s b'
Alternates true (lost_master ∷ s) b' = Alternates false s b'
Alternates _ (_ ∷ s) b' = ⊥

Alternates-signals_of :
    (going is : Bool) (s : List Signal) (b : Bool)
    → Alternates going s b
    → Alternates is (signals_of going is ++ s) b
Alternates-signals_of true true s b h = h
Alternates-signals_of true false s b h = h
Alternates-signals_of false true s b h = h
Alternates-signals_of false false s b h = h

-- Over any pod events and ticks the signals that the monitor sends alternate between becoming and
-- losing the master, and a listener that obeys them from the first flag on ends with the monitor's
-- own flag.
pub run_monitor-Alternates :
    (m : Monitor) (es : List Event)
    → Alternates m.is_master (run_monitor m es).1 (run_monitor m es).0.is_master
unfolding run_monitor
run_monitor-Alternates m [] = refl
run_monitor-Alternates m (pod_event now answer ∷ es) = run_monitor-Alternates _ es
run_monitor-Alternates m (tick now ∷ es) =
    elim (Bool-cases (ltb (now - m.last_master_change_time) interval)) [
      | inl waiting ↦ rw waiting (run_monitor-Alternates m es)
      | inr past ↦ rw past (
          Alternates-signals_of m.upcoming_master_state m.is_master _ _
            (run_monitor-Alternates (record m { is_master = m.upcoming_master_state }) es))
    ]

-- The flag after ticks at the given times, none of which meets another pod event.
abbrev pub ticks : List ℕ → List Event
ticks = map tick

-- Some tick comes at least ten seconds after the time.
abbrev pub settled : ℕ → List ℕ → Bool
settled t times = any (λ now. leb interval (now - t)) times

leb_of_not_ltb : (a b : ℕ) → ltb a b ≡ false → leb b a ≡ true
leb_of_not_ltb a b h = ground arith

not_leb_of_ltb : (a b : ℕ) → ltb a b ≡ true → leb b a ≡ false
not_leb_of_ltb a b h = ground arith

tick_waiting :
    (m : Monitor) (now : ℕ) (es : List Event)
    → ltb (now - m.last_master_change_time) interval ≡ true
    → (run_monitor m (tick now ∷ es)).0 ≡ (run_monitor m es).0
unfolding run_monitor
tick_waiting m now es waiting = rw waiting

tick_past :
    (m : Monitor) (now : ℕ) (es : List Event)
    → ltb (now - m.last_master_change_time) interval ≡ false
    → (run_monitor m (tick now ∷ es)).0
      ≡ (run_monitor (record m { is_master = m.upcoming_master_state }) es).0
unfolding run_monitor
tick_past m now es past = rw past

if_same : (b x : Bool) → (if b then x else x) ≡ x
if_same true x = refl
if_same false x = refl

ticks-settle :
    (m : Monitor) (times : List ℕ)
    → (run_monitor m (ticks times)).0.is_master
      ≡ (if settled m.last_master_change_time times then m.upcoming_master_state else m.is_master)
unfolding run_monitor
ticks-settle m [] = refl
ticks-settle m (now ∷ times) = elim (Bool-cases (ltb (now - m.last_master_change_time) interval)) [
  | inl waiting ↦
      rw (tick_waiting m now (ticks times) waiting, not_leb_of_ltb _ _ waiting)
        (ticks-settle m times)
  | inr past ↦
      rw (tick_past m now (ticks times) past, leb_of_not_ltb _ _ past)
        (ticks-settle (record m { is_master = m.upcoming_master_state }) times
          ∙ if_same (settled m.last_master_change_time times) m.upcoming_master_state)
]

-- After a pod event the flag keeps its value until a tick comes at least ten seconds later, and from
-- then on it is the answer of IAmMaster at that event, as long as no other pod event comes.
pub pod_event-settle :
    (m : Monitor) (t : ℕ) (answer : Bool) (times : List ℕ)
    → (run_monitor m (pod_event t answer ∷ ticks times)).0.is_master
      ≡ (if settled t times then answer else m.is_master)
unfolding run_monitor
pod_event-settle m t answer times = ticks-settle _ times
