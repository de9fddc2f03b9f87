-- ===== src/Events.antt =====
-- The event queue of src/digital.rs: `ScheduledEvent`, its order, `schedule_output`, and taking the
-- batch of the next instant. `BinaryHeap` is a list with its greatest element first.
pub mod Order
pub mod Ledger
use sim_core.Prelude.{
  then_with, ℕ, suc, ◌+◌, ◌%◌, ◌^◌, Ordering, compare, Bool, true, false, not, ◌||◌, List, [], ◌∷◌,
  Option, none, some, length, ltb, if◌then◌else◌,
}
use sim_core.Prelude.Result.{Result, ok, err, reject, fail, ◌>>=◌, ◌>>◌}
use sim_core.Logic.{LogicValue}
use sim_core.Logic.Resolve.{DriverKey}
use sim_core.Float.{Float}

-- `MAX_DIGITAL_EVENTS`.
abbrev pub max_digital_events : ℕ
max_digital_events = 1_000_000

pub record ScheduledEvent (F : Type 0) : Type 0 where
  pub time : F
  pub sequence : ℕ
  pub driver : DriverKey
  pub value : LogicValue

-- The variables that `schedule_output` changes.
pub record Agenda (F : Type 0) : Type 0 where
  pub queue : List (ScheduledEvent F)
  pub sequence : ℕ
  pub scheduled_events : ℕ

module _ (fl : Float) where
  open fl use {F, zero_time, lt, same_bits, is_finite, total_cmp}

  -- `Ord for ScheduledEvent`: the earlier event is the greater one.
  abbrev pub event_cmp : ScheduledEvent F → ScheduledEvent F → Ordering
  event_cmp self other =
      then_with (total_cmp other.time self.time) (compare other.sequence self.sequence)

  unfoldable pub push : ScheduledEvent F → List (ScheduledEvent F) → List (ScheduledEvent F)
  push e [] = e ∷ []
  push e (x ∷ queue) =
      let rest = push e queue in elim (event_cmp e x) [ Ordering.gt ↦ e ∷ x ∷ queue | _ ↦ x ∷ rest ]

  -- The event with the next sequence number enters the queue; the number wraps at 64 bits.
  unfoldable pub enter : F → DriverKey → LogicValue → Agenda F → Agenda F
  unfolding push
  enter time driver value a = record {
    queue =
        push (record { time = time; sequence = a.sequence; driver = driver; value = value })
          a.queue;
    sequence = (a.sequence + 1) % 2 ^ 64;
    scheduled_events = a.scheduled_events + 1;
  }

  -- `schedule_output`.
  unfoldable pub schedule_output : F → ℕ → ℕ → LogicValue → Agenda F → Result (Agenda F)
  unfolding enter
  schedule_output time component output value a = do
    reject (not (is_finite time) || lt time zero_time) "digital_invalid_event_time"
    reject (ltb max_digital_events (a.scheduled_events + 1)) "execution_resource_limit"
    ok (enter time (record { component = component; output = output }) value a)

  -- The loop that pops the events of the same instant: those taken, and what is left.
  unfoldable pub take_same :
      F → List (ScheduledEvent F) → List (ScheduledEvent F) × List (ScheduledEvent F)
  take_same time [] = ([], [])
  take_same time (e ∷ queue) =
      let more = take_same time queue in
      if same_bits e.time time then (e ∷ more.0, more.1) else ([], e ∷ queue)
