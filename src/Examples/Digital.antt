-- ===== src/Examples/Digital.antt =====
-- The event queue and the sessions of src/digital.rs at concrete inputs. Times are fixed-point numbers
-- with one binary digit after the point, in picoseconds.
use sim_core.Prelude.{
  ℕ, ◌+◌, ◌-◌, ◌*◌, ◌/◌, ◌^◌, refl, true, false, [], ◌∷◌, compare, ltb, leb, ◌==◌, arith, inl, inl,
}
use sim_core.Prelude.Loop.{Returns}
use sim_core.Prelude.Result.{Ensures}
use sim_core.Float.{Float, BitOrder, LaterOrder}
use sim_core.Control.{ExecutionControl}
use sim_core.Logic.{low, high, unknown, high_impedance, inverter}
use sim_core.Logic.Resolve.{DriverKey}
use sim_core.Primitive.{gate}
use sim_core.Events.{ScheduledEvent, Agenda, push, take_same}
use sim_core.Events.Order.{InOrder, push-InOrder, IsBatch, take_same-IsBatch}
use sim_core.Events.Ledger.{Balanced}
use sim_core.Program.{DigitalProgram}
use sim_core.Session.{DigitalSession, process_batch, process_until}
use sim_core.Prelude.Map.{string_key}
use sim_core.Session.Ledger.{Progress, process_batch-Progress}
use sim_core.Session.Due.{Timely, Idle, process_until-Idle}
use sim_core.Session.Start.{new}
use sim_core.Session.Start.Opening.{Fresh, new-Fresh}

-- `2 * n` stands for `n`.
abbrev pub halves : Float
halves = record {
  F = ℕ;
  zero_time = 0;
  half_tick = 1;
  tick_rate = 2;
  u64_max = 2 * (2 ^ 64 - 1);
  add = ◌+◌;
  mul = λ a b. a * b / 2;
  ceil = λ a. (a + 1) / 2 * 2;
  one_minus = λ a. 2 - a;
  to_u64 = λ a. a / 2;
  lt = ltb;
  le = leb;
  same_bits = ◌==◌;
  is_finite = λ a. true;
  total_cmp = compare;
  as_seconds = λ t. 2 * t;
}

abbrev pub halves_order : BitOrder halves
halves_order = record { key = λ a. a; total_cmp_key = λ a b. refl; same_bits_key = λ a b. refl }

abbrev pub driver : DriverKey
driver = record { component = 0; output = 0 }

abbrev pub at_two : ScheduledEvent ℕ
at_two = record { time = 4; sequence = 0; driver = driver; value = high }

abbrev at_three : ScheduledEvent ℕ
at_three = record { time = 6; sequence = 1; driver = driver; value = low }

take_same-IsBatch_example :
    IsBatch halves halves_order 4
      (at_two ∷ at_three ∷ [])
      (take_same halves 4 (at_two ∷ at_three ∷ []))
take_same-IsBatch_example =
    take_same-IsBatch halves halves_order 4 (at_two ∷ at_three ∷ [])
      (omega arith, (omega arith, tt)) ((inl (omega arith), tt), (tt, tt))

push-InOrder_example : InOrder halves halves_order (push halves at_two (at_three ∷ []))
push-InOrder_example = push-InOrder halves halves_order at_two (at_three ∷ []) (tt, tt)

abbrev nothing : Agenda ℕ
nothing = record { queue = []; sequence = 0; scheduled_events = 0 }

nothing-Balanced : Balanced 0 nothing
nothing-Balanced = record { counted = refl; numbered = refl; limited = omega arith; fresh = tt }

-- One inverter from the external input `a` to `y`, with a delay of 2 ps.
abbrev pub inverters : DigitalProgram ℕ
inverters = record {
  components =
      record {
        primitive = gate inverter;
        input_nets = ("in", "a") ∷ [];
        output_nets = ("out", "y") ∷ [];
        delay = 4;
        initial_scalar = unknown;
        initial_vector = [];
      }
      ∷ [];
  dependents = ("a", 0 ∷ []) ∷ [];
  net_drivers = ("y", driver ∷ []) ∷ [];
  nets = "a" ∷ "y" ∷ [];
  probes = [];
}

-- `a` has gone low, and the output will go high.
abbrev pub waiting : DigitalSession ℕ
waiting = record {
  program = inverters;
  stop = 200;
  current_time = 0;
  net_values = ("a", low) ∷ ("y", unknown) ∷ [];
  driver_values = (driver, high_impedance) ∷ [];
  runtime_states = record { q = unknown; bits = []; previous_clock = unknown } ∷ [];
  agenda = record { queue = at_two ∷ []; sequence = 1; scheduled_events = 1 };
  processed_events = 0;
  external_inputs = "a" ∷ [];
  instant = 0;
}

-- Never cancelled, and without a timeout.
abbrev pub quiet : ExecutionControl
quiet = record {
  policy = record {
    timeout_ms = 0;
    poll_interval_ms = 10;
    max_input_bytes = 1024;
    max_output_bytes = 1024;
    max_log_bytes = 1024;
  };
  is_cancelled = λ i. false;
  elapsed_ms = λ i. 0;
}

process_batch-Progress_example :
    Ensures (Progress halves waiting) (process_batch halves quiet at_two [] waiting)
process_batch-Progress_example = process_batch-Progress halves quiet at_two [] waiting refl

pub halves_later : LaterOrder halves halves_order
halves_later = record { later_on = λ t u v h k f. ground arith }

pub waiting-Timely : Timely halves halves_order waiting.agenda.queue
waiting-Timely = record { in_order = (tt, tt); finite = (refl, tt) }

process_until-Idle_example :
    Returns
      (Idle halves halves_order halves_later 20 waiting)
      (process_until halves 1_000_001 quiet 20 waiting)
process_until-Idle_example =
    process_until-Idle halves halves_order halves_later 1_000_001 quiet 20 waiting (omega arith)
      (omega arith) waiting-Timely

new-Fresh_example : Returns (Fresh halves) (new halves 1_000_001 quiet inverters 200 ("a" ∷ []))
new-Fresh_example = new-Fresh halves 1_000_001 quiet inverters 200 ("a" ∷ []) (omega arith)
