-- ===== src/Session/Participant.antt =====
-- The operations of `DigitalParticipantSession` of src/digital.rs on a session in progress.
pub mod Contract
pub mod Idle
use mathlib.Core.Option
use sim_core.Prelude.{
  ℕ, ◌+◌, ◌-◌, ◌^◌, min, String, Bool, true, false, not, ◌&&◌, ◌||◌, List, [], ◌∷◌, Option, none,
  some, or_default, ltb, leb, ◌==◌, if◌then◌else◌,
}
use sim_core.Prelude.Map.{lookup, insert, contains, string_key}
use sim_core.Prelude.Result.{Result, ok, err, fail, reject, ok_or, ◌>>◌}
use sim_core.Control.{ExecutionControl}
use sim_core.Float.{Float}
use sim_core.Logic.{LogicValue, unknown, logic_eq}
use sim_core.Events.{ScheduledEvent}
use sim_core.Program.{dependents_of}
use sim_core.Session.{DigitalSession, evaluate_components, process_until}

module _ (fl : Float) where
  open fl use {
    F, zero_time, half_tick, tick_rate, u64_max, add, mul, ceil, lt, to_u64, is_finite, as_seconds,
  }

  arrive : ℕ → Result (DigitalSession F) → Result (DigitalSession F)
  arrive target (ok s) = ok (record s { current_time = target })
  arrive target (err e) = err e

  changed : Result (DigitalSession F) → Result (DigitalSession F × Bool)
  changed (ok s) = ok (s, true)
  changed (err e) = err e

  unfoldable pub advance_to :
      ℕ → ExecutionControl → ℕ → DigitalSession F → Option (Result (DigitalSession F))
  unfolding arrive
  advance_to fuel control target s =
      if ltb target s.current_time || lt (add s.stop half_tick) (as_seconds target)
      then some (fail "digital_cosim_time_invalid")
      else Option.map (arrive target) (process_until fl fuel control (as_seconds target) s)

  -- A write at the current time; the flag says whether the input changed.
  unfoldable pub write_external :
      ℕ
      → ExecutionControl
      → String
      → ℕ
      → LogicValue
      → DigitalSession F
      → Option (Result (DigitalSession F × Bool))
  unfolding changed
  write_external fuel control net time value s =
      if not (time == s.current_time)
      then some (fail "digital_cosim_time_invalid")
      else if not (contains net s.external_inputs)
      then some (fail "digital_cosim_binding_invalid")
      else if logic_eq (or_default (lookup net s.net_values) unknown) value
      then some (ok (s, false))
      else let now = as_seconds s.current_time in
        elim (evaluate_components fl control (dependents_of s.program net) now
          (record s { net_values = insert net value s.net_values })) [
            | err e ↦ some (err e)
            | ok s' ↦ Option.map changed (process_until fl fuel control now s')
          ]

  unfoldable pub read_net : String → DigitalSession F → Result LogicValue
  read_net net s = ok_or (lookup net s.net_values) "digital_cosim_binding_invalid"

  -- `digital_seconds_to_future_cosim_time`.
  unfoldable pub future_time : F → ℕ → Result ℕ
  future_time seconds current = do
    reject (not (is_finite seconds) || lt seconds zero_time) "digital_cosim_time_invalid"
    let ticks = ceil (mul seconds tick_rate)
    reject (lt u64_max ticks) "digital_cosim_time_invalid"
    let time = to_u64 ticks
    ok (
        if leb time current && lt (as_seconds current) seconds
        then min (current + 1) (2 ^ 64 - 1)
        else time)

  -- `.ok()` of a result.
  abbrev optional {ℓ} : {A : Type ℓ} → Result A → Option A
  optional (ok a) = some a
  optional (err e) = none

  peek_time : List (ScheduledEvent F) → ℕ → Option ℕ
  unfolding future_time
  peek_time [] current = none
  peek_time (e ∷ queue) current = optional (future_time e.time current)

  unfoldable pub next_event_time : DigitalSession F → Option ℕ
  unfolding peek_time
  next_event_time s = peek_time s.agenda.queue s.current_time
