-- ===== src/Engine/Recorded.antt =====
-- A whole run of the digital engine of src/digital.rs records every net of its program.
use sim_core.Prelude.{
  ℕ, ◌≤◌, ◌<◌, ◌≡◌, String, List, Option, none, some, or_default, inl, inr, is_some, sym, ap, ◌∙◌,
  Option-cases,
}
use mathlib.Core.Bool.{false≢true}
use sim_core.Prelude.Map.{lookup, string_key}
use sim_core.Prelude.Loop.{Returns}
use sim_core.Prelude.Result.{Result, ok, err}
use sim_core.Prelude.Safe.{SafeRun}
use sim_core.Control.{ExecutionControl}
use sim_core.Float.{Float}
use sim_core.Logic.{unknown}
use sim_core.Waveform.{DigitalTransition, EndsAt}
use sim_core.Events.{max_digital_events}
use sim_core.Program.{DigitalProgram}
use sim_core.Program.Compile.Sound.{IsSound}
use sim_core.Session.Safe.{IsNet}
use sim_core.Engine.{EngineState, run_engine}
use sim_core.Engine.Calm.{Steady, run_engine-Safe}
use sim_core.Engine.Whole.{Completed, run_engine-Completed}

module _ (fl : Float) (program : DigitalProgram fl.F) (sound : IsSound program) where
  open fl use {F}

  -- Every net of the program has a history, which ends with the net's level.
  pub record Recorded (s : EngineState F) : Type 0 where
    pub recorded :
        (net : String)
        → IsNet program net
        → (history : List (DigitalTransition F)) × (lookup net s.histories ≡ some history)
          × EndsAt (or_default (lookup net s.net_values) unknown) history
    pub within : s.processed_events ≤ max_digital_events

  Recorded-of : (s : EngineState F) → Completed fl s → Steady fl program sound s → Recorded s
  Recorded-of s completed steady = record {
    recorded = λ net is_net. elim (Option-cases (lookup net s.histories)) [
      | inl missing ↦ absurd (false≢true (ap is_some (sym missing) ∙ steady.kept net is_net))
      | inr (history, found) ↦ (history, found, completed.faithful net history found)
    ];
    within = completed.within;
  }

  both :
      (o : Option (Result (EngineState F)))
      → Returns (Completed fl) o
      → SafeRun (Steady fl program sound) o
      → Returns Recorded o
  both none r s = r
  both (some (err e)) r s = tt
  both (some (ok st)) r s = Recorded-of st r s

  -- With fuel for the event limit, a run of the digital engine on a sound program returns. It returns an
  -- error, or a state in which every net of the program has a history, which ends with the level of the
  -- net, and the processed events are within the limit.
  pub run_engine-Recorded :
      (fuel : ℕ) (control : ExecutionControl) (stop : F)
      → max_digital_events < fuel
      → Returns Recorded (run_engine fl fuel control program stop)
  run_engine-Recorded fuel control stop enough =
      both (run_engine fl fuel control program stop)
        (run_engine-Completed fl fuel control program stop enough)
        (run_engine-Safe fl program sound fuel control stop)
