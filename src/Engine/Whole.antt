-- ===== src/Engine/Whole.antt =====
-- A whole run of the digital engine of src/digital.rs returns, with faithful histories.
use sim_core.Prelude.{
  ℕ, ◌+◌, ◌-◌, ◌≤◌, ◌<◌, ◌≡◌, refl, sym, subst, String, List, [], ◌∷◌, Option, none, some, arith,
  map, Bool-cases, inl, inr, or_default,
}
use sim_core.Prelude.Map.{lookup, insert, string_key, same, lookup-insert}
use sim_core.Prelude.Loop.{Turn, Returns, loop, loop-Returns}
use sim_core.Prelude.Result.{Result, ok, err, Ensures, Ensures-after, Ensures-bind, Result-cases}
use sim_core.Control.{ExecutionControl, check_execution}
use sim_core.Float.{Float}
use sim_core.Logic.{unknown}
use sim_core.Waveform.{DigitalTransition, EndsAt}
use sim_core.Primitive.{NetValues, for_component}
use sim_core.Events.{ScheduledEvent, Agenda, max_digital_events}
use sim_core.Events.Ledger.{Balanced}
use sim_core.Program.{DigitalProgram}
use sim_core.Session.Start.{unknown_nets, empty_agenda, Started}
use sim_core.Session.Start.Opening.{Open, schedule_initial-Returns}
use sim_core.Engine.{
  Histories, EngineState, engine_batch, serve_event, engine_round, initial_histories, engine_start,
  engine_allowed, run_engine,
}
use sim_core.Engine.Faithful.{Faithful, Sound, engine_batch-Sound}

module _ (fl : Float) where
  open fl use {F, zero_time, lt}

  -- The end of a run. The event that ended it is no longer counted among those waiting.
  pub record Completed (s : EngineState F) : Type 0 where
    pub faithful : Faithful s.histories s.net_values
    pub within : s.processed_events ≤ max_digital_events

  abbrev events_left : EngineState F → ℕ
  events_left s = max_digital_events - s.processed_events

  serve_event-Turn :
      (control : ExecutionControl) (program : DigitalProgram F) (stop : F)
      (queue : List (ScheduledEvent F)) (s : EngineState F)
      → s.agenda.queue ≡ queue
      → Sound fl s
      → Ensures
          (Turn (Sound fl) Completed events_left s)
          (serve_event fl control program stop queue s)
  unfolding serve_event
  serve_event-Turn control program stop [] s e sound = record {
    faithful = sound.faithful;
    within = sound.within;
  }
  serve_event-Turn control program stop (first ∷ queue) s e sound =
      let now = record s { instant = s.instant + 1 } in
      let Good = Turn (Sound fl) Completed events_left s in
      Ensures-after Good (check_execution control s.instant) _ (λ u on.
        elim (Bool-cases (lt stop first.time)) [
          | inl late ↦ rw late (record { faithful = sound.faithful; within = sound.within })
          | inr due ↦ rw due (
              Ensures-bind _ Good (engine_batch fl control program stop first queue now) _
                (engine_batch-Sound fl control program stop first queue now e (record {
                  faithful = sound.faithful;
                  balanced = sound.balanced;
                  within = sound.within;
                }))
                (λ s' h. (h.0, omega (arith, h.1, h.0.within))))
        ])

  engine_round-Turn :
      (control : ExecutionControl) (program : DigitalProgram F) (stop : F) (s : EngineState F)
      → Sound fl s
      → Ensures (Turn (Sound fl) Completed events_left s) (engine_round fl control program stop s)
  unfolding engine_round
  engine_round-Turn control program stop s sound =
      serve_event-Turn control program stop s.agenda.queue s refl sound

  abbrev AllUnknown : NetValues → Type 0
  AllUnknown net_values = (net : String) → or_default (lookup net net_values) unknown ≡ unknown

  unknown_nets-AllUnknown :
      (nets : List String) (net_values : NetValues)
      → AllUnknown net_values
      → AllUnknown (unknown_nets fl nets net_values)
  unfolding unknown_nets
  unknown_nets-AllUnknown [] nv h = h
  unknown_nets-AllUnknown (net ∷ nets) nv h =
      unknown_nets-AllUnknown nets (insert net unknown nv)
        (λ other. ground (arith, lookup-insert net other unknown nv, h other))

  abbrev Untold : Histories F → Type 0
  Untold histories =
      (net : String) (history : List (DigitalTransition F))
      → lookup net histories ≡ some history
      → EndsAt unknown history

  initial_histories-Untold :
      (nets : List String) (histories : Histories F)
      → Untold histories
      → Untold (initial_histories fl nets histories)
  unfolding initial_histories
  initial_histories-Untold [] histories h = h
  initial_histories-Untold (net ∷ nets) histories h =
      let start : DigitalTransition F = record { time = zero_time; value = unknown } in
      initial_histories-Untold nets (insert net (start ∷ []) histories) (λ other history e.
        let put = lookup-insert net other (start ∷ []) histories in
        elim (Bool-cases (same other net)) [
          | inl now ↦
              let first : start ∷ [] ≡ history = ground (arith, put) in
              subst (EndsAt unknown) first (start, refl, refl)
          | inr before ↦ h other history (ground (arith, put))
        ])

  engine_start-Sound :
      (program : DigitalProgram F) (agenda : Agenda F) (instant : ℕ)
      → Balanced 0 agenda
      → Sound fl (engine_start fl program agenda instant)
  unfolding engine_start lookup
  engine_start-Sound program agenda instant b =
      let unknowns = unknown_nets-AllUnknown program.nets [] (λ net. refl) in
      record {
        faithful = λ net history e.
            subst (λ v. EndsAt v history) (sym (unknowns net))
              (initial_histories-Untold program.nets [] (λ n h none_there. cc) net history e);
        balanced = b;
        within = omega arith;
      }

  -- With fuel for the event limit, a run of the digital engine returns. It returns an error, or a state in
  -- which the history of every net ends with the net's level, and the processed events are within the
  -- limit.
  pub run_engine-Completed :
      (fuel : ℕ) (control : ExecutionControl) (program : DigitalProgram F) (stop : F)
      → max_digital_events < fuel
      → Returns Completed (run_engine fl fuel control program stop)
  unfolding run_engine
  run_engine-Completed fuel control program stop enough =
      elim (Result-cases (engine_allowed fl control)) [
        | inr (e, bad) ↦ rw (bad, run_engine) tt
        | inl (u, good) ↦
            rw (good, run_engine)
              (go _ (
                schedule_initial-Returns fl fuel control stop 0 program.components
                  (map for_component program.components) (empty_agenda fl, 1) enough
                  (record { counted = refl; numbered = refl; limited = omega arith; fresh = tt })))
      ]
    where
      go :
          (o : Option (Result (Started fl)))
          → Returns (Open fl) o
          → Returns Completed (elim o [
            | none ↦ none
            | some (err e) ↦ some (err e)
            | some (ok (agenda, instant)) ↦
                loop fuel
                  (engine_round fl control program stop)
                  (engine_start fl program agenda instant)
          ])
      go none r = r
      go (some (err e)) r = tt
      go (some (ok (agenda, instant))) r =
          loop-Returns (Sound fl) Completed events_left (engine_round fl control program stop)
            (engine_round-Turn control program stop) fuel (engine_start fl program agenda instant)
            (engine_start-Sound program agenda instant r) (omega (arith, enough))
