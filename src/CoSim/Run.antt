-- ===== src/CoSim/Run.antt =====
-- The run of a `CoSimulationScheduler` of src/cosim.rs: `next_time` and `run`.
pub mod Target
pub mod Lawful
pub mod Steps
pub mod Whole
use mathlib.Core.Option
use sim_core.Prelude.{
  ℕ, suc, ◌+◌, min, String, Bool, true, false, not, List, [], ◌∷◌, Option, none, some, ltb, leb,
  ◌==◌, if◌then◌else◌, length,
}
use sim_core.Prelude.Loop.{Round, halt, again, loop}
use sim_core.Prelude.Result.{Result, ok, err, fail, reject, ◌>>=◌, ◌>>◌}
use sim_core.Control.{ExecutionControl, validate_policy, check_execution}
use sim_core.Float.{Float}
use sim_core.CoSim.{
  CoSimulationConfig, CoSimulationLink, CoSimulationStats, Backend, saturating_add, validate_config,
}
use sim_core.CoSim.Ports.{Fleet, CoSimulationScheduler}
use sim_core.CoSim.Links.{validated_links}
use sim_core.CoSim.Settle.{Settlement, settle_links}
use sim_core.CoSim.Record.{Signals, new_recorder, record_signals}

module _ (fl : Float) {P : Type 0} (backend : Backend fl P) where
  open fl use {F}

  -- The test of one participant's next event.
  earlier : ℕ → Option ℕ → ℕ → Result ℕ
  earlier now none target = ok target
  earlier now (some event) target = do
    reject (leb event now) "cosim_event_time_invalid"
    ok (min target event)

  -- The loop of `next_time`.
  earliest : ℕ → Fleet P → ℕ → Result ℕ
  unfolding earlier
  earliest now [] target = ok target
  earliest now ((id, participant) ∷ participants) target = do
    target' ← earlier now (backend.next_event_time participant) target
    earliest now participants target'

  unfoldable pub next_time : CoSimulationConfig → Fleet P → ℕ → Result ℕ
  unfolding earliest saturating_add
  next_time config participants now =
      earliest now participants (min (saturating_add now config.max_step) config.stop)

  -- The participants after a loop over them, and the instant of the next check.
  abbrev pub Moved : Type 0
  Moved = Fleet P × ℕ

  -- The loop that initializes the participants.
  unfoldable pub initialize_all : ExecutionControl → ℕ → Fleet P → Result (Fleet P)
  initialize_all control instant [] = ok []
  initialize_all control instant ((id, participant) ∷ participants) = do
    participant' ← backend.initialize control instant participant
    reject (not (backend.current_time participant' == 0)) "cosim_participant_time_invalid"
    participants' ← initialize_all control instant participants
    ok ((id, participant') ∷ participants')

  -- The loop that advances the participants, counting them.
  unfoldable pub advance_all : ExecutionControl → ℕ → ℕ → Fleet P → ℕ → Result (Moved × ℕ)
  advance_all control target instant [] advances = ok (([], instant), advances)
  advance_all control target instant ((id, participant) ∷ participants) advances = do
    check_execution control instant
    participant' ← backend.advance_to control instant target participant
    reject (not (backend.current_time participant' == target)) "cosim_participant_time_invalid"
    ((participants', instant'), advances') ←
        advance_all control target (suc instant) participants (suc advances)
    ok ((((id, participant') ∷ participants'), instant'), advances')

  -- The variables of the loop of `run`.
  pub record RunState : Type 0 where
    pub participants : Fleet P
    pub recorder : Signals F
    pub stats : CoSimulationStats
    pub now : ℕ
    pub instant : ℕ

  -- The body of the loop, once `now < stop`.
  unfoldable pub macro_step :
      CoSimulationConfig → ExecutionControl → List CoSimulationLink → RunState → Result RunState
  unfolding next_time advance_all
  macro_step config control links s = do
    check_execution control s.instant
    reject (leb config.max_steps s.stats.macro_steps) "cosim_step_limit"
    target ← next_time config s.participants s.now
    reject (leb target s.now) "cosim_time_stalled"
    ((participants, instant), advances) ←
        advance_all control target (suc s.instant) s.participants s.stats.participant_advances
    settled ←
        settle_links fl backend config.max_delta_cycles control instant target links participants
    recorder ← record_signals fl backend target settled.participants s.recorder
    ok (record {
      participants = settled.participants;
      recorder = recorder;
      stats = record {
        macro_steps = s.stats.macro_steps + 1;
        delta_cycles = s.stats.delta_cycles + settled.changed_cycles;
        participant_advances = advances;
      };
      now = target;
      instant = settled.instant;
    })

  unfoldable pub run_round :
      CoSimulationConfig
      → ExecutionControl
      → List CoSimulationLink
      → RunState
      → Result (Round RunState)
  unfolding macro_step
  run_round config control links s =
      if ltb s.now config.stop
      then (do s' ← macro_step config control links s; ok (again s'))
      else ok (halt s)

  -- `run` up to its loop: the checks, the initial settlement and the first record.
  unfoldable pub start :
      ExecutionControl → CoSimulationScheduler P → Result (List CoSimulationLink × RunState)
  unfolding initialize_all
  start control s = do
    validate_config s.config
    validate_policy control.policy
    check_execution control 0
    links ← validated_links fl backend s
    participants ← initialize_all control 1 s.participants
    signals ← new_recorder fl backend participants
    settled ← settle_links fl backend s.config.max_delta_cycles control 1 0 links participants
    recorder ← record_signals fl backend 0 settled.participants signals
    ok (
      links,
      record {
        participants = settled.participants;
        recorder = recorder;
        stats = record {
          macro_steps = 0;
          delta_cycles = settled.changed_cycles;
          participant_advances = 0;
        };
        now = 0;
        instant = settled.instant;
      },
    )

  -- `run`, up to the report; `none` means that the fuel ran out.
  unfoldable pub run : ℕ → ExecutionControl → CoSimulationScheduler P → Option (Result RunState)
  unfolding run_round start loop
  run fuel control s = elim (start control s) [
    | err e ↦ some (err e)
    | ok started ↦ loop fuel (run_round s.config control started.0) started.1
  ]
