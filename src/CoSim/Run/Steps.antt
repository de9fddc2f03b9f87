-- ===== src/CoSim/Run/Steps.antt =====
-- The loop of `run` of src/cosim.rs ends at its stop time.
use native.Mathlib.Nat.{add-mul}
use sim_core.Prelude.{
  ℕ, suc, ◌+◌, ◌*◌, ◌^◌, ◌≤◌, ◌<◌, ◌≡◌, refl, ◌∙◌, ap, min, String, not, List, [], ◌∷◌, length,
  arith, leb, leb→lt, ◌==◌, ==_iff,
}
use sim_core.Prelude.Map.{keys, string_key}
use sim_core.Prelude.Result.{Ensures, Ensures-after, Ensures-bind, Ensures-guard}
use sim_core.Control.{ExecutionControl, check_execution}
use sim_core.Float.{Float}
use sim_core.CoSim.{CoSimulationConfig, CoSimulationLink, Backend}
use sim_core.CoSim.Ports.{Fleet}
use sim_core.CoSim.Settle.{settle_links}
use sim_core.CoSim.Settle.Cycles.{At, settle_links-Settles}
use sim_core.CoSim.Record.{record_signals}
use sim_core.CoSim.Record.Histories.{AllTidy, AllShow, record_signals-AllShow}
use sim_core.CoSim.Run.{Moved, RunState, initialize_all, advance_all, next_time, macro_step}
use sim_core.CoSim.Run.Target.{IsTarget, next_time-IsTarget}

module _ (fl : Float) {P : Type 0} (backend : Backend fl P) where
  -- What holds each time that the loop of `run` is reached.
  pub record Running (config : CoSimulationConfig) (ids : List String) (s : RunState fl backend)
      : Type 0 where
    pub same_ids : keys s.participants ≡ ids
    pub together : At fl backend s.now s.participants
    pub tidy : AllTidy fl backend s.recorder
    pub shown : AllShow fl backend s.participants s.recorder
    pub in_time : s.now ≤ config.stop
    pub in_steps : s.stats.macro_steps ≤ config.max_steps
    pub advances : s.stats.participant_advances ≡ s.stats.macro_steps * length ids
    pub cycles :
        s.stats.delta_cycles + s.stats.macro_steps + 1
        ≤ (s.stats.macro_steps + 1) * config.max_delta_cycles

  advance_all-At :
      (control : ExecutionControl) (target instant : ℕ) (fleet : Fleet P) (advances : ℕ)
      → Ensures
          (λ r.
            At fl backend target r.0.0
            × (keys r.0.0 ≡ keys fleet)
            × (r.1 ≡ advances + length (keys fleet)))
          (advance_all fl backend control target instant fleet advances)
  unfolding advance_all
  advance_all-At control target instant [] advances = (tt, refl, omega arith)
  advance_all-At control target instant (entry ∷ fleet) advances =
      let Good = λ (r : Moved fl backend × ℕ).
        At fl backend target r.0.0
        × (keys r.0.0 ≡ keys (entry ∷ fleet))
        × (r.1 ≡ advances + length (keys (entry ∷ fleet))) in
      Ensures-after Good (check_execution control instant) _ (λ u on.
        Ensures-after Good (backend.advance_to control instant target entry.1) _ (λ p moved.
          Ensures-guard Good (not (backend.current_time p == target))
            "cosim_participant_time_invalid" _
            (λ there.
              Ensures-bind _ Good
                (advance_all fl backend control target (suc instant) fleet (suc advances)) _
                (advance_all-At control target (suc instant) fleet (suc advances))
                (λ r h. (
                  (ground (arith, ==_iff (backend.current_time p) target), h.0),
                  ap (λ ks. entry.0 ∷ ks) h.1,
                  omega (arith, h.2),
                )))))

  pub initialize_all-At :
      (control : ExecutionControl) (instant : ℕ) (fleet : Fleet P)
      → Ensures
          (λ fleet'. At fl backend 0 fleet' × (keys fleet' ≡ keys fleet))
          (initialize_all fl backend control instant fleet)
  unfolding initialize_all
  initialize_all-At control instant [] = (tt, refl)
  initialize_all-At control instant (entry ∷ fleet) =
      let Good = λ (after : Fleet P). At fl backend 0 after × (keys after ≡ keys (entry ∷ fleet)) in
      Ensures-after Good (backend.initialize control instant entry.1) _ (λ p begun.
        Ensures-guard Good (not (backend.current_time p == 0)) "cosim_participant_time_invalid" _
          (λ there.
            Ensures-bind _ Good (initialize_all fl backend control instant fleet) _
              (initialize_all-At control instant fleet)
              (λ after h. (
                (ground (arith, ==_iff (backend.current_time p) 0), h.0),
                ap (λ ks. entry.0 ∷ ks) h.1,
              ))))

  -- A macro step from before a stop time that is a `u64`, with a step that is not zero, keeps what holds
  -- of a run: the same participants stand together at a time within the stop time, the histories are tidy
  -- and end with what the ports show, and the counts of steps, advances and cycles agree. It adds one step.
  pub macro_step-Running :
      (config : CoSimulationConfig) (control : ExecutionControl) (links : List CoSimulationLink)
      (ids : List String) (s : RunState fl backend)
      → config.stop < 2 ^ 64
      → 0 < config.max_step
      → s.now < config.stop
      → Running config ids s
      → Ensures
          (λ s'. Running config ids s' × (s'.stats.macro_steps ≡ suc s.stats.macro_steps))
          (macro_step fl backend config control links s)
  unfolding macro_step
  macro_step-Running config control links ids s w p h r =
      let Good = λ (s' : RunState fl backend).
        Running config ids s' × (s'.stats.macro_steps ≡ suc s.stats.macro_steps) in
      Ensures-after Good (check_execution control s.instant) _ (λ u on.
        Ensures-guard Good (leb config.max_steps s.stats.macro_steps) "cosim_step_limit" _ (λ room.
          Ensures-bind
            (IsTarget fl backend s.now (min (s.now + config.max_step) config.stop) s.participants)
            Good (next_time fl backend config s.participants s.now) _
            (next_time-IsTarget fl backend config s.participants s.now h w p)
            (λ target t. Ensures-guard Good (leb target s.now) "cosim_time_stalled" _ (λ later.
              Ensures-bind _ Good
                (advance_all fl backend control target (suc s.instant) s.participants
                  s.stats.participant_advances)
                _
                (advance_all-At control target (suc s.instant) s.participants
                  s.stats.participant_advances)
                (λ moved m.
                  Ensures-bind _ Good
                    (settle_links fl backend config.max_delta_cycles control moved.0.1 target links
                      moved.0.0)
                    _
                    (settle_links-Settles fl backend config.max_delta_cycles control moved.0.1
                      target links moved.0.0)
                    (λ settled q.
                      Ensures-bind _ Good
                        (record_signals fl backend target settled.participants s.recorder) _
                        (record_signals-AllShow fl backend target settled.participants s.recorder
                          r.tidy)
                        (λ recorder rec. (
                          record {
                            same_ids = q.kept.1 ∙ m.1 ∙ r.same_ids;
                            together = q.kept.0 m.0;
                            tidy = rec.0;
                            shown = rec.1;
                            in_time = omega (arith, t.bounded);
                            in_steps = omega (arith, leb→lt _ _ room);
                            advances = omega (
                              arith,
                              m.2,
                              r.advances,
                              ap length r.same_ids,
                              add-mul s.stats.macro_steps 1 (length ids),
                            );
                            cycles = omega (
                              arith,
                              q.below,
                              r.cycles,
                              add-mul (s.stats.macro_steps + 1) 1 config.max_delta_cycles,
                            );
                          },
                          omega arith,
                        ))))))))
