-- ===== src/CoSim/Run/Whole.antt =====
-- `run` of src/cosim.rs returns, and what it returns.
use sim_core.Prelude.{
  ℕ, ◌-◌, ◌^◌, ◌<◌, ◌≡◌, refl, ◌∙◌, String, List, arith, Bool-cases, inl, inr, ltb, ltb→lt, ltb→le,
  ==_iff,
}
use sim_core.Prelude.Map.{keys, string_key}
use sim_core.Prelude.Loop.{Turn, Returns, loop-Returns}
use sim_core.Prelude.Result.{ok, Ensures, Ensures-after, Ensures-bind, Ensures-ok, Result-cases}
use sim_core.Control.{ExecutionControl, validate_policy, check_execution}
use sim_core.Float.{Float}
use sim_core.CoSim.{CoSimulationConfig, CoSimulationLink, Backend, validate_config}
use sim_core.CoSim.Ports.{CoSimulationScheduler}
use sim_core.CoSim.Links.{validated_links}
use sim_core.CoSim.Settle.{settle_links}
use sim_core.CoSim.Settle.Cycles.{settle_links-Settles}
use sim_core.CoSim.Record.{new_recorder, record_signals}
use sim_core.CoSim.Record.Histories.{record_signals-AllShow}
use sim_core.CoSim.Record.Opening.{new_recorder-AllTidy}
use sim_core.CoSim.Run.{RunState, initialize_all, macro_step, run_round, start, run}
use sim_core.CoSim.Run.Steps.{Running, initialize_all-At, macro_step-Running}

-- Every bound of a configuration is positive.
pub record Positive (c : CoSimulationConfig) : Type 0 where
  pub stop : 0 < c.stop
  pub max_step : 0 < c.max_step
  pub max_delta_cycles : 0 < c.max_delta_cycles
  pub max_steps : 0 < c.max_steps

validate_config-Positive : (c : CoSimulationConfig) → validate_config c ≡ ok tt → Positive c
unfolding validate_config
validate_config-Positive c h = record {
  stop = ground (arith, ==_iff c.stop 0);
  max_step = ground (arith, ==_iff c.max_step 0);
  max_delta_cycles = ground (arith, ==_iff c.max_delta_cycles 0);
  max_steps = ground (arith, ==_iff c.max_steps 0);
}

module _ (fl : Float) {P : Type 0} (backend : Backend fl P) where
  -- The end of a run: at the stop time.
  pub record Finished (config : CoSimulationConfig) (ids : List String) (s : RunState fl backend)
      : Type 0 where
    pub at_stop : s.now ≡ config.stop
    pub running : Running fl backend config ids s

  abbrev steps_left : CoSimulationConfig → RunState fl backend → ℕ
  steps_left config s = config.max_steps - s.stats.macro_steps

  run_round-Turn :
      (config : CoSimulationConfig) (control : ExecutionControl) (links : List CoSimulationLink)
      (ids : List String)
      → config.stop < 2 ^ 64
      → 0 < config.max_step
      → (s : RunState fl backend) → Running fl backend config ids s
      → Ensures
          (Turn (Running fl backend config ids) (Finished config ids) (steps_left config) s)
          (run_round fl backend config control links s)
  unfolding run_round
  run_round-Turn config control links ids w p s r = elim (Bool-cases (ltb s.now config.stop)) [
    | inl before ↦ rw before (
        Ensures-bind _ _ (macro_step fl backend config control links s) _
          (macro_step-Running fl backend config control links ids s w p
            (ltb→lt s.now config.stop before) r)
          (λ s' h. (h.0, omega (arith, h.1, h.0.in_steps))))
    | inr after ↦
        rw after (record {
          at_stop = omega (arith, r.in_time, ltb→le s.now config.stop after);
          running = r;
        })
  ]

  abbrev Started : CoSimulationScheduler P → List CoSimulationLink × RunState fl backend → Type 0
  Started s st =
      Positive s.config
      × Running fl backend s.config (keys s.participants) st.1
      × (st.1.stats.macro_steps ≡ 0)

  start-Started :
      (control : ExecutionControl) (s : CoSimulationScheduler P)
      → Ensures (Started s) (start fl backend control s)
  unfolding start
  start-Started control s = Ensures-after (Started s) (validate_config s.config) _ (λ u valid.
      Ensures-after (Started s) (validate_policy control.policy) _ (λ v allowed.
        Ensures-after (Started s) (check_execution control 0) _ (λ w on.
          Ensures-after (Started s) (validated_links fl backend s) _ (λ links linked.
            Ensures-bind _ (Started s) (initialize_all fl backend control 1 s.participants) _
              (initialize_all-At fl backend control 1 s.participants)
              (λ fleet f.
                Ensures-bind _ (Started s) (new_recorder fl backend fleet) _
                  (new_recorder-AllTidy fl backend fleet)
                  (λ signals t.
                    Ensures-bind _ (Started s)
                      (settle_links fl backend s.config.max_delta_cycles control 1 0 links fleet) _
                      (settle_links-Settles fl backend s.config.max_delta_cycles control 1 0 links
                        fleet)
                      (λ settled q.
                        Ensures-bind _ (Started s)
                          (record_signals fl backend 0 settled.participants signals) _
                          (record_signals-AllShow fl backend 0 settled.participants signals t)
                          (λ recorder rec. (
                            validate_config-Positive s.config valid,
                            record {
                              same_ids = q.kept.1 ∙ f.1;
                              together = q.kept.0 f.0;
                              tidy = rec.0;
                              shown = rec.1;
                              in_time = omega arith;
                              in_steps = omega arith;
                              advances = omega arith;
                              cycles = omega (arith, q.below);
                            },
                            refl,
                          )))))))))

  -- A run with fuel for its step limit and a stop time that is a `u64` returns. It returns an error, or the
  -- state at the stop time: the participants are those of the scheduler and all stand at that time; every
  -- recorded history is tidy and ends with what its port shows; the macro steps are within their limit,
  -- and each step advanced every participant once, by the count; the delta
  -- cycles are no more than the limit for an instant allows for all of them.
  pub run-Finished :
      (fuel : ℕ) (control : ExecutionControl) (s : CoSimulationScheduler P)
      → s.config.stop < 2 ^ 64
      → s.config.max_steps < fuel
      → Returns (Finished s.config (keys s.participants)) (run fl backend fuel control s)
  unfolding run
  run-Finished fuel control s w enough = elim (Result-cases (start fl backend control s)) [
    | inr (e, bad) ↦ rw (bad, run) tt
    | inl (st, begun) ↦
        let opened = Ensures-ok (Started s) _ begun (start-Started control s) in
        rw (begun, run)
          (loop-Returns (Running fl backend s.config (keys s.participants))
            (Finished s.config (keys s.participants)) (steps_left s.config)
            (run_round fl backend s.config control st.0)
            (run_round-Turn s.config control st.0 (keys s.participants) w opened.0.max_step) fuel
            st.1 opened.1 (omega (arith, opened.2)))
  ]
