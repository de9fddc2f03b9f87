-- ===== src/CoSim/Run/Lawful.antt =====
-- The target of a step of src/cosim.rs, when every participant keeps its contract.
use sim_core.Prelude.{
  ℕ, ◌+◌, ◌^◌, ◌<◌, ◌≡◌, refl, min, String, [], ◌∷◌, All, arith, Bool-cases, inl, inr, leb, leb→le,
  Option-cases,
}
use sim_core.Prelude.Result.{ok, Ensures-ok}
use sim_core.Float.{Float}
use sim_core.CoSim.{CoSimulationConfig, Backend, saturating_add}
use sim_core.CoSim.Lawful.{Lawful}
use sim_core.CoSim.Ports.{Fleet}
use sim_core.CoSim.Run.{earlier, earliest, next_time}
use sim_core.CoSim.Run.Target.{IsTarget, next_time-IsTarget}
use sim_core.CoSim.Settle.Cycles.{At}

module _ (fl : Float) {P : Type 0} (backend : Backend fl P) (Live : P → Type 0)
    (lawful : Lawful fl backend Live) where
  abbrev pub AllLive : Fleet P → Type 0
  AllLive = All (λ (entry : String × P). Live entry.1)

  earlier-ok :
      (now : ℕ) (p : P) (target : ℕ)
      → now + 1 < 2 ^ 64
      → Live p
      → backend.current_time p ≡ now
      → (t : ℕ) × (earlier fl backend now (backend.next_event_time p) target ≡ ok t)
  unfolding earlier
  earlier-ok now p target w live at = elim (Option-cases (backend.next_event_time p)) [
    | inl e ↦ rw e (target, refl)
    | inr (event, e) ↦
        let later = lawful.announces p live (omega (arith, at)) e in
        elim (Bool-cases (leb event now)) [
          | inl early ↦ absurd (omega (arith, leb→le event now early, at, later))
          | inr after ↦ rw (e, after) (min target event, refl)
        ]
  ]

  earliest-ok :
      (now : ℕ) (fleet : Fleet P) (target : ℕ)
      → now + 1 < 2 ^ 64
      → AllLive fleet
      → At fl backend now fleet
      → (t : ℕ) × (earliest fl backend now fleet target ≡ ok t)
  unfolding earliest
  earliest-ok now [] target w live at = (target, refl)
  earliest-ok now (entry ∷ fleet) target w live at =
      let (t, e) = earlier-ok now entry.1 target w live.0 at.0 in
      let (u, e') = earliest-ok now fleet t w live.1 at.1 in (u, rw e e')

  -- While participants that keep their contract stand together before a stop time that is a `u64`, with a
  -- step that is not zero, `next_time` reports no error: it picks a target, the earliest of the step's
  -- bound and the participants' events.
  pub next_time-ok :
      (config : CoSimulationConfig) (fleet : Fleet P) (now : ℕ)
      → now < config.stop
      → config.stop < 2 ^ 64
      → 0 < config.max_step
      → AllLive fleet
      → At fl backend now fleet
      → (t : ℕ) × (next_time fl backend config fleet now ≡ ok t)
        × IsTarget fl backend now (min (now + config.max_step) config.stop) fleet t
  unfolding next_time
  next_time-ok config fleet now h w p live at =
      let (t, e) =
        earliest-ok now fleet (min (saturating_add now config.max_step) config.stop) (omega arith)
          live at in
      (t, e, Ensures-ok _ _ e (next_time-IsTarget fl backend config fleet now h w p))
