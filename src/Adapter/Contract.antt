-- ===== src/Adapter/Contract.antt =====
-- The digital participant of src/digital.rs keeps the contract of the scheduler of src/cosim.rs.
use mathlib.Core.Option.{some-injective}
use sim_core.Prelude.{
  ℕ, ◌+◌, ◌^◌, ◌<◌, ◌≡◌, refl, sym, subst, String, [], Bool, Option, none, some, arith, not,
}
use sim_core.Prelude.Map.{lookup, extend, values, string_key}
use sim_core.Prelude.Loop.{Returns}
use sim_core.Prelude.Result.{Result, ok_or, Ensures, Ensures-after, Ensures-bind, Ensures-guard}
use sim_core.Control.{ExecutionControl, validate_policy}
use sim_core.Float.{Float, Tolerant}
use sim_core.Session.{DigitalSession}
use sim_core.Session.Start.{new}
use sim_core.Session.Start.Opening.{Fresh, new-Fresh}
use sim_core.Session.Participant.{advance_to, write_external}
use sim_core.Session.Participant.Contract.{
  Usable, Ready, advance_to-Ready, write_external-Ready, next_event_time-Later,
}
use sim_core.CoSim.{CoSimulationValue}
use sim_core.CoSim.Lawful.{Lawful}
use sim_core.Adapter.{
  Participant, event_fuel, returned, initialize, advance, write_input, level_of, time_of, next_of,
  input_nets_of, is_input, digital_backend,
}

module _ (fl : Float) where
  open fl use {F}

  returned-Ensures :
      {A : Type 0} (Q : A → Type 0) (o : Option (Result A)) → Returns Q o → Ensures Q (returned o)
  returned-Ensures Q none h = absurd h
  returned-Ensures Q (some r) h = h

  -- A participant whose session is ready.
  pub record Live (p : Participant fl) : Type 0 where
    pub session : DigitalSession F
    pub started : p.session ≡ some session
    pub ready : Ready fl session

  Fresh-Usable : (s : DigitalSession F) → Fresh fl s → Usable fl s
  Fresh-Usable s f = record {
    within = omega (arith, f.unprocessed);
    balanced = rw f.unprocessed f.balanced;
  }

  initialize-Live :
      (control : ExecutionControl) (instant : ℕ) (p : Participant fl)
      → Ensures (λ p'. Live p' × (time_of fl p'.session ≡ 0)) (initialize fl control instant p)
  unfolding initialize time_of
  initialize-Live control instant p =
      let Good : Participant fl → Type 0 = λ p'. Live p' × (time_of fl p'.session ≡ 0) in
      let inputs = extend (input_nets_of (values p.bindings)) [] in
      Ensures-after Good (validate_policy control.policy) _ (λ u allowed.
        Ensures-guard Good (control.is_cancelled instant) "execution_cancelled" _ (λ on.
          Ensures-bind (Fresh fl) Good
            (returned (new fl event_fuel control p.program p.stop inputs)) _
            (returned-Ensures (Fresh fl) (new fl event_fuel control p.program p.stop inputs)
              (new-Fresh fl event_fuel control p.program p.stop inputs (omega arith)))
            (λ s fresh.
              Ensures-bind _ Good (returned (advance_to fl event_fuel control 0 s)) _
                (returned-Ensures _ (advance_to fl event_fuel control 0 s)
                  (advance_to-Ready fl event_fuel control 0 s (omega arith) (Fresh-Usable s fresh)))
                (λ s' h. (record { session = s'; started = refl; ready = h.0 }, h.1)))))

  advance-Live :
      (control : ExecutionControl) (instant target : ℕ) (p : Participant fl)
      → Live p
      → Ensures
          (λ p'. Live p' × (time_of fl p'.session ≡ target))
          (advance fl control instant target p)
  unfolding advance time_of
  advance-Live control instant target p live =
      let Good : Participant fl → Type 0 = λ p'. Live p' × (time_of fl p'.session ≡ target) in
      rw live.started (
        Ensures-bind _ Good (returned (advance_to fl event_fuel control target live.session)) _
          (returned-Ensures _ (advance_to fl event_fuel control target live.session) (
            advance_to-Ready fl event_fuel control target live.session (omega arith)
              live.ready.usable))
          (λ s' h. (record { session = s'; started = refl; ready = h.0 }, h.1)))

  write_input-Live :
      (control : ExecutionControl) (instant : ℕ) (port : String) (time : ℕ)
      (value : CoSimulationValue F) (p : Participant fl)
      → Live p
      → Ensures
          (λ r. Live r.0 × (time_of fl r.0.session ≡ time_of fl p.session))
          (write_input fl control instant port time value p)
  unfolding write_input time_of
  write_input-Live control instant port time value p live =
      let Good : Participant fl × Bool → Type 0 =
        λ r. Live r.0 × (time_of fl r.0.session ≡ time_of fl p.session) in
      Ensures-after Good (ok_or (lookup port p.bindings) "digital_cosim_port_missing") _ (λ b found.
        Ensures-guard Good (not (is_input b.direction)) "digital_cosim_port_direction" _ (λ is_in.
          Ensures-after Good (level_of fl value) _ (λ level read. rw live.started (
            Ensures-bind _ _
              (returned (write_external fl event_fuel control b.net time level live.session)) _
              (returned-Ensures _
                (write_external fl event_fuel control b.net time level live.session)
                (write_external-Ready fl event_fuel control b.net time level live.session
                  (omega arith) live.ready))
              (λ r h. (record { session = r.0; started = refl; ready = h.0 }, h.1))))))

  next_of-Later :
      (o : Option (DigitalSession F)) (s : DigitalSession F) {t : ℕ}
      → Tolerant fl
      → o ≡ some s
      → Ready fl s
      → time_of fl o + 1 < 2 ^ 64
      → next_of fl o ≡ some t
      → time_of fl o < t
  unfolding next_of time_of
  next_of-Later none s tolerant at ready w e = cc
  next_of-Later (some s') s tolerant at ready w e =
      next_event_time-Later fl s' tolerant w (subst (Ready fl) (sym (some-injective s' s at)) ready)
        e

  -- Where adding half a tick does not go back in time, a digital participant keeps the contract of a
  -- participant: it starts at time zero, advances to the time asked for, writes inputs without moving
  -- in time, and announces only events that are strictly later, as long as its clock can go on.
  pub digital_backend-Lawful : Tolerant fl → Lawful fl (digital_backend fl) Live
  unfolding digital_backend
  digital_backend-Lawful tolerant = record {
    starts = initialize-Live;
    advances = advance-Live;
    writes = write_input-Live;
    announces =
        λ p live w e. next_of-Later p.session live.session tolerant live.started live.ready w e;
  }
