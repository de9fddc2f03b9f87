-- ===== src/Session/Schedule.antt =====
-- What a session of src/digital.rs keeps while it evaluates components: whatever `schedule_output`
-- keeps of the queue.
use sim_core.Prelude.{
  ℕ, suc, ◌≡◌, refl, inl, inr, List, [], ◌∷◌, Option, none, some, get_elem?, set, length, leb, All,
  All-get_elem?, Bool-cases, Option-cases,
}
use sim_core.Prelude.Result.{Ensures, Ensures-bind, Result-cases}
use sim_core.Float.{Float}
use sim_core.Logic.{LogicValue}
use sim_core.Primitive.{CompiledDigitalComponent, RuntimeState, NetValues, evaluate}
use sim_core.Events.{Agenda, schedule_output}
use sim_core.Program.{DigitalProgram}
use sim_core.Control.{ExecutionControl, check_execution}
use sim_core.Session.{
  DigitalSession, evaluate_components, schedule_values, schedule_outputs, evaluate_all,
}

module _ (fl : Float) (P : Agenda fl.F → Type 0) (At : fl.F → Type 0)
    (keep : (time : fl.F) (component output : ℕ) (value : LogicValue) (a : Agenda fl.F)
      → At time
      → P a
      → Ensures P (schedule_output fl time component output value a)) where
  open fl use {F, add, le}

  schedule_values-keeps :
      (stop time : F) (component outputs output : ℕ) (values : List LogicValue) (a : Agenda F)
      → At time
      → P a
      → Ensures P (schedule_values fl stop time component outputs output values a)
  unfolding schedule_values
  schedule_values-keeps stop time c n o [] a t p = p
  schedule_values-keeps stop time c n o (v ∷ vs) a t p = elim (Bool-cases (leb n o)) [
    | inl last ↦ rw last p
    | inr more ↦ elim (Bool-cases (le time stop)) [
      | inl now ↦
          rw (more, now)
            (Ensures-bind P P (schedule_output fl time c o v a) _ (keep time c o v a t p)
              (λ a' p'. schedule_values-keeps stop time c n (suc o) vs a' t p'))
      | inr late ↦ rw (more, late) (schedule_values-keeps stop time c n (suc o) vs a t p)
    ]
  ]

  schedule_outputs-keeps :
      (stop time : F) (index : ℕ) (component : CompiledDigitalComponent F)
      (values : Option (List LogicValue)) (a : Agenda F)
      → At (add time component.delay)
      → P a
      → Ensures P (schedule_outputs fl stop time index component values a)
  unfolding schedule_outputs
  schedule_outputs-keeps stop time index component none a t p = p
  schedule_outputs-keeps stop time index component (some values) a t p =
      schedule_values-keeps stop (add time component.delay) index (length component.output_nets) 0
        values a t p

  -- Here every output falls due at an instant that `At` admits.
  pub evaluate_all-keeps :
      (program : DigitalProgram F) (stop time : F) (net_values : NetValues) (indices : List ℕ)
      (states : List RuntimeState) (a : Agenda F)
      → All (λ component. At (add time component.delay)) program.components
      → P a
      → Ensures (λ r. P r.1) (evaluate_all fl program stop time net_values indices states a)
  unfolding evaluate_all
  evaluate_all-keeps program stop time nv [] states a t p = p
  evaluate_all-keeps program stop time nv (i ∷ more) states a t p =
      elim (Option-cases (get_elem? program.components i)) [
        | inl e ↦ rw e tt
        | inr (component, e) ↦ elim (Option-cases (get_elem? states i)) [
          | inl none_here ↦ rw (e, none_here) tt
          | inr (state, e') ↦
              let evaluation = evaluate component nv state in
              rw (e, e')
                (Ensures-bind P _ (schedule_outputs fl stop time i component evaluation.0 a) _
                  (schedule_outputs-keeps stop time i component evaluation.0 a
                    (All-get_elem? (λ c. At (add time c.delay)) program.components i t e) p)
                  (λ a' p'.
                    evaluate_all-keeps program stop time nv more (set states i evaluation.1) a' t
                      p'))
        ]
      ]

-- What the evaluation of components leaves alone.
pub record Untouched {F : Type 0} (s s' : DigitalSession F) : Type 0 where
  pub same_program : s'.program ≡ s.program
  pub same_nets : s'.net_values ≡ s.net_values
  pub same_drivers : s'.driver_values ≡ s.driver_values
  pub same_processed : s'.processed_events ≡ s.processed_events
  pub same_time : s'.current_time ≡ s.current_time

module _ (fl : Float) (P : Agenda fl.F → Type 0) (At : fl.F → Type 0)
    (keep : (time : fl.F) (component output : ℕ) (value : LogicValue) (a : Agenda fl.F)
      → At time
      → P a
      → Ensures P (schedule_output fl time component output value a)) where
  open fl use {F, add}

  pub evaluate_components-keeps :
      (control : ExecutionControl) (indices : List ℕ) (time : F) (s : DigitalSession F)
      → All (λ component. At (add time component.delay)) s.program.components
      → P s.agenda
      → Ensures (λ s'. P s'.agenda × Untouched s s') (evaluate_components fl control indices time s)
  unfolding evaluate_components
  evaluate_components-keeps control indices time s t p =
      elim (Result-cases (check_execution control s.instant)) [
        | inr (e, stopped) ↦ rw stopped tt
        | inl (u, on) ↦ rw on (
            Ensures-bind (λ r. P r.1) _
              (evaluate_all fl s.program s.stop time s.net_values indices s.runtime_states s.agenda)
              _
              (evaluate_all-keeps fl P At keep s.program s.stop time s.net_values indices
                s.runtime_states s.agenda t p)
              (λ r h. (
                h,
                record {
                  same_program = refl;
                  same_nets = refl;
                  same_drivers = refl;
                  same_processed = refl;
                  same_time = refl;
                },
              )))
      ]
