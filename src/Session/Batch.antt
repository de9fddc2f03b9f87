-- ===== src/Session/Batch.antt =====
-- What a batch of src/digital.rs does to a session, with whatever `schedule_output` keeps of the queue.
use sim_core.Prelude.{
  ℕ, ◌+◌, ◌≤◌, ◌≡◌, refl, sym, ◌∙◌, inl, inr, String, List, [], ◌∷◌, Option, none, some, length,
  ltb, ltb→le, All, All-of, Bool-cases, ap, or_default,
}
use sim_core.Prelude.Map.{lookup, insert, insert_key-All, same, lookup-insert, same_eq, string_key}
use sim_core.Prelude.Result.{ok, Ensures, Ensures-ok, Ensures-imp, Ensures-bind, Result-cases}
use sim_core.Control.{ExecutionControl}
use sim_core.Float.{Float}
use sim_core.Logic.{LogicValue, high_impedance, logic_eq}
use sim_core.Logic.Resolve.{DriverKey, driver_key}
use sim_core.Primitive.{NetValues}
use sim_core.Events.{ScheduledEvent, Agenda, take_same, max_digital_events, schedule_output}
use sim_core.Program.{DigitalProgram, output_net}
use sim_core.Session.{
  DigitalSession, DriverValues, mark_net, apply_events, net_change, settle_net, settle_nets,
  process_batch, evaluate_components,
}
use sim_core.Session.Schedule.{Untouched, evaluate_components-keeps}

module _ {F : Type 0} (program : DigitalProgram F) where
  -- A net that no output of a component drives.
  abbrev pub Undriven : String → Type 0
  Undriven net = (d : DriverKey) → ¬ (output_net program d ≡ ok net)

  -- A net that some output drives.
  abbrev Driven : String → Type 0
  Driven net = (d : DriverKey) × (output_net program d ≡ ok net)

  mark_net-Driven :
      (previous : LogicValue) (e : ScheduledEvent F) (nets : List String)
      → All Driven nets
      → Ensures (All Driven) (mark_net program previous e nets)
  unfolding mark_net
  mark_net-Driven previous e nets all = elim (Bool-cases (logic_eq previous e.value)) [
    | inl same_level ↦ rw same_level all
    | inr differs ↦ elim (Result-cases (output_net program e.driver)) [
      | inr (x, missing) ↦ rw (differs, missing) tt
      | inl (net, found) ↦
          rw (differs, found) (insert_key-All Driven net nets (e.driver, found) all)
    ]
  ]

  apply_events-Driven :
      (batch : List (ScheduledEvent F)) (driver_values : DriverValues) (nets : List String)
      → All Driven nets
      → Ensures (λ r. All Driven r.1) (apply_events program batch driver_values nets)
  unfolding apply_events
  apply_events-Driven [] dv nets all = all
  apply_events-Driven (e ∷ batch) dv nets all =
      Ensures-bind (All Driven) (λ r. All Driven r.1)
        (mark_net program (or_default (lookup e.driver dv) high_impedance) e nets) _
        (mark_net-Driven (or_default (lookup e.driver dv) high_impedance) e nets all)
        (λ nets' all'. apply_events-Driven batch (insert e.driver e.value dv) nets' all')

  settle_net-Undriven :
      (net other : String) (change : Option LogicValue) (st : NetValues × List ℕ)
      → Undriven net
      → Driven other
      → lookup net (settle_net program other change st).0 ≡ lookup net st.0
  unfolding settle_net
  settle_net-Undriven net other none st undriven driven = refl
  settle_net-Undriven net other (some value) (nv, affected) undriven driven =
      elim (Bool-cases (same net other)) [
        | inl here ↦ absurd (undriven driven.0 (driven.1 ∙ ap ok (sym (same_eq net other here))))
        | inr apart ↦ lookup-insert other net value nv ∙ rw apart refl
      ]

  settle_nets-Undriven :
      (net : String) (driver_values : DriverValues) (nets : List String) (st : NetValues × List ℕ)
      → Undriven net
      → All Driven nets
      → lookup net (settle_nets program driver_values nets st).0 ≡ lookup net st.0
  unfolding settle_nets
  settle_nets-Undriven net dv [] st undriven all = refl
  settle_nets-Undriven net dv (other ∷ nets) st undriven all =
      let change = net_change program dv st.0 other in
      settle_nets-Undriven net dv nets (settle_net program other change st) undriven all.1
      ∙ settle_net-Undriven net other change st undriven all.0

-- What a batch changes and what it leaves alone.
pub record Batched (fl : Float) (first : ScheduledEvent fl.F) (queue : List (ScheduledEvent fl.F))
    (s s' : DigitalSession fl.F) : Type 0 where
  pub counted :
      s'.processed_events ≡ s.processed_events + length (first ∷ (take_same fl first.time queue).0)
  pub within : s'.processed_events ≤ max_digital_events
  pub kept_program : s'.program ≡ s.program
  pub kept_time : s'.current_time ≡ s.current_time
  pub held :
      (net : String) → Undriven s.program net → lookup net s'.net_values ≡ lookup net s.net_values

module _ (fl : Float) (P : Agenda fl.F → Type 0)
    (keep : (time : fl.F) (component output : ℕ) (value : LogicValue) (a : Agenda fl.F)
      → Unit {0}
      → P a
      → Ensures P (schedule_output fl time component output value a)) where
  open fl use {F}

  -- A batch keeps what scheduling an event keeps, once its own events have left the queue.
  pub process_batch-keeps :
      (control : ExecutionControl) (first : ScheduledEvent F) (queue : List (ScheduledEvent F))
      (s : DigitalSession F)
      → P (record (s.agenda) { queue = (take_same fl first.time queue).1 })
      → Ensures
          (λ s'. P s'.agenda × Batched fl first queue s s')
          (process_batch fl control first queue s)
  unfolding process_batch
  process_batch-keeps control first queue s p =
      let taken = take_same fl first.time queue in
      let processed = s.processed_events + length (first ∷ taken.0) in
      elim (Bool-cases (ltb max_digital_events processed)) [
        | inl full ↦ rw full tt
        | inr room ↦
            elim (Result-cases (apply_events s.program (first ∷ taken.0) s.driver_values [])) [
              | inr (x, bad) ↦ rw (room, bad) tt
              | inl ((driver_values, nets), applied) ↦
                  let marked = applied_nets (first ∷ taken.0) s driver_values nets applied in
                  let settled = settle_nets s.program driver_values nets (s.net_values, []) in
                  let batched : DigitalSession F = record s {
                    agenda = record (s.agenda) { queue = taken.1 };
                    processed_events = processed;
                    driver_values = driver_values;
                    net_values = settled.0;
                  } in
                  rw (room, applied)
                    (Ensures-imp (λ s'. P s'.agenda × Untouched batched s')
                      (λ s'. P s'.agenda × Batched fl first queue s s')
                      (evaluate_components fl control settled.1 first.time batched)
                      (λ s' h. (
                        h.0,
                        record {
                          counted = h.1.same_processed;
                          within = rw h.1.same_processed (ltb→le max_digital_events processed room);
                          kept_program = h.1.same_program;
                          kept_time = h.1.same_time;
                          held = λ net undriven.
                              ap (λ nv. lookup net nv) h.1.same_nets
                              ∙ settle_nets-Undriven s.program net driver_values nets
                                  (s.net_values, []) undriven marked;
                        },
                      ))
                      (evaluate_components-keeps fl P (λ t. Unit) keep control settled.1 first.time
                        batched (All-of (λ c. Unit) (λ c. tt) s.program.components) p))
            ]
      ]
    where
      applied_nets :
          (batch : List (ScheduledEvent F)) (s : DigitalSession F) (driver_values : DriverValues)
          (nets : List String)
          → apply_events s.program batch s.driver_values [] ≡ ok (driver_values, nets)
          → All (Driven s.program) nets
      applied_nets batch s driver_values nets applied =
          Ensures-ok (λ r. All (Driven s.program) r.1)
            (apply_events s.program batch s.driver_values []) applied
            (apply_events-Driven s.program batch s.driver_values [] tt)
