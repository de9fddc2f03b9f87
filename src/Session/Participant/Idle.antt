-- ===== src/Session/Participant/Idle.antt =====
-- A session of src/digital.rs after `advance_to` and `write_external`: nothing is due any more, and an input
-- has the level that is written to it.
use mathlib.Core.Option
use sim_core.Prelude.{
  ℕ, ◌≤◌, ◌<◌, ◌≡◌, refl, sym, ◌∙◌, ap, subst, String, Bool, false, not, ◌||◌, [], Option, none,
  some, All-of, arith, Bool-cases, inl, inr, ltb, ltb→le, ◌==◌, or_default,
}
use sim_core.Prelude.Map.{lookup, insert, contains, string_key, lookup-insert_self}
use sim_core.Prelude.Loop.{Returns}
use sim_core.Prelude.Result.{Result, ok, err, Ensures, Ensures-and}
use sim_core.Control.{ExecutionControl}
use sim_core.Float.{Float, BitOrder, LaterOrder}
use sim_core.Logic.{LogicValue, unknown, logic_eq}
use sim_core.Waveform.{logic_eq-eq}
use sim_core.Events.{Agenda, max_digital_events, schedule_output}
use sim_core.Events.Ledger.{Balanced, schedule_output-Balanced}
use sim_core.Program.{drivers_of, dependents_of}
use sim_core.Program.Compile.Wired.{IsWired}
use sim_core.Session.Inputs.{drivers_of-Undriven}
use sim_core.Session.{DigitalSession, evaluate_components, process_until}
use sim_core.Session.Batch.{Undriven}
use sim_core.Session.Participant.{arrive, changed, advance_to, write_external}
use sim_core.Session.Participant.Contract.{Usable}
use sim_core.Session.Schedule.{Untouched, evaluate_components-keeps}
use sim_core.Session.Due.{Timely, NoneDue, schedule_output-Timely, Idle, process_until-Idle}

module _ (fl : Float) (o : BitOrder fl) (later : LaterOrder fl o) where
  open fl use {F, as_seconds, lt, add, half_tick}

  -- A session that waits for its scheduler: its accounts and its queue are in order, and no event of the
  -- queue is due at its current time.
  pub record Resting (s : DigitalSession F) : Type 0 where
    pub usable : Usable fl s
    pub timely : Timely fl o s.agenda.queue
    pub none_due : NoneDue fl o (as_seconds s.current_time) s.agenda.queue

  until-Idle :
      (fuel : ℕ) (control : ExecutionControl) (target : F) (s : DigitalSession F)
      → max_digital_events < fuel
      → Usable fl s
      → Timely fl o s.agenda.queue
      → Returns (Idle fl o later target s) (process_until fl fuel control target s)
  until-Idle fuel control target s enough u t =
      process_until-Idle fl o later fuel control target s u.within (omega arith) t

  abbrev Arrived : DigitalSession F → ℕ → DigitalSession F → Type 0
  Arrived s target s' = Resting s' × (s'.current_time ≡ target) × (s.current_time ≤ s'.current_time)

  arrive-Arrived :
      (target : ℕ) (s : DigitalSession F) (r : Option (Result (DigitalSession F)))
      → s.current_time ≤ target
      → Usable fl s
      → Returns (Idle fl o later (as_seconds target) s) r
      → Returns (Arrived s target) (Option.map (arrive fl target) r)
  unfolding arrive
  arrive-Arrived target s none after u i = i
  arrive-Arrived target s (some (err e)) after u i = tt
  arrive-Arrived target s (some (ok s')) after u i = (
    record {
      usable = record { within = i.within; balanced = i.balanced u.balanced };
      timely = i.timely;
      none_due = i.none_due;
    },
    refl,
    after,
  )

  -- With fuel for the event limit, advancing a session whose accounts and queue are in order returns an
  -- error, or a session at the target, not before the time it had, whose accounts and queue are in order and
  -- of whose events none is due at its time any more.
  pub advance_to-Resting :
      (fuel : ℕ) (control : ExecutionControl) (target : ℕ) (s : DigitalSession F)
      → max_digital_events < fuel
      → Usable fl s
      → Timely fl o s.agenda.queue
      → Returns
          (λ s'. Resting s' × (s'.current_time ≡ target) × (s.current_time ≤ s'.current_time))
          (advance_to fl fuel control target s)
  unfolding advance_to
  advance_to-Resting fuel control target s enough u t =
      elim (Bool-cases
        (ltb target s.current_time || lt (add s.stop half_tick) (as_seconds target))) [
          | inl bad ↦ rw bad tt
          | inr good ↦
              let after : s.current_time ≤ target = ground (arith, ltb→le target s.current_time) in
              rw good (
                arrive-Arrived target s (process_until fl fuel control (as_seconds target) s) after
                  u (until-Idle fuel control (as_seconds target) s enough u t))
        ]

  -- The level of a net, unknown if it has none.
  abbrev pub level_of : DigitalSession F → String → LogicValue
  level_of s net = or_default (lookup net s.net_values) unknown

  -- What a write gives: a resting session of the same time in which the net has the value, and whether
  -- the net had another level before.
  pub record IsWritten (s : DigitalSession F) (net : String) (value : LogicValue)
      (r : DigitalSession F × Bool) : Type 0 where
    pub resting : Resting r.0
    pub same_time : r.0.current_time ≡ s.current_time
    pub written : level_of r.0 net ≡ value
    pub told : r.1 ≡ not (logic_eq (level_of s net) value)

  abbrev Accounts : ℕ → Agenda F → Type 0
  Accounts processed a = Balanced processed a × Timely fl o a.queue

  schedule_output-Accounts :
      (processed : ℕ) (time : F) (component output : ℕ) (value : LogicValue) (a : Agenda F)
      → Unit {0}
      → Accounts processed a
      → Ensures (Accounts processed) (schedule_output fl time component output value a)
  schedule_output-Accounts processed time component output value a u h =
      Ensures-and (Balanced processed) (λ a'. Timely fl o a'.queue)
        (schedule_output fl time component output value a)
        (schedule_output-Balanced fl time component output value a processed h.0)
        (schedule_output-Timely fl o time component output value a tt h.1)

  changed-IsWritten :
      (s s' : DigitalSession F) (net : String) (value : LogicValue)
      (r : Option (Result (DigitalSession F)))
      → Usable fl s'
      → s'.current_time ≡ s.current_time
      → Undriven s'.program net
      → lookup net s'.net_values ≡ some value
      → logic_eq (level_of s net) value ≡ false
      → Returns (Idle fl o later (as_seconds s.current_time) s') r
      → Returns (IsWritten s net value) (Option.map (changed fl) r)
  unfolding changed
  changed-IsWritten s s' net value none u e undriven stored differs i = i
  changed-IsWritten s s' net value (some (err x)) u e undriven stored differs i = tt
  changed-IsWritten s s' net value (some (ok last)) u e undriven stored differs i =
      let same : last.current_time ≡ s.current_time = i.kept_time ∙ e in
      record {
        resting = record {
          usable = record { within = i.within; balanced = i.balanced u.balanced };
          timely = i.timely;
          none_due =
              subst (λ t. NoneDue fl o (as_seconds t) last.agenda.queue) (sym same) i.none_due;
        };
        same_time = same;
        written = ap (λ v. or_default v unknown) (i.held net undriven ∙ stored);
        told = rw differs refl;
      }

  -- With fuel for the event limit, and in a program whose drivers and dependents are those of its components,
  -- writing an input, a net without a driver, of a session that waits for its scheduler returns an error, or
  -- a session at the same time in which the input has the value that was written, and tells whether it had
  -- another level before. The session waits again: its accounts and its queue are in order, and none of its
  -- events is due.
  pub write_external-IsWritten :
      (fuel : ℕ) (control : ExecutionControl) (net : String) (time : ℕ) (value : LogicValue)
      (s : DigitalSession F)
      → max_digital_events < fuel
      → IsWired s.program.components s.program.dependents s.program.net_drivers
      → drivers_of s.program net ≡ []
      → Resting s
      → Returns (IsWritten s net value) (write_external fl fuel control net time value s)
  unfolding write_external
  write_external-IsWritten fuel control net time value s enough wired none_there r =
      elim (Bool-cases (time == s.current_time)) [
        | inr wrong ↦ rw wrong tt
        | inl now ↦ elim (Bool-cases (contains net s.external_inputs)) [
          | inr unknown_net ↦ rw (now, unknown_net) tt
          | inl known ↦ elim (Bool-cases (logic_eq (level_of s net) value)) [
            | inl same ↦
                rw (now, known, same)
                  (record {
                    resting = r;
                    same_time = refl;
                    written = logic_eq-eq (level_of s net) value same;
                    told = rw same refl;
                  })
            | inr differs ↦
                rw (now, known, differs)
                  (go differs
                    (evaluate_components fl control (dependents_of s.program net) here stored)
                    (evaluate_components-keeps fl (Accounts s.processed_events) (λ t. Unit)
                      (schedule_output-Accounts s.processed_events) control
                      (dependents_of s.program net) here stored
                      (All-of (λ c. Unit) (λ c. tt) s.program.components)
                      (r.usable.balanced, r.timely)))
          ]
        ]
      ]
    where
      here : F
      here = as_seconds s.current_time

      stored : DigitalSession F
      stored = record s { net_values = insert net value s.net_values }

      go :
          logic_eq (level_of s net) value ≡ false
          → (m : Result (DigitalSession F))
          → Ensures (λ s'. Accounts s.processed_events s'.agenda × Untouched stored s') m
          → Returns (IsWritten s net value) (elim m [
            | err e ↦ some (err e)
            | ok s' ↦ Option.map (changed fl) (process_until fl fuel control here s')
          ])
      go differs (err e) h = tt
      go differs (ok s') h =
          let usable : Usable fl s' = record {
            within = rw h.1.same_processed r.usable.within;
            balanced = rw h.1.same_processed h.0.0;
          } in
          changed-IsWritten s s' net value (process_until fl fuel control here s') usable
            h.1.same_time
            (subst (λ p. Undriven p net) (sym h.1.same_program)
              (drivers_of-Undriven s.program net wired none_there))
            (ap (λ nv. lookup net nv) h.1.same_nets ∙ lookup-insert_self net value s.net_values)
            differs (until-Idle fuel control here s' enough usable h.0.1)
