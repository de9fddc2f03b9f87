-- ===== src/Engine/Faithful.antt =====
-- The histories of a run of src/digital.rs follow its nets, and the run returns.
use sim_core.Prelude.{
  ◌+◌, ◌≤◌, ◌<◌, ◌≡◌, refl, subst, String, List, [], ◌∷◌, Option, none, some, length, arith, All-of,
  Bool-cases, Option-cases, inl, inr, ltb, ltb→le, or_default,
}
use sim_core.Prelude.Map.{
  lookup, insert, replace, string_key, nat_key, same, lookup-insert, lookup-replace,
}
use sim_core.Prelude.Result.{
  ok_or-eq-ok, ok_or, Ensures, Ensures-after, Ensures-bind, Ensures-guard,
}
use sim_core.Control.{ExecutionControl}
use sim_core.Float.{Float}
use sim_core.Logic.{LogicValue, unknown, logic_eq}
use sim_core.Waveform.{
  logic_eq-eq, DigitalTransition, last, set_last, EndsAt, last-append, last-set_last,
}
use sim_core.Primitive.{NetValues}
use sim_core.Events.{ScheduledEvent, Agenda, max_digital_events, take_same}
use sim_core.Events.Ledger.{Balanced, schedule_output-Balanced}
use sim_core.Program.{DigitalProgram}
use sim_core.Session.{DriverValues, apply_events, net_change, evaluate_all}
use sim_core.Session.Ledger.{take_batch-Balanced}
use sim_core.Session.Schedule.{evaluate_all-keeps}
use sim_core.Engine.{
  Histories, EngineState, enforce_transition_budget, push_transition, Settling, record_net,
  record_nets, engine_batch,
}

-- The history of each net ends with the net's level.
abbrev pub Faithful : {F : Type 0} → Histories F → NetValues → Type 0
Faithful {F} histories net_values =
    (net : String) (history : List (DigitalTransition F))
    → lookup net histories ≡ some history
    → EndsAt (or_default (lookup net net_values) unknown) history

set_last-EndsAt :
    {F : Type 0} (t u : DigitalTransition F) (ts : List (DigitalTransition F))
    → last ts ≡ some t
    → last (set_last u ts) ≡ some u
set_last-EndsAt t u [] h = cc
set_last-EndsAt t u (x ∷ ts) h = last-set_last u x ts

module _ (fl : Float) where
  open fl use {F, zero_time, lt, same_bits}

  push_transition-EndsAt :
      (ts : List (DigitalTransition F)) (time : F) (value : LogicValue)
      → EndsAt value (push_transition fl ts time value)
  unfolding push_transition
  push_transition-EndsAt ts time value =
      let pushed : DigitalTransition F = record { time = time; value = value } in
      elim (Option-cases (last ts)) [
        | inl e ↦ rw (e, push_transition) (pushed, last-append ts pushed, refl)
        | inr (t, e) ↦ elim (Bool-cases (same_bits t.time time)) [
          | inl now ↦
              let again_now : DigitalTransition F = record t { value = value } in
              rw (e, now, push_transition) (again_now, set_last-EndsAt t again_now ts e, refl)
          | inr before ↦ elim (Bool-cases (logic_eq t.value value)) [
            | inl same_level ↦
                rw (e, before, same_level, push_transition)
                  (t, e, logic_eq-eq t.value value same_level)
            | inr differs ↦
                rw (e, before, differs, push_transition) (pushed, last-append ts pushed, refl)
          ]
        ]
      ]

  write-Faithful :
      (net : String) (value : LogicValue) (old new : List (DigitalTransition F))
      (net_values : NetValues) (histories : Histories F)
      → lookup net histories ≡ some old
      → EndsAt value new
      → Faithful histories net_values
      → Faithful (replace net new histories) (insert net value net_values)
  write-Faithful net value old new net_values histories found ends f other history e =
      let put = lookup-replace net other new old histories found in
      let level = lookup-insert net other value net_values in
      elim (Bool-cases (same other net)) [
        | inl now ↦
            let same_history : new ≡ history = ground (arith, put) in
            rw (level, now) (subst (EndsAt value) same_history ends)
        | inr before ↦ rw (level, before) (f other history (ground (arith, put)))
      ]

  abbrev Kept : Settling fl → Type 0
  Kept st = Faithful st.1 st.0

  record_net-Faithful :
      (control : ExecutionControl) (program : DigitalProgram F) (time : F) (net : String)
      (change : Option LogicValue) (st : Settling fl)
      → Kept st
      → Ensures Kept (record_net fl control program time net change st)
  unfolding record_net
  record_net-Faithful control program time net none st f = f
  record_net-Faithful control program time net (some value) (net_values, histories, affected) f =
      Ensures-after Kept (ok_or (lookup net histories) "panic") _ (λ history found.
        let written = push_transition fl history time value in
        Ensures-after Kept (enforce_transition_budget (replace net written histories) control) _
          (λ u within.
            write-Faithful net value history written net_values histories
              (ok_or-eq-ok _ "panic" found) (push_transition-EndsAt history time value) f))

  record_nets-Faithful :
      (control : ExecutionControl) (program : DigitalProgram F) (time : F)
      (driver_values : DriverValues) (nets : List String) (st : Settling fl)
      → Kept st
      → Ensures Kept (record_nets fl control program time driver_values nets st)
  unfolding record_nets
  record_nets-Faithful control program time dv [] st f = f
  record_nets-Faithful control program time dv (net ∷ nets) st f =
      Ensures-bind Kept Kept
        (record_net fl control program time net (net_change program dv st.0 net) st) _
        (record_net-Faithful control program time net (net_change program dv st.0 net) st f)
        (λ st' f'. record_nets-Faithful control program time dv nets st' f')

  -- What holds of a run: the histories follow the nets, and the event accounts are in order.
  pub record Sound (s : EngineState F) : Type 0 where
    pub faithful : Faithful s.histories s.net_values
    pub balanced : Balanced s.processed_events s.agenda
    pub within : s.processed_events ≤ max_digital_events

  -- A batch that is processed without an error adds to the processed events. It keeps every history ending
  -- with the level of its net, the event accounts balanced, and the processed events within the limit.
  pub engine_batch-Sound :
      (control : ExecutionControl) (program : DigitalProgram F) (stop : F)
      (first : ScheduledEvent F) (queue : List (ScheduledEvent F)) (s : EngineState F)
      → s.agenda.queue ≡ first ∷ queue
      → Sound s
      → Ensures
          (λ s'. Sound s' × (s.processed_events < s'.processed_events))
          (engine_batch fl control program stop first queue s)
  unfolding engine_batch
  engine_batch-Sound control program stop first queue s e sound =
      let taken = take_same fl first.time queue in
      let processed = s.processed_events + length (first ∷ taken.0) in
      let Good : EngineState F → Type 0 =
        λ s'. Sound s' × (s.processed_events < s'.processed_events) in
      let left : Agenda F = record (s.agenda) { queue = taken.1 } in
      Ensures-guard Good (ltb max_digital_events processed) "execution_resource_limit" _ (λ room.
        Ensures-after Good (apply_events program (first ∷ taken.0) s.driver_values []) _
          (λ applied a.
            Ensures-bind Kept Good
              (record_nets fl control program first.time applied.0 applied.1
                (s.net_values, s.histories, []))
              _
              (record_nets-Faithful control program first.time applied.0 applied.1
                (s.net_values, s.histories, []) sound.faithful)
              (λ settled f.
                Ensures-bind (λ r. Balanced processed r.1) Good
                  (evaluate_all fl program stop first.time settled.0 settled.2 s.runtime_states
                    left)
                  _
                  (evaluate_all-keeps fl (Balanced processed) (λ t. Unit)
                    (λ t component output v b u h.
                      schedule_output-Balanced fl t component output v b processed h)
                    program stop first.time settled.0 settled.2 s.runtime_states left
                    (All-of (λ c. Unit) (λ c. tt) program.components)
                    (take_batch-Balanced fl s.processed_events first queue s.agenda e
                      sound.balanced))
                  (λ r b. (
                    record {
                      faithful = f;
                      balanced = b;
                      within = ltb→le max_digital_events processed room;
                    },
                    omega arith,
                  )))))
