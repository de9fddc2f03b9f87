-- ===== src/Session/Ledger.antt =====
-- The event accounts of a session of src/digital.rs over a whole batch.
use sim_core.Prelude.{
  ℕ, ◌+◌, ◌≤◌, ◌<◌, ◌≡◌, sym, ap, subst, List, ◌∷◌, length, length-append, All, All-append_right,
  arith,
}
use sim_core.Prelude.Result.{Ensures, Ensures-imp, Ensures-under}
use sim_core.Control.{ExecutionControl}
use sim_core.Float.{Float}
use sim_core.Logic.{LogicValue}
use sim_core.Events.{ScheduledEvent, Agenda, take_same, max_digital_events, schedule_output}
use sim_core.Events.Ledger.{Balanced, schedule_output-Balanced, take_same-append}
use sim_core.Session.{DigitalSession, process_batch}
use sim_core.Session.Batch.{Batched, process_batch-keeps}

module _ (fl : Float) where
  open fl use {F}

  -- Taking a batch moves its events from the queue to those processed.
  pub take_batch-Balanced :
      (processed : ℕ) (first : ScheduledEvent F) (queue : List (ScheduledEvent F)) (a : Agenda F)
      → a.queue ≡ first ∷ queue
      → Balanced processed a
      → Balanced
          (processed + length (first ∷ (take_same fl first.time queue).0))
          (record a { queue = (take_same fl first.time queue).1 })
  take_batch-Balanced processed first queue a e b =
      let taken = take_same fl first.time queue in
      let whole = take_same-append fl first.time queue in
      let fresh : All (λ x. x.sequence < a.sequence) (first ∷ queue) =
        subst (All (λ x. x.sequence < a.sequence)) e b.fresh in
      record {
        counted =
            omega (arith, b.counted, ap length e, length-append taken.0 taken.1, ap length whole);
        numbered = b.numbered;
        limited = b.limited;
        fresh = All-append_right (λ x. x.sequence < a.sequence) taken.0 taken.1 (rw whole fresh.1);
      }

  -- What a batch does to the accounts: it moves on, within the limit, and the books stay balanced.
  pub record Progress (s s' : DigitalSession F) : Type 0 where
    pub balanced : Balanced s.processed_events s.agenda → Balanced s'.processed_events s'.agenda
    pub further : s.processed_events < s'.processed_events
    pub within : s'.processed_events ≤ max_digital_events
    pub kept_program : s'.program ≡ s.program
    pub kept_time : s'.current_time ≡ s.current_time

  abbrev Books : DigitalSession F → ℕ → Agenda F → Type 0
  Books s processed a = Balanced s.processed_events s.agenda → Balanced processed a

  books :
      (s : DigitalSession F) (processed : ℕ) (time : F) (component output : ℕ) (value : LogicValue)
      (a : Agenda F)
      → Unit {0}
      → Books s processed a
      → Ensures (Books s processed) (schedule_output fl time component output value a)
  books s processed time component output value a t h =
      Ensures-under (Balanced processed) (schedule_output fl time component output value a)
        (λ b. schedule_output-Balanced fl time component output value a processed (h b))

  -- A batch that is processed without an error adds to the processed events, which stay within the limit.
  -- It keeps the program and the current time, and the books balanced if they were.
  pub process_batch-Progress :
      (control : ExecutionControl) (first : ScheduledEvent F) (queue : List (ScheduledEvent F))
      (s : DigitalSession F)
      → s.agenda.queue ≡ first ∷ queue
      → Ensures (Progress s) (process_batch fl control first queue s)
  process_batch-Progress control first queue s e =
      let processed = s.processed_events + length (first ∷ (take_same fl first.time queue).0) in
      Ensures-imp (λ s'. Books s processed s'.agenda × Batched fl first queue s s') (Progress s)
        (process_batch fl control first queue s)
        (λ s' h. record {
          balanced = λ b. subst (λ p. Balanced p s'.agenda) (sym h.1.counted) (h.0 b);
          further = omega (arith, h.1.counted);
          within = h.1.within;
          kept_program = h.1.kept_program;
          kept_time = h.1.kept_time;
        })
        (process_batch-keeps fl (Books s processed) (books s processed) control first queue s
          (take_batch-Balanced s.processed_events first queue s.agenda e))
