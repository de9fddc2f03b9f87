-- ===== src/Session/Due.antt =====
-- The queue of a session of src/digital.rs stays in order, so that once its next event is not due, no
-- event is.
use sim_core.Prelude.{
  ℕ, ◌+◌, ◌≤◌, ◌<◌, ◌≡◌, refl, sym, ◌∙◌, subst, true, inl, inr, List, [], ◌∷◌, ◌++◌, String, not,
  ◌||◌, All, All-append_right, arith, Bool-cases, ltb,
}
use sim_core.Prelude.Map.{lookup, string_key}
use sim_core.Prelude.Loop.{Either, Holds, loop-Holds, Returns, Returns-both}
use sim_core.Prelude.Result.{Ensures, Ensures-bind, Ensures-guard, Result-cases}
use sim_core.Control.{ExecutionControl, check_execution}
use sim_core.Float.{Float, BitOrder, LaterOrder}
use sim_core.Logic.{LogicValue}
use sim_core.Logic.Resolve.{DriverKey}
use sim_core.Events.{ScheduledEvent, Agenda, max_digital_events, enter, schedule_output, take_same}
use sim_core.Events.Ledger.{Balanced, push-All, take_same-append}
use sim_core.Events.Order.{Before, InOrder, push-InOrder}
use sim_core.Session.{DigitalSession, serve, round, process_until, process_batch}
use sim_core.Session.Batch.{Undriven, Batched, process_batch-keeps}
use sim_core.Session.Rounds.{NextLater, Settled, process_until-Settled}

module _ (fl : Float) (o : BitOrder fl) where
  open fl use {F, lt, add, half_tick, is_finite, same_bits, zero_time}

  -- A queue in the order in which it is served, of finite times.
  pub record Timely (queue : List (ScheduledEvent F)) : Type 0 where
    pub in_order : InOrder fl o queue
    pub finite : All (λ e. is_finite e.time ≡ true) queue

  -- No event of a queue is due at `target`; the tolerance is half a tick.
  abbrev pub NoneDue : F → List (ScheduledEvent F) → Type 0
  NoneDue target queue = All (λ e. lt (add target half_tick) e.time ≡ true) queue

  enter-Timely :
      (time : F) (driver : DriverKey) (value : LogicValue) (a : Agenda F)
      → is_finite time ≡ true
      → Timely a.queue
      → Timely (enter fl time driver value a).queue
  unfolding enter
  enter-Timely time driver value a finite t =
      let e : ScheduledEvent F = record {
        time = time;
        sequence = a.sequence;
        driver = driver;
        value = value;
      } in
      record {
        in_order = push-InOrder fl o e a.queue t.in_order;
        finite = push-All fl (λ x. is_finite x.time ≡ true) e a.queue finite t.finite;
      }

  pub schedule_output-Timely :
      (time : F) (component output : ℕ) (value : LogicValue) (a : Agenda F)
      → Unit {0}
      → Timely a.queue
      → Ensures (λ a'. Timely a'.queue) (schedule_output fl time component output value a)
  unfolding schedule_output
  schedule_output-Timely time component output value a u t =
      Ensures-guard _ (not (is_finite time) || lt time zero_time) _ _ (λ valid.
        Ensures-guard _ (ltb max_digital_events (a.scheduled_events + 1)) _ _ (λ room.
          enter-Timely time (record { component = component; output = output }) value a
            (ground arith) t))

  InOrder-append_right :
      (xs ys : List (ScheduledEvent F)) → InOrder fl o (xs ++ ys) → InOrder fl o ys
  InOrder-append_right [] ys h = h
  InOrder-append_right (x ∷ xs) ys h = InOrder-append_right xs ys h.1

  -- What a batch leaves is in order.
  take_same-Timely :
      (time : F) (queue : List (ScheduledEvent F))
      → Timely queue
      → Timely (take_same fl time queue).1
  take_same-Timely time queue t =
      let taken = take_same fl time queue in
      let whole : Timely (taken.0 ++ taken.1) =
        subst Timely (sym (take_same-append fl time queue)) t in
      record {
        in_order = InOrder-append_right taken.0 taken.1 whole.in_order;
        finite = All-append_right (λ e. is_finite e.time ≡ true) taken.0 taken.1 whole.finite;
      }

  Timely-rest :
      (first : ScheduledEvent F) (queue : List (ScheduledEvent F))
      → Timely (first ∷ queue)
      → Timely queue
  Timely-rest first queue t = record { in_order = t.in_order.1; finite = t.finite.1 }

  -- What the rounds of a session keep of the session that they started with.
  record Follows (start s : DigitalSession F) : Type 0 where
    timely : Timely s.agenda.queue
    program : s.program ≡ start.program
    held :
        (net : String)
        → Undriven start.program net
        → lookup net s.net_values ≡ lookup net start.net_values

  serve-Follows :
      (control : ExecutionControl) (target : F) (start s : DigitalSession F)
      (queue : List (ScheduledEvent F))
      → s.agenda.queue ≡ queue
      → Follows start s
      → Ensures
          (Either (Follows start))
          (serve fl control target queue (record s { instant = s.instant + 1 }))
  unfolding serve
  serve-Follows control target start s [] e f = record {
    timely = f.timely;
    program = f.program;
    held = f.held;
  }
  serve-Follows control target start s (first ∷ queue) e f =
      let now = record s { instant = s.instant + 1 } in
      let served = Timely-rest first queue (subst Timely e f.timely) in
      elim (Bool-cases (lt (add target half_tick) first.time)) [
        | inl late ↦ rw late (record { timely = f.timely; program = f.program; held = f.held })
        | inr due ↦ rw due (
            Ensures-bind (λ s'. Timely s'.agenda.queue × Batched fl first queue now s')
              (Either (Follows start)) (process_batch fl control first queue now) _
              (process_batch-keeps fl (λ a. Timely a.queue) schedule_output-Timely control first
                queue now (take_same-Timely first.time queue served))
              (λ s' h. record {
                timely = h.0;
                program = h.1.kept_program ∙ f.program;
                held = λ net undriven.
                    h.1.held net (subst (λ p. Undriven p net) (sym f.program) undriven)
                    ∙ f.held net undriven;
              }))
      ]

  round-Follows :
      (control : ExecutionControl) (target : F) (start s : DigitalSession F)
      → Follows start s
      → Ensures (Either (Follows start)) (round fl control target s)
  unfolding round
  round-Follows control target start s f = elim (Result-cases (check_execution control s.instant)) [
    | inr (e, stopped) ↦ rw stopped tt
    | inl (u, on) ↦ rw on (serve-Follows control target start s s.agenda.queue refl f)
  ]

  process_until-Follows :
      (fuel : ℕ) (control : ExecutionControl) (target : F) (s : DigitalSession F)
      → Timely s.agenda.queue
      → Holds (Follows s) (process_until fl fuel control target s)
  unfolding process_until
  process_until-Follows fuel control target s t =
      loop-Holds (Follows s) (round fl control target) (round-Follows control target s) fuel s
        (record { timely = t; program = refl; held = λ net undriven. refl })

  module _ (later : LaterOrder fl o) where
    open later use {later_on}
    open o use {key}

    -- In a queue in order, the events behind one that is not due are not due.
    NextLater-NoneDue :
        (target : F) (queue : List (ScheduledEvent F))
        → Timely queue
        → NextLater fl target queue
        → NoneDue target queue
    NextLater-NoneDue target [] t n = tt
    NextLater-NoneDue target (e ∷ queue) t n = (n, behind queue t.in_order.0 t.finite.1)
      where
        behind :
            (rest : List (ScheduledEvent F))
            → All (Before fl o e) rest
            → All (λ x. is_finite x.time ≡ true) rest
            → NoneDue target rest
        behind [] b f = tt
        behind (x ∷ rest) b f = (
          later_on (add target half_tick) e.time x.time n (not_before x b.0) f.0,
          behind rest b.1 f.1,
        )
          where
            not_before : (x : ScheduledEvent F) → Before fl o e x → key e.time ≤ key x.time
            not_before x h = ground arith

    -- The end of the loop: nothing is due, the queue is in order, the books that were balanced still are,
    -- and the nets that no component drives have the levels they had.
    pub record Idle (target : F) (s s' : DigitalSession F) : Type 0 where
      pub none_due : NoneDue target s'.agenda.queue
      pub timely : Timely s'.agenda.queue
      pub balanced : Balanced s.processed_events s.agenda → Balanced s'.processed_events s'.agenda
      pub within : s'.processed_events ≤ max_digital_events
      pub kept_program : s'.program ≡ s.program
      pub kept_time : s'.current_time ≡ s.current_time
      pub held :
          (net : String)
          → Undriven s.program net
          → lookup net s'.net_values ≡ lookup net s.net_values

    -- With fuel for the events that the limit still allows, and a queue in the order in which it is served,
    -- of finite times, the loop returns. It returns an error, or a session of the same program and current
    -- time: no event of its queue, which is in order again, is due at the target any more; its processed
    -- events are within the limit, its books are balanced if they were, and the nets that no component
    -- drives have kept their levels.
    pub process_until-Idle :
        (fuel : ℕ) (control : ExecutionControl) (target : F) (s : DigitalSession F)
        → s.processed_events ≤ max_digital_events
        → max_digital_events < fuel + s.processed_events
        → Timely s.agenda.queue
        → Returns (Idle target s) (process_until fl fuel control target s)
    process_until-Idle fuel control target s w h t =
        Returns-both (Settled fl target s) (Follows s) (Idle target s)
          (λ s' settled follows. record {
            none_due = NextLater-NoneDue target s'.agenda.queue follows.timely settled.next_later;
            timely = follows.timely;
            balanced = settled.balanced;
            within = settled.within;
            kept_program = settled.kept_program;
            kept_time = settled.kept_time;
            held = follows.held;
          })
          (process_until fl fuel control target s)
          (process_until-Settled fl fuel control target s w h)
          (process_until-Follows fuel control target s t)
