-- ===== src/Session/Participant/Contract.antt =====
-- What a session of src/digital.rs gives to a scheduler that drives it.
use mathlib.Core.Option
use mathlib.Core.Option.{some-injective}
use sim_core.Prelude.{
  ℕ, ◌+◌, ◌-◌, ◌^◌, ◌≤◌, ◌<◌, ◌≡◌, refl, sym, ◌∙◌, subst, min, String, Bool, true, not, ◌&&◌, ◌||◌,
  List, [], ◌∷◌, Option, none, some, All-of, arith, Bool-cases, inl, inr, ltb, leb, ltb→le, leb→lt,
  ◌==◌, if◌then◌else◌, or_default,
}
use sim_core.Prelude.Map.{lookup, insert, contains, string_key}
use sim_core.Prelude.Loop.{Returns}
use sim_core.Prelude.Result.{Result, ok, err, Ensures, Ensures-guard}
use sim_core.Control.{ExecutionControl}
use sim_core.Float.{Float, Tolerant}
use sim_core.Logic.{LogicValue, unknown, logic_eq}
use sim_core.Events.{ScheduledEvent, max_digital_events}
use sim_core.Events.Ledger.{Balanced, schedule_output-Balanced}
use sim_core.Program.{dependents_of}
use sim_core.Session.{DigitalSession, evaluate_components, process_until}
use sim_core.Session.Participant.{
  arrive, changed, advance_to, write_external, future_time, optional, peek_time, next_event_time,
}
use sim_core.Session.Schedule.{Untouched, evaluate_components-keeps}
use sim_core.Session.Rounds.{NextLater, Settled, process_until-Settled}

module _ (fl : Float) where
  open fl use {
    F, as_seconds, lt, add, half_tick, mul, ceil, to_u64, tick_rate, is_finite, zero_time, u64_max,
  }

  -- A session whose event accounts are in order.
  pub record Usable (s : DigitalSession F) : Type 0 where
    pub within : s.processed_events ≤ max_digital_events
    pub balanced : Balanced s.processed_events s.agenda

  -- A session that waits for its scheduler: its next event is not due at its current time.
  pub record Ready (s : DigitalSession F) : Type 0 where
    pub usable : Usable s
    pub quiet : NextLater fl (as_seconds s.current_time) s.agenda.queue

  Settled-Returns :
      (fuel : ℕ) (control : ExecutionControl) (target : F) (s : DigitalSession F)
      → max_digital_events < fuel
      → Usable s
      → Returns (Settled fl target s) (process_until fl fuel control target s)
  Settled-Returns fuel control target s enough u =
      process_until-Settled fl fuel control target s u.within (omega arith)

  abbrev Arrived : DigitalSession F → ℕ → DigitalSession F → Type 0
  Arrived s target s' = Ready s' × (s'.current_time ≡ target) × (s.current_time ≤ s'.current_time)

  arrive-Arrived :
      (target : ℕ) (s : DigitalSession F) (o : Option (Result (DigitalSession F)))
      → s.current_time ≤ target
      → Usable s
      → Returns (Settled fl (as_seconds target) s) o
      → Returns (Arrived s target) (Option.map (arrive fl target) o)
  unfolding arrive
  arrive-Arrived target s none later u r = r
  arrive-Arrived target s (some (err e)) later u r = tt
  arrive-Arrived target s (some (ok s')) later u r = (
    record {
      usable = record { within = r.within; balanced = r.balanced u.balanced };
      quiet = r.next_later;
    },
    refl,
    later,
  )

  -- With fuel for the event limit, advancing a session whose accounts are in order returns an error, or a
  -- session at the target, not before the time it had, that is ready: its accounts are in order and its
  -- next event is not due at its time.
  pub advance_to-Ready :
      (fuel : ℕ) (control : ExecutionControl) (target : ℕ) (s : DigitalSession F)
      → max_digital_events < fuel
      → Usable s
      → Returns
          (λ s'. Ready s' × (s'.current_time ≡ target) × (s.current_time ≤ s'.current_time))
          (advance_to fl fuel control target s)
  unfolding advance_to
  advance_to-Ready fuel control target s enough u =
      elim (Bool-cases
        (ltb target s.current_time || lt (add s.stop half_tick) (as_seconds target))) [
          | inl bad ↦ rw bad tt
          | inr good ↦
              let later : s.current_time ≤ target = ground (arith, ltb→le target s.current_time) in
              rw good (
                arrive-Arrived target s (process_until fl fuel control (as_seconds target) s) later
                  u (Settled-Returns fuel control (as_seconds target) s enough u))
        ]

  future_time-Later :
      (seconds : F) (current : ℕ)
      → current + 1 < 2 ^ 64
      → lt (as_seconds current) seconds ≡ true
      → Ensures (λ t. current < t) (future_time fl seconds current)
  unfolding future_time
  future_time-Later seconds current w later =
      Ensures-guard (λ t. current < t) (not (is_finite seconds) || lt seconds zero_time) _ _
        (λ valid.
          Ensures-guard (λ t. current < t) (lt u64_max (ceil (mul seconds tick_rate))) _ _
            (λ ranged. rw later (ends (to_u64 (ceil (mul seconds tick_rate))))))
    where
      ends :
          (t : ℕ) → current < (if leb t current && true then min (current + 1) (2 ^ 64 - 1) else t)
      ends t = elim (Bool-cases (leb t current)) [
        | inl early ↦ rw early (omega arith)
        | inr after ↦ rw after (leb→lt t current after)
      ]

  optional-Ensures :
      {A : Type 0} (Q : A → Type 0) (m : Result A) {a : A}
      → Ensures Q m
      → optional fl m ≡ some a
      → Q a
  optional-Ensures Q (ok b) h e = subst Q (some-injective b _ e) h
  optional-Ensures Q (err b) h e = cc

  peek_time-Later :
      (queue : List (ScheduledEvent F)) (current : ℕ) {t : ℕ}
      → Tolerant fl
      → current + 1 < 2 ^ 64
      → NextLater fl (as_seconds current) queue
      → peek_time fl queue current ≡ some t
      → current < t
  unfolding peek_time
  peek_time-Later [] current tolerant w q e = cc
  peek_time-Later (first ∷ queue) current tolerant w q e =
      optional-Ensures (λ t. current < t) (future_time fl first.time current)
        (future_time-Later first.time current w
          (tolerant.half_tick_later (as_seconds current) first.time q))
        e

  -- Where a clock of 64 bits can still go on, and half a tick does not go back in time, the next event
  -- that a ready session announces is strictly later than its current time.
  pub next_event_time-Later :
      (s : DigitalSession F) {t : ℕ}
      → Tolerant fl
      → s.current_time + 1 < 2 ^ 64
      → Ready s
      → next_event_time fl s ≡ some t
      → s.current_time < t
  unfolding next_event_time
  next_event_time-Later s tolerant w r e =
      peek_time-Later s.agenda.queue s.current_time tolerant w r.quiet e

  abbrev Written : DigitalSession F → DigitalSession F × Bool → Type 0
  Written s r = Ready r.0 × (r.0.current_time ≡ s.current_time)

  changed-Written :
      (s s' : DigitalSession F) (o : Option (Result (DigitalSession F)))
      → Usable s'
      → s'.current_time ≡ s.current_time
      → Returns (Settled fl (as_seconds s.current_time) s') o
      → Returns (Written s) (Option.map (changed fl) o)
  unfolding changed
  changed-Written s s' none u e r = r
  changed-Written s s' (some (err x)) u e r = tt
  changed-Written s s' (some (ok s2)) u e r =
      let same : s2.current_time ≡ s.current_time = r.kept_time ∙ e in
      (
        record {
          usable = record { within = r.within; balanced = r.balanced u.balanced };
          quiet = subst (λ t. NextLater fl (as_seconds t) s2.agenda.queue) (sym same) r.next_later;
        },
        same,
      )

  -- With fuel for the event limit, writing an input of a ready session returns an error, or a session that
  -- is ready again, at the same time.
  pub write_external-Ready :
      (fuel : ℕ) (control : ExecutionControl) (net : String) (time : ℕ) (value : LogicValue)
      (s : DigitalSession F)
      → max_digital_events < fuel
      → Ready s
      → Returns
          (λ r. Ready r.0 × (r.0.current_time ≡ s.current_time))
          (write_external fl fuel control net time value s)
  unfolding write_external
  write_external-Ready fuel control net time value s enough r =
      elim (Bool-cases (time == s.current_time)) [
        | inr wrong ↦ rw wrong tt
        | inl now ↦ elim (Bool-cases (contains net s.external_inputs)) [
          | inr unknown_net ↦ rw (now, unknown_net) tt
          | inl known ↦
              elim (Bool-cases (logic_eq (or_default (lookup net s.net_values) unknown) value)) [
                | inl same ↦ rw (now, known, same) (r, refl)
                | inr differs ↦
                    rw (now, known, differs)
                      (go
                        (evaluate_components fl control (dependents_of s.program net) here written)
                        (evaluate_components-keeps fl (Balanced s.processed_events) (λ t. Unit)
                          (λ t component output v a u b.
                            schedule_output-Balanced fl t component output v a s.processed_events b)
                          control (dependents_of s.program net) here written
                          (All-of (λ c. Unit) (λ c. tt) s.program.components) r.usable.balanced))
              ]
        ]
      ]
    where
      here : F
      here = as_seconds s.current_time

      written : DigitalSession F
      written = record s { net_values = insert net value s.net_values }

      go :
          (m : Result (DigitalSession F))
          → Ensures (λ s'. Balanced s.processed_events s'.agenda × Untouched written s') m
          → Returns (Written s) (elim m [
            | err e ↦ some (err e)
            | ok s' ↦ Option.map (changed fl) (process_until fl fuel control here s')
          ])
      go (err e) h = tt
      go (ok s') h =
          let usable : Usable s' = record {
            within = rw h.1.same_processed r.usable.within;
            balanced = rw h.1.same_processed h.0;
          } in
          changed-Written s s' (process_until fl fuel control here s') usable h.1.same_time
            (Settled-Returns fuel control here s' enough usable)
