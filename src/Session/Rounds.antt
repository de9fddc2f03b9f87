-- ===== src/Session/Rounds.antt =====
-- The loop `process_until` of src/digital.rs ends, and ends where it should.

use sim_core.Prelude.{
  ℕ, ◌+◌, ◌-◌, ◌≤◌, ◌<◌, ◌≡◌, ◌∙◌, refl, sym, subst, true, inl, inr, List, [], ◌∷◌, arith,
  Bool-cases,
}
use sim_core.Prelude.Result.{ok, Ensures, Ensures-bind, Result-cases}
use sim_core.Prelude.Loop.{Round, again, Turn, Returns, loop-Returns}
use sim_core.Control.{ExecutionControl, check_execution}
use sim_core.Float.{Float}
use sim_core.Events.{ScheduledEvent, max_digital_events}
use sim_core.Events.Ledger.{Balanced}
use sim_core.Session.{DigitalSession, serve, round, process_until, process_batch}
use sim_core.Session.Ledger.{Progress, process_batch-Progress}

module _ (fl : Float) where
  open fl use {F, lt, add, half_tick}

  -- The next event of the queue is not due at `target`; the tolerance is half a tick.
  abbrev pub NextLater : F → List (ScheduledEvent F) → Type 0
  NextLater target [] = Unit
  NextLater target (e ∷ queue) = lt (add target half_tick) e.time ≡ true

  -- The end of the loop: the next event is not due, and the books that were balanced still are.
  pub record Settled (target : F) (s s' : DigitalSession F) : Type 0 where
    pub next_later : NextLater target s'.agenda.queue
    pub balanced : Balanced s.processed_events s.agenda → Balanced s'.processed_events s'.agenda
    pub within : s'.processed_events ≤ max_digital_events
    pub kept_program : s'.program ≡ s.program
    pub kept_time : s'.current_time ≡ s.current_time

  -- What each round keeps of the session `s` that the loop started with.
  record Kept (s s' : DigitalSession F) : Type 0 where
    balanced : Balanced s.processed_events s.agenda → Balanced s'.processed_events s'.agenda
    within : s'.processed_events ≤ max_digital_events
    kept_program : s'.program ≡ s.program
    kept_time : s'.current_time ≡ s.current_time

  abbrev events_left : DigitalSession F → ℕ
  events_left s = max_digital_events - s.processed_events

  abbrev Outcome : F → DigitalSession F → DigitalSession F → Round (DigitalSession F) → Type 0
  Outcome target start s = Turn (Kept start) (Settled target start) events_left s

  halt-Settled :
      (target : F) (start s s' : DigitalSession F)
      → Kept start s
      → NextLater target s.agenda.queue
      → s' ≡ record s { instant = s.instant + 1 }
      → Settled target start s'
  halt-Settled target start s s' k quiet e = subst (Settled target start) (sym e) (record {
    next_later = quiet;
    balanced = k.balanced;
    within = k.within;
    kept_program = k.kept_program;
    kept_time = k.kept_time;
  })

  batch-Kept :
      (start s s' : DigitalSession F)
      → Kept start s
      → Progress fl (record s { instant = s.instant + 1 }) s'
      → Kept start s' × (events_left s' < events_left s)
  batch-Kept start s s' k p =
      let kept : Kept start s' = record {
        balanced = λ b. p.balanced (k.balanced b);
        within = p.within;
        kept_program = p.kept_program ∙ k.kept_program;
        kept_time = p.kept_time ∙ k.kept_time;
      } in
      (kept, omega (arith, p.further, p.within))

  serve-Outcome :
      (control : ExecutionControl) (target : F) (start : DigitalSession F)
      (queue : List (ScheduledEvent F)) (s : DigitalSession F)
      → Kept start s
      → s.agenda.queue ≡ queue
      → Ensures
          (Outcome target start s)
          (serve fl control target queue (record s { instant = s.instant + 1 }))
  unfolding serve
  serve-Outcome control target start [] s k e =
      halt-Settled target start s _ k (subst (NextLater target) (sym e) tt) refl
  serve-Outcome control target start (first ∷ queue) s k e =
      elim (Bool-cases (lt (add target half_tick) first.time)) [
        | inl late ↦
            rw late (halt-Settled target start s _ k (subst (NextLater target) (sym e) late) refl)
        | inr due ↦
            let now = record s { instant = s.instant + 1 } in
            rw due (
              Ensures-bind (Progress fl now) (Outcome target start s)
                (process_batch fl control first queue now) (λ s'. ok (again s'))
                (process_batch-Progress fl control first queue now e)
                (λ s' p. batch-Kept start s s' k p))
      ]

  round-Outcome :
      (control : ExecutionControl) (target : F) (start s : DigitalSession F)
      → Kept start s
      → Ensures (Outcome target start s) (round fl control target s)
  unfolding round
  round-Outcome control target start s k = elim (Result-cases (check_execution control s.instant)) [
    | inr (e, stopped) ↦ rw stopped tt
    | inl (u, on) ↦ rw on (serve-Outcome control target start s.agenda.queue s k refl)
  ]

  -- With fuel for the events that the limit still allows, the loop returns. It returns an error, or a
  -- session of the same program and current time whose next event is not due at the target, whose
  -- processed events are within the limit and whose books are balanced if they were.
  pub process_until-Settled :
      (fuel : ℕ) (control : ExecutionControl) (target : F) (s : DigitalSession F)
      → s.processed_events ≤ max_digital_events
      → max_digital_events < fuel + s.processed_events
      → Returns (Settled target s) (process_until fl fuel control target s)
  unfolding process_until
  process_until-Settled fuel control target s w h =
      loop-Returns (Kept s) (Settled target s) events_left (round fl control target)
        (round-Outcome control target s) fuel s
        (record { balanced = λ b. b; within = w; kept_program = refl; kept_time = refl })
        (omega arith)
