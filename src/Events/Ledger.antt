-- ===== src/Events/Ledger.antt =====
-- The bookkeeping of the event queue of src/digital.rs: every scheduled event is counted once.
use sim_core.Prelude.{
  ℕ, suc, ◌+◌, ◌%◌, ◌^◌, ◌≤◌, ◌<◌, ◌≡◌, refl, Ordering, false, List, [], ◌∷◌, ◌++◌, All, All-imp,
  length, arith, ltb, ltb→le, not, ◌||◌, Bool-cases, inl, inr,
}
use native.Mathlib.Nat.{mod-eq_of_lt}
use sim_core.Prelude.Result.{Ensures, Ensures-imp}
use sim_core.Logic.{LogicValue}
use sim_core.Logic.Resolve.{DriverKey}
use sim_core.Float.{Float}
use sim_core.Events.{
  ScheduledEvent, Agenda, max_digital_events, event_cmp, push, enter, schedule_output, take_same,
}

-- `processed` events have left the queue.
pub record Balanced {F : Type 0} (processed : ℕ) (a : Agenda F) : Type 0 where
  pub counted : length a.queue + processed ≡ a.scheduled_events
  pub numbered : a.sequence ≡ a.scheduled_events
  pub limited : a.scheduled_events ≤ max_digital_events
  pub fresh : All (λ e. e.sequence < a.sequence) a.queue

module _ (fl : Float) where
  open fl use {F, is_finite, lt, zero_time}

  length-push :
      (e : ScheduledEvent F) (queue : List (ScheduledEvent F))
      → length (push fl e queue) ≡ suc (length queue)
  unfolding push
  length-push e [] = refl
  length-push e (x ∷ queue) = ground (arith, length-push e queue)

  pub push-All :
      (P : ScheduledEvent F → Type 0) (e : ScheduledEvent F) (queue : List (ScheduledEvent F))
      → P e
      → All P queue
      → All P (push fl e queue)
  unfolding push
  push-All P e [] p h = (p, tt)
  push-All P e (x ∷ queue) p h =
      elim (event_cmp fl e x)
        as (λ c. All P (elim c [ Ordering.gt ↦ e ∷ x ∷ queue | _ ↦ x ∷ push fl e queue ])) [
          | Ordering.gt ↦ (p, h)
          | _ ↦ (h.0, push-All P e queue p h.1)
        ]

  enter-Balanced :
      (time : F) (driver : DriverKey) (value : LogicValue) (a : Agenda F) (processed : ℕ)
      → Balanced processed a
      → ltb max_digital_events (a.scheduled_events + 1) ≡ false
      → Balanced processed (enter fl time driver value a)
  unfolding enter
  enter-Balanced time driver value a processed b room =
      let limit = ltb→le max_digital_events (a.scheduled_events + 1) room in
      let next : (a.sequence + 1) % 2 ^ 64 ≡ a.sequence + 1 =
        mod-eq_of_lt (omega (arith, b.numbered)) in
      let older =
        All-imp (λ (e : ScheduledEvent F). e.sequence < a.sequence)
          (λ e. e.sequence < a.sequence + 1) (λ e h. omega arith) a.queue b.fresh in
      record {
        counted = omega (arith, length-push _ a.queue, b.counted);
        numbered = omega (arith, next, b.numbered);
        limited = limit;
        fresh = rw next (push-All (λ e. e.sequence < a.sequence + 1) _ a.queue (omega arith) older);
      }

  -- An event that is scheduled without an error keeps the books balanced, if they were, and adds one to the
  -- events scheduled. Its sequence number is greater than those of the queue: it has not wrapped.
  pub schedule_output-Entered :
      (time : F) (component output : ℕ) (value : LogicValue) (a : Agenda F) (processed : ℕ)
      → Balanced processed a
      → Ensures
          (λ a'. Balanced processed a' × (a'.scheduled_events ≡ a.scheduled_events + 1))
          (schedule_output fl time component output value a)
  unfolding schedule_output
  schedule_output-Entered time component output value a processed b =
      elim (Bool-cases (not (is_finite time) || lt time zero_time)) [
        | inl bad ↦ rw bad tt
        | inr good ↦ elim (Bool-cases (ltb max_digital_events (a.scheduled_events + 1))) [
          | inl full ↦ rw (good, full) tt
          | inr room ↦
              rw (good, room) (enter-Balanced time _ value a processed b room, unfold enter in refl)
        ]
      ]

  pub schedule_output-Balanced :
      (time : F) (component output : ℕ) (value : LogicValue) (a : Agenda F) (processed : ℕ)
      → Balanced processed a
      → Ensures (Balanced processed) (schedule_output fl time component output value a)
  schedule_output-Balanced time component output value a processed b =
      Ensures-imp _ (Balanced processed) (schedule_output fl time component output value a)
        (λ a' h. h.0) (schedule_output-Entered time component output value a processed b)

  pub take_same-append :
      (time : F) (queue : List (ScheduledEvent F))
      → (take_same fl time queue).0 ++ (take_same fl time queue).1 ≡ queue
  unfolding take_same
  take_same-append time [] = refl
  take_same-append time (e ∷ queue) = ground (arith, take_same-append time queue)
