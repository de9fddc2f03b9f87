-- ===== src/Events/Order.antt =====
-- The event queue of src/digital.rs serves the earliest instant first, whole.
use mathlib.Core.List.{Perm}
use mathlib.Core.List.Perm
use sim_core.Prelude.{
  then_with, Ordering, compare, ◌≤◌, ◌<◌, ◌≡◌, ◌≢◌, refl, ap, ◌⊎◌, inl, inr, List, [], ◌∷◌, ◌++◌,
  All, arith, Bool-cases, All-imp, All-append_left,
}
use sim_core.Float.{Float, BitOrder}
use sim_core.Events.Ledger.{push-All}
use sim_core.Events.{ScheduledEvent, event_cmp, push, take_same}

module _ (fl : Float) (o : BitOrder fl) where
  open fl use {F, same_bits}
  open o use {key, total_cmp_key, same_bits_key}

  -- Event `e` is served no later than `x`: an earlier instant, or scheduled no later at the same one.
  abbrev pub Before : ScheduledEvent F → ScheduledEvent F → Type 0
  Before e x = (key e.time < key x.time) ⊎ ((key e.time ≡ key x.time) × (e.sequence ≤ x.sequence))

  -- The queue as `pop` serves it.
  abbrev pub InOrder : List (ScheduledEvent F) → Type 0
  InOrder [] = Unit
  InOrder (e ∷ queue) = All (Before e) queue × InOrder queue

  event_cmp-key :
      (e x : ScheduledEvent F)
      → event_cmp fl e x
        ≡ then_with (compare (key x.time) (key e.time)) (compare x.sequence e.sequence)
  event_cmp-key e x = rw total_cmp_key

  Before-of_cmp : (e x : ScheduledEvent F) → event_cmp fl e x ≡ Ordering.gt → Before e x
  Before-of_cmp e x h = ground (arith, event_cmp-key e x)

  Before-of_not_cmp : (e x : ScheduledEvent F) → event_cmp fl e x ≢ Ordering.gt → Before x e
  Before-of_not_cmp e x h = ground (arith, event_cmp-key e x)

  Before-trans : (a b c : ScheduledEvent F) → Before a b → Before b c → Before a c
  Before-trans a b c h k = omega arith

  -- Pushing an event keeps a queue in the order in which it is served.
  pub push-InOrder :
      (e : ScheduledEvent F) (queue : List (ScheduledEvent F))
      → InOrder queue
      → InOrder (push fl e queue)
  unfolding push
  push-InOrder e [] h = (tt, tt)
  push-InOrder e (x ∷ queue) h = place (event_cmp fl e x) refl (push-InOrder e queue h.1)
    where
      place :
          (c : Ordering)
          → event_cmp fl e x ≡ c
          → InOrder (push fl e queue)
          → InOrder (elim c [ Ordering.gt ↦ e ∷ x ∷ queue | _ ↦ x ∷ push fl e queue ])
      place Ordering.gt r rest =
          let first = Before-of_cmp e x r in
          ((first, All-imp (Before x) (Before e) (λ y. Before-trans e x y first) queue h.0), h)
      place Ordering.lt r rest =
          (push-All fl (Before x) e queue (Before-of_not_cmp e x (λ g. cc)) h.0, rest)
      place Ordering.eq r rest =
          (push-All fl (Before x) e queue (Before-of_not_cmp e x (λ g. cc)) h.0, rest)

  -- Pushing an event loses none of the queue and makes none up.
  pub push-perm :
      (e : ScheduledEvent F) (queue : List (ScheduledEvent F)) → Perm (push fl e queue) (e ∷ queue)
  unfolding push
  push-perm e [] = Perm.rfl
  push-perm e (x ∷ queue) = place (event_cmp fl e x) (push-perm e queue)
    where
      place :
          (c : Ordering)
          → Perm (push fl e queue) (e ∷ queue)
          → Perm (elim c [ Ordering.gt ↦ e ∷ x ∷ queue | _ ↦ x ∷ push fl e queue ]) (e ∷ x ∷ queue)
      place Ordering.gt rest = Perm.rfl
      place Ordering.lt rest = Perm.trans (Perm.cons x rest) (Perm.swap e x queue)
      place Ordering.eq rest = Perm.trans (Perm.cons x rest) (Perm.swap e x queue)

  -- What the batch of an instant is of the rest of the queue.
  pub record IsBatch (time : F) (queue : List (ScheduledEvent F))
      (split : List (ScheduledEvent F) × List (ScheduledEvent F)) : Type 0 where
    pub whole : split.0 ++ split.1 ≡ queue
    pub simultaneous : All (λ x. key x.time ≡ key time) split.0
    pub later : All (λ x. key time < key x.time) split.1
    pub fifo : InOrder split.0
    pub rest : InOrder split.1

  -- From a queue in order, with no event before an instant, the batch of that instant takes every event of
  -- it, in the order of scheduling, and leaves only later events, in order.
  pub take_same-IsBatch :
      (time : F) (queue : List (ScheduledEvent F))
      → All (λ x. key time ≤ key x.time) queue
      → InOrder queue
      → IsBatch time queue (take_same fl time queue)
  unfolding take_same
  take_same-IsBatch time [] early h = record {
    whole = refl;
    simultaneous = tt;
    later = tt;
    fifo = tt;
    rest = tt;
  }
  take_same-IsBatch time (e ∷ queue) early h =
      let more = take_same-IsBatch time queue early.1 h.1 in
      let same = same_bits_key e.time time in
      elim (Bool-cases (same_bits e.time time)) [
        | inl now ↦ rw now (record {
          whole = ap (◌∷◌ e) more.whole;
          simultaneous = (ground arith, more.simultaneous);
          later = more.later;
          fifo = (
            All-append_left (Before e) (take_same fl time queue).0 (take_same fl time queue).1
                (rw more.whole h.0),
            more.fifo,
          );
          rest = more.rest;
        })
        | inr after ↦
            let e_later : key time < key e.time = ground (arith, early.0) in
            rw after (record {
              whole = refl;
              simultaneous = tt;
              later = (
                e_later,
                All-imp (Before e) (λ x. key time < key x.time) (λ x b. omega arith) queue h.0,
              );
              fifo = tt;
              rest = h;
            })
      ]
