-- ===== src/CoSim/Run/Target.antt =====
-- The target that `next_time` of src/cosim.rs picks.
use sim_core.Prelude.{
  ℕ, ◌+◌, ◌-◌, ◌^◌, ◌≤◌, ◌<◌, ◌≡◌, refl, min, String, true, false, [], ◌∷◌, Option, none, some, All,
  arith, Bool-cases, inl, inr, leb, leb→lt, leb→le, sym, ◌∙◌, ap, ◌⊎◌,
}
use sim_core.Prelude.Result.{Ensures, Ensures-guard, Ensures-imp, Ensures-bind}
use sim_core.Float.{Float}
use sim_core.CoSim.{CoSimulationConfig, Backend, saturating_add}
use sim_core.CoSim.Ports.{Fleet}
use sim_core.CoSim.Run.{earlier, earliest, next_time}

module _ (fl : Float) {P : Type 0} (backend : Backend fl P) where
  -- The next event of a participant, if it has one, is not before the time.
  abbrev pub NotBefore : ℕ → Option ℕ → Type 0
  NotBefore t none = Unit
  NotBefore t (some event) = t ≤ event

  abbrev pub NoneBefore : ℕ → Fleet P → Type 0
  NoneBefore t = All (λ (entry : String × P). NotBefore t (backend.next_event_time entry.1))

  abbrev pub IsEvent : ℕ → Fleet P → Type 0
  IsEvent t [] = ⊥
  IsEvent t (entry ∷ fleet) = (backend.next_event_time entry.1 ≡ some t) ⊎ IsEvent t fleet

  -- The target of a step: later than `now`, no later than `bound` or any event, and one of these.
  pub record IsTarget (now bound : ℕ) (fleet : Fleet P) (target : ℕ) : Type 0 where
    pub later : now < target
    pub bounded : target ≤ bound
    pub none_before : NoneBefore target fleet
    pub attained : (target ≡ bound) ⊎ IsEvent target fleet

  NotBefore-le : (t u : ℕ) (event : Option ℕ) → t ≤ u → NotBefore u event → NotBefore t event
  NotBefore-le t u none l h = tt
  NotBefore-le t u (some event) l h = omega arith

  earlier-Picks :
      (now : ℕ) (event : Option ℕ) (target : ℕ)
      → now < target
      → Ensures
          (λ t. (now < t) × (t ≤ target) × NotBefore t event × ((t ≡ target) ⊎ (event ≡ some t)))
          (earlier fl backend now event target)
  unfolding earlier
  earlier-Picks now none target h = (h, omega arith, tt, inl refl)
  earlier-Picks now (some event) target h =
      Ensures-guard _ (leb event now) "cosim_event_time_invalid" _ (λ e.
        let after = leb→lt event now e in
        (omega arith, omega arith, omega arith, either (Bool-cases (leb target event))))
    where
      either :
          ((leb target event ≡ true) ⊎ (leb target event ≡ false))
          → (min target event ≡ target) ⊎ (some event ≡ some (min target event))
      either (inl e) = inl (omega (arith, leb→le target event e))
      either (inr e) = inr (ap some (omega (arith, leb→lt target event e)))

  earliest-IsTarget :
      (now bound : ℕ) (fleet : Fleet P)
      → now < bound
      → Ensures (IsTarget now bound fleet) (earliest fl backend now fleet bound)
  unfolding earliest
  earliest-IsTarget now bound [] h = record {
    later = h;
    bounded = omega arith;
    none_before = tt;
    attained = inl refl;
  }
  earliest-IsTarget now bound (entry ∷ fleet) h =
      Ensures-bind _ (IsTarget now bound (entry ∷ fleet))
        (earlier fl backend now (backend.next_event_time entry.1) bound) _
        (earlier-Picks now (backend.next_event_time entry.1) bound h)
        (λ t p.
          Ensures-imp (IsTarget now t fleet) (IsTarget now bound (entry ∷ fleet))
            (earliest fl backend now fleet t)
            (λ u k. record {
              later = k.later;
              bounded = omega (arith, k.bounded, p.1);
              none_before =
                  (NotBefore-le u t (backend.next_event_time entry.1) k.bounded p.2, k.none_before);
              attained = attained t u p.3 k.attained;
            })
            (earliest-IsTarget now t fleet p.0))
    where
      attained :
          (t u : ℕ)
          → (t ≡ bound) ⊎ (backend.next_event_time entry.1 ≡ some t)
          → (u ≡ t) ⊎ IsEvent u fleet
          → (u ≡ bound) ⊎ ((backend.next_event_time entry.1 ≡ some u) ⊎ IsEvent u fleet)
      attained t u (inl e) (inl f) = inl (f ∙ e)
      attained t u (inr e) (inl f) = inr (inl (e ∙ ap some (sym f)))
      attained t u p (inr f) = inr (inr f)

  -- From before a stop time that is a `u64`, with a step that is not zero, the target that
  -- `next_time` returns, if it reports no error, is later than now, at most a step away and no later
  -- than the stop time or any participant's next event; it is the earliest of these.
  pub next_time-IsTarget :
      (config : CoSimulationConfig) (fleet : Fleet P) (now : ℕ)
      → now < config.stop
      → config.stop < 2 ^ 64
      → 0 < config.max_step
      → Ensures
          (IsTarget now (min (now + config.max_step) config.stop) fleet)
          (next_time fl backend config fleet now)
  unfolding next_time saturating_add
  next_time-IsTarget config fleet now h w p =
      let bound : min (min (now + config.max_step) (2 ^ 64 - 1)) config.stop
          ≡ min (now + config.max_step) config.stop =
        omega arith in
      rw bound (earliest-IsTarget now (min (now + config.max_step) config.stop) fleet (omega arith))
