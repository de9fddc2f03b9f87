-- ===== src/CoSim/Record/Histories.antt =====
-- What the recorded histories of src/cosim.rs hold.
use sim_core.Prelude.{
  ℕ, suc, ◌+◌, ◌≡◌, refl, sym, ◌∙◌, ap, subst, false, List, [], ◌∷◌, ◌++◌, none, some, length,
  length-append, All, arith, Bool-cases, Option-cases, inl, inr,
}
use mathlib.Core.Option.{some-injective}
use sim_core.Prelude.Map.{lookup, string_key, keys}
use sim_core.Prelude.Result.{ok_or-eq-ok, ok, ok_or, Ensures, Ensures-after, Ensures-bind}
use sim_core.Float.{Float}
use sim_core.Logic.{LogicValue, logic_eq}
use sim_core.CoSim.{
  CoSimulationEndpoint, CoSimulationValue, digital, analog, Backend, endpoint_key, validate_value,
}
use sim_core.CoSim.Ports.{Fleet}
use sim_core.CoSim.Record.{
  RecordedSignal, recorded_digital, recorded_analog, Signals, push_level, push_sample, record_value,
  record_signals, equal_time,
}
use sim_core.Waveform.{
  logic_eq-eq, DigitalTransition, last, set_last, EndsAt, last-append, last-set_last,
}

-- No level is recorded twice in a row.
abbrev pub Changing : {F : Type 0} → List (DigitalTransition F) → Type 0
Changing [] = Unit
Changing (t ∷ []) = Unit
Changing (t ∷ u ∷ ts) = (logic_eq t.value u.value ≡ false) × Changing (u ∷ ts)

abbrev pub Tidy : {F : Type 0} → RecordedSignal F → Type 0
Tidy (recorded_digital signal transitions) = Changing transitions
Tidy (recorded_analog signal unit times values) = length times ≡ length values

last-none : {A : Type 0} (xs : List A) → last xs ≡ none → xs ≡ []
last-none [] h = refl
last-none (x ∷ []) h = cc
last-none (x ∷ y ∷ xs) h = absurd (ne (last-none (y ∷ xs) h))
  where
    ne : ¬ (y ∷ xs ≡ [])
    ne e = cc

length-set_last : {A : Type 0} (a : A) (xs : List A) → length (set_last a xs) ≡ length xs
unfolding set_last
length-set_last a [] = refl
length-set_last a (x ∷ []) = refl
length-set_last a (x ∷ y ∷ xs) = ap suc (length-set_last a (y ∷ xs))

Changing-append :
    {F : Type 0} (ts : List (DigitalTransition F)) (t u : DigitalTransition F)
    → Changing ts
    → last ts ≡ some t
    → logic_eq t.value u.value ≡ false
    → Changing (ts ++ u ∷ [])
Changing-append [] t u h e n = tt
Changing-append (s ∷ []) t u h e n =
    (subst (λ x. logic_eq x.value u.value ≡ false) (sym (some-injective s t e)) n, tt)
Changing-append (s ∷ r ∷ ts) t u h e n = (h.0, Changing-append (r ∷ ts) t u h.1 e n)

module _ (fl : Float) {P : Type 0} (backend : Backend fl P) where
  open fl use {F, as_seconds}

  push_level-Changing :
      (seconds : F) (value : LogicValue) (ts : List (DigitalTransition F))
      → Changing ts
      → Changing (push_level fl backend seconds value ts)
  unfolding push_level
  push_level-Changing seconds value ts h = elim (Option-cases (last ts)) [
    | inl e ↦
        rw (e, push_level)
          (subst (λ xs. Changing (xs ++ record { time = seconds; value = value } ∷ []))
            (sym (last-none ts e)) tt)
    | inr (t, e) ↦ elim (Bool-cases (logic_eq t.value value)) [
      | inl same ↦ rw (e, same, push_level) h
      | inr differs ↦ rw (e, differs, push_level) (Changing-append ts t _ h e differs)
    ]
  ]

  push_level-EndsAt :
      (seconds : F) (value : LogicValue) (ts : List (DigitalTransition F))
      → EndsAt value (push_level fl backend seconds value ts)
  unfolding push_level
  push_level-EndsAt seconds value ts =
      let pushed : DigitalTransition F = record { time = seconds; value = value } in
      elim (Option-cases (last ts)) [
        | inl e ↦ rw (e, push_level) (pushed, last-append ts pushed, refl)
        | inr (t, e) ↦ elim (Bool-cases (logic_eq t.value value)) [
          | inl same ↦ rw (e, same, push_level) (t, e, logic_eq-eq t.value value same)
          | inr differs ↦ rw (e, differs, push_level) (pushed, last-append ts pushed, refl)
        ]
      ]

  push_sample-even :
      (seconds value : F) (times values : List F)
      → length times ≡ length values
      → let pushed = push_sample fl backend seconds value times values in
        (length pushed.0 ≡ length pushed.1) × (last pushed.1 ≡ some value)
  unfolding push_sample
  push_sample-even seconds value times values h =
      let appended : (length (times ++ seconds ∷ []) ≡ length (values ++ value ∷ []))
          × (last (values ++ value ∷ []) ≡ some value) =
        (
          length-append times (seconds ∷ [])
              ∙ ap (λ n. n + 1) h
              ∙ sym (length-append values (value ∷ [])),
          last-append values value,
        ) in
      elim (Option-cases (last times)) [
        | inl e ↦ rw (e, push_sample) appended
        | inr (t, e) ↦ elim (Bool-cases (equal_time fl backend t seconds)) [
          | inl same ↦
              rw (e, same, push_sample)
                (h ∙ sym (length-set_last value values), ends times values h e)
          | inr later ↦ rw (e, later, push_sample) appended
        ]
      ]
    where
      ends :
          (ts vs : List F)
          → length ts ≡ length vs
          → {t : F} → last ts ≡ some t
          → last (set_last value vs) ≡ some value
      ends [] vs h e = cc
      ends (x ∷ ts) [] h e = absurd (omega (arith, h))
      ends (x ∷ ts) (y ∷ vs) h e = last-set_last value y vs

  -- A history ends with what its port shows now.
  abbrev pub Shows : Fleet P → CoSimulationEndpoint → RecordedSignal F → Type 0
  Shows fleet key (recorded_digital signal ts) =
      (p : P) × (level : LogicValue) × (lookup key.participant fleet ≡ some p)
      × (backend.read_output key.port p ≡ ok (digital level))
      × EndsAt level ts
  Shows fleet key (recorded_analog signal unit times values) =
      (p : P) × (x : F) × (lookup key.participant fleet ≡ some p)
      × (backend.read_output key.port p ≡ ok (analog x))
      × (last values ≡ some x)

  record_value-Shows :
      (seconds : F) (fleet : Fleet P) (key : CoSimulationEndpoint) (recorded : RecordedSignal F)
      (p : P) (value : CoSimulationValue F)
      → lookup key.participant fleet ≡ some p
      → backend.read_output key.port p ≡ ok value
      → Tidy recorded
      → Ensures (λ r. Tidy r × Shows fleet key r) (record_value fl backend seconds recorded value)
  unfolding record_value
  record_value-Shows seconds fleet key (recorded_digital signal ts) p (digital level) found reads
        t =
      (
        push_level-Changing seconds level ts t,
        (p, level, found, reads, push_level-EndsAt seconds level ts),
      )
  record_value-Shows seconds fleet key (recorded_analog signal unit times values) p (analog x) found
        reads t =
      let even = push_sample-even seconds x times values t in (even.0, (p, x, found, reads, even.1))
  record_value-Shows seconds fleet key (recorded_digital signal ts) p (analog x) found reads t = tt
  record_value-Shows seconds fleet key (recorded_analog signal unit times values) p (digital v)
        found reads t =
      tt

  abbrev pub AllTidy : Signals F → Type 0
  AllTidy = All (λ (entry : CoSimulationEndpoint × RecordedSignal F). Tidy entry.1)

  abbrev pub AllShow : Fleet P → Signals F → Type 0
  AllShow fleet =
      All (λ (entry : CoSimulationEndpoint × RecordedSignal F). Shows fleet entry.0 entry.1)

  -- Recording an instant, where it succeeds, keeps tidy histories tidy: no level twice in a row, as
  -- many times as samples. The same signals are recorded, and each ends with the value that its port
  -- shows.
  pub record_signals-AllShow :
      (time : ℕ) (fleet : Fleet P) (signals : Signals F)
      → AllTidy signals
      → Ensures
          (λ after. AllTidy after × AllShow fleet after × (keys after ≡ keys signals))
          (record_signals fl backend time fleet signals)
  unfolding record_signals
  record_signals-AllShow time fleet [] t = (tt, tt, refl)
  record_signals-AllShow time fleet ((key, recorded) ∷ signals) t =
      let Good : Signals F → Type 0 =
        λ after. AllTidy after × AllShow fleet after × (keys after ≡ key ∷ keys signals) in
      Ensures-after Good (ok_or (lookup key.participant fleet) "panic") _ (λ p found.
        Ensures-after Good (backend.read_output key.port p) _ (λ value reads.
          Ensures-after Good (validate_value fl value) _ (λ u valid.
            Ensures-bind (λ r. Tidy r × Shows fleet key r) Good
              (record_value fl backend (as_seconds time) recorded value) _
              (record_value-Shows (as_seconds time) fleet key recorded p value
                (ok_or-eq-ok _ "panic" found) reads t.0)
              (λ r shown.
                Ensures-bind _ Good (record_signals fl backend time fleet signals) _
                  (record_signals-AllShow time fleet signals t.1)
                  (λ after h. ((shown.0, h.0), (shown.1, h.1), ap (λ ks. key ∷ ks) h.2))))))
