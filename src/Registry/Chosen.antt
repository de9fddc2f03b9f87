-- ===== src/Registry/Chosen.antt =====
-- What an answer of the simulator of src/engine.rs means.
use sim_core.Prelude.{
  ◌≡◌, refl, ap, ◌⊎◌, inl, inr, true, false, List, [], ◌∷◌, ◌++◌, Option, none, some, All,
  Bool-cases,
}
use sim_core.Prelude.Result.{Result, ok, err}
use sim_core.Analysis.{kind_of, SimulationRequest}
use sim_core.Control.{ExecutionControl}
use sim_core.Float.{Float}
use sim_core.Validation.Report.{is_valid}
use sim_core.Validation.Circuit.{validate_circuit}
use sim_core.Waveform.Result.{SimulationResult}
use sim_core.Registry.{
  SimulationEngine, invalid_circuit, no_compatible_engine, engine_failed, select_request, Outcome,
  engine_outcome, run_selected, simulate_with_control,
}

module _ {F : Type 0} where
  -- The first engine that supports the request.
  pub record IsChosen (engines : List (SimulationEngine F)) (request : SimulationRequest F)
      (e : SimulationEngine F) : Type 0 where
    pub earlier : List (SimulationEngine F)
    pub later : List (SimulationEngine F)
    pub order : engines ≡ earlier ++ e ∷ later
    pub unfit : All (λ (o : SimulationEngine F). o.supports_request request ≡ false) earlier
    pub fit : e.supports_request request ≡ true

  -- What an answer says of the engines.
  abbrev pub Explains :
      List (SimulationEngine F)
      → SimulationRequest F
      → ExecutionControl
      → Option (Outcome F)
      → Type 0
  Explains engines request control none =
      (e : SimulationEngine F) × IsChosen engines request e × (e.simulate control request ≡ none)
  Explains engines request control (some (inl (invalid_circuit report))) = ⊥
  Explains engines request control (some (inl (no_compatible_engine kind))) =
      (kind ≡ kind_of request.analysis)
      × All (λ (e : SimulationEngine F). e.supports_request request ≡ false) engines
  Explains engines request control (some (inl (engine_failed id error))) =
      (e : SimulationEngine F) × IsChosen engines request e
      × (id ≡ e.id)
      × (e.simulate control request ≡ some (err error))
  Explains engines request control (some (inr result)) =
      (e : SimulationEngine F) × IsChosen engines request e
      × (e.simulate control request ≡ some (ok result))

  -- A search for an engine ends at the first one that fits, or none does.
  select_request-IsChosen :
      (request : SimulationRequest F) (engines : List (SimulationEngine F))
      → ((select_request request engines ≡ none)
          × All (λ (e : SimulationEngine F). e.supports_request request ≡ false) engines)
        ⊎ ((e : SimulationEngine F) × (select_request request engines ≡ some e)
            × IsChosen engines request e)
  unfolding select_request
  select_request-IsChosen request [] = inl (refl, tt)
  select_request-IsChosen request (e ∷ engines) = elim (Bool-cases (e.supports_request request)) [
    | inl on ↦ inr (
      e,
      rw on refl,
      record { earlier = []; later = engines; order = refl; unfit = tt; fit = on },
    )
    | inr off ↦ elim (select_request-IsChosen request engines) [
      | inl missing ↦ inl (rw off missing.0, (off, missing.1))
      | inr found ↦ inr (
        found.0,
        rw off found.1,
        record {
          earlier = e ∷ found.2.earlier;
          later = found.2.later;
          order = ap (λ es. e ∷ es) found.2.order;
          unfit = (off, found.2.unfit);
          fit = found.2.fit;
        },
      )
    ]
  ]

  engine_outcome-Explains :
      (engines : List (SimulationEngine F)) (request : SimulationRequest F)
      (control : ExecutionControl) (e : SimulationEngine F)
      (answer : Option (Result (SimulationResult F)))
      → IsChosen engines request e
      → e.simulate control request ≡ answer
      → Explains engines request control (engine_outcome e.id answer)
  unfolding engine_outcome
  engine_outcome-Explains engines request control e none chosen h = (e, chosen, h)
  engine_outcome-Explains engines request control e (some (err error)) chosen h =
      (e, chosen, refl, h)
  engine_outcome-Explains engines request control e (some (ok result)) chosen h = (e, chosen, h)

  run_selected-Explains :
      (engines : List (SimulationEngine F)) (request : SimulationRequest F)
      (control : ExecutionControl)
      → Explains engines request control
          (run_selected control request (select_request request engines))
  unfolding run_selected
  run_selected-Explains engines request control = elim (select_request-IsChosen request engines) [
    | inl missing ↦ rw missing.0 (refl, missing.1)
    | inr found ↦ rw found.1 (
        engine_outcome-Explains engines request control found.0 (found.0.simulate control request)
          found.2 refl)
  ]

module _ (fl : Float) where
  open fl use {F}

  -- The two ways of an answer: a circuit with an error is turned down with its report; otherwise the
  -- answer comes from the engines.
  pub IsAnswer :
      List (SimulationEngine F)
      → SimulationRequest F
      → ExecutionControl
      → Option (Outcome F)
      → Type 0
  IsAnswer engines request control answer =
      ((is_valid (validate_circuit fl request.circuit) ≡ false)
        × (answer ≡ some (inl (invalid_circuit (validate_circuit fl request.circuit)))))
      ⊎ ((is_valid (validate_circuit fl request.circuit) ≡ true)
          × Explains engines request control answer)

  -- The simulator turns down a circuit with an error, with its report, before it looks for an engine.
  -- Otherwise the first registered engine that supports the request runs it: its result is the answer,
  -- or its error under its id, and there is no answer only if it gives none. Only if no engine supports
  -- the request, the error is that there is no compatible one, with the kind of the analysis.
  pub simulate_with_control-IsAnswer :
      (engines : List (SimulationEngine F)) (request : SimulationRequest F)
      (control : ExecutionControl)
      → IsAnswer engines request control (simulate_with_control fl engines request control)
  unfolding simulate_with_control IsAnswer
  simulate_with_control-IsAnswer engines request control =
      elim (Bool-cases (is_valid (validate_circuit fl request.circuit))) [
        | inl good ↦ inr (good, rw good (run_selected-Explains engines request control))
        | inr bad ↦ inl (bad, rw bad refl)
      ]
