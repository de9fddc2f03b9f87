-- ===== src/CoSim/Settle/Cycles.antt =====
-- What it means that an instant of src/cosim.rs has settled.
use sim_core.Prelude.{
  ℕ, zero, suc, ◌+◌, ◌<◌, ◌≡◌, refl, sym, ◌∙◌, ap, subst, String, Bool, true, false, not, List, [],
  ◌∷◌, All, ◌==◌, ==_iff, Bool-cases, inl, inr, arith,
}
use sim_core.Prelude.Map.{lookup, replace, string_key, keys, keys-replace, same}
use sim_core.Prelude.Result.{
  Result, ok, ok_or, Ensures, Ensures-bind, Ensures-imp, Ensures-guard, Ensures-after, Ensures-ok,
}
use sim_core.Control.{ExecutionControl, check_execution}
use sim_core.Float.{Float}
use sim_core.CoSim.{CoSimulationLink, Backend}
use sim_core.CoSim.Ports.{Fleet}
use sim_core.CoSim.Settle.{
  Delivery, read_sources, deliver, deliver_all, cycle, Settlement, settle_from, settle_links,
}

module _ (fl : Float) {P : Type 0} (backend : Backend fl P) where
  -- Every participant stands at the time.
  abbrev pub At : ℕ → Fleet P → Type 0
  At time = All (λ (entry : String × P). backend.current_time entry.1 ≡ time)

  -- The same participants, maybe in another state.
  abbrev pub SameIds : Fleet P → Fleet P → Type 0
  SameIds before after = keys after ≡ keys before

  replace-At :
      (time : ℕ) (id : String) (p : P) (fleet : Fleet P)
      → backend.current_time p ≡ time
      → At time fleet
      → At time (replace id p fleet)
  unfolding replace
  replace-At time id p [] now h = tt
  replace-At time id p ((name, r) ∷ fleet) now h = elim (Bool-cases (same id name)) [
    | inl e ↦ rw e (now, h.1)
    | inr e ↦ rw e (h.0, replace-At time id p fleet now h.1)
  ]

  -- A delivery leaves the participants that there were at the time where they stood.
  abbrev pub Kept : ℕ → Fleet P → Fleet P → Type 0
  Kept time before after = (At time before → At time after) × SameIds before after

  deliver-Kept :
      (control : ExecutionControl) (instant time : ℕ) (delivery : Delivery fl backend)
      (fleet : Fleet P) (changed : Bool)
      → Ensures
          (λ state. Kept time fleet state.0)
          (deliver fl backend control instant time delivery (fleet, changed))
  unfolding deliver
  deliver-Kept control instant time (endpoint, value) fleet changed =
      let kept = λ (state : Fleet P × Bool). Kept time fleet state.0 in
      Ensures-after kept (ok_or (lookup endpoint.participant fleet) "panic") _ (λ target found.
        Ensures-after kept (backend.write_input control instant endpoint.port time value target) _
          (λ written wrote.
            Ensures-guard kept (not (backend.current_time written.0 == time))
              "cosim_participant_time_invalid" _
              (λ on_time. (
                replace-At time endpoint.participant written.0 fleet
                    (ground (arith, ==_iff (backend.current_time written.0) time)),
                keys-replace endpoint.participant written.0 fleet,
              ))))

  deliver_all-Kept :
      (control : ExecutionControl) (instant time : ℕ) (deliveries : List (Delivery fl backend))
      (fleet : Fleet P) (changed : Bool)
      → Ensures
          (λ state. Kept time fleet state.0)
          (deliver_all fl backend control instant time deliveries (fleet, changed))
  unfolding deliver_all
  deliver_all-Kept control instant time [] fleet changed = (λ h. h, refl)
  deliver_all-Kept control instant time (d ∷ deliveries) fleet changed =
      Ensures-bind (λ state. Kept time fleet state.0) (λ state. Kept time fleet state.0)
        (deliver fl backend control instant time d (fleet, changed)) _
        (deliver-Kept control instant time d fleet changed)
        (λ state k.
          Ensures-imp (λ s. Kept time state.0 s.0) (λ s. Kept time fleet s.0)
            (deliver_all fl backend control instant time deliveries state)
            (λ s k'. (λ h. k'.0 (k.0 h), k'.1 ∙ k.1))
            (deliver_all-Kept control instant time deliveries state.0 state.1))

  cycle-Kept :
      (control : ExecutionControl) (instant time : ℕ) (links : List CoSimulationLink)
      (fleet : Fleet P)
      → Ensures
          (λ state. Kept time fleet state.0)
          (cycle fl backend control instant time links fleet)
  unfolding cycle
  cycle-Kept control instant time links fleet =
      let kept = λ (state : Fleet P × Bool). Kept time fleet state.0 in
      Ensures-after kept (check_execution control instant) _ (λ u on.
        Ensures-after kept (read_sources fl backend fleet links) _
          (λ deliveries read. deliver_all-Kept control instant time deliveries fleet false))

  -- A run of cycles at one time, each of which changed an input, from one fleet to another.
  pub data Cycles (control : ExecutionControl) (time : ℕ) (links : List CoSimulationLink)
      : ℕ → ℕ → Fleet P → Fleet P → Type 0 where
    stay : (instant : ℕ) (fleet : Fleet P) → Cycles control time links 0 instant fleet fleet
    turn :
        (count instant : ℕ) (fleet next last : Fleet P)
        → cycle fl backend control instant time links fleet ≡ ok (next, true)
        → Cycles control time links count (suc instant) next last
        → Cycles control time links (suc count) instant fleet last

  -- A settled instant: some cycles changed an input and the one after them changed none. There were
  -- fewer cycles that changed an input than the limit allows cycles.
  pub record Settles (control : ExecutionControl) (instant time limit : ℕ)
      (links : List CoSimulationLink) (fleet : Fleet P) (s : Settlement fl backend) : Type 0 where
    pub last : Fleet P
    pub cycles : Cycles control time links s.changed_cycles instant fleet last
    pub quiet :
        cycle fl backend control (instant + s.changed_cycles) time links last
        ≡ ok (s.participants, false)
    pub below : s.changed_cycles < limit
    pub kept : Kept time fleet s.participants

  -- The same for the rest of the loop, after `before` cycles.
  record SettlesFrom (control : ExecutionControl) (instant time left before : ℕ)
      (links : List CoSimulationLink) (fleet : Fleet P) (s : Settlement fl backend) : Type 0 where
    count : ℕ
    counted : s.changed_cycles ≡ before + count
    last : Fleet P
    cycles : Cycles control time links count instant fleet last
    quiet : cycle fl backend control (instant + count) time links last ≡ ok (s.participants, false)
    below : count < left
    kept : Kept time fleet s.participants

  at_instant :
      (control : ExecutionControl) (time : ℕ) (links : List CoSimulationLink) (fleet : Fleet P)
      (i j : ℕ) (r : Result (Fleet P × Bool))
      → i ≡ j
      → cycle fl backend control i time links fleet ≡ r
      → cycle fl backend control j time links fleet ≡ r
  at_instant control time links fleet i j r same e =
      subst (λ k. cycle fl backend control k time links fleet ≡ r) same e

  settle_from-Settles :
      (left before : ℕ) (control : ExecutionControl) (instant time : ℕ)
      (links : List CoSimulationLink) (fleet : Fleet P)
      → Ensures
          (SettlesFrom control instant time left before links fleet)
          (settle_from fl backend left before control instant time links fleet)
  unfolding settle_from
  settle_from-Settles zero before control instant time links fleet = tt
  settle_from-Settles (suc left) before control instant time links fleet =
      Ensures-after (SettlesFrom control instant time (suc left) before links fleet)
        (cycle fl backend control instant time links fleet) _
        (λ state e.
          let kept =
            Ensures-ok (λ s. Kept time fleet s.0) _ e
              (cycle-Kept control instant time links fleet) in
          elim (Bool-cases state.1) [
            | inl changed ↦ rw changed (
                Ensures-imp (SettlesFrom control (suc instant) time left (suc before) links state.0)
                  (SettlesFrom control instant time (suc left) before links fleet)
                  (settle_from fl backend left (suc before) control (suc instant) time links
                    state.0)
                  (λ s more. record {
                    count = suc more.count;
                    counted = omega (arith, more.counted);
                    last = more.last;
                    cycles =
                        turn more.count instant fleet state.0 more.last
                          (e ∙ ap (λ c. ok (state.0, c)) changed) more.cycles;
                    quiet = at_instant control time links more.last _ _ _ (omega arith) more.quiet;
                    below = omega (arith, more.below);
                    kept = (λ h. more.kept.0 (kept.0 h), more.kept.1 ∙ kept.1);
                  })
                  (settle_from-Settles left (suc before) control (suc instant) time links state.0))
            | inr same ↦ rw same (record {
              count = 0;
              counted = omega arith;
              last = fleet;
              cycles = stay instant fleet;
              quiet =
                  at_instant control time links fleet _ _ _ (omega arith)
                    (e ∙ ap (λ c. ok (state.0, c)) same);
              below = omega arith;
              kept = kept;
            })
          ])

  -- Settling the links of an instant either reports an error or ends with a cycle that changed
  -- nothing: it followed cycles that changed an input each, fewer of them than the limit. The
  -- participants are the same, and all at that time if they were.
  pub settle_links-Settles :
      (limit : ℕ) (control : ExecutionControl) (instant time : ℕ) (links : List CoSimulationLink)
      (fleet : Fleet P)
      → Ensures
          (Settles control instant time limit links fleet)
          (settle_links fl backend limit control instant time links fleet)
  unfolding settle_links
  settle_links-Settles limit control instant time links fleet =
      Ensures-imp (SettlesFrom control instant time limit 0 links fleet)
        (Settles control instant time limit links fleet)
        (settle_from fl backend limit 0 control instant time links fleet)
        (λ s h.
          let counted : s.changed_cycles ≡ h.count = omega (arith, h.counted) in
          record {
            last = h.last;
            cycles =
                subst (λ n. Cycles control time links n instant fleet h.last) (sym counted)
                  h.cycles;
            quiet =
                at_instant control time links h.last _ _ _ (ap (λ n. instant + n) (sym counted))
                  h.quiet;
            below = omega (arith, h.counted, h.below);
            kept = h.kept;
          })
        (settle_from-Settles limit 0 control instant time links fleet)
