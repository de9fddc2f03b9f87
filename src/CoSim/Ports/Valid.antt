-- ===== src/CoSim/Ports/Valid.antt =====
-- Which participants src/cosim.rs admits.
use sim_core.Prelude.{
  String, false, ◌≡◌, ◌≢◌, refl, sym, subst, ◌↔◌, inl, inr, List, [], ◌∷◌, Option, none, some,
  is_some, All, arith, Bool-cases,
}
use sim_core.Prelude.Map.{
  lookup, insert, insert_key, contains, string_key, contains-insert_key, lookup-insert, same,
  same_eq, same_refl, same-false,
}
use sim_core.Prelude.Result.{
  ok, reject, ◌>>◌, >>-eq-ok, reject-ok, Ensures, Ensures-guard, Result-cases,
}
use sim_core.Prelude.Trim.{trim, is_empty}
use sim_core.Float.{Float}
use sim_core.Circuit.{SignalDomain, analog_domain, digital_domain, UnitOf}
use sim_core.CoSim.{CoSimulationPort, Backend}
use sim_core.CoSim.Ports.{
  check_domain, check_ports, validate_ports, CoSimulationScheduler, add_participant, Fleet,
}

-- The unit that a port of the domain declares: an analog port one, a digital port none.
abbrev pub HasUnit : SignalDomain → Option UnitOf → Type 0
HasUnit analog_domain (some unit) = Unit
HasUnit digital_domain none = Unit
HasUnit _ unit = ⊥

abbrev pub ValidPort : CoSimulationPort → Type 0
ValidPort port = (is_empty (trim port.name) ≡ false) × HasUnit port.domain port.unit

-- No two ports have the same name.
abbrev pub DistinctNames : List CoSimulationPort → Type 0
DistinctNames [] = Unit
DistinctNames (port ∷ ports) = All (λ other. other.name ≢ port.name) ports × DistinctNames ports

abbrev pub ValidPorts : List CoSimulationPort → Type 0
ValidPorts ports = (ports ≢ []) × All ValidPort ports × DistinctNames ports

abbrev Unseen : List String → CoSimulationPort → Type 0
Unseen names port = contains port.name names ≡ false

check_domain-HasUnit :
    (domain : SignalDomain) (unit : Option UnitOf)
    → (check_domain domain unit ≡ ok tt) ↔ HasUnit domain unit
unfolding check_domain
check_domain-HasUnit domain unit = ground arith

Unseen-insert_key :
    (names : List String) (name : String) (port : CoSimulationPort)
    → Unseen (insert_key name names) port ↔ ((port.name ≢ name) × Unseen names port)
Unseen-insert_key names name port = ground (
  arith,
  contains-insert_key name port.name names,
  same_eq port.name name,
  same-false port.name name,
)

abbrev Passes : List String → List CoSimulationPort → Type 0
Passes names ports = All ValidPort ports × All (Unseen names) ports × DistinctNames ports

Unseen-All :
    (names : List String) (name : String) (ports : List CoSimulationPort)
    → All (Unseen (insert_key name names)) ports
      ↔ (All (λ other. other.name ≢ name) ports × All (Unseen names) ports)
Unseen-All names name [] = (λ h. (tt, tt), λ h. tt)
Unseen-All names name (port ∷ ports) =
    let one = Unseen-insert_key names name port in
    let more = Unseen-All names name ports in
    (
      λ h. (((one.0 h.0).0, (more.0 h.1).0), ((one.0 h.0).1, (more.0 h.1).1)),
      λ h. (one.1 (h.0.0, h.1.0), more.1 (h.0.1, h.1.1)),
    )

check_ports-Passes :
    (names : List String) (ports : List CoSimulationPort)
    → (check_ports names ports ≡ ok tt) ↔ Passes names ports
unfolding check_ports
check_ports-Passes names [] = (λ h. (tt, tt, tt), λ h. refl)
check_ports-Passes names (port ∷ ports) =
    let later = check_ports (insert_key port.name names) ports in
    let unit = check_domain port.domain port.unit in
    let seen = reject (contains port.name names) "cosim_port_duplicate" in
    let rest = check_ports-Passes (insert_key port.name names) ports in
    let unseen = Unseen-All names port.name ports in
    let named_ok = reject-ok (is_empty (trim port.name)) "cosim_port_invalid" in
    let unseen_ok = reject-ok (contains port.name names) "cosim_port_duplicate" in
    let unit_ok = check_domain-HasUnit port.domain port.unit in
    (
      λ h.
          let (name, h1) = (>>-eq-ok _ (seen >> (unit >> later))).0 h in
          let (fresh, h2) = (>>-eq-ok seen (unit >> later)).0 h1 in
          let (united, h3) = (>>-eq-ok unit later).0 h2 in
          let (valid, others, distinct) = rest.0 h3 in
          (
            ((named_ok.0 name, unit_ok.0 united), valid),
            (unseen_ok.0 fresh, (unseen.0 others).1),
            ((unseen.0 others).0, distinct),
          ),
      λ h.
          let others = unseen.1 (h.2.0, h.1.1) in
          let end = rest.1 (h.0.1, others, h.2.1) in
          (>>-eq-ok _ (seen >> (unit >> later))).1 (
            named_ok.1 h.0.0.0,
            (>>-eq-ok seen (unit >> later)).1
                (unseen_ok.1 h.1.0, (>>-eq-ok unit later).1 (unit_ok.1 h.0.0.1, end)),
          ),
    )

-- No port is seen before the first.
Unseen-none : (ports : List CoSimulationPort) → All (Unseen []) ports
unfolding contains
Unseen-none [] = tt
Unseen-none (port ∷ ports) = (refl, Unseen-none ports)

-- The ports of a participant are accepted exactly when there is one at least, each has a name that is
-- not blank and the unit that its domain asks for, each is analog or digital, and no two share a name.
pub validate_ports-ValidPorts :
    (ports : List CoSimulationPort) → (validate_ports ports ≡ ok tt) ↔ ValidPorts ports
unfolding validate_ports
validate_ports-ValidPorts [] = (λ h. cc, λ h. absurd (h.0 refl))
validate_ports-ValidPorts (port ∷ ports) =
    let all = check_ports-Passes [] (port ∷ ports) in
    (
      λ h. let (valid, u, distinct) = all.0 h in (λ e. cc, valid, distinct),
      λ h. all.1 (h.1, Unseen-none (port ∷ ports), h.2),
    )

-- What a scheduler relies on of its participants.
module _ (fl : Float) {P : Type 0} (backend : Backend fl P) where
  abbrev pub Admitted : Fleet P → Type 0
  Admitted participants =
      (id : String) (p : P)
      → lookup id participants ≡ some p
      → (is_empty id ≡ false) × ValidPorts (backend.ports p)

  abbrev pub Extended : P → CoSimulationScheduler P → CoSimulationScheduler P → Type 0
  Extended participant s s' =
      (Admitted s.participants → Admitted s'.participants)
      × (lookup (trim (backend.id participant)) s'.participants ≡ some participant)
      × ((id : String) (p : P)
          → lookup id s.participants ≡ some p
          → lookup id s'.participants ≡ some p)

  insert-Extended :
      (participant : P) (s : CoSimulationScheduler P)
      → is_empty (trim (backend.id participant)) ≡ false
      → is_some (lookup (trim (backend.id participant)) s.participants) ≡ false
      → ValidPorts (backend.ports participant)
      → Extended participant s (record s {
        participants = insert (trim (backend.id participant)) participant s.participants;
      })
  insert-Extended participant s n u v =
      let id = trim (backend.id participant) in
      let at = λ (other : String). lookup-insert id other participant s.participants in
      (
        λ h other p e. elim (Bool-cases (same other id)) [
          | inl now ↦
              let same_p : participant ≡ p = ground (arith, at other) in
              (
                subst (λ name. is_empty name ≡ false) (sym (same_eq other id now)) n,
                subst (λ q. ValidPorts (backend.ports q)) same_p v,
              )
          | inr before ↦ h other p (ground (arith, at other))
        ],
        ground (arith, at id, same_refl id),
        λ other p e. ground (arith, at other, same_eq other id),
      )

  -- Adding a participant, where it succeeds, finds it under its trimmed id and keeps those there were. If
  -- no id was blank and every participant's ports were valid before, so it is after.
  pub add_participant-Extended :
      (participant : P) (s : CoSimulationScheduler P)
      → Ensures (Extended participant s) (add_participant fl backend participant s)
  unfolding add_participant
  add_participant-Extended participant s =
      let id = trim (backend.id participant) in
      let ports = backend.ports participant in
      Ensures-guard (Extended participant s) (is_empty id) "cosim_participant_invalid" _ (λ n.
        Ensures-guard (Extended participant s) (is_some (lookup id s.participants))
          "cosim_participant_duplicate" _
          (λ u. elim (Result-cases (validate_ports ports)) [
            | inr (e, bad) ↦ rw bad tt
            | inl (t, good) ↦
                rw good
                  (insert-Extended participant s n u ((validate_ports-ValidPorts ports).0 good))
          ]))
