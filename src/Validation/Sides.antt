-- ===== src/Validation/Sides.antt =====
-- The endpoints of a net in a report of src/validation.rs without errors: each is a pin of the
-- circuit, no two are the same, and the net is on the analog or on the digital side.
use sim_core.Prelude.{
  ℕ, suc, ◌≡◌, refl, sym, subst, ◌∙◌, ◌⊎◌, inl, inr, String, Bool, true, false, ◌&&◌, ◌||◌, List,
  [], ◌∷◌, ◌++◌, length, All, All-imp, map, Bool-cases, arith, ltb,
}
use sim_core.Prelude.Map.{
  same, same_comm, same-false, contains, insert_key, contains-insert_key, string_key, pair_key,
}
use sim_core.Circuit.{
  SignalDomain, analog_domain, digital_domain, reference_domain, same_domain, NetEndpoint,
  Component, Net,
}
use sim_core.Float.{Float}
use sim_core.Prelude.Text.{prefixed, indexed}
use sim_core.Validation.Report.{is_valid, warning_if}
use sim_core.Validation.Parts.{Models}
use sim_core.Validation.Nets.{
  Components, has_domain, NetState, endpoint_step, check_endpoints, domain_issues, is_digital_only,
  fresh_net, net_body_issues,
}
use sim_core.Validation.Fresh.{is_valid-left, is_valid-right, is_valid-error_if, Distinct}
use sim_core.Validation.Tables.{IsAttached, tables-IsAttached}
use sim_core.Validation.Circuit.{check_components}
use sim_core.Validation.Endpoints.{
  has_domain-same, Keeps, IsFound, endpoint_key, endpoint_step-IsFound, endpoint_step-new,
  endpoint_step-Keeps, endpoint_step-seen,
}

-- What the loop over the endpoints finds out when it reports no error.
pub record Checked (components : Components) (st last : NetState) (endpoints : List NetEndpoint)
    : Type 0 where
  pub found : All (IsFound components last) endpoints
  pub unknown : All (λ e. contains (endpoint_key e) st.seen ≡ false) endpoints
  pub distinct : Distinct (map endpoint_key endpoints)
  pub keeps : (d : SignalDomain) → has_domain d st.domains ≡ true → has_domain d last.domains ≡ true

IsFound-Keeps :
    (components : Components) (st last : NetState) (e : NetEndpoint)
    → Keeps st last
    → IsFound components st e
    → IsFound components last e
unfolding Keeps
IsFound-Keeps components st last e keeps found = record {
  pins = found.pins;
  entry = found.entry;
  component_there = found.component_there;
  pin_there = found.pin_there;
  domain_seen = keeps found.entry.0 found.domain_seen;
}

contains-after :
    (a b : String × String) (seen : List (String × String))
    → contains b (insert_key a seen) ≡ false
    → (same b a ≡ false) × (contains b seen ≡ false)
contains-after a b seen h =
    let e = sym (contains-insert_key a b seen) ∙ h in (ground arith, ground arith)

Checked-cons :
    (components : Components) (st next last : NetState) (e : NetEndpoint) (rest : List NetEndpoint)
    → IsFound components next e
    → contains (endpoint_key e) st.seen ≡ false
    → Keeps st next
    → next.seen ≡ insert_key (endpoint_key e) st.seen
    → Checked components next last rest
    → Checked components st last (e ∷ rest)
unfolding Distinct Keeps
Checked-cons components st next last e rest found new keeps seen later = record {
  found = (IsFound-Keeps components next last e later.keeps found, later.found);
  unknown = (
    new,
    All-imp (λ f. contains (endpoint_key f) next.seen ≡ false)
        (λ f. contains (endpoint_key f) st.seen ≡ false) (λ f h. (after f h).1) rest later.unknown,
  );
  distinct = (apart rest later.unknown, later.distinct);
  keeps = λ d h. later.keeps d (keeps d h);
}
  where
    after :
        (f : NetEndpoint)
        → contains (endpoint_key f) next.seen ≡ false
        → (same (endpoint_key f) (endpoint_key e) ≡ false)
          × (contains (endpoint_key f) st.seen ≡ false)
    after f h =
        contains-after (endpoint_key e) (endpoint_key f) st.seen
          (subst (λ s. contains (endpoint_key f) s ≡ false) seen h)

    apart :
        (fs : List NetEndpoint)
        → All (λ f. contains (endpoint_key f) next.seen ≡ false) fs
        → All (λ k. ¬ (endpoint_key e ≡ k)) (map endpoint_key fs)
    apart [] h = tt
    apart (f ∷ fs) h = (
      same-false (endpoint_key e) (endpoint_key f)
          (same_comm (endpoint_key e) (endpoint_key f) ∙ (after f h.0).0),
      apart fs h.1,
    )

pub check_endpoints-Checked :
    (path : String) (components : Components) (index : ℕ) (endpoints : List NetEndpoint)
    (st : NetState)
    → is_valid (check_endpoints path components index endpoints st).0 ≡ true
    → Checked components st (check_endpoints path components index endpoints st).1 endpoints
unfolding check_endpoints Distinct
check_endpoints-Checked path components index [] st h = record {
  found = tt;
  unknown = tt;
  distinct = tt;
  keeps = λ d k. k;
}
check_endpoints-Checked path components index (e ∷ rest) st h =
    let here = indexed (prefixed path ".endpoints") index in
    let step = endpoint_step here components e st in
    let later = check_endpoints path components (suc index) rest step.1 in
    let good = is_valid-left step.0 later.0 h in
    Checked-cons components st step.1 later.1 e rest
      (endpoint_step-IsFound here components e st good)
      (endpoint_step-new here components e st good) (endpoint_step-Keeps here components e st)
      (endpoint_step-seen here components e st)
      (check_endpoints-Checked path components (suc index) rest step.1
        (is_valid-right step.0 later.0 h))

-- A test that two sides do not meet.
apart-cases : (a b c : Bool) → (a && (b || c)) ≡ false → (a ≡ false) ⊎ ((b ≡ false) × (c ≡ false))
apart-cases false b c h = inl refl
apart-cases true false c h = inr (refl, h)
apart-cases true true c h = cc

domain_issues-apart :
    (path : String) (st : NetState)
    → is_valid (domain_issues path st) ≡ true
    → (has_domain digital_domain st.domains ≡ false)
      ⊎ ((has_domain analog_domain st.domains ≡ false)
          × (has_domain reference_domain st.domains ≡ false))
unfolding domain_issues
domain_issues-apart path st h =
    apart-cases (has_domain digital_domain st.domains) (has_domain analog_domain st.domains)
      (has_domain reference_domain st.domains)
      (is_valid-error_if _ "mixed_signal_bridge_required" (prefixed path ".endpoints") (
        is_valid-right
          (warning_if (is_digital_only st.domains && ltb 1 st.digital_drivers)
            "multiple_digital_drivers_resolved" (prefixed path ".endpoints"))
          _ h))

seen-apart :
    (d absent : SignalDomain) (domains : List SignalDomain)
    → has_domain d domains ≡ true
    → has_domain absent domains ≡ false
    → same_domain d absent ≡ false
seen-apart d absent domains h off = elim (Bool-cases (same_domain d absent)) [
  | inl on ↦ ground (arith, has_domain-same d absent domains on)
  | inr apart ↦ apart
]

module _ (fl : Float) where
  open fl use {F}

  -- An endpoint that is a pin of the circuit, of no digital domain.
  pub OnAnalogSide : List (Component F) → NetEndpoint → Type 0
  OnAnalogSide components e =
      (d : SignalDomain) × IsAttached fl components e d × (same_domain d digital_domain ≡ false)

  -- An endpoint that is a pin of the circuit, of no analog or reference domain.
  pub OnDigitalSide : List (Component F) → NetEndpoint → Type 0
  OnDigitalSide components e =
      (d : SignalDomain) × IsAttached fl components e d
      × (same_domain d analog_domain ≡ false)
      × (same_domain d reference_domain ≡ false)

  pub record IsWellFormed (components : List (Component F)) (endpoints : List NetEndpoint)
      : Type 0 where
    pub distinct : Distinct (map endpoint_key endpoints)
    pub sides : All (OnAnalogSide components) endpoints ⊎ All (OnDigitalSide components) endpoints

  -- The sides of a net whose endpoints are found.
  sides-of :
      (models : Models) (components : List (Component F)) (endpoints : List NetEndpoint)
      (last : NetState)
      → All (IsFound (check_components fl 0 models components []).1 last) endpoints
      → (has_domain digital_domain last.domains ≡ false)
        ⊎ ((has_domain analog_domain last.domains ≡ false)
            × (has_domain reference_domain last.domains ≡ false))
      → All (OnAnalogSide components) endpoints ⊎ All (OnDigitalSide components) endpoints
  unfolding OnAnalogSide OnDigitalSide
  sides-of models components endpoints last found apart = elim apart [
    | inl off ↦ inl (
        All-imp (IsFound _ last) (OnAnalogSide components)
          (λ e f. (
            f.entry.0,
            attached e f,
            seen-apart f.entry.0 digital_domain last.domains f.domain_seen off,
          ))
          endpoints found)
    | inr off ↦ inr (
        All-imp (IsFound _ last) (OnDigitalSide components)
          (λ e f. (
            f.entry.0,
            attached e f,
            seen-apart f.entry.0 analog_domain last.domains f.domain_seen off.0,
            seen-apart f.entry.0 reference_domain last.domains f.domain_seen off.1,
          ))
          endpoints found)
  ]
    where
      attached :
          (e : NetEndpoint) (f : IsFound (check_components fl 0 models components []).1 last e)
          → IsAttached fl components e f.entry.0
      attached e f =
          tables-IsAttached fl models components e f.pins f.entry f.component_there f.pin_there

  pub net_body_issues-IsWellFormed :
      (path : String) (models : Models) (components : List (Component F)) (net : Net)
      → is_valid (net_body_issues path (check_components fl 0 models components []).1 net) ≡ true
      → IsWellFormed components net.endpoints
  unfolding net_body_issues
  net_body_issues-IsWellFormed path models components net h =
      let table = (check_components fl 0 models components []).1 in
      let here = check_endpoints path table 0 net.endpoints fresh_net in
      let issues = domain_issues path here.1 in
      let warned =
        warning_if (ltb (length net.endpoints) 2) "dangling_net" (prefixed path ".endpoints") in
      let checked =
        check_endpoints-Checked path table 0 net.endpoints fresh_net
          (is_valid-right warned here.0 (is_valid-left (warned ++ here.0) issues h)) in
      record {
        distinct = checked.distinct;
        sides =
            sides-of models components net.endpoints here.1 checked.found
              (domain_issues-apart path here.1 (is_valid-right (warned ++ here.0) issues h));
      }
