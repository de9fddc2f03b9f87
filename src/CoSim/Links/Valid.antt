-- ===== src/CoSim/Links/Valid.antt =====
-- Which links src/cosim.rs accepts.
use sim_core.Prelude.{true, false, ◌≡◌, ◌≢◌, refl, sym, ap, subst, ◌↔◌, List, [], ◌∷◌, All, arith}
use sim_core.Prelude.Map.{contains, insert_key, contains-insert_key, same_eq, same-false}
use sim_core.Prelude.Result.{ok, reject, ◌>>◌, >>=-eq-ok, >>-eq-ok, ok-eq-ok, reject-ok}
use sim_core.Float.{Float}
use sim_core.Circuit.{analog_domain, same_domain}
use sim_core.CoSim.{
  CoSimulationEndpoint, CoSimulationLink, CoSimulationPort, Backend, endpoint_key, gives, takes,
  same_unit,
}
use sim_core.CoSim.Ports.{Fleet, CoSimulationScheduler, find_port}
use sim_core.CoSim.Links.{check_link, check_links, validated_links, sort, is_nil}

module _ (fl : Float) {P : Type 0} (backend : Backend fl P) where
  -- The ports that a link may join: it is read at an output and written at an input of the same domain,
  -- and an analog one has the same unit at both.
  pub record Joins (source target : CoSimulationPort) : Type 0 where
    pub reads : gives source.direction ≡ true
    pub writes : takes target.direction ≡ true
    pub domains : same_domain source.domain target.domain ≡ true
    pub units :
        same_domain source.domain analog_domain ≡ true → same_unit source.unit target.unit ≡ true

  pub record ValidLink (participants : Fleet P) (link : CoSimulationLink) : Type 0 where
    pub source_port : CoSimulationPort
    pub target_port : CoSimulationPort
    pub source_found : find_port fl backend participants link.source ≡ ok source_port
    pub target_found : find_port fl backend participants link.target ≡ ok target_port
    pub joins : Joins source_port target_port

  -- Each target has one link.
  abbrev pub SingleDriver : List CoSimulationLink → Type 0
  SingleDriver [] = Unit
  SingleDriver (link ∷ links) = All (λ other. other.target ≢ link.target) links × SingleDriver links

  abbrev Fresh : List CoSimulationEndpoint → List CoSimulationLink → Type 0
  Fresh targets links = All (λ link. contains link.target targets ≡ false) links

  check_link-Joins :
      (source target : CoSimulationPort)
      → (check_link fl backend source target ≡ ok tt) ↔ Joins source target
  unfolding check_link
  check_link-Joins source target = (
    λ h. record {
      reads = ground arith;
      writes = ground arith;
      domains = ground arith;
      units = λ a. ground arith;
    },
    λ j. ground (arith, j.reads, j.writes, j.domains, j.units),
  )

  Fresh-insert_key :
      (targets : List CoSimulationEndpoint) (target : CoSimulationEndpoint)
      (links : List CoSimulationLink)
      → Fresh (insert_key target targets) links
        ↔ (All (λ other. other.target ≢ target) links × Fresh targets links)
  Fresh-insert_key targets target [] = (λ h. (tt, tt), λ h. tt)
  Fresh-insert_key targets target (link ∷ links) =
      let more = Fresh-insert_key targets target links in
      let at = contains-insert_key target link.target targets in
      let new = same-false link.target target in
      let old = same_eq link.target target in
      (
        λ h. (
          (ground (arith, at, new, h.0), (more.0 h.1).0),
          (ground (arith, at, h.0), (more.0 h.1).1),
        ),
        λ h. (ground (arith, at, old, h.0.0, h.1.0), more.1 (h.0.1, h.1.1)),
      )

  abbrev Passes : Fleet P → List CoSimulationEndpoint → List CoSimulationLink → Type 0
  Passes participants targets links =
      All (ValidLink participants) links × Fresh targets links × SingleDriver links

  check_links-Passes :
      (participants : Fleet P) (targets : List CoSimulationEndpoint) (links : List CoSimulationLink)
      → (check_links fl backend participants targets links ≡ ok tt)
        ↔ Passes participants targets links
  unfolding check_links
  check_links-Passes participants targets [] = (λ h. (tt, tt, tt), λ h. refl)
  check_links-Passes participants targets (link ∷ links) =
      let later = check_links fl backend participants (insert_key link.target targets) links in
      let driven = reject (contains link.target targets) "cosim_multiple_drivers" in
      let rest = check_links-Passes participants (insert_key link.target targets) links in
      let fresh = Fresh-insert_key targets link.target links in
      let driven_ok = reject-ok (contains link.target targets) "cosim_multiple_drivers" in
      (
        λ h.
            let (source, source_found, h1) = >>=-eq-ok _ _ h in
            let (target, target_found, h2) = >>=-eq-ok _ _ h1 in
            let joined = check_link fl backend source target in
            let (joins, h3) = (>>-eq-ok joined (driven >> later)).0 h2 in
            let (new, h4) = (>>-eq-ok driven later).0 h3 in
            let (valid, others, single) = rest.0 h4 in
            (
              (
                record {
                  source_port = source;
                  target_port = target;
                  source_found = source_found;
                  target_found = target_found;
                  joins = (check_link-Joins source target).0 joins;
                },
                valid,
              ),
              (driven_ok.0 new, (fresh.0 others).1),
              ((fresh.0 others).0, single),
            ),
        λ h.
            let v = h.0.0 in
            rw (v.source_found, v.target_found)
              ((>>-eq-ok (check_link fl backend v.source_port v.target_port) (driven >> later)).1 (
                (check_link-Joins v.source_port v.target_port).1 v.joins,
                (>>-eq-ok driven later).1
                    (driven_ok.1 h.1.0, rest.1 (h.0.1, fresh.1 (h.2.0, h.1.1), h.2.1)),
              )),
      )

  Fresh-none : (links : List CoSimulationLink) → Fresh [] links
  unfolding contains
  Fresh-none [] = tt
  Fresh-none (link ∷ links) = (refl, Fresh-none links)

  is_nil-false : {A : Type 0} (xs : List A) → (is_nil xs ≡ false) ↔ (xs ≢ [])
  unfolding is_nil
  is_nil-false [] = (λ h e. cc, λ h. absurd (h refl))
  is_nil-false (x ∷ xs) = (λ h e. cc, λ h. refl)

  -- The links of a scheduler are accepted exactly when it has a participant, each link joins ports that
  -- exist and fit, and no two links have one target; the scheduler then uses them in sorted order.
  pub validated_links-ValidLink :
      (s : CoSimulationScheduler P) (links : List CoSimulationLink)
      → (validated_links fl backend s ≡ ok links) ↔ (
          (s.participants ≢ [])
          × (links ≡ sort s.links)
          × All (ValidLink s.participants) links
          × SingleDriver links)
  unfolding validated_links is_nil
  validated_links-ValidLink s links =
      let sorted = sort s.links in
      let checks = check_links-Passes s.participants [] sorted in
      let missing = reject-ok (is_nil s.participants) "cosim_participant_missing" in
      (
        λ h.
            let (t, some_there, h1) = >>=-eq-ok _ _ h in
            let (u, checked, same) = >>=-eq-ok _ _ h1 in
            let sorted_links = sym (ok-eq-ok sorted links same) in
            let (valid, new, single) = checks.0 checked in
            (
              (is_nil-false s.participants).0 (missing.0 some_there),
              sorted_links,
              subst (All (ValidLink s.participants)) (sym sorted_links) valid,
              subst SingleDriver (sym sorted_links) single,
            ),
        λ h.
            let checked = checks.1 (
              subst (All (ValidLink s.participants)) h.1 h.2,
              Fresh-none sorted,
              subst SingleDriver h.1 h.3,
            ) in
            rw (missing.1 ((is_nil-false s.participants).1 h.0), checked) (ap ok (sym h.1)),
      )
