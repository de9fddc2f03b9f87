-- ===== src/CoSim/Links.antt =====
-- `validated_links` of src/cosim.rs.
pub mod Valid
use sim_core.Prelude.{
  Ordering, Bool, true, false, not, ◌&&◌, ◌≡◌, ◌≢◌, refl, sym, ◌∙◌, ap, subst, List, [], ◌∷◌,
  Option, none, some, All, All-imp, find, arith, Bool-cases, inl, inr, ◌||◌,
}
use mathlib.Core.List.{Perm}
use mathlib.Core.List.Perm
use sim_core.Prelude.Map.{
  contains, insert_key, contains-insert_key, same, same_eq, same_refl, same-false, lookup,
  string_key,
}
use sim_core.Prelude.Result.{
  Result, ok, err, fail, reject, ok_or, ◌>>=◌, ◌>>◌, Ensures, Ensures-guard, Ensures-bind,
  Ensures-imp, Result-cases,
}
use sim_core.Float.{Float}
use sim_core.Circuit.{SignalDomain, analog_domain, same_domain}
use sim_core.CoSim.{
  CoSimulationEndpoint, CoSimulationLink, CoSimulationPort, Backend, link_order, endpoint_key,
  gives, takes, same_unit,
}
use sim_core.CoSim.Ports.{Fleet, CoSimulationScheduler, find_port}

-- `sort`. Equal links are the same link, so that their order does not matter.
unfoldable pub insert_link : CoSimulationLink → List CoSimulationLink → List CoSimulationLink
insert_link link [] = link ∷ []
insert_link link (other ∷ links) =
    let rest = insert_link link links in
    elim (link_order link other) [ Ordering.gt ↦ other ∷ rest | _ ↦ link ∷ other ∷ links ]

unfoldable pub sort : List CoSimulationLink → List CoSimulationLink
unfolding insert_link
sort [] = []
sort (link ∷ links) = insert_link link (sort links)

insert_link-perm :
    (link : CoSimulationLink) (links : List CoSimulationLink)
    → Perm (insert_link link links) (link ∷ links)
unfolding insert_link
insert_link-perm link [] = Perm.rfl
insert_link-perm link (other ∷ links) = place (link_order link other) (insert_link-perm link links)
  where
    place :
        (c : Ordering)
        → Perm (insert_link link links) (link ∷ links)
        → Perm
            (elim c [ Ordering.gt ↦ other ∷ insert_link link links | _ ↦ link ∷ other ∷ links ])
            (link ∷ other ∷ links)
    place Ordering.gt rest = Perm.trans (Perm.cons other rest) (Perm.swap link other links)
    place Ordering.lt rest = Perm.rfl
    place Ordering.eq rest = Perm.rfl

pub sort-perm : (links : List CoSimulationLink) → Perm (sort links) links
unfolding sort
sort-perm [] = Perm.rfl
sort-perm (link ∷ links) =
    Perm.trans (insert_link-perm link (sort links)) (Perm.cons link (sort-perm links))

is_nil : {A : Type 0} → List A → Bool
is_nil [] = true
is_nil (x ∷ xs) = false

module _ (fl : Float) {P : Type 0} (backend : Backend fl P) where
  -- What `validated_links` asks of the ports of a link.
  check_link : CoSimulationPort → CoSimulationPort → Result (Unit {0})
  check_link source target = do
    reject (not (gives source.direction)) "cosim_link_invalid"
    reject (not (takes target.direction)) "cosim_link_invalid"
    reject (not (same_domain source.domain target.domain)) "cosim_domain_mismatch"
    reject (not (same_unit source.unit target.unit) && same_domain source.domain analog_domain)
        "cosim_unit_mismatch"

  -- The loop over the sorted links; `targets` holds those seen.
  check_links : Fleet P → List CoSimulationEndpoint → List CoSimulationLink → Result (Unit {0})
  unfolding check_link find_port contains insert_key
  check_links participants targets [] = ok tt
  check_links participants targets (link ∷ links) = do
    source ← find_port fl backend participants link.source
    target ← find_port fl backend participants link.target
    check_link source target
    reject (contains link.target targets) "cosim_multiple_drivers"
    check_links participants (insert_key link.target targets) links

  unfoldable pub validated_links : CoSimulationScheduler P → Result (List CoSimulationLink)
  unfolding check_links sort is_nil
  validated_links s = do
    reject (is_nil s.participants) "cosim_participant_missing"
    let links = sort s.links
    check_links s.participants [] links
    ok links
