-- ===== src/Program/Compile/Endpoints.antt =====
-- `endpoint_net_map` of src/digital.rs finds the net of every endpoint, or refuses the circuit.
use sim_core.Prelude.{
  ◌++◌, ◌≡◌, refl, ◌∙◌, ap, String, Bool, true, false, ◌||◌, List, [], ◌∷◌, Option, none, some,
  is_some, fun_ext, arith, inl, inr, Bool-cases,
}
use sim_core.Prelude.Map.{
  lookup, insert, lookup-insert, same, same_eq, same_comm, string_key, pair_key,
}
use sim_core.Prelude.Result.{Result, ok, err, engine_error, reject, ◌>>=◌, ◌>>◌}
use sim_core.Circuit.{NetEndpoint, Net, Circuit}
use sim_core.Program.Compile.{
  EndpointNets, endpoint_of, join_endpoints, join_nets, endpoint_net_map,
}

-- The endpoints of the nets, in their order.
unfoldable pub endpoints_of : String → List NetEndpoint → EndpointNets
endpoints_of net [] = []
endpoints_of net (e ∷ endpoints) = (endpoint_of e, net) ∷ endpoints_of net endpoints

unfoldable pub all_endpoints : List Net → EndpointNets
unfolding endpoints_of
all_endpoints [] = []
all_endpoints (net ∷ nets) = endpoints_of net.id net.endpoints ++ all_endpoints nets

-- Some key stands twice.
unfoldable pub repeats : EndpointNets → Bool
repeats [] = false
repeats ((key, net) ∷ rest) = is_some (lookup key rest) || repeats rest

-- What `endpoint_net_map` is to give for a list of endpoints: an error exactly if one stands twice, and
-- else the net of each.
abbrev pub Joins : EndpointNets → Result EndpointNets → Type 0
Joins all (ok m) = (repeats all ≡ false) × ((key : String × String) → lookup key m ≡ lookup key all)
Joins all (err e) = (repeats all ≡ true) × (e ≡ engine_error "digital_endpoint_on_multiple_nets")

-- The two loops as one.
join_all : EndpointNets → EndpointNets → Result EndpointNets
join_all [] m = ok m
join_all ((key, net) ∷ rest) m = do
  reject (is_some (lookup key m)) "digital_endpoint_on_multiple_nets"
  join_all rest (insert key net m)

join_endpoints-join_all :
    (net : String) (endpoints : List NetEndpoint) (rest m : EndpointNets)
    → (join_endpoints net endpoints m >>= join_all rest)
      ≡ join_all (endpoints_of net endpoints ++ rest) m
unfolding join_endpoints endpoints_of join_all
join_endpoints-join_all net [] rest m = refl
join_endpoints-join_all net (e ∷ endpoints) rest m =
    elim (Bool-cases (is_some (lookup (endpoint_of e) m))) [
      | inl twice ↦ rw twice refl
      | inr fresh ↦
          rw fresh (join_endpoints-join_all net endpoints rest (insert (endpoint_of e) net m))
    ]

join_nets-join_all :
    (nets : List Net) (m : EndpointNets) → join_nets nets m ≡ join_all (all_endpoints nets) m
unfolding join_nets all_endpoints join_all
join_nets-join_all [] m = refl
join_nets-join_all (net ∷ nets) m =
    ap (λ k. join_endpoints net.id net.endpoints m >>= k) (fun_ext (join_nets-join_all nets))
    ∙ join_endpoints-join_all net.id net.endpoints (all_endpoints nets) m

-- Some key is in the map already.
clash : EndpointNets → EndpointNets → Bool
clash m [] = false
clash m ((key, net) ∷ rest) = is_some (lookup key m) || clash m rest

abbrev otherwise : Option String → Option String → Option String
otherwise none o = o
otherwise (some a) o = some a

otherwise_missing :
    (o : Option String) (net : String) → is_some o ≡ false → some net ≡ otherwise o (some net)
otherwise_missing none net h = refl
otherwise_missing (some a) net h = cc

otherwise-insert :
    (key k : String × String) (net : String) (m rest : EndpointNets)
    → is_some (lookup key m) ≡ false
    → otherwise (lookup k (insert key net m)) (lookup k rest)
      ≡ otherwise (lookup k m) (lookup k ((key, net) ∷ rest))
unfolding lookup
otherwise-insert key k net m rest fresh = elim (Bool-cases (same k key)) [
  | inl here ↦
      let e : k ≡ key = same_eq k key here in
      rw (lookup-insert key k net m, here) (rw e (otherwise_missing (lookup key m) net fresh))
  | inr there ↦ rw (lookup-insert key k net m, there) refl
]

clash-insert :
    (key : String × String) (net : String) (m rest : EndpointNets)
    → clash (insert key net m) rest ≡ (is_some (lookup key rest) || clash m rest)
unfolding clash lookup
clash-insert key net m [] = refl
clash-insert key net m ((k, n) ∷ rest) =
    ground (arith, clash-insert key net m rest, lookup-insert key k net m, same_comm key k)

abbrev Joined : EndpointNets → EndpointNets → Result EndpointNets → Type 0
Joined m all (ok r) =
    ((clash m all || repeats all) ≡ false)
    × ((key : String × String) → lookup key r ≡ otherwise (lookup key m) (lookup key all))
Joined m all (err e) =
    ((clash m all || repeats all) ≡ true) × (e ≡ engine_error "digital_endpoint_on_multiple_nets")

otherwise-none : (o : Option String) → o ≡ otherwise o none
otherwise-none none = refl
otherwise-none (some a) = refl

Joined-insert :
    (key : String × String) (net : String) (m rest : EndpointNets) (r : Result EndpointNets)
    → is_some (lookup key m) ≡ false
    → Joined (insert key net m) rest r
    → Joined m ((key, net) ∷ rest) r
unfolding clash repeats
Joined-insert key net m rest (ok r) fresh h = (
  ground (arith, clash-insert key net m rest),
  λ k. h.1 k ∙ otherwise-insert key k net m rest fresh,
)
Joined-insert key net m rest (err e) fresh h = (ground (arith, clash-insert key net m rest), h.1)

join_all-Joined : (all m : EndpointNets) → Joined m all (join_all all m)
unfolding join_all clash repeats lookup
join_all-Joined [] m = (refl, λ key. otherwise-none (lookup key m))
join_all-Joined ((key, net) ∷ rest) m = elim (Bool-cases (is_some (lookup key m))) [
  | inl twice ↦ rw twice (rw twice refl, refl)
  | inr fresh ↦ rw fresh (
      Joined-insert key net m rest (join_all rest (insert key net m)) fresh
        (join_all-Joined rest (insert key net m)))
]

clash_nil : (all : EndpointNets) → clash [] all ≡ false
unfolding clash lookup
clash_nil [] = refl
clash_nil ((key, net) ∷ rest) = clash_nil rest

Joins-of_Joined : (all : EndpointNets) (r : Result EndpointNets) → Joined [] all r → Joins all r
unfolding lookup
Joins-of_Joined all (ok r) h = (ground (arith, clash_nil all), h.1)
Joins-of_Joined all (err e) h = (ground (arith, clash_nil all), h.1)

-- The map of endpoints to nets is refused exactly if an endpoint stands twice on the nets of the circuit,
-- with the error `digital_endpoint_on_multiple_nets`; else it gives each endpoint its net, and no other
-- endpoint a net.
pub endpoint_net_map-Joins :
    {F : Type 0} (circuit : Circuit F)
    → Joins (all_endpoints circuit.nets) (endpoint_net_map circuit)
unfolding endpoint_net_map
endpoint_net_map-Joins circuit = rw (join_nets-join_all circuit.nets []) (
    Joins-of_Joined (all_endpoints circuit.nets) (join_all (all_endpoints circuit.nets) [])
      (join_all-Joined (all_endpoints circuit.nets) []))
