-- ===== src/Logic/Resolve.antt =====
-- Nets with several drivers: `DriverKey` and `resolve_net` of src/digital.rs.
use mathlib.Core.List.{Perm, foldr}
use mathlib.Core.List.Perm
use sim_core.Prelude.{
  then_with, Option-cases, inl, inr, ℕ, Ordering, compare, true, ◌≡◌, ◌≢◌, ◌↔◌, ◌⊎◌, refl, sym, ◌∙◌,
  arith, List, [], ◌∷◌, map, Option, none, some, if◌then◌else◌, or_default, All,
}
use sim_core.Prelude.Map.{Key, lookup, order_refl-ℕ}
use sim_core.Logic.{LogicValue, low, high, unknown, high_impedance, logic_eq, is_known}

pub record DriverKey : Type 0 where
  pub component : ℕ
  pub output : ℕ

-- The derived `Ord`.
abbrev pub driver_order : DriverKey → DriverKey → Ordering
driver_order a b = then_with (compare a.component b.component) (compare a.output b.output)

pub driver_order_refl : (a : DriverKey) → driver_order a a ≡ Ordering.eq
driver_order_refl a = ground (arith, order_refl-ℕ a.component, order_refl-ℕ a.output)

pub driver_order_eq : (a b : DriverKey) → driver_order a b ≡ Ordering.eq → a ≡ b
driver_order_eq a b h = ground arith

instance abbrev pub driver_key : Key DriverKey
driver_key = record {
  order = driver_order;
  order_refl = driver_order_refl;
  order_eq = driver_order_eq;
}

-- The value that a driver puts on its net; one that was never written is not driving.
unfoldable pub driven : List (DriverKey × LogicValue) → DriverKey → LogicValue
driven driver_values d = or_default (lookup d driver_values) high_impedance

-- One round of the loop: what the drivers agree on after `value`, or `none` for `return X`.
contend : LogicValue → LogicValue → Option LogicValue
contend resolved high_impedance = some resolved
contend resolved unknown = none
contend resolved value =
    if logic_eq resolved high_impedance
    then some value
    else if logic_eq resolved value
    then some resolved
    else none

resolve_loop : List (DriverKey × LogicValue) → LogicValue → List DriverKey → LogicValue
unfolding driven contend
resolve_loop driver_values resolved [] = resolved
resolve_loop driver_values resolved (d ∷ ds) = elim (contend resolved (driven driver_values d)) [
  | none ↦ unknown
  | some agreed ↦ resolve_loop driver_values agreed ds
]

unfoldable pub resolve_net : List DriverKey → List (DriverKey × LogicValue) → LogicValue
unfolding resolve_loop
resolve_net [] driver_values = unknown
resolve_net (d ∷ ds) driver_values = resolve_loop driver_values high_impedance (d ∷ ds)

-- The reference: the join where high impedance is least, the levels are incomparable
-- and unknown is greatest.
abbrev pub join : LogicValue → LogicValue → LogicValue
join high_impedance w = w
join low high_impedance = low
join low low = low
join low high = unknown
join low unknown = unknown
join high high_impedance = high
join high high = high
join high low = unknown
join high unknown = unknown
join unknown w = unknown

pub join_comm : (v w : LogicValue) → join v w ≡ join w v
join_comm v w = ground arith

join_left_comm : (u v w : LogicValue) → join u (join v w) ≡ join v (join u w)
join_left_comm u v w = ground arith

LogicValue-set : IsSet LogicValue
LogicValue-set = hlevel

cons_ne_nil {ℓ} : {A : Type ℓ} {x : A} {xs : List A} → x ∷ xs ≢ []
cons_ne_nil h = cc

pub join_assoc : (u v w : LogicValue) → join (join u v) w ≡ join u (join v w)
join_assoc u v w = ground arith

abbrev pub join_all : List LogicValue → LogicValue
join_all = foldr join high_impedance

contend-none : (r v w : LogicValue) → r ≢ unknown → contend r v ≡ none → join r (join v w) ≡ unknown
unfolding contend
contend-none r v w h e = ground arith

contend-some :
    (r v w : LogicValue) {r' : LogicValue}
    → r ≢ unknown
    → contend r v ≡ some r'
    → (r' ≢ unknown) × (join r' w ≡ join r (join v w))
unfolding contend
contend-some r v w h e = ground arith

resolve_loop-join :
    (driver_values : List (DriverKey × LogicValue)) (r : LogicValue) (ds : List DriverKey)
    → r ≢ unknown
    → resolve_loop driver_values r ds ≡ join r (join_all (map (driven driver_values) ds))
unfolding resolve_loop
resolve_loop-join dv r [] h = ground arith
resolve_loop-join dv r (d ∷ ds) h =
    let rest = join_all (map (driven dv) ds) in
    elim (Option-cases (contend r (driven dv d))) [
      | inl e ↦ rw (e, resolve_loop) (sym (contend-none r (driven dv d) rest h e))
      | inr (r', e) ↦
          let (known, same_join) = contend-some r (driven dv d) rest h e in
          rw (e, resolve_loop) (resolve_loop-join dv r' ds known ∙ same_join)
    ]

-- A net with drivers takes the join of what its drivers put on it.
resolve_net-join :
    (driver_values : List (DriverKey × LogicValue)) (ds : List DriverKey)
    → ds ≢ []
    → resolve_net ds driver_values ≡ join_all (map (driven driver_values) ds)
unfolding resolve_net
resolve_net-join dv [] h = absurd (h refl)
resolve_net-join dv (d ∷ ds) h = resolve_loop-join dv high_impedance (d ∷ ds) (λ e. cc)

-- The order in which the drivers of a net are listed does not change its value.
pub resolve_net-perm :
    (driver_values : List (DriverKey × LogicValue)) (ds es : List DriverKey)
    → Perm ds es
    → resolve_net ds driver_values ≡ resolve_net es driver_values
resolve_net-perm dv [] es p = rw (Perm.nil-eq p)
resolve_net-perm dv (d ∷ ds) [] p = absurd (cons_ne_nil (Perm.eq-nil p))
resolve_net-perm dv (d ∷ ds) (e ∷ es) p =
    resolve_net-join dv (d ∷ ds) cons_ne_nil
    ∙ Perm.foldr-eq LogicValue-set join join_left_comm (Perm.map (driven dv) p) high_impedance
    ∙ sym (resolve_net-join dv (e ∷ es) cons_ne_nil)

module _ (driver_values : List (DriverKey × LogicValue)) where
  -- No driver of the list drives its net.
  abbrev pub Released : List DriverKey → Type 0
  Released = All λ d. driven driver_values d ≡ high_impedance

  -- Each driver of the list is released or drives the level.
  abbrev pub Agree : LogicValue → List DriverKey → Type 0
  Agree level =
      All λ d. (driven driver_values d ≡ high_impedance) ⊎ (driven driver_values d ≡ level)

  join_all-Released :
      (ds : List DriverKey)
      → (join_all (map (driven driver_values) ds) ≡ high_impedance) ↔ Released ds
  join_all-Released [] = (λ _. tt, λ _. refl)
  join_all-Released (d ∷ ds) =
      let ih = join_all-Released ds in (λ h. ground (arith, ih.0), λ h. ground (arith, ih.1 h.1))

  Agree-of_join :
      (level : LogicValue) (ds : List DriverKey)
      → is_known level ≡ true
      → let v = join_all (map (driven driver_values) ds) in
        (v ≡ level) ⊎ (v ≡ high_impedance) → Agree level ds
  unfolding is_known
  Agree-of_join level [] k h = tt
  Agree-of_join level (d ∷ ds) k h = ground (arith, Agree-of_join level ds k)

  join-of_Agree :
      (level : LogicValue) (ds : List DriverKey)
      → is_known level ≡ true
      → Agree level ds
      → let v = join_all (map (driven driver_values) ds) in (v ≡ level) ⊎ (v ≡ high_impedance)
  unfolding is_known
  join-of_Agree level [] k h = inr refl
  join-of_Agree level (d ∷ ds) k h = ground (arith, join-of_Agree level ds k h.1)

  known_ne_released : (level : LogicValue) → is_known level ≡ true → level ≢ high_impedance
  unfolding is_known
  known_ne_released level k e = ground arith

  -- A net with drivers floats exactly when none of them drives it. It has a level exactly when some
  -- driver drives it and all that do drive that level. In every other case it is unknown.
  pub resolve_net-cases :
      (ds : List DriverKey)
      → ds ≢ []
      → ((resolve_net ds driver_values ≡ high_impedance) ↔ Released ds)
        × ((level : LogicValue)
            → is_known level ≡ true
            → (resolve_net ds driver_values ≡ level) ↔ (Agree level ds × (¬ Released ds)))
  resolve_net-cases ds h = rw (resolve_net-join driver_values ds h) (
    join_all-Released ds,
    λ level k. (
      λ e. (
        Agree-of_join level ds k (inl e),
        λ r. known_ne_released level k (sym e ∙ (join_all-Released ds).1 r),
      ),
      λ a. decide level k (join-of_Agree level ds k a.0) a.1,
    ),
  )
    where
      decide :
          (level : LogicValue)
          → is_known level ≡ true
          → (join_all (map (driven driver_values) ds) ≡ level)
            ⊎ (join_all (map (driven driver_values) ds) ≡ high_impedance)
          → (¬ Released ds)
          → join_all (map (driven driver_values) ds) ≡ level
      decide level k (inl e) r = e
      decide level k (inr e) r = absurd (r ((join_all-Released ds).0 e))
