-- ===== src/Validation/Tables.antt =====
-- The tables of pins and components of src/validation.rs hold what the circuit describes.
use sim_core.Prelude.{
  ℕ, suc, ◌≡◌, refl, sym, subst, ap, ◌∙◌, ◌⊎◌, inl, inr, String, Bool, List, [], ◌∷◌, some,
  get_elem?, if◌then◌else◌, Bool-cases, is_some,
}
use mathlib.Core.Option.{some-injective}
use sim_core.Prelude.Map.{same, same_eq, lookup, insert, lookup-insert, string_key}
use sim_core.Prelude.Trim.{trim, is_empty}
use sim_core.Circuit.{SignalDomain, PinDirection, Pin, Component, NetEndpoint}
use sim_core.Float.{Float}
use sim_core.Validation.Parts.{Models, Pins, enter_pin, check_pins}
use sim_core.Validation.Nets.{Components}
use sim_core.Validation.Circuit.{enter_component, check_components}
use sim_core.Validation.Ids.{pins_of}

-- An item of a list with a property.
pub record At {A : Type 0} (P : A → Type 0) (xs : List A) : Type 0 where
  pub index : ℕ
  pub item : A
  pub stands : get_elem? xs index ≡ some item
  pub holds : P item

module _ {A : Type 0} {P : A → Type 0} where
  pub At-here : (x : A) (xs : List A) → P x → At P (x ∷ xs)
  At-here x xs p = record { index = 0; item = x; stands = refl; holds = p }

  pub At-there : (x : A) (xs : List A) → At P xs → At P (x ∷ xs)
  At-there x xs at = record {
    index = suc at.index;
    item = at.item;
    stands = at.stands;
    holds = at.holds;
  }

  pub At-imp : {Q : A → Type 0} (f : (a : A) → P a → Q a) (xs : List A) → At P xs → At Q xs
  At-imp f xs at = record {
    index = at.index;
    item = at.item;
    stands = at.stands;
    holds = f at.item at.holds;
  }

-- A lookup after an insertion finds what it inserted, or what was there.
pub lookup-inserted :
    {V : Type 0} (a b : String) (v w : V) (m : List (String × V))
    → lookup b (insert a v m) ≡ some w
    → ((a ≡ b) × (v ≡ w)) ⊎ (lookup b m ≡ some w)
lookup-inserted a b v w m h = elim (Bool-cases (same b a)) [
  | inl on ↦ inl (
    sym (same_eq b a on),
    some-injective v w
        (sym (ap (λ t. if t then some v else lookup b m) on) ∙ sym (lookup-insert a b v m) ∙ h),
  )
  | inr off ↦
      inr (sym (ap (λ t. if t then some v else lookup b m) off) ∙ sym (lookup-insert a b v m) ∙ h)
]

-- A pin of a name, as a table has it.
abbrev pub IsPinOf : String → SignalDomain × PinDirection → Pin → Type 0
IsPinOf name entry pin = (trim pin.id ≡ name) × ((pin.domain, pin.direction) ≡ entry)

enter_pin-lookup :
    (pin : Pin) (known : Pins) (name : String) (entry : SignalDomain × PinDirection)
    → lookup name (enter_pin pin known) ≡ some entry
    → IsPinOf name entry pin ⊎ (lookup name known ≡ some entry)
unfolding enter_pin
enter_pin-lookup pin known name entry h = elim (Bool-cases (is_empty (trim pin.id))) [
  | inl on ↦ inr (
      subst
        (λ t.
          lookup name (if t then known else insert (trim pin.id) (pin.domain, pin.direction) known)
          ≡ some entry)
        on h)
  | inr off ↦
      lookup-inserted (trim pin.id) name (pin.domain, pin.direction) entry known
        (subst
          (λ t.
            lookup name
              (if t then known else insert (trim pin.id) (pin.domain, pin.direction) known)
            ≡ some entry)
          off h)
]

pub check_pins-lookup :
    (path : String) (index : ℕ) (pins : List Pin) (known : Pins) (name : String)
    (entry : SignalDomain × PinDirection)
    → lookup name (check_pins path index pins known).1 ≡ some entry
    → At (IsPinOf name entry) pins ⊎ (lookup name known ≡ some entry)
unfolding check_pins
check_pins-lookup path index [] known name entry h = inr h
check_pins-lookup path index (pin ∷ rest) known name entry h =
    elim (check_pins-lookup path (suc index) rest (enter_pin pin known) name entry h) [
      | inl at ↦ inl (At-there pin rest at)
      | inr early ↦ elim (enter_pin-lookup pin known name entry early) [
        | inl here ↦ inl (At-here pin rest here)
        | inr old ↦ inr old
      ]
    ]

module _ (fl : Float) where
  open fl use {F}

  -- A component of a name with the pins of a table.
  abbrev pub IsComponentOf : String → Pins → Component F → Type 0
  IsComponentOf name pins c = (trim c.id ≡ name) × (pins_of fl c ≡ pins)

  enter_component-lookup :
      (c : Component F) (known : Components) (name : String) (pins : Pins)
      → lookup name (enter_component fl c known) ≡ some pins
      → IsComponentOf name pins c ⊎ (lookup name known ≡ some pins)
  unfolding enter_component
  enter_component-lookup c known name pins h = elim (Bool-cases (is_empty (trim c.id))) [
    | inl on ↦ inr (
        subst
          (λ t.
            lookup name (
              if t then known else if taken then known else insert (trim c.id) (pins_of fl c) known)
            ≡ some pins)
          on h)
    | inr off ↦ entered (
        subst
          (λ t.
            lookup name (
              if t then known else if taken then known else insert (trim c.id) (pins_of fl c) known)
            ≡ some pins)
          off h)
  ]
    where
      taken : Bool
      taken = is_some (lookup (trim c.id) known)

      entered :
          lookup name (if taken then known else insert (trim c.id) (pins_of fl c) known) ≡ some pins
          → IsComponentOf name pins c ⊎ (lookup name known ≡ some pins)
      entered k = elim (Bool-cases taken) [
        | inl on ↦ inr (
            subst
              (λ t.
                lookup name (if t then known else insert (trim c.id) (pins_of fl c) known)
                ≡ some pins)
              on k)
        | inr off ↦ lookup-inserted (trim c.id) name (pins_of fl c) pins known (
            subst
              (λ t.
                lookup name (if t then known else insert (trim c.id) (pins_of fl c) known)
                ≡ some pins)
              off k)
      ]

  pub check_components-lookup :
      (index : ℕ) (models : Models) (components : List (Component F)) (known : Components)
      (name : String) (pins : Pins)
      → lookup name (check_components fl index models components known).1 ≡ some pins
      → At (IsComponentOf name pins) components ⊎ (lookup name known ≡ some pins)
  unfolding check_components
  check_components-lookup index models [] known name pins h = inr h
  check_components-lookup index models (c ∷ rest) known name pins h =
      elim (check_components-lookup (suc index) models rest (enter_component fl c known) name pins
        h) [
          | inl at ↦ inl (At-there c rest at)
          | inr early ↦ elim (enter_component-lookup c known name pins early) [
            | inl here ↦ inl (At-here c rest here)
            | inr old ↦ inr old
          ]
        ]

  -- An endpoint names a pin of a component, of domain `domain`.
  abbrev pub IsAttached : List (Component F) → NetEndpoint → SignalDomain → Type 0
  IsAttached components endpoint domain =
      At
        (λ c.
          (trim c.id ≡ endpoint.component)
          × At (λ pin. (trim pin.id ≡ endpoint.pin) × (pin.domain ≡ domain)) c.pins)
        components

  -- What the tables say of an endpoint is so in the circuit.
  pub tables-IsAttached :
      (models : Models) (components : List (Component F)) (endpoint : NetEndpoint) (pins : Pins)
      (entry : SignalDomain × PinDirection)
      → lookup endpoint.component (check_components fl 0 models components []).1 ≡ some pins
      → lookup endpoint.pin pins ≡ some entry
      → IsAttached components endpoint entry.0
  unfolding lookup
  tables-IsAttached models components endpoint pins entry there h =
      elim (check_components-lookup 0 models components [] endpoint.component pins there) [
        | inl at ↦ At-imp found components at
        | inr old ↦ cc
      ]
    where
      found :
          (c : Component F)
          → IsComponentOf endpoint.component pins c
          → (trim c.id ≡ endpoint.component)
            × At (λ pin. (trim pin.id ≡ endpoint.pin) × (pin.domain ≡ entry.0)) c.pins
      found c is = (
        is.0,
        elim (check_pins-lookup "" 0 c.pins [] endpoint.pin entry
            (subst (λ m. lookup endpoint.pin m ≡ some entry) (sym is.1) h)) [
              | inl at ↦ At-imp (λ pin p. (p.0, ap (λ e. e.0) p.1)) c.pins at
              | inr old ↦ cc
            ],
      )
