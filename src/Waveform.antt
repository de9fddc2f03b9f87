-- ===== src/Waveform.antt =====
-- Histories of levels: `DigitalTransition` of src/waveform.rs and the ends of lists of them.
pub mod Result
use sim_core.Prelude.{true, arith, ◌≡◌, refl, List, [], ◌∷◌, ◌++◌, Option, none, some}
use sim_core.Logic.{LogicValue, logic_eq}

pub record DigitalTransition (F : Type 0) : Type 0 where
  pub time : F
  pub value : LogicValue

abbrev pub last : {A : Type 0} → List A → Option A
last [] = none
last (x ∷ []) = some x
last (x ∷ y ∷ xs) = last (y ∷ xs)

-- A write through `last_mut`.
unfoldable pub set_last : {A : Type 0} → A → List A → List A
set_last a [] = []
set_last a (x ∷ []) = a ∷ []
set_last a (x ∷ y ∷ xs) = x ∷ set_last a (y ∷ xs)

-- The last level of a history is the value.
abbrev pub EndsAt : {F : Type 0} → LogicValue → List (DigitalTransition F) → Type 0
EndsAt {F} value ts = (t : DigitalTransition F) × (last ts ≡ some t) × (t.value ≡ value)

pub last-append : {A : Type 0} (xs : List A) (a : A) → last (xs ++ a ∷ []) ≡ some a
last-append [] a = refl
last-append (x ∷ []) a = refl
last-append (x ∷ y ∷ xs) a = last-append (y ∷ xs) a

pub last-set_last : {A : Type 0} (a x : A) (xs : List A) → last (set_last a (x ∷ xs)) ≡ some a
unfolding set_last
last-set_last a x [] = refl
last-set_last a x (y ∷ []) = refl
last-set_last a x (y ∷ z ∷ xs) = last-set_last a y (z ∷ xs)

pub logic_eq-eq : (v w : LogicValue) → logic_eq v w ≡ true → v ≡ w
logic_eq-eq v w h = ground arith
