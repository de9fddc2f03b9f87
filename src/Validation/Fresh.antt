-- ===== src/Validation/Fresh.antt =====
-- The names that a report of src/validation.rs without errors vouches for: none is empty, and no two
-- are the same.
use sim_core.Prelude.{
  ℕ, suc, ◌≡◌, refl, ◌∙◌, String, Bool, true, false, ◌&&◌, ◌||◌, List, [], ◌∷◌, ◌++◌, is_some,
  if◌then◌else◌, All, All-imp, arith, map,
}
use sim_core.Prelude.Map.{same, same_comm, same-false, lookup, insert, lookup-insert, string_key}
use sim_core.Prelude.Trim.{trim, is_empty}
use sim_core.Circuit.{Pin}
use sim_core.Validation.Report.{ValidationReport, is_valid, error, error_if}
use sim_core.Validation.Parts.{Pins, name_issues, enter_pin, check_pins}

pub is_valid-append : (a b : ValidationReport) → is_valid (a ++ b) ≡ (is_valid a && is_valid b)
unfolding is_valid
is_valid-append [] b = ground arith
is_valid-append (issue ∷ a) b = ground (arith, is_valid-append a b)

pub is_valid-left : (a b : ValidationReport) → is_valid (a ++ b) ≡ true → is_valid a ≡ true
is_valid-left a b h = ground (arith, is_valid-append a b)

pub is_valid-right : (a b : ValidationReport) → is_valid (a ++ b) ≡ true → is_valid b ≡ true
is_valid-right a b h = ground (arith, is_valid-append a b)

pub is_valid-error_if :
    (test : Bool) (code path : String) → is_valid (error_if test code path) ≡ true → test ≡ false
unfolding is_valid
is_valid-error_if test code path h = ground arith

-- An error that a test ends the checks with.
pub stopped-false :
    (test : Bool) (code path : String) (rest : ValidationReport)
    → is_valid (if test then error code path else rest) ≡ true
    → test ≡ false
unfolding is_valid
stopped-false true code path rest h = cc
stopped-false false code path rest h = refl

pub stopped-rest :
    (test : Bool) (code path : String) (rest : ValidationReport)
    → is_valid (if test then error code path else rest) ≡ true
    → is_valid rest ≡ true
unfolding is_valid
stopped-rest true code path rest h = cc
stopped-rest false code path rest h = h

-- No two of the list are the same.
unfoldable pub Distinct : {K : Type 0} → List K → Type 0
Distinct [] = Unit
Distinct (a ∷ s) = All (λ b. ¬ (a ≡ b)) s × Distinct s

-- Names that are not empty, not known, and distinct.
pub record Fresh (known : String → Bool) (names : List String) : Type 0 where
  pub full : All (λ a. is_empty a ≡ false) names
  pub unknown : All (λ a. known a ≡ false) names
  pub distinct : Distinct names

pub Fresh-nil : (known : String → Bool) → Fresh known []
unfolding Distinct
Fresh-nil known = record { full = tt; unknown = tt; distinct = tt }

-- A new name, and the names after it.
pub Fresh-cons :
    (known next : String → Bool) (a : String) (names : List String)
    → is_empty a ≡ false
    → known a ≡ false
    → ((b : String) → next b ≡ (same b a || known b))
    → Fresh next names
    → Fresh known (a ∷ names)
unfolding Distinct
Fresh-cons known next a names full new enters fresh = record {
  full = (full, fresh.full);
  unknown = (new, All-imp (λ b. next b ≡ false) (λ b. known b ≡ false) old names fresh.unknown);
  distinct =
      (All-imp (λ b. next b ≡ false) (λ b. ¬ (a ≡ b)) apart names fresh.unknown, fresh.distinct);
}
  where
    old : (b : String) → next b ≡ false → known b ≡ false
    old b h = ground (arith, enters b)

    apart : (b : String) → next b ≡ false → ¬ (a ≡ b)
    apart b h = same-false a b (same_comm a b ∙ ground (arith, enters b))

module _ {V : Type 0} where
  abbrev pub is_known_id : List (String × V) → String → Bool
  is_known_id known b = is_some (lookup b known)

  -- A name without an issue is entered.
  pub name_issues-full :
      (empty duplicate path id : String) (known : List (String × V))
      → is_valid (name_issues empty duplicate path id known) ≡ true
      → is_empty id ≡ false
  unfolding name_issues is_valid
  name_issues-full empty duplicate path id known h = ground arith

  pub name_issues-new :
      (empty duplicate path id : String) (known : List (String × V))
      → is_valid (name_issues empty duplicate path id known) ≡ true
      → is_known_id known id ≡ false
  unfolding name_issues is_valid
  name_issues-new empty duplicate path id known h = ground arith

  pub is_known_id-insert :
      (a b : String) (v : V) (known : List (String × V))
      → is_known_id (insert a v known) b ≡ (same b a || is_known_id known b)
  is_known_id-insert a b v known = ground (arith, lookup-insert a b v known)

abbrev pub pin_ids : List Pin → List String
pin_ids pins = map (λ pin. trim pin.id) pins

enter_pin-enters :
    (pin : Pin) (pins : Pins)
    → is_empty (trim pin.id) ≡ false
    → (b : String)
    → is_known_id (enter_pin pin pins) b ≡ (same b (trim pin.id) || is_known_id pins b)
unfolding enter_pin
enter_pin-enters pin pins full b =
    rw full (is_known_id-insert (trim pin.id) b (pin.domain, pin.direction) pins)

pub check_pins-Fresh :
    (path : String) (index : ℕ) (pins : List Pin) (known : Pins)
    → is_valid (check_pins path index pins known).0 ≡ true
    → Fresh (is_known_id known) (pin_ids pins)
unfolding check_pins
check_pins-Fresh path index [] known h = Fresh-nil (is_known_id known)
check_pins-Fresh path index (pin ∷ rest) known h =
    let here = is_valid-left _ (check_pins path (suc index) rest (enter_pin pin known)).0 h in
    let full = name_issues-full "empty_pin_id" "duplicate_pin_id" _ (trim pin.id) known here in
    Fresh-cons (is_known_id known) (is_known_id (enter_pin pin known)) (trim pin.id) (pin_ids rest)
      full (name_issues-new "empty_pin_id" "duplicate_pin_id" _ (trim pin.id) known here)
      (enter_pin-enters pin known full)
      (check_pins-Fresh path (suc index) rest (enter_pin pin known)
        (is_valid-right _ (check_pins path (suc index) rest (enter_pin pin known)).0 h))
