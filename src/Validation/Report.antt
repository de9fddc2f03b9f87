-- ===== src/Validation/Report.antt =====
-- `ValidationIssue` and `ValidationReport` of src/validation.rs. A report is its issues in their order;
-- the text of an issue for people is left out.
use sim_core.Prelude.{ℕ, suc, String, Bool, true, false, not, List, [], ◌∷◌, any, if◌then◌else◌}

pub data IssueSeverity : Type 0 where
  warning_issue error_issue : IssueSeverity

pub record ValidationIssue : Type 0 where
  pub severity : IssueSeverity
  pub code : String
  pub path : String

abbrev pub ValidationReport : Type 0
ValidationReport = List ValidationIssue

abbrev pub is_error : ValidationIssue → Bool
is_error issue = elim issue.severity [ warning_issue ↦ false | error_issue ↦ true ]

unfoldable pub is_valid : ValidationReport → Bool
is_valid report = not (any is_error report)

unfoldable pub error_count : ValidationReport → ℕ
error_count [] = 0
error_count (issue ∷ report) =
    let rest = error_count report in if is_error issue then suc rest else rest

unfoldable pub warning_count : ValidationReport → ℕ
warning_count [] = 0
warning_count (issue ∷ report) =
    let rest = warning_count report in if is_error issue then rest else suc rest

-- `report.error(..)` and `report.warning(..)` under a test.
abbrev pub error : String → String → ValidationReport
error code path = record { severity = error_issue; code = code; path = path } ∷ []

abbrev pub error_if : Bool → String → String → ValidationReport
error_if test code path = if test then error code path else []

abbrev pub warning_if : Bool → String → String → ValidationReport
warning_if test code path =
    if test then record { severity = warning_issue; code = code; path = path } ∷ [] else []
