-- ===== src/Domain/Validation.antt =====
-- src/domain/validation.cpp and its header: the diagnostics of a validation.
use limine_manager.Prelude.{
  ℕ, ◌≡◌, refl, Bool, true, false, List, [], ◌∷◌, ◌++◌, ◌==◌, count_if, count_if-append, Text, text,
  arith,
}

pub data DiagnosticSeverity : Type 0 where
  info warning error : DiagnosticSeverity

pub record Diagnostic : Type 0 where
  pub severity : DiagnosticSeverity
  pub code : Text
  pub message : Text

pub record ValidationReport : Type 0 where
  pub diagnostics : List Diagnostic

abbrev pub empty_report : ValidationReport
empty_report = record { diagnostics = [] }

unfoldable pub add_diagnostic :
    ValidationReport → DiagnosticSeverity → Text → Text → ValidationReport
add_diagnostic r severity code message = record {
  diagnostics =
      r.diagnostics ++ (record { severity = severity; code = code; message = message } ∷ []);
}

pub add_info : ValidationReport → Text → Text → ValidationReport
unfolding add_diagnostic
add_info r code message = add_diagnostic r info code message

pub add_warning : ValidationReport → Text → Text → ValidationReport
unfolding add_diagnostic
add_warning r code message = add_diagnostic r warning code message

pub add_error : ValidationReport → Text → Text → ValidationReport
unfolding add_diagnostic
add_error r code message = add_diagnostic r error code message

abbrev pub has_severity_error : DiagnosticSeverity → Bool
has_severity_error info = false
has_severity_error warning = false
has_severity_error error = true

abbrev pub has_severity_warning : DiagnosticSeverity → Bool
has_severity_warning info = false
has_severity_warning warning = true
has_severity_warning error = false

pub error_count : ValidationReport → ℕ
error_count r = count_if (λ (item : Diagnostic). has_severity_error item.severity) r.diagnostics

unfoldable pub warning_count : ValidationReport → ℕ
warning_count r = count_if (λ (item : Diagnostic). has_severity_warning item.severity) r.diagnostics

unfoldable pub valid : ValidationReport → Bool
unfolding error_count
valid r = error_count r == 0

pub diagnostic_severity_to_string : DiagnosticSeverity → Text
diagnostic_severity_to_string info = text "INFO"
diagnostic_severity_to_string warning = text "WARN"
diagnostic_severity_to_string error = text "ERROR"

pub valid-add_info :
    (r : ValidationReport) (code message : Text) → valid (add_info r code message) ≡ valid r
unfolding valid add_info add_diagnostic
valid-add_info r code message = ground (
  arith,
  count_if-append (λ (item : Diagnostic). has_severity_error item.severity) r.diagnostics
      (record { severity = info; code = code; message = message } ∷ []),
)

pub valid-add_warning :
    (r : ValidationReport) (code message : Text) → valid (add_warning r code message) ≡ valid r
unfolding valid add_warning add_diagnostic
valid-add_warning r code message = ground (
  arith,
  count_if-append (λ (item : Diagnostic). has_severity_error item.severity) r.diagnostics
      (record { severity = warning; code = code; message = message } ∷ []),
)

pub valid-add_error :
    (r : ValidationReport) (code message : Text) → valid (add_error r code message) ≡ false
unfolding valid add_error add_diagnostic
valid-add_error r code message = ground (
  arith,
  count_if-append (λ (item : Diagnostic). has_severity_error item.severity) r.diagnostics
      (record { severity = error; code = code; message = message } ∷ []),
)

pub valid-empty_report : valid empty_report ≡ true
unfolding valid
valid-empty_report = refl
