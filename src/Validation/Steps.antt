-- ===== src/Validation/Steps.antt =====
-- The shapes that the checks of `validate` have, and what each does to the validity of a report.
use limine_manager.Prelude.{
  ◌≡◌, Bool, not, ◌&&◌, List, [], ◌∷◌, ◌++◌, if◌then◌else◌, all_of, Text, text, arith,
}
use limine_manager.FilePath.{FilePath}
use limine_manager.FileSystem.{FileSystem}
use limine_manager.Domain.Validation.{
  ValidationReport, add_info, add_warning, add_error, valid, valid-add_info, valid-add_warning,
  valid-add_error,
}

-- if (test) report.error(code, message);
unfoldable pub error_if : Bool → Text → Text → ValidationReport → ValidationReport
error_if test code message r = if test then add_error r code message else r

-- if (test) report.error(code, bad); else report.info(code, good);
unfoldable pub error_or_info : Bool → Text → Text → Text → ValidationReport → ValidationReport
error_or_info test code bad good r = if test then add_error r code bad else add_info r code good

-- if (test) report.warning(code, bad); else report.info(code, good);
unfoldable pub warning_or_info : Bool → Text → Text → Text → ValidationReport → ValidationReport
warning_or_info test code bad good r = if test then add_warning r code bad else add_info r code good

-- if (test) report.warning(code, message);
unfoldable pub warning_if : Bool → Text → Text → ValidationReport → ValidationReport
warning_if test code message r = if test then add_warning r code message else r

pub validate_file : FileSystem → FilePath → Text → Text → ValidationReport → ValidationReport
unfolding error_or_info
validate_file filesystem path code label =
    error_or_info (not (filesystem.readable path)) code
      (label ++ (text " is missing or unreadable: " ++ path)) (label ++ (text " found: " ++ path))

pub valid-error_if :
    (test : Bool) (code message : Text) (r : ValidationReport)
    → valid (error_if test code message r) ≡ (valid r && not test)
unfolding error_if
valid-error_if test code message r = ground (arith, valid-add_error r code message)

pub valid-error_or_info :
    (test : Bool) (code bad good : Text) (r : ValidationReport)
    → valid (error_or_info test code bad good r) ≡ (valid r && not test)
unfolding error_or_info
valid-error_or_info test code bad good r =
    ground (arith, valid-add_error r code bad, valid-add_info r code good)

pub valid-warning_or_info :
    (test : Bool) (code bad good : Text) (r : ValidationReport)
    → valid (warning_or_info test code bad good r) ≡ valid r
unfolding warning_or_info
valid-warning_or_info test code bad good r =
    ground (arith, valid-add_warning r code bad, valid-add_info r code good)

pub valid-warning_if :
    (test : Bool) (code message : Text) (r : ValidationReport)
    → valid (warning_if test code message r) ≡ valid r
unfolding warning_if
valid-warning_if test code message r = ground (arith, valid-add_warning r code message)

pub valid-validate_file :
    (filesystem : FileSystem) (path : FilePath) (code label : Text) (r : ValidationReport)
    → valid (validate_file filesystem path code label r) ≡ (valid r && filesystem.readable path)
unfolding validate_file
valid-validate_file filesystem path code label r = ground (
  arith,
  valid-error_or_info (not (filesystem.readable path)) code
      (label ++ (text " is missing or unreadable: " ++ path)) (label ++ (text " found: " ++ path))
      r,
)

module _ {ℓ} {A : Type ℓ} where
  -- for (const auto &item : items) { ... }
  abbrev pub each :
      (A → ValidationReport → ValidationReport) → List A → ValidationReport → ValidationReport
  each step [] r = r
  each step (x ∷ xs) r = each step xs (step x r)

  pub valid-each :
      (step : A → ValidationReport → ValidationReport) (good : A → Bool)
      → ((x : A) (r : ValidationReport) → valid (step x r) ≡ (valid r && good x))
      → (xs : List A) (r : ValidationReport) → valid (each step xs r) ≡ (valid r && all_of good xs)
  valid-each step good h [] r = ground arith
  valid-each step good h (x ∷ xs) r = ground (arith, valid-each step good h xs (step x r), h x r)
