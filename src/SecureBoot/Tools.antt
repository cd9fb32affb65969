-- ===== src/SecureBoot/Tools.antt =====
-- src/infrastructure/secure_boot_tools.cpp, over the process runner.
use limine_manager.Prelude.{
  ℕ, Bool, true, not, ◌||◌, List, [], ◌∷◌, ◌++◌, ◌==◌, if◌then◌else◌, length, Text, text,
  drop_while, drop_last_while, runtime_error,
}
use limine_manager.FilePath.{FilePath}
use limine_manager.Exec.{Exec, pure, throw_if, ◌>>=◌, ◌>>◌}

pub record ProcessResult : Type 0 where
  pub exit_code : ℕ
  pub output : Text

pub record SecureBootUpdateResult : Type 0 where
  pub signature_removed : Bool
  pub configuration_enrolled : Bool
  pub image_signed : Bool
  pub signature_verified : Bool

-- one of " \t\r\n"
is_trimmed : ℕ → Bool
is_trimmed c = (c == b' ') || (c == 9) || (c == 13) || (c == 10)

pub trim_output : Text → Text
trim_output value = drop_last_while is_trimmed (drop_while is_trimmed value)

unfoldable pub before_separator : Text → Text
before_separator [] = []
before_separator (c ∷ cs) =
    let rest = before_separator cs in if (c == b' ') || (c == 9) then [] else c ∷ rest

module _ {World : Type 0} (run : List Text → Exec World ProcessResult) where
  unfoldable pub require_success : Text → List Text → Exec World ProcessResult
  require_success operation arguments = do
    result ← run arguments
    throw_if (not (result.exit_code == 0))
        (runtime_error (operation ++ (text ": " ++ trim_output result.output)))
    pure result

  unfoldable pub digest : FilePath → Exec World Text
  digest path = do
    result ← require_success (text "b2sum failed for " ++ path) (text "b2sum" ∷ (path ∷ []))
    let value = before_separator result.output
    throw_if (not (length value == 128))
        (runtime_error (text "invalid BLAKE2b digest for " ++ path))
    pure value

  unfoldable pub update_limine_image : FilePath → Text → Exec World SecureBootUpdateResult
  update_limine_image efi value = do
    require_success (text "sbattach signature removal failed")
        (text "sbattach" ∷ (text "--remove" ∷ (efi ∷ [])))
    require_success (text "limine enroll-config failed")
        (text "limine" ∷ (text "enroll-config" ∷ (efi ∷ (value ∷ []))))
    require_success (text "sbctl sign failed")
        (text "sbctl" ∷ (text "sign" ∷ (text "-s" ∷ (efi ∷ []))))
    require_success (text "sbctl verify failed") (text "sbctl" ∷ (text "verify" ∷ (efi ∷ [])))
    pure (record {
      signature_removed = true;
      configuration_enrolled = true;
      image_signed = true;
      signature_verified = true;
    })
