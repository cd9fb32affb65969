-- ===== src/Validation/SecureBoot.antt =====
-- The first step of `validate`: Secure Boot, its tools, the signature and the resource hashes.
use limine_manager.Prelude.{
  ◌≡◌, ◌∙◌, Bool, true, false, not, ◌&&◌, ◌||◌, List, [], ◌∷◌, ◌++◌, if◌then◌else◌, is_empty,
  all_of, Text, text, text_eq, arith,
}
use limine_manager.FilePath.{FilePath}
use limine_manager.Model.{
  SystemInfo, SecureBootInfo, SignatureVerificationState, verified, unsigned_file, unavailable,
  KernelInstallation, AppConfig,
}
use limine_manager.Domain.Validation.{
  ValidationReport, add_info, add_warning, add_error, valid, valid-add_info, valid-add_warning,
  valid-add_error,
}
use limine_manager.Validation.Steps.{error_if, each, valid-error_if, valid-each}

-- it->second of resource_hashes.find(path), or nothing at the end
unfoldable pub hash_of : List (FilePath × Text) → FilePath → Text
hash_of [] path = []
hash_of (entry ∷ rest) path = if text_eq entry.0 path then entry.1 else hash_of rest path

pub has_hash : List (FilePath × Text) → FilePath → Bool
has_hash hashes path = not (is_empty (hash_of hashes path))

check_hash : List (FilePath × Text) → FilePath → ValidationReport → ValidationReport
check_hash hashes path =
    error_if (not (has_hash hashes path)) (text "secure_boot.hash")
      (text "Unable to calculate BLAKE2b for " ++ path)

check_kernel_hashes :
    List (FilePath × Text) → KernelInstallation → ValidationReport → ValidationReport
unfolding check_hash
check_kernel_hashes hashes kernel r =
    each (check_hash hashes) kernel.initrds
      (if not kernel.unified_kernel_image then check_hash hashes kernel.image r else r)

check_signature : SecureBootInfo → SignatureVerificationState → ValidationReport → ValidationReport
check_signature secure_boot verified r = r
check_signature secure_boot unsigned_file r =
    add_error r (text "secure_boot.signature")
      (text "Limine EFI executable is not verified by sbctl: " ++ secure_boot.efi_executable)
check_signature secure_boot unavailable r =
    add_warning r (text "secure_boot.signature_unavailable") (
      text
        "Unable to verify the Limine EFI signature without sufficient privileges; run limine-manager with sudo before applying changes")

check_executable : SecureBootInfo → ValidationReport → ValidationReport
unfolding check_signature
check_executable secure_boot r =
    if is_empty secure_boot.efi_executable
    then add_error r (text "secure_boot.efi")
        (text "Unable to locate the active Limine EFI executable")
    else check_signature secure_boot secure_boot.efi_signature r

check_tools : SecureBootInfo → AppConfig → ValidationReport → ValidationReport
check_tools secure_boot config r =
    error_if (not secure_boot.sbattach_available) (text "secure_boot.sbattach")
      (text "sbattach from sbsigntools is required to safely re-sign the Limine EFI executable")
      (error_if (not secure_boot.limine_available) (text "secure_boot.limine")
        (text "limine enroll-config is unavailable")
        (error_if (not secure_boot.sbctl_available) (text "secure_boot.sbctl")
          (text "sbctl is required when Secure Boot is enabled")
          (error_if (not config.secure_boot_protect_config) (text "secure_boot.protection_disabled")
            (text
              "Secure Boot is enabled but protected Limine configuration generation is disabled")
            (add_info r (text "secure_boot.enabled") (text "UEFI Secure Boot is enabled")))))

pub check_secure_boot : SystemInfo → AppConfig → ValidationReport → ValidationReport
unfolding check_tools check_executable check_kernel_hashes
check_secure_boot system config r =
    if system.secure_boot.enabled
    then each (check_kernel_hashes system.secure_boot.resource_hashes) system.kernels
        (check_executable system.secure_boot (check_tools system.secure_boot config r))
    else add_info r (text "secure_boot.disabled")
        (text "UEFI Secure Boot is disabled or not detected")

pub not_unsigned : SignatureVerificationState → Bool
not_unsigned verified = true
not_unsigned unsigned_file = false
not_unsigned unavailable = true

-- the image, unless it is a unified one, and every module of the kernel have a hash
pub kernel_hashed : List (FilePath × Text) → KernelInstallation → Bool
kernel_hashed hashes kernel =
    (kernel.unified_kernel_image || has_hash hashes kernel.image)
    && all_of (has_hash hashes) kernel.initrds

-- Secure Boot is off, or the menu can be protected under it
unfoldable pub secure_boot_ready : SystemInfo → AppConfig → Bool
secure_boot_ready system config =
    not system.secure_boot.enabled
    || (config.secure_boot_protect_config
        && system.secure_boot.sbctl_available
        && system.secure_boot.limine_available
        && system.secure_boot.sbattach_available
        && not (is_empty system.secure_boot.efi_executable)
        && not_unsigned system.secure_boot.efi_signature
        && all_of (kernel_hashed system.secure_boot.resource_hashes) system.kernels)

valid-check_hash :
    (hashes : List (FilePath × Text)) (path : FilePath) (r : ValidationReport)
    → valid (check_hash hashes path r) ≡ (valid r && has_hash hashes path)
unfolding check_hash
valid-check_hash hashes path r = ground (
  arith,
  valid-error_if (not (has_hash hashes path)) (text "secure_boot.hash")
      (text "Unable to calculate BLAKE2b for " ++ path) r,
)

valid-check_kernel_hashes :
    (hashes : List (FilePath × Text)) (kernel : KernelInstallation) (r : ValidationReport)
    → valid (check_kernel_hashes hashes kernel r) ≡ (valid r && kernel_hashed hashes kernel)
unfolding check_kernel_hashes kernel_hashed
valid-check_kernel_hashes hashes kernel r =
    valid-each (check_hash hashes) (has_hash hashes) (valid-check_hash hashes) kernel.initrds
      (if not kernel.unified_kernel_image then check_hash hashes kernel.image r else r)
    ∙ ground (arith, valid-check_hash hashes kernel.image r)

valid-check_signature :
    (secure_boot : SecureBootInfo) (state : SignatureVerificationState) (r : ValidationReport)
    → valid (check_signature secure_boot state r) ≡ (valid r && not_unsigned state)
unfolding check_signature not_unsigned
valid-check_signature secure_boot verified r = ground arith
valid-check_signature secure_boot unsigned_file r = valid-add_error r _ _ ∙ ground arith
valid-check_signature secure_boot unavailable r = valid-add_warning r _ _ ∙ ground arith

valid-check_executable :
    (secure_boot : SecureBootInfo) (r : ValidationReport)
    → valid (check_executable secure_boot r) ≡ (
        valid r
        && (not (is_empty secure_boot.efi_executable) && not_unsigned secure_boot.efi_signature))
unfolding check_executable
valid-check_executable secure_boot r =
    grind (arith, valid-add_error, valid-check_signature secure_boot secure_boot.efi_signature r)

valid-check_tools :
    (secure_boot : SecureBootInfo) (config : AppConfig) (r : ValidationReport)
    → valid (check_tools secure_boot config r) ≡ (
        (((valid r && config.secure_boot_protect_config) && secure_boot.sbctl_available)
          && secure_boot.limine_available)
        && secure_boot.sbattach_available)
unfolding check_tools
valid-check_tools secure_boot config r = grind (arith, valid-add_info, valid-error_if)

pub valid-check_secure_boot :
    (system : SystemInfo) (config : AppConfig) (r : ValidationReport)
    → valid (check_secure_boot system config r) ≡ (valid r && secure_boot_ready system config)
unfolding check_secure_boot secure_boot_ready
valid-check_secure_boot system config r =
    let hashes = system.secure_boot.resource_hashes in
    let tools = check_tools system.secure_boot config r in
    ground (
      arith,
      valid-add_info r (text "secure_boot.disabled")
          (text "UEFI Secure Boot is disabled or not detected"),
      valid-each (check_kernel_hashes hashes) (kernel_hashed hashes)
          (valid-check_kernel_hashes hashes) system.kernels
          (check_executable system.secure_boot tools),
      valid-check_executable system.secure_boot tools,
      valid-check_tools system.secure_boot config r,
    )
