-- ===== src/Validation/Kernels.antt =====
-- The checks of `validate` on the kernels that were discovered.
use limine_manager.Prelude.{
  ℕ, suc, ◌≡◌, refl, ◌∙◌, Bool, not, ◌&&◌, ◌||◌, List, [], ◌∷◌, ◌++◌, if◌then◌else◌, is_empty,
  length, all_of, any_of, Text, text, text_eq, arith,
}
use limine_manager.Decimal.{to_string}
use limine_manager.FilePath.{FilePath, filename}
use limine_manager.FileSystem.{FileSystem}
use limine_manager.Model.{SystemInfo, KernelInstallation}
use limine_manager.Domain.Validation.{
  ValidationReport, add_info, add_error, valid, valid-add_info, valid-add_error,
}
use limine_manager.Validation.Steps.{
  error_if, warning_or_info, validate_file, each, valid-error_if, valid-warning_or_info,
  valid-validate_file, valid-each,
}

pub prefix_of : KernelInstallation → Text
prefix_of kernel = text "kernel." ++ kernel.package_base

-- the loop over the index of the initrds, from `index`
check_modules :
    FileSystem → KernelInstallation → ℕ → List FilePath → ValidationReport → ValidationReport
check_modules filesystem kernel index [] r = r
check_modules filesystem kernel index (path ∷ rest) r =
    check_modules filesystem kernel (suc index) rest (
      validate_file filesystem path (prefix_of kernel ++ (text ".module." ++ to_string index))
        (kernel.display_name ++ text " module") r)

pub is_initramfs : KernelInstallation → FilePath → Bool
is_initramfs kernel path =
    text_eq (filename path) (text "initramfs-" ++ (kernel.package_base ++ text ".img"))

check_initrds : FileSystem → SystemInfo → KernelInstallation → ValidationReport → ValidationReport
unfolding check_modules
check_initrds filesystem system kernel r =
    error_if (not (any_of (is_initramfs kernel) kernel.initrds))
      (prefix_of kernel ++ text ".initramfs")
      (text "No matching initramfs was discovered under " ++ system.boot_mount)
      (check_modules filesystem kernel 0 kernel.initrds (
        error_if (is_empty kernel.initrds) (prefix_of kernel ++ text ".initrd")
          (text "No initramfs image discovered for " ++ kernel.display_name) r))

check_release : KernelInstallation → ValidationReport → ValidationReport
check_release kernel =
    warning_or_info (is_empty kernel.release) (prefix_of kernel ++ text ".release")
      (text "Unable to map "
        ++ (kernel.package_base ++ text " to a release under /usr/lib/modules"))
      (kernel.display_name ++ (text " release is " ++ kernel.release))

-- the body of the loop over the kernels
check_kernel : FileSystem → SystemInfo → KernelInstallation → ValidationReport → ValidationReport
unfolding check_release check_initrds
check_kernel filesystem system kernel r =
    let released = check_release kernel (
      validate_file filesystem kernel.image (prefix_of kernel ++ text ".image")
        (kernel.display_name ++ text " image") r) in
    if kernel.unified_kernel_image
    then add_info released (prefix_of kernel ++ text ".uki")
        (text "Unified Kernel Image detected: " ++ kernel.image)
    else check_initrds filesystem system kernel released

-- `running_found` is set in the loop when a kernel is running
check_running : SystemInfo → ValidationReport → ValidationReport
check_running system =
    warning_or_info (not (any_of (λ (kernel : KernelInstallation). kernel.running) system.kernels))
      (text "kernel.running")
      (text "Running release "
        ++ (system.running_kernel_release ++ text " was not mapped to a discovered kernel image"))
      (text "Running release mapped to a discovered kernel image")

unfoldable pub check_kernels : FileSystem → SystemInfo → ValidationReport → ValidationReport
unfolding check_kernel check_running
check_kernels filesystem system r =
    if is_empty system.kernels
    then add_error r (text "kernel.discovery")
        (text "No kernel images matching vmlinuz-* were discovered in " ++ system.boot_mount)
    else check_running system (
        each (check_kernel filesystem system) system.kernels (
          add_info r (text "kernel.discovery") (
            text "Discovered "
            ++ (to_string (length system.kernels) ++ text " kernel installation(s)"))))

-- a unified image is readable; another kernel has its initramfs too, and all modules are readable
pub kernel_ready : FileSystem → KernelInstallation → Bool
kernel_ready filesystem kernel =
    filesystem.readable kernel.image
    && (kernel.unified_kernel_image
        || (all_of filesystem.readable kernel.initrds
            && any_of (is_initramfs kernel) kernel.initrds))

unfoldable pub kernels_ready : FileSystem → SystemInfo → Bool
kernels_ready filesystem system =
    not (is_empty system.kernels) && all_of (kernel_ready filesystem) system.kernels

valid-check_modules :
    (filesystem : FileSystem) (kernel : KernelInstallation) (index : ℕ) (paths : List FilePath)
    (r : ValidationReport)
    → valid (check_modules filesystem kernel index paths r)
      ≡ (valid r && all_of filesystem.readable paths)
unfolding check_modules
valid-check_modules filesystem kernel index [] r = ground arith
valid-check_modules filesystem kernel index (path ∷ rest) r =
    let code = prefix_of kernel ++ (text ".module." ++ to_string index) in
    let label = kernel.display_name ++ text " module" in
    ground (
      arith,
      valid-check_modules filesystem kernel (suc index) rest
          (validate_file filesystem path code label r),
      valid-validate_file filesystem path code label r,
    )

-- No initrd at all has no initramfs either.
any_of-is_empty :
    {A : Type 0} (p : A → Bool) (xs : List A) → (not (is_empty xs) && any_of p xs) ≡ any_of p xs
any_of-is_empty p [] = refl
any_of-is_empty p (x ∷ xs) = refl

valid-check_initrds :
    (filesystem : FileSystem) (system : SystemInfo) (kernel : KernelInstallation)
    (r : ValidationReport)
    → valid (check_initrds filesystem system kernel r) ≡ (
        valid r
        && (all_of filesystem.readable kernel.initrds
            && any_of (is_initramfs kernel) kernel.initrds))
unfolding check_initrds
valid-check_initrds filesystem system kernel r =
    let code = prefix_of kernel ++ text ".initrd" in
    let message = text "No initramfs image discovered for " ++ kernel.display_name in
    let some_initrd = error_if (is_empty kernel.initrds) code message r in
    valid-error_if (not (any_of (is_initramfs kernel) kernel.initrds)) _ _ _
    ∙ ground (
      arith,
      valid-check_modules filesystem kernel 0 kernel.initrds some_initrd,
      valid-error_if (is_empty kernel.initrds) code message r,
      any_of-is_empty (is_initramfs kernel) kernel.initrds,
    )

valid-check_kernel :
    (filesystem : FileSystem) (system : SystemInfo) (kernel : KernelInstallation)
    (r : ValidationReport)
    → valid (check_kernel filesystem system kernel r) ≡ (valid r && kernel_ready filesystem kernel)
unfolding check_kernel kernel_ready check_release
valid-check_kernel filesystem system kernel r =
    let found =
      validate_file filesystem kernel.image (prefix_of kernel ++ text ".image")
        (kernel.display_name ++ text " image") r in
    let released = check_release kernel found in
    let kept : valid released ≡ valid found = valid-warning_or_info _ _ _ _ _ in
    ground (
      arith,
      kept,
      valid-add_info released (prefix_of kernel ++ text ".uki")
          (text "Unified Kernel Image detected: " ++ kernel.image),
      valid-check_initrds filesystem system kernel released,
      valid-validate_file filesystem kernel.image (prefix_of kernel ++ text ".image")
          (kernel.display_name ++ text " image") r,
    )

pub valid-check_kernels :
    (filesystem : FileSystem) (system : SystemInfo) (r : ValidationReport)
    → valid (check_kernels filesystem system r) ≡ (valid r && kernels_ready filesystem system)
unfolding check_kernels kernels_ready check_running
valid-check_kernels filesystem system r =
    let discovered =
      text "Discovered " ++ (to_string (length system.kernels) ++ text " kernel installation(s)") in
    let begun = add_info r (text "kernel.discovery") discovered in
    let checked = each (check_kernel filesystem system) system.kernels begun in
    let run : valid (check_running system checked) ≡ valid checked =
      valid-warning_or_info _ _ _ _ _ in
    ground (
      arith,
      run,
      valid-each (check_kernel filesystem system) (kernel_ready filesystem)
          (valid-check_kernel filesystem system) system.kernels begun,
      valid-add_info r (text "kernel.discovery") discovered,
      valid-add_error r (text "kernel.discovery")
          (text "No kernel images matching vmlinuz-* were discovered in " ++ system.boot_mount),
    )
