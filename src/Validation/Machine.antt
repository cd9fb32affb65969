-- ===== src/Validation/Machine.antt =====
-- The checks of `validate` on the mounts, the configuration file and the kernel command line file.
use limine_manager.Prelude.{
  ◌≡◌, Bool, not, ◌&&◌, ◌||◌, ◌++◌, if◌then◌else◌, is_empty, length, text, text_eq, arith,
}
use limine_manager.Decimal.{to_string}
use limine_manager.FileSystem.{FileSystem}
use limine_manager.Model.{SystemInfo}
use limine_manager.Domain.KernelCmdline.{KernelCommandLine}
use limine_manager.Domain.Validation.{ValidationReport, add_info, valid, valid-add_info}
use limine_manager.Validation.Steps.{
  error_or_info, validate_file, valid-error_or_info, valid-validate_file,
}

check_root : SystemInfo → ValidationReport → ValidationReport
check_root system r =
    error_or_info (is_empty system.root_subvolume) (text "root.subvolume")
      (text "Unable to detect the root Btrfs subvolume")
      (text "Root subvolume is " ++ system.root_subvolume)
      (error_or_info (not (text_eq system.root_fstype (text "btrfs"))) (text "root.filesystem")
        (text "Root filesystem must be Btrfs; detected " ++ system.root_fstype)
        (text "Root filesystem is Btrfs") r)

check_boot_mount : SystemInfo → ValidationReport → ValidationReport
check_boot_mount system =
    error_or_info (not (text_eq system.boot_target system.boot_mount)) (text "boot.mount")
      (system.boot_mount ++ text " is not detected as an independent mount target")
      (text "Boot mount detected at "
        ++ (system.boot_target
            ++ (text " from "
                ++ (system.boot_source ++ (text " (" ++ (system.boot_fstype ++ text ")"))))))

check_cmdline_file : FileSystem → SystemInfo → ValidationReport → ValidationReport
check_cmdline_file filesystem system r =
    if system.kernel_cmdline_generated
    then add_info r (text "kernel.cmdline_file") (
        text "Kernel command line generated automatically because "
        ++ (system.kernel_cmdline_file ++ text " is missing or empty"))
    else validate_file filesystem system.kernel_cmdline_file (text "kernel.cmdline_file")
        (text "Kernel command line file") r

check_cmdline : KernelCommandLine → ValidationReport → ValidationReport
check_cmdline cmdline =
    error_or_info (is_empty cmdline.arguments) (text "kernel.cmdline")
      (text "Kernel command line is empty")
      (text "Kernel command line parsed into "
        ++ (to_string (length cmdline.arguments) ++ text " argument(s)"))

unfoldable pub check_machine : FileSystem → SystemInfo → ValidationReport → ValidationReport
unfolding check_root check_boot_mount check_cmdline_file check_cmdline
check_machine filesystem system r = check_cmdline system.kernel_cmdline (
    check_cmdline_file filesystem system (
      validate_file filesystem system.limine_config (text "limine.config")
        (text "Limine configuration") (check_boot_mount system (check_root system r))))

unfoldable pub machine_ready : FileSystem → SystemInfo → Bool
machine_ready filesystem system =
    text_eq system.root_fstype (text "btrfs")
    && not (is_empty system.root_subvolume)
    && text_eq system.boot_target system.boot_mount
    && filesystem.readable system.limine_config
    && (system.kernel_cmdline_generated || filesystem.readable system.kernel_cmdline_file)
    && not (is_empty system.kernel_cmdline.arguments)

valid-check_root :
    (system : SystemInfo) (r : ValidationReport)
    → valid (check_root system r) ≡ (
        (valid r && text_eq system.root_fstype (text "btrfs"))
        && not (is_empty system.root_subvolume))
unfolding check_root
valid-check_root system r = grind (arith, valid-error_or_info)

valid-check_boot_mount :
    (system : SystemInfo) (r : ValidationReport)
    → valid (check_boot_mount system r) ≡ (valid r && text_eq system.boot_target system.boot_mount)
unfolding check_boot_mount
valid-check_boot_mount system r = grind (arith, valid-error_or_info)

valid-check_cmdline_file :
    (filesystem : FileSystem) (system : SystemInfo) (r : ValidationReport)
    → valid (check_cmdline_file filesystem system r) ≡ (
        valid r
        && (system.kernel_cmdline_generated || filesystem.readable system.kernel_cmdline_file))
unfolding check_cmdline_file
valid-check_cmdline_file filesystem system r = grind (arith, valid-add_info, valid-validate_file)

valid-check_cmdline :
    (cmdline : KernelCommandLine) (r : ValidationReport)
    → valid (check_cmdline cmdline r) ≡ (valid r && not (is_empty cmdline.arguments))
unfolding check_cmdline
valid-check_cmdline cmdline r = grind (arith, valid-error_or_info)

pub valid-check_machine :
    (filesystem : FileSystem) (system : SystemInfo) (r : ValidationReport)
    → valid (check_machine filesystem system r) ≡ (valid r && machine_ready filesystem system)
unfolding check_machine machine_ready
valid-check_machine filesystem system r =
    let mounted = check_boot_mount system (check_root system r) in
    let configured =
      validate_file filesystem system.limine_config (text "limine.config")
        (text "Limine configuration") mounted in
    ground (
      arith,
      valid-check_cmdline system.kernel_cmdline (check_cmdline_file filesystem system configured),
      valid-check_cmdline_file filesystem system configured,
      valid-validate_file filesystem system.limine_config (text "limine.config")
          (text "Limine configuration") mounted,
      valid-check_boot_mount system (check_root system r),
      valid-check_root system r,
    )
