-- ===== src/Validation/Arguments.antt =====
-- The checks of `validate` on the arguments of the kernel command line: root, encryption, rootflags.
use limine_manager.Prelude.{
  ◌≡◌, refl, ◌∙◌, Bool, false, not, ◌&&◌, ◌||◌, Option, none, some, List, [], ◌++◌, if◌then◌else◌,
  is_empty, any_of, Text, text, text_eq, arith,
}
use limine_manager.FilePath.{filename}
use limine_manager.FileSystem.{FileSystem}
use limine_manager.Model.{SystemInfo}
use limine_manager.Domain.KernelCmdline.{value, values}
use limine_manager.Domain.Validation.{
  ValidationReport, add_info, add_error, valid, valid-add_info, valid-add_error,
}
use limine_manager.Validation.Steps.{
  error_or_info, warning_or_info, valid-error_or_info, valid-warning_or_info,
}
use limine_manager.Validation.Devices.{normalize_mount_source, maps_cryptdevice, maps_sd_encrypt}

pub uuid_root : SystemInfo → Text
uuid_root system = if is_empty system.root_uuid then [] else text "UUID=" ++ system.root_uuid

-- the root= option is the mounted source, or names its file system by UUID
pub identifies_root : SystemInfo → Option Text → Bool
unfolding uuid_root
identifies_root system none = false
identifies_root system (some root) =
    text_eq root (normalize_mount_source system.root_source)
    || (not (is_empty system.root_uuid) && text_eq root (text "UUID=" ++ system.root_uuid))

check_root_value : SystemInfo → Option Text → ValidationReport → ValidationReport
check_root_value system none r =
    add_error r (text "kernel.root") (text "Kernel command line has no root= option")
check_root_value system (some root) r =
    error_or_info
      (not (text_eq root (normalize_mount_source system.root_source))
        && (is_empty (uuid_root system) || not (text_eq root (uuid_root system))))
      (text "kernel.root")
      (text "Kernel root= option ('"
        ++ (root
            ++ (text "') does not match the mounted root source ('"
                ++ (system.root_source ++ text "') or its filesystem UUID"))))
      (text "Kernel root= option identifies the mounted root filesystem") r

check_root_argument : SystemInfo → ValidationReport → ValidationReport
unfolding check_root_value
check_root_argument system = check_root_value system (value system.kernel_cmdline (text "root"))

pub mapper_name_of : SystemInfo → Text
mapper_name_of system =
    if is_empty system.root_mapper_name
    then filename (normalize_mount_source system.root_source)
    else system.root_mapper_name

cryptdevices_of : SystemInfo → List Text
cryptdevices_of system = values system.kernel_cmdline (text "cryptdevice")

rd_luks_names_of : SystemInfo → List Text
rd_luks_names_of system = values system.kernel_cmdline (text "rd.luks.name")

pub mapped_by_cryptdevice : FileSystem → SystemInfo → Bool
unfolding cryptdevices_of
mapped_by_cryptdevice filesystem system =
    any_of
      (maps_cryptdevice (mapper_name_of system) system.luks_uuid system.encrypted_backing_partuuid
        system.encrypted_backing_device filesystem)
      (cryptdevices_of system)

pub mapped_by_sd_encrypt : FileSystem → SystemInfo → Bool
unfolding rd_luks_names_of
mapped_by_sd_encrypt filesystem system =
    any_of
      (maps_sd_encrypt (mapper_name_of system) system.luks_uuid system.encrypted_backing_partuuid
        system.encrypted_backing_device filesystem)
      (rd_luks_names_of system)

check_encryption : FileSystem → SystemInfo → ValidationReport → ValidationReport
unfolding cryptdevices_of rd_luks_names_of
check_encryption filesystem system r =
    let code = text "kernel.encryption" in
    let none_given = is_empty (cryptdevices_of system) && is_empty (rd_luks_names_of system) in
    if not system.root_encrypted
    then warning_or_info (not none_given) code
        (text
          "Encryption parameters are present although the mounted root is not a dm-crypt mapping")
        (text "Root filesystem is not encrypted") r
    else if mapped_by_cryptdevice filesystem system
    then add_info r code (text "cryptdevice= maps the encrypted root as " ++ mapper_name_of system)
    else if mapped_by_sd_encrypt filesystem system
    then add_info r code (text "rd.luks.name= maps the encrypted root as " ++ mapper_name_of system)
    else if none_given
    then add_error r code (
        text "Kernel command line defines neither cryptdevice= nor rd.luks.name= for mapper "
        ++ mapper_name_of system)
    else add_error r code (
        text "Kernel encryption options do not map the encrypted root as " ++ mapper_name_of system)

-- rootflags.value_or("")
given : Option Text → Text
given none = []
given (some t) = t

pub is_rootflags : SystemInfo → Option Text → Bool
is_rootflags system none = false
is_rootflags system (some rootflags) = text_eq rootflags (text "subvol=" ++ system.root_subvolume)

check_rootflags_argument : SystemInfo → ValidationReport → ValidationReport
unfolding given
check_rootflags_argument system =
    let rootflags = value system.kernel_cmdline (text "rootflags") in
    error_or_info (not (is_rootflags system rootflags)) (text "kernel.rootflags")
      (text "Kernel rootflags ('"
        ++ (given rootflags ++ (text "') does not match subvol=" ++ system.root_subvolume)))
      (text "Kernel rootflags matches subvol=" ++ system.root_subvolume)

unfoldable pub check_arguments : FileSystem → SystemInfo → ValidationReport → ValidationReport
unfolding check_root_argument check_encryption check_rootflags_argument
check_arguments filesystem system r =
    check_rootflags_argument system
      (check_encryption filesystem system (check_root_argument system r))

unfoldable pub arguments_ready : FileSystem → SystemInfo → Bool
arguments_ready filesystem system =
    identifies_root system (value system.kernel_cmdline (text "root"))
    && (not system.root_encrypted
        || mapped_by_cryptdevice filesystem system
        || mapped_by_sd_encrypt filesystem system)
    && is_rootflags system (value system.kernel_cmdline (text "rootflags"))

is_empty-uuid : (u : Text) → is_empty (text "UUID=" ++ u) ≡ false
unfolding text
is_empty-uuid u = refl

valid-check_root_value :
    (system : SystemInfo) (root : Option Text) (r : ValidationReport)
    → valid (check_root_value system root r) ≡ (valid r && identifies_root system root)
unfolding check_root_value identifies_root uuid_root
valid-check_root_value system none r = valid-add_error r _ _ ∙ ground arith
valid-check_root_value system (some root) r =
    valid-error_or_info _ _ _ _ r ∙ ground (arith, is_empty-uuid system.root_uuid)

valid-check_encryption :
    (filesystem : FileSystem) (system : SystemInfo) (r : ValidationReport)
    → valid (check_encryption filesystem system r) ≡ (
        valid r
        && (not system.root_encrypted
            || mapped_by_cryptdevice filesystem system
            || mapped_by_sd_encrypt filesystem system))
unfolding check_encryption
valid-check_encryption filesystem system r =
    grind (arith, valid-add_error, valid-add_info, valid-warning_or_info)

pub valid-check_arguments :
    (filesystem : FileSystem) (system : SystemInfo) (r : ValidationReport)
    → valid (check_arguments filesystem system r) ≡ (valid r && arguments_ready filesystem system)
unfolding check_arguments arguments_ready check_root_argument check_rootflags_argument
valid-check_arguments filesystem system r =
    let rooted = check_root_argument system r in
    valid-error_or_info _ _ _ _ _
    ∙ ground (
      arith,
      valid-check_encryption filesystem system rooted,
      valid-check_root_value system (value system.kernel_cmdline (text "root")) r,
    )
