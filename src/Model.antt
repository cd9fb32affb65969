-- ===== src/Model.antt =====
-- The records that the components pass to one another: include/limine_manager/config/config.hpp,
-- infrastructure/{system_detector,kernel_discovery,snapper_client,btrfs_client}.hpp.
use limine_manager.Prelude.{ℕ, Bool, true, false, List, [], ◌∷◌, Text, text}
use limine_manager.FilePath.{FilePath}
use limine_manager.Domain.KernelCmdline.{KernelCommandLine}

pub record SnapperConfig : Type 0 where
  pub name : Text
  pub subvolume : Text
  pub filesystem_type : Text

pub record SnapshotInfo : Type 0 where
  pub number : ℕ
  pub date : Text
  pub description : Text
  pub read_only : Bool

pub record BtrfsSubvolume : Type 0 where
  pub id : ℕ
  pub path : Text

pub record KernelInstallation : Type 0 where
  pub package_base : Text
  pub release : Text
  pub display_name : Text
  pub image : FilePath
  pub initrds : List FilePath
  pub unified_kernel_image : Bool
  pub running : Bool

pub record SystemProfile : Type 0 where
  pub boot_mount : FilePath
  pub limine_config : FilePath
  pub kernel_cmdline_file : FilePath
  pub modules_root : FilePath
  pub cpuinfo : FilePath
  pub mkinitcpio_config : FilePath
  pub limine_efi_executable : FilePath

pub data SignatureVerificationState : Type 0 where
  verified unsigned_file unavailable : SignatureVerificationState

-- `resource_hashes` is the std::map in key order.
pub record SecureBootInfo : Type 0 where
  pub enabled : Bool
  pub setup_mode : Bool
  pub sbctl_available : Bool
  pub limine_available : Bool
  pub sbattach_available : Bool
  pub efi_signature : SignatureVerificationState
  pub efi_signature_detail : Text
  pub efi_executable : FilePath
  pub resource_hashes : List (FilePath × Text)

pub record SystemInfo : Type 0 where
  pub os_name : Text
  pub running_kernel_release : Text
  pub boot_mount : FilePath
  pub boot_target : Text
  pub boot_source : Text
  pub boot_fstype : Text
  pub limine_config : FilePath
  pub kernel_cmdline_file : FilePath
  pub kernel_cmdline_text : Text
  pub kernel_cmdline : KernelCommandLine
  pub kernels : List KernelInstallation
  pub root_source : Text
  pub root_fstype : Text
  pub root_subvolume : Text
  pub root_uuid : Text
  pub root_encrypted : Bool
  pub root_mapper_name : Text
  pub encrypted_backing_device : Text
  pub encrypted_backing_partuuid : Text
  pub luks_uuid : Text
  pub kernel_cmdline_generated : Bool
  pub secure_boot : SecureBootInfo

-- `limine_options` is the std::map in key order.
pub record AppConfig : Type 0 where
  pub schema_version : ℕ
  pub system : SystemProfile
  pub snapper_config : Text
  pub snapshots_subvolume : Text
  pub snapshots_directory : FilePath
  pub max_snapshots : ℕ
  pub include_read_write_snapshots : Bool
  pub backup_retention : ℕ
  pub root_menu_title : Text
  pub snapshots_menu_title : Text
  pub root_menu_expanded : Bool
  pub snapshots_menu_expanded : Bool
  pub include_kernels : List Text
  pub exclude_kernels : List Text
  pub kernel_order : List Text
  pub theme_name : Text
  pub automation_enabled : Bool
  pub automation_snapper : Bool
  pub automation_pacman : Bool
  pub automation_debounce_seconds : ℕ
  pub automation_runtime_directory : FilePath
  pub secure_boot_protect_config : Bool
  pub secure_boot_automatic_apply : Bool
  pub secure_boot_efi_executable : FilePath
  pub limine_options : List (Text × Text)

-- the member initialisers of `SystemProfile`
abbrev pub default_profile : SystemProfile
default_profile = record {
  boot_mount = text "/boot";
  limine_config = text "/boot/limine.conf";
  kernel_cmdline_file = text "/etc/kernel/cmdline";
  modules_root = text "/usr/lib/modules";
  cpuinfo = text "/proc/cpuinfo";
  mkinitcpio_config = text "/etc/mkinitcpio.conf";
  limine_efi_executable = [];
}

-- the member initialisers of `AppConfig`
abbrev pub default_config : AppConfig
default_config = record {
  schema_version = 1;
  system = default_profile;
  snapper_config = text "root";
  snapshots_subvolume = text "@snapshots";
  snapshots_directory = text "/.snapshots";
  max_snapshots = 0;
  include_read_write_snapshots = false;
  backup_retention = 5;
  root_menu_title = text "Arch Linux";
  snapshots_menu_title = text "Snapshots";
  root_menu_expanded = true;
  snapshots_menu_expanded = false;
  include_kernels = [];
  exclude_kernels = [];
  kernel_order = [];
  theme_name = text "none";
  automation_enabled = true;
  automation_snapper = true;
  automation_pacman = true;
  automation_debounce_seconds = 3;
  automation_runtime_directory = text "/run/limine-manager";
  secure_boot_protect_config = true;
  secure_boot_automatic_apply = false;
  secure_boot_efi_executable = [];
  limine_options = (text "remember_last_entry", text "yes") ∷ (text "timeout", text "5") ∷ [];
}
