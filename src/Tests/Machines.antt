-- ===== src/Tests/Machines.antt =====
-- A machine that is booted from a snapshot, for the examples.
use limine_manager.Prelude.{true, false, [], ◌∷◌, text, ok}
use limine_manager.Domain.KernelCmdline.{KernelCommandLine}
use limine_manager.Model.{
  SystemInfo, SecureBootInfo, verified, SnapperConfig, SnapshotInfo, KernelInstallation,
  default_config,
}
use limine_manager.Rollback.Planner.{Inputs}

abbrev pub command_line : KernelCommandLine
command_line = record {
  arguments = text "root=/dev/sda2" ∷ text "rootflags=subvol=@" ∷ text "quiet" ∷ [];
}

abbrev pub secure_boot : SecureBootInfo
secure_boot = record {
  enabled = false;
  setup_mode = false;
  sbctl_available = true;
  limine_available = true;
  sbattach_available = true;
  efi_signature = verified;
  efi_signature_detail = [];
  efi_executable = [];
  resource_hashes = [];
}

abbrev pub kernel : KernelInstallation
kernel = record {
  package_base = text "linux";
  release = text "6.1";
  display_name = text "Linux";
  image = text "/boot/vmlinuz-linux";
  initrds = text "/boot/initramfs-linux.img" ∷ [];
  unified_kernel_image = false;
  running = true;
}

abbrev pub system : SystemInfo
system = record {
  os_name = text "Arch Linux";
  running_kernel_release = text "6.1";
  boot_mount = text "/boot";
  boot_target = text "/boot";
  boot_source = text "/dev/sda1";
  boot_fstype = text "vfat";
  limine_config = text "/boot/limine.conf";
  kernel_cmdline_file = text "/etc/kernel/cmdline";
  kernel_cmdline_text = text "root=/dev/sda2 rootflags=subvol=@ quiet";
  kernel_cmdline = command_line;
  kernels = kernel ∷ [];
  root_source = text "/dev/sda2";
  root_fstype = text "btrfs";
  root_subvolume = text "@snapshots/7/snapshot";
  root_uuid = [];
  root_encrypted = false;
  root_mapper_name = [];
  encrypted_backing_device = [];
  encrypted_backing_partuuid = [];
  luks_uuid = [];
  kernel_cmdline_generated = false;
  secure_boot = secure_boot;
}

abbrev pub snapper : SnapperConfig
snapper = record { name = text "root"; subvolume = text "/"; filesystem_type = text "btrfs" }

abbrev pub snapshot : SnapshotInfo
snapshot = record { number = 7; date = []; description = []; read_only = true }

abbrev pub inputs : Inputs
inputs = record {
  system = system;
  snapper_config = snapper;
  snapshots = snapshot ∷ [];
  config = default_config;
  transaction_id = text "1";
  subvolumes = ok (
      record { id = 256; path = text "@" }
      ∷ record { id = 257; path = text "@snapshots/7/snapshot" }
      ∷ []);
}
