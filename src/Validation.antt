-- ===== src/Validation.antt =====
-- src/application/validation_service.cpp, one function for each step of `validate`.
mod Steps
pub mod Devices
pub mod SecureBoot
pub mod Machine
pub mod Kernels
pub mod Arguments
pub mod Snapshots
use limine_manager.Prelude.{◌≡◌, Bool, true, List, and_true}
use limine_manager.FileSystem.{FileSystem}
use limine_manager.Model.{SystemInfo, SnapperConfig, SnapshotInfo, AppConfig}
use limine_manager.Domain.Validation.{ValidationReport, empty_report}
use limine_manager.Validation.SecureBoot.{check_secure_boot, secure_boot_ready}
use limine_manager.Validation.Machine.{check_machine, machine_ready}
use limine_manager.Validation.Kernels.{check_kernels, kernels_ready}
use limine_manager.Validation.Arguments.{check_arguments, arguments_ready}
use limine_manager.Validation.Snapshots.{check_snapshots, snapshots_ready}

unfoldable pub validate :
    FileSystem → SystemInfo → SnapperConfig → List SnapshotInfo → AppConfig → ValidationReport
validate filesystem system snapper_config snapshots config =
    check_snapshots filesystem snapper_config snapshots config (
      check_arguments filesystem system (
        check_kernels filesystem system
          (check_machine filesystem system (check_secure_boot system config empty_report))))

-- What a machine must meet for its menu to be written.
pub record IsReady (filesystem : FileSystem) (system : SystemInfo) (snapper_config : SnapperConfig)
    (snapshots : List SnapshotInfo) (config : AppConfig) : Type 0 where
  pub secure_boot : secure_boot_ready system config ≡ true
  pub machine : machine_ready filesystem system ≡ true
  pub kernels : kernels_ready filesystem system ≡ true
  pub arguments : arguments_ready filesystem system ≡ true
  pub accessible : snapshots_ready filesystem snapper_config snapshots config ≡ true
