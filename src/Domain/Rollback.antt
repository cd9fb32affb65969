-- ===== src/Domain/Rollback.antt =====
-- src/domain/rollback.cpp and include/limine_manager/domain/rollback.hpp: the rollback plan.
use limine_manager.Prelude.{ℕ, Bool, Option, List, Text, text}

pub data RollbackBootMode : Type 0 where
  normal_root managed_snapshot unknown : RollbackBootMode

pub data RollbackSeverity : Type 0 where
  info warning error : RollbackSeverity

pub record RollbackDiagnostic : Type 0 where
  pub severity : RollbackSeverity
  pub code : Text
  pub message : Text

pub record RollbackPlan : Type 0 where
  pub eligible : Bool
  pub boot_mode : RollbackBootMode
  pub btrfs_source : Text
  pub current_subvolume : Text
  pub target_subvolume : Text
  pub source_snapshot_subvolume : Text
  pub snapshot_number : Option ℕ
  pub source_snapshot_read_only : Bool
  pub preserved_subvolume : Text
  pub replacement_subvolume : Text
  pub operations : List Text
  pub diagnostics : List RollbackDiagnostic

pub boot_mode_to_string : RollbackBootMode → Text
boot_mode_to_string normal_root = text "normal-root"
boot_mode_to_string managed_snapshot = text "managed-snapshot"
boot_mode_to_string unknown = text "unknown"

pub severity_to_string : RollbackSeverity → Text
severity_to_string info = text "INFO"
severity_to_string warning = text "WARNING"
severity_to_string error = text "ERROR"
