-- ===== src/Refresh.antt =====
-- src/application/refresh_service.cpp. `look` is the file system that the services read, `entries`
-- the directory of a target, `remove` std::filesystem::remove.
pub mod Gate
use limine_manager.Prelude.{
  ℕ, Bool, true, false, not, ◌&&◌, Option, List, [], if◌then◌else◌, Text, Result, ok, err, Error,
  ◌>>=◌,
}
use limine_manager.FilePath.{FilePath}
use limine_manager.FileSystem.{FileSystem}
use limine_manager.Exec.{Exec, pure, continue}
use limine_manager.Model.{SystemInfo, SecureBootInfo, SnapperConfig, SnapshotInfo, AppConfig}
use limine_manager.Domain.Validation.{ValidationReport, valid, error_count, warning_count}
use limine_manager.Validation.{validate}
use limine_manager.Changes.{ChangeKind, unchanged, ChangePlan, has_changes, plan_change}
use limine_manager.Menu.Preview.{Relative, build_menu}
use limine_manager.Menu.Limine.{render_menu}
use limine_manager.Posix.{Posix}
use limine_manager.Apply.{ApplyResult}
use limine_manager.Backups.{Entry, RemoveAnswer, prune}
use limine_manager.SecureBoot.Tools.{ProcessResult}
use limine_manager.SecureBoot.Service.{Surroundings, Session, apply_protected}

pub record RefreshResult : Type 0 where
  pub validation_passed : Bool
  pub changed : Bool
  pub secure_boot_activation_required : Bool
  pub planned_change : ChangeKind
  pub error_count : ℕ
  pub warning_count : ℕ
  pub applied : ApplyResult
  pub pruned_backups : ℕ

-- what the three lines behind `validate` set
abbrev pub report_result : ValidationReport → RefreshResult
report_result report = record {
  validation_passed = valid report;
  changed = false;
  secure_boot_activation_required = false;
  planned_change = unchanged;
  error_count = error_count report;
  warning_count = warning_count report;
  applied = record { changed = false; target = []; backup = [] };
  pruned_backups = 0;
}

-- a call that changes nothing, and what follows it
abbrev pub follow {ℓ} : {S : Type ℓ} {A B : Type 0} → Result A → (A → Exec S B) → Exec S B
follow (ok a) next s = next a s
follow (err e) next s = (err e, s)

-- the menu as a plan
unfoldable pub planned :
    FileSystem → Relative → SystemInfo → List SnapshotInfo → AppConfig → Result ChangePlan
planned filesystem relative system snapshots config = do
  menu ← build_menu relative system snapshots config
  generated ← render_menu menu
  plan_change filesystem system.limine_config generated

-- Secure Boot waits for its own command
abbrev pub deferred : SystemInfo → AppConfig → Bool
deferred system config = system.secure_boot.enabled && not config.secure_boot_automatic_apply

module _ (c : Posix) (run : List Text → Exec (Posix.World c) ProcessResult) (x : Surroundings)
    (look : Posix.World c → FileSystem) (relative : Relative)
    (entries : Posix.World c → FilePath → Result (Option (List Entry)))
    (remove : FilePath → Posix.World c → RemoveAnswer × Posix.World c) where
  open c use {World}

  prune_backups : FilePath → ℕ → Exec (Session World) ℕ
  prune_backups target retain s =
      let w = s.process.world in
      let (r, w') = prune remove (entries w target) target retain w in
      (r, record s { process = record s.process { world = w' } })

  -- the last two services
  apply_and_prune :
      ChangePlan → SystemInfo → AppConfig → RefreshResult → Exec (Session World) RefreshResult
  unfolding prune_backups
  apply_and_prune plan system config result s =
      let (applying, t) = apply_protected c run x plan system config s in
      continue applying
        (λ applied u.
          let (pruning, v) = prune_backups plan.target config.backup_retention u in
          continue pruning
            (λ pruned. pure (record result {
              applied = applied;
              changed = applied.changed;
              pruned_backups = pruned;
            }))
            v)
        t

  -- what follows the plan
  refresh_plan :
      SystemInfo → AppConfig → RefreshResult → ChangePlan → Exec (Session World) RefreshResult
  refresh_plan system config report plan =
      let result = record report { planned_change = plan.kind } in
      if not (has_changes plan)
      then pure result
      else if deferred system config
      then pure (record result { secure_boot_activation_required = true })
      else apply_and_prune plan system config result

  unfoldable pub refresh :
      SystemInfo
      → SnapperConfig
      → List SnapshotInfo
      → AppConfig
      → Exec (Session World) RefreshResult
  unfolding refresh_plan apply_and_prune prune_backups
  refresh system snapper_config snapshots config s =
      let filesystem = look s.process.world in
      let report = validate filesystem system snapper_config snapshots config in
      (if not (valid report)
          then pure (report_result report)
          else follow (planned filesystem relative system snapshots config)
              (refresh_plan system config (report_result report)))
        s
