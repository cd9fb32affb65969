-- ===== src/Validation/Snapshots.antt =====
-- The checks of `validate` on Snapper's configuration and the snapshots it reports.
use limine_manager.Prelude.{
  ℕ, suc, ◌≡◌, ◌∙◌, Bool, true, not, ◌&&◌, List, [], ◌∷◌, ◌++◌, ◌==◌, if◌then◌else◌, is_empty,
  length, all_of, text, text_eq, arith,
}
use limine_manager.Decimal.{to_string}
use limine_manager.FilePath.{FilePath, join}
use limine_manager.FileSystem.{FileSystem}
use limine_manager.Model.{SnapperConfig, SnapshotInfo, AppConfig}
use limine_manager.Domain.Validation.{ValidationReport, add_info, valid, valid-add_info}
use limine_manager.Validation.Steps.{
  error_if, error_or_info, warning_if, valid-error_if, valid-error_or_info, valid-warning_if,
}

pub snapshot_path : AppConfig → SnapshotInfo → FilePath
snapshot_path config snapshot =
    join (join config.snapshots_directory (to_string snapshot.number)) (text "snapshot")

-- the locals of the loop over the snapshots
pub record Tally : Type 0 where
  pub report : ValidationReport
  pub missing : ℕ

check_path : FileSystem → AppConfig → SnapshotInfo → Tally → Tally
check_path filesystem config snapshot t =
    if not (filesystem.is_directory (snapshot_path config snapshot))
    then record {
      report =
          error_if true (text "snapshot.path")
            (text "Snapshot #"
              ++ (to_string snapshot.number
                  ++ (text " is not accessible at " ++ snapshot_path config snapshot)))
            t.report;
      missing = suc t.missing;
    }
    else t

check_read_only : SnapshotInfo → Tally → Tally
check_read_only snapshot t = record t {
  report =
      warning_if (not snapshot.read_only) (text "snapshot.read_only")
        (text "Snapshot #" ++ (to_string snapshot.number ++ text " is read-write")) t.report;
}

check_each_snapshot : FileSystem → AppConfig → List SnapshotInfo → Tally → Tally
unfolding check_path check_read_only
check_each_snapshot filesystem config [] t = t
check_each_snapshot filesystem config (snapshot ∷ rest) t =
    check_each_snapshot filesystem config rest
      (check_read_only snapshot (check_path filesystem config snapshot t))

-- what follows the loop
all_accessible : List SnapshotInfo → Tally → ValidationReport
all_accessible snapshots t =
    if not (is_empty snapshots) && t.missing == 0
    then add_info t.report (text "snapshot.paths")
        (text "All " ++ (to_string (length snapshots) ++ text " snapshot paths are accessible"))
    else t.report

check_subvolume : SnapperConfig → AppConfig → ValidationReport → ValidationReport
check_subvolume snapper_config config =
    error_or_info (not (text_eq snapper_config.subvolume (text "/"))) (text "snapper.subvolume")
      (text "Snapper config '"
        ++ (config.snapper_config
            ++ (text "' manages '" ++ (snapper_config.subvolume ++ text "', expected '/'"))))
      (text "Snapper config '" ++ (config.snapper_config ++ text "' manages /"))

unfoldable pub check_snapshots :
    FileSystem → SnapperConfig → List SnapshotInfo → AppConfig → ValidationReport → ValidationReport
unfolding check_subvolume all_accessible check_each_snapshot
check_snapshots filesystem snapper_config snapshots config r = all_accessible snapshots (
    check_each_snapshot filesystem config snapshots (record {
      report =
          warning_if (is_empty snapshots) (text "snapper.snapshots")
            (text "Snapper returned no bootable snapshots")
            (check_subvolume snapper_config config r);
      missing = 0;
    }))

pub is_accessible : FileSystem → AppConfig → SnapshotInfo → Bool
is_accessible filesystem config snapshot = filesystem.is_directory (snapshot_path config snapshot)

unfoldable pub snapshots_ready : FileSystem → SnapperConfig → List SnapshotInfo → AppConfig → Bool
snapshots_ready filesystem snapper_config snapshots config =
    text_eq snapper_config.subvolume (text "/")
    && all_of (is_accessible filesystem config) snapshots

valid-check_path :
    (filesystem : FileSystem) (config : AppConfig) (snapshot : SnapshotInfo) (t : Tally)
    → valid (check_path filesystem config snapshot t).report
      ≡ (valid t.report && is_accessible filesystem config snapshot)
unfolding check_path is_accessible
valid-check_path filesystem config snapshot t = grind (arith, valid-error_if)

valid-check_each_snapshot :
    (filesystem : FileSystem) (config : AppConfig) (snapshots : List SnapshotInfo) (t : Tally)
    → valid (check_each_snapshot filesystem config snapshots t).report
      ≡ (valid t.report && all_of (is_accessible filesystem config) snapshots)
unfolding check_each_snapshot
valid-check_each_snapshot filesystem config [] t = ground arith
valid-check_each_snapshot filesystem config (snapshot ∷ rest) t =
    let located = check_path filesystem config snapshot t in
    let noted : valid (check_read_only snapshot located).report ≡ valid located.report =
      unfold check_read_only in valid-warning_if _ _ _ _ in
    ground (
      arith,
      valid-check_each_snapshot filesystem config rest (check_read_only snapshot located),
      noted,
      valid-check_path filesystem config snapshot t,
    )

valid-all_accessible :
    (snapshots : List SnapshotInfo) (t : Tally)
    → valid (all_accessible snapshots t) ≡ valid t.report
unfolding all_accessible
valid-all_accessible snapshots t = grind (arith, valid-add_info)

pub valid-check_snapshots :
    (filesystem : FileSystem) (snapper_config : SnapperConfig) (snapshots : List SnapshotInfo)
    (config : AppConfig) (r : ValidationReport)
    → valid (check_snapshots filesystem snapper_config snapshots config r)
      ≡ (valid r && snapshots_ready filesystem snapper_config snapshots config)
unfolding check_snapshots snapshots_ready check_subvolume
valid-check_snapshots filesystem snapper_config snapshots config r =
    let managed = check_subvolume snapper_config config r in
    let known : valid managed
        ≡ (valid r && not (not (text_eq snapper_config.subvolume (text "/")))) =
      valid-error_or_info _ _ _ _ _ in
    valid-all_accessible snapshots _
    ∙ valid-check_each_snapshot filesystem config snapshots _
    ∙ ground (
      arith,
      known,
      valid-warning_if (is_empty snapshots) (text "snapper.snapshots")
          (text "Snapper returned no bootable snapshots") managed,
    )
