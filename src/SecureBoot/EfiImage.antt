-- ===== src/SecureBoot/EfiImage.antt =====
-- src/infrastructure/efi_image_transaction.cpp. The name of the backup and the temporary name of
-- `atomic_restore_file` are arguments.
pub mod Flags
pub mod Restored
use limine_manager.Prelude.{
  Bool, true, false, not, Option, none, some, List, [], ◌∷◌, ◌++◌, if◌then◌else◌, ℕ, Text, text,
  Result, ok, err, Error, runtime_error,
}
use limine_manager.Decimal.{to_string}
use limine_manager.FilePath.{FilePath, join, filename, parent_path}
use limine_manager.Exec.{Exec, pure, throw_if, modify, ◌>>=◌, ◌>>◌, on_error}
use limine_manager.Rollback.Planner.{what}
use limine_manager.Posix.{Posix, Metadata}
use limine_manager.Files.{
  Process, call, copy_file_secure, fsync_directory, remove_quietly, lstat_existing, is_unsafe,
  atomic_restore_file, remove_regular_file_secure,
}

-- the process, `active_`, and what was handed to the error reporter
pub record Efi (World : Type 0) : Type 0 where
  pub process : Process World
  pub active : Bool
  pub reports : List Text

unfoldable pub backup_name : FilePath → FilePath → ℕ → ℕ → FilePath
backup_name image temporary_directory pid ticks = join temporary_directory (
    text "limine-manager-"
    ++ (filename image ++ (b'.' ∷ (to_string pid ++ (b'.' ∷ (to_string ticks ++ text ".bak"))))))

abbrev pub in_process {ℓ} :
    {World : Type 0} {A : Type ℓ} → Exec (Process World) A → Exec (Efi World) A
in_process m e = let (r, s) = m e.process in (r, record e { process = s })

module _ (c : Posix) (image backup temporary : FilePath) where
  open c use {World}

  unfoldable pub inspect_image : Exec (Process World) Metadata
  inspect_image = do
    metadata ← call (lstat_existing c (text "cannot inspect EFI image") image)
    throw_if (is_unsafe metadata) (runtime_error (text "unsafe EFI image: " ++ image))
    pure metadata

  -- the constructor
  unfoldable pub open_image : Exec (Process World) (Unit {0})
  open_image = do
    metadata ← inspect_image
    on_error (remove_quietly c backup) (do
      copy_file_secure c image backup metadata (text "EFI image") (text "EFI image backup")
      fsync_directory c (parent_path backup))

  -- what follows `if (!active_) return;` in `commit`
  unfoldable pub drop_backup : Exec (Efi World) (Unit {0})
  drop_backup = do
    in_process (remove_regular_file_secure c backup (text "EFI image backup"))
    modify (λ e. record e { active = false })

  unfoldable pub commit_image : Exec (Efi World) (Unit {0})
  unfolding drop_backup
  commit_image e = if not e.active then (ok tt, e) else drop_backup e

  -- what follows `if (!active_) return;` in `rollback`
  unfoldable pub restore_image : Exec (Efi World) (Unit {0})
  restore_image = do
    in_process (
        atomic_restore_file c backup image temporary (text "EFI image backup")
          (text "EFI image rollback target"))
    in_process (remove_regular_file_secure c backup (text "EFI image backup"))
    modify (λ e. record e { active = false })

  unfoldable pub rollback_image : Exec (Efi World) (Unit {0})
  unfolding restore_image
  rollback_image e = if not e.active then (ok tt, e) else restore_image e

  report_image_error : Result (Unit {0}) → Efi World → Efi World
  report_image_error (ok a) e = e
  report_image_error (err x) e = record e {
    reports = e.reports ++ ((text "EFI image rollback failed during destruction: " ++ what x) ∷ []);
  }

  -- the destructor
  unfoldable pub close_image : Efi World → Efi World
  unfolding report_image_error
  close_image e =
      if not e.active then e else (let (r, after) = rollback_image e in report_image_error r after)
