-- ===== src/Apply.antt =====
-- src/application/apply_service.cpp. The names that `unique_sibling_path` makes and the ids of the
-- process are arguments. The destructor of `UniqueFd` closes a descriptor, which changes no file.
pub mod Lock
pub mod Checks
pub mod Staging
pub mod Rollback
pub mod Recovery
pub mod Replacing
pub mod Atomicity
use limine_manager.Prelude.{
  ℕ, Bool, true, false, not, ◌&&◌, ◌||◌, Option, none, some, [], ◌∷◌, ◌++◌, ◌==◌, if◌then◌else◌,
  is_empty, Text, text, text_eq, Result, ok, err, Error, runtime_error,
}
use limine_manager.Decimal.{to_string}
use limine_manager.FilePath.{FilePath, join, filename, parent_path}
use limine_manager.Exec.{
  Exec, pure, throw, throw_if, modify, ◌>>=◌, ◌>>◌, on_error, catch_all, ignoring,
}
use limine_manager.Changes.{
  ChangeKind, unchanged, create, update, ChangePlan, has_changes, normalize_newline,
}
use limine_manager.Posix.{Posix, FileKind, regular, symbolic_link, directory_file, other, Metadata}
use limine_manager.Files.{
  Process, permissions, throw_errno, call, write_all, read_all, fsync_directory, remove_quietly,
  copy_file_secure, lstat_existing,
}

pub record ApplyResult : Type 0 where
  pub changed : Bool
  pub target : FilePath
  pub backup : FilePath

-- ::geteuid, ::getegid
pub record Ids : Type 0 where
  pub user : ℕ
  pub group : ℕ

-- the names from `unique_sibling_path`
pub record Names : Type 0 where
  pub temporary : FilePath
  pub backup_candidate : FilePath
  pub rollback : FilePath

-- `runtime` is getenv("XDG_RUNTIME_DIR"), `temporary` is temp_directory_path()
unfoldable pub default_runtime_directory : ℕ → Option Text → FilePath → FilePath
default_runtime_directory user runtime temporary =
    if user == 0 then text "/run/limine-manager" else from runtime
  where
    fallback : FilePath
    fallback = join temporary (text "limine-manager-" ++ to_string user)

    from : Option Text → FilePath
    from none = fallback
    from (some value) = if is_empty value then fallback else join value (text "limine-manager")

abbrev pub is_directory : FileKind → Bool
is_directory regular = false
is_directory symbolic_link = false
is_directory directory_file = true
is_directory other = false

abbrev pub is_present : Option Metadata → Bool
is_present none = false
is_present (some metadata) = true

abbrev pub is_create : ChangeKind → Bool
is_create unchanged = false
is_create create = true
is_create update = false

abbrev pub is_update : ChangeKind → Bool
is_update unchanged = false
is_update create = false
is_update update = true

abbrev pub lock_path : FilePath → FilePath
lock_path runtime_directory = join runtime_directory (text "apply.lock")

abbrev pub directory_of : FilePath → FilePath
directory_of target = if is_empty (parent_path target) then text "." else parent_path target

-- `mode`, `uid` and `gid`
abbrev pub wanted : Ids → Option Metadata → Metadata
wanted ids none = record { kind = regular; mode = 420; uid = ids.user; gid = ids.group }
wanted ids (some metadata) = record metadata { kind = regular; mode = permissions metadata.mode }

abbrev pub refused : FilePath → FileKind → Option Error
refused target regular = none
refused target symbolic_link =
    some (runtime_error (text "refusing to replace symbolic link: " ++ target))
refused target directory_file =
    some (runtime_error (text "target is not a regular file: " ++ target))
refused target other = some (runtime_error (text "target is not a regular file: " ++ target))

abbrev pub same_owner : Metadata → Metadata → Bool
same_owner a b = (a.uid == b.uid) && (a.gid == b.gid)

module _ (c : Posix) where
  open c use {
    World, Input, Output, lstat, open_read, open_create, fstat, fchmod, fchown, fsync, rename,
    unlink, create_directories, open_lock, flock,
  }

  abbrev pub Step : Type 0 → Type 0
  Step A = Exec (Process World) A

  unfoldable pub take_lock : FilePath → Step (Unit {0})
  take_lock runtime_directory = do
    throw_if (is_empty runtime_directory)
        (runtime_error (text "apply runtime directory cannot be empty"))
    call (
        throw_errno (text "cannot create runtime directory") runtime_directory
          (create_directories runtime_directory))
    metadata ← call (lstat_existing c (text "cannot inspect runtime directory") runtime_directory)
    throw_if (not (is_directory metadata.kind))
        (runtime_error (text "unsafe apply runtime directory: " ++ runtime_directory))
    call (
        throw_errno (text "cannot open lock") (lock_path runtime_directory)
          (open_lock (lock_path runtime_directory)))
    locked ← call (
        throw_errno (text "cannot lock") (lock_path runtime_directory)
          (flock (lock_path runtime_directory)))
    throw_if (not locked) (runtime_error (text "another limine-manager apply operation is active"))

  throw_refused : Option Error → Step (Unit {0})
  throw_refused none = pure tt
  throw_refused (some e) = throw e

  refuse_target : FilePath → Option Metadata → Step (Unit {0})
  refuse_target target none = pure tt
  refuse_target target (some metadata) = throw_refused (refused target metadata.kind)

  -- the target is still what the plan was made for
  check_installed : ChangePlan → Option Metadata → Step (Unit {0})
  check_installed plan none = pure tt
  check_installed plan (some metadata) = do
    input ← call (throw_errno (text "cannot open target") plan.target (open_read plan.target))
    content ← call (read_all c input plan.target)
    throw_if (not (text_eq (normalize_newline content) plan.installed))
        (runtime_error (text "target changed after planning; refusing to overwrite"))

  unfoldable pub inspect_target : ChangePlan → Step (Option Metadata)
  unfolding throw_refused refuse_target check_installed
  inspect_target plan = do
    found ← call (throw_errno (text "cannot inspect target") plan.target (lstat plan.target))
    refuse_target plan.target found
    throw_if (is_create plan.kind && is_present found)
        (runtime_error (text "target appeared after planning; run plan again"))
    throw_if (is_update plan.kind && not (is_present found))
        (runtime_error (text "target disappeared after planning; run plan again"))
    check_installed plan found
    pure found

  -- the first part of the try block: it sets `backup`
  unfoldable pub make_backup : ChangePlan → Names → Option Metadata → Step FilePath
  make_backup plan names none = pure []
  make_backup plan names (some metadata) = do
    copy_file_secure c plan.target names.backup_candidate metadata (text "source") (text "backup")
    fsync_directory c (directory_of plan.target)
    pure names.backup_candidate

  set_owner : Output → Names → Metadata → Metadata → Step (Unit {0})
  set_owner output names metadata temporary_metadata =
      if same_owner temporary_metadata metadata
      then pure tt
      else call (
          throw_errno (text "cannot set ownership") names.temporary
            (fchown output metadata.uid metadata.gid))

  unfoldable pub write_temporary : ChangePlan → Names → Metadata → Step (Unit {0})
  unfolding set_owner
  write_temporary plan names metadata = do
    output ← call (
        throw_errno (text "cannot create temporary file") names.temporary
          (open_create names.temporary metadata.mode))
    call (write_all c output plan.generated names.temporary)
    call (throw_errno (text "cannot set mode") names.temporary (fchmod output metadata.mode))
    temporary_metadata ←
        call (throw_errno (text "cannot inspect temporary file") names.temporary (fstat output))
    set_owner output names metadata temporary_metadata
    call (throw_errno (text "cannot fsync") names.temporary (fsync output))

  verify_target : ChangePlan → Step (Unit {0})
  verify_target plan = do
    input ← call (throw_errno (text "cannot reopen target") plan.target (open_read plan.target))
    content ← call (read_all c input plan.target)
    throw_if (not (text_eq content plan.generated))
        (runtime_error (text "post-write verification failed for " ++ plan.target))

  -- the rest of the try block
  unfoldable pub replace_target : ChangePlan → Names → Metadata → FilePath → Step ApplyResult
  unfolding verify_target
  replace_target plan names metadata backup = do
    write_temporary plan names metadata
    call (
        throw_errno (text "cannot atomically replace target") plan.target
          (rename names.temporary plan.target))
    fsync_directory c (directory_of plan.target)
    verify_target plan
    pure (record { changed = true; target = plan.target; backup = backup })

  unfoldable pub restore_from_backup : FilePath → FilePath → FilePath → Metadata → Step (Unit {0})
  restore_from_backup backup target rollback metadata = on_error (remove_quietly c rollback) (do
    copy_file_secure c backup rollback metadata (text "backup") (text "rollback file")
    call (throw_errno (text "cannot restore backup") target (rename rollback target))
    fsync_directory c (parent_path target))

  -- what the catch block does before it throws the error on
  restore_target : ChangePlan → Names → Option Metadata → FilePath → Step (Unit {0})
  restore_target plan names none backup = do
    modify (remove_quietly c plan.target)
    modify (ignoring (fsync_directory c (directory_of plan.target)))
  restore_target plan names (some metadata) backup =
      if is_empty backup
      then pure tt
      else catch_all (restore_from_backup backup plan.target names.rollback metadata) (λ e. throw (
          runtime_error
            (text "apply failed and automatic rollback also failed; backup: " ++ backup)))

  unfoldable pub handle_failure :
      {A : Type 0} → ChangePlan → Names → Option Metadata → FilePath → Error → Step A
  unfolding restore_target
  handle_failure plan names found backup e = do
    modify (remove_quietly c names.temporary)
    restore_target plan names found backup
    throw e

  -- The try block and its catch block, which sees `backup` empty until `make_backup` returned.
  unfoldable pub replace_safely : ChangePlan → Names → Ids → Option Metadata → Step ApplyResult
  replace_safely plan names ids found = do
    backup ← catch_all (make_backup plan names found) (handle_failure plan names found [])
    catch_all (replace_target plan names (wanted ids found) backup)
        (handle_failure plan names found backup)

  unfoldable pub apply : FilePath → Ids → Names → ChangePlan → Step ApplyResult
  apply runtime_directory ids names plan =
      if not (has_changes plan)
      then pure (record { changed = false; target = plan.target; backup = [] })
      else (do
        throw_if (is_empty plan.target || is_empty (filename plan.target))
            (runtime_error (text "invalid empty target path"))
        take_lock runtime_directory
        found ← inspect_target plan
        replace_safely plan names ids found)
