-- ===== src/Files.antt =====
-- src/infrastructure/secure_file_ops.cpp. The destructor of `UniqueFd` closes a descriptor, which
-- changes no file. `unique_sibling_path` reads the process id and a clock: both are its arguments.
pub mod Steps
pub mod Transfer
pub mod Copy
pub mod CopyFile
pub mod Restore
pub mod Remove
pub mod Ending
pub mod Messages
use limine_manager.Prelude.{
  ℕ, zero, suc, ◌+◌, ◌%◌, Bool, true, false, not, ◌&&◌, ◌||◌, Option, none, some, List, [], ◌∷◌,
  ◌++◌, ◌==◌, if◌then◌else◌, is_empty, length, drop, Text, text, Result, ok, err, Error,
  runtime_error, logic_error,
}
use limine_manager.Decimal.{to_string}
use limine_manager.FilePath.{FilePath, join, filename, parent_path}
use limine_manager.Exec.{
  Exec, pure, throw, throw_if, gets, modify, continue, ◌>>=◌, ◌>>◌, on_error, ignoring,
}
use limine_manager.Rollback.Planner.{what}
use limine_manager.Posix.{
  Posix, FileKind, regular, symbolic_link, directory_file, other, Metadata, ReadAnswer, end, bytes,
  read_interrupted, WriteAnswer, wrote, write_interrupted,
}

pub data SecureFileFailurePoint : Type 0 where
  after_temporary_create before_file_fsync before_rename after_rename before_directory_fsync
        before_unlink :
      SecureFileFailurePoint

-- a number for each point, for `==`
abbrev pub code_of : SecureFileFailurePoint → ℕ
code_of after_temporary_create = 0
code_of before_file_fsync = 1
code_of before_rename = 2
code_of after_rename = 3
code_of before_directory_fsync = 4
code_of before_unlink = 5

-- the world and the thread-local `injected_failure`
pub record Process (World : Type 0) : Type 0 where
  pub world : World
  pub injected : Option SecureFileFailurePoint

abbrev pub is_point : Option SecureFileFailurePoint → SecureFileFailurePoint → Bool
is_point none point = false
is_point (some q) point = code_of q == code_of point

unfoldable pub unique_sibling_path : FilePath → Text → ℕ → ℕ → FilePath
unique_sibling_path target suffix pid ticks =
    join (parent_path target)
      (filename target ++ (suffix ++ (b'.' ∷ (to_string pid ++ (b'.' ∷ to_string ticks)))))

-- metadata.st_mode & 07777
abbrev pub permissions : ℕ → ℕ
permissions mode = mode % 4096

abbrev pub is_regular : FileKind → Bool
is_regular regular = true
is_regular symbolic_link = false
is_regular directory_file = false
is_regular other = false

-- S_ISLNK(mode) || !S_ISREG(mode)
abbrev pub is_unsafe : Metadata → Bool
is_unsafe metadata = not (is_regular metadata.kind)

abbrev pub unsafe_target : Option Metadata → Bool
unsafe_target none = false
unsafe_target (some metadata) = is_unsafe metadata

-- ENOENT as an error
abbrev pub must_exist : Result (Option Metadata) → Result Metadata
must_exist (ok none) = err (runtime_error (text "No such file or directory"))
must_exist (ok (some m)) = ok m
must_exist (err e) = err e

module _ {World : Type 0} where
  -- throw_errno(operation, path) where the call failed
  abbrev pub throw_errno : {A : Type 0} → Text → FilePath → Exec World A → Exec World A
  throw_errno {A} operation path m w = let (r, w') = m w in (described r, w')
    where
      described : Result A → Result A
      described (ok a) = ok a
      described (err e) =
          err (runtime_error (operation ++ (text " '" ++ (path ++ (text "': " ++ what e)))))

  abbrev pub call : {A : Type 0} → Exec World A → Exec (Process World) A
  call m s = let (r, w) = m s.world in (r, record s { world = w })

  unfoldable pub fail_if_injected : SecureFileFailurePoint → Exec (Process World) (Unit {0})
  fail_if_injected point s =
      if is_point s.injected point
      then (err (runtime_error (text "injected secure file failure")), record s { injected = none })
      else (ok tt, s)

  pub inject_failure_once : SecureFileFailurePoint → Process World → Process World
  inject_failure_once point s = record s { injected = some point }

  pub clear_failure_injection : Process World → Process World
  clear_failure_injection s = record s { injected = none }

module _ (c : Posix) where
  open c use {
    World, Input, Output, remaining, interrupts, lstat, open_read, open_create, read, write, fchmod,
    fchown, fsync, open_directory, fsync_open_directory, rename, unlink,
  }

  -- The loop of `write_all`, on the bytes behind the offset. Where the fuel runs out, the loop of
  -- the source still runs, as it does for ever on a ::write that keeps returning 0. There the model
  -- throws, so that a theorem on throws holds of the files at that point too.
  unfoldable pub write_from : ℕ → Output → Text → FilePath → Exec World (Unit {0})
  write_from zero o data_left path w =
      if is_empty data_left then (ok tt, w) else (err (logic_error (text "write")), w)
  write_from (suc fuel) o data_left path w =
      if is_empty data_left
      then (ok tt, w)
      else (throw_errno (text "cannot write") path (write o data_left) >>= λ answer. elim answer [
        | wrote n ↦ write_from fuel o (drop n data_left) path
        | write_interrupted ↦ write_from fuel o data_left path
      ])
          w

  unfoldable pub write_all : Output → Text → FilePath → Exec World (Unit {0})
  write_all o bytes_given path w =
      write_from (length bytes_given + interrupts w) o bytes_given path w

  -- the loop of `read_all`
  unfoldable pub read_from : ℕ → Input → Text → FilePath → Exec World Text
  read_from zero i result path w = (err (logic_error (text "read")), w)
  read_from (suc fuel) i result path w =
      (throw_errno (text "cannot read") path (read i) >>= λ answer. elim answer [
        | end ↦ pure result
        | bytes t ↦ read_from fuel i (result ++ t) path
        | read_interrupted ↦ read_from fuel i result path
      ])
        w

  unfoldable pub read_all : Input → FilePath → Exec World Text
  read_all i path w = read_from (suc (length (remaining w i) + interrupts w)) i [] path w

  unfoldable pub fsync_directory : FilePath → Exec (Process World) (Unit {0})
  fsync_directory directory = do
    let path = if is_empty directory then text "." else directory
    call (throw_errno (text "cannot open directory") path (open_directory path))
    fail_if_injected before_directory_fsync
    call (throw_errno (text "cannot fsync directory") path (fsync_open_directory path))

  -- the try block of `copy_file_secure`
  unfoldable pub copy_content :
      Input → Output → FilePath → FilePath → Metadata → Exec (Process World) (Unit {0})
  copy_content input output source destination metadata = do
    fail_if_injected after_temporary_create
    content ← call (read_all input source)
    call (write_all output content destination)
    call (
        throw_errno (text "cannot preserve mode") destination
          (fchmod output (permissions metadata.mode)))
    call (
        throw_errno (text "cannot preserve ownership") destination
          (fchown output metadata.uid metadata.gid))
    fail_if_injected before_file_fsync
    call (throw_errno (text "cannot fsync") destination (fsync output))

  -- ::unlink(path), of which the result is not read
  abbrev pub remove_quietly : FilePath → Process World → Process World
  remove_quietly path = ignoring (call (unlink path))

  unfoldable pub copy_file_secure :
      FilePath → FilePath → Metadata → Text → Text → Exec (Process World) (Unit {0})
  copy_file_secure source destination metadata source_description destination_description = do
    input ← call (throw_errno (text "cannot open " ++ source_description) source (open_read source))
    output ← call (
        throw_errno (text "cannot create " ++ destination_description) destination
          (open_create destination (permissions metadata.mode)))
    on_error (remove_quietly destination) (copy_content input output source destination metadata)

  -- ::lstat(path) < 0 where the file must exist
  unfoldable pub lstat_existing : Text → FilePath → Exec World Metadata
  lstat_existing operation path =
      throw_errno operation path (λ w. let (r, w') = lstat path w in (must_exist r, w'))

  -- the try block of `atomic_restore_file`
  unfoldable pub replace_by_copy :
      FilePath → FilePath → FilePath → Metadata → Text → Exec (Process World) (Unit {0})
  replace_by_copy backup target temporary metadata backup_description = do
    copy_file_secure backup temporary metadata backup_description (text "rollback file")
    fail_if_injected before_rename
    call (throw_errno (text "cannot atomically restore") target (rename temporary target))
    fail_if_injected after_rename
    fsync_directory (parent_path target)

  unfoldable pub atomic_restore_file :
      FilePath → FilePath → FilePath → Text → Text → Exec (Process World) (Unit {0})
  atomic_restore_file backup target temporary backup_description target_description = do
    metadata ← call (lstat_existing (text "cannot inspect " ++ backup_description) backup)
    throw_if (is_unsafe metadata)
        (runtime_error (text "unsafe " ++ (backup_description ++ (text ": " ++ backup))))
    target_metadata ←
        call (throw_errno (text "cannot inspect " ++ target_description) target (lstat target))
    throw_if (unsafe_target target_metadata)
        (runtime_error (text "unsafe " ++ (target_description ++ (text ": " ++ target))))
    on_error (remove_quietly temporary)
        (replace_by_copy backup target temporary metadata backup_description)

  -- what follows `lstat`
  remove_found : FilePath → Text → Option Metadata → Exec (Process World) (Unit {0})
  remove_found target description none = pure tt
  remove_found target description (some metadata) = do
    throw_if (is_unsafe metadata)
        (runtime_error (text "unsafe " ++ (description ++ (text ": " ++ target))))
    fail_if_injected before_unlink
    call (throw_errno (text "cannot remove " ++ description) target (unlink target))
    fsync_directory (parent_path target)

  unfoldable pub remove_regular_file_secure : FilePath → Text → Exec (Process World) (Unit {0})
  unfolding remove_found
  remove_regular_file_secure target description = do
    found ← call (throw_errno (text "cannot inspect " ++ description) target (lstat target))
    remove_found target description found
