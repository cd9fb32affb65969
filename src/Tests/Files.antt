-- ===== src/Tests/Files.antt =====
-- Secure file operations and an apply on a file tree in memory.
use limine_manager.Prelude.{
  ◌≡◌, refl, ◌≢◌, true, false, Option, none, some, [], if◌then◌else◌, Text, arith, text_eq_iff,
  text, text_eq,
}
use limine_manager.FilePath.{FilePath, filename, parent_path, join}
use limine_manager.Exec.Triples.{Triple, Ruled}
use limine_manager.Changes.{ChangePlan, update, has_changes, normalize_newline}
use limine_manager.Posix.{View, Node, Metadata, regular, directory_file, stat_of}
use limine_manager.Files.{
  Process, fail_if_injected, unsafe_target, write_all, read_all, write_from, read_from,
  copy_content, lstat_existing, fsync_directory, replace_by_copy, copy_file_secure,
  atomic_restore_file, remove_regular_file_secure,
}
use limine_manager.Files.Steps.{In, At}
use limine_manager.Files.Copy.{kept_metadata}
use limine_manager.Files.CopyFile.{Copied, Unharmed, copy_file_secure-Triple}
use limine_manager.Files.Restore.{Replaced, Atomic, atomic_restore_file-Triple}
use limine_manager.Files.Remove.{Removed, Removing, remove_regular_file_secure-Triple}
use limine_manager.Apply.{
  Names, Ids, apply, take_lock, inspect_target, replace_safely, make_backup, replace_target,
  write_temporary,
}
use limine_manager.Apply.Rollback.{Distinct}
use limine_manager.Apply.Atomicity.{Succeeded, Refused, apply-Ruled}
use limine_manager.Tests.FileTree.{Tree, tree, tree-IsLawful}

abbrev pub target : FilePath
target = text "/boot/limine.conf"

abbrev pub backup : FilePath
backup = text "/boot/limine.conf.bak"

abbrev pub temporary : FilePath
temporary = text "/boot/limine.conf.tmp"

abbrev pub candidate : FilePath
candidate = text "/boot/limine.conf.new.bak"

abbrev pub rollback_path : FilePath
rollback_path = text "/boot/limine.conf.rollback"

abbrev pub file : Text → Option Node
file content = some (record {
  metadata = record { kind = regular; mode = 420; uid = 7; gid = 8 };
  content = content;
})

abbrev pub folder : Option Node
folder = some (record {
  metadata = record { kind = directory_file; mode = 493; uid = 0; gid = 0 };
  content = [];
})

abbrev pub files : View
files p =
    if text_eq p target
    then file (text "old")
    else if text_eq p backup
    then file (text "the backup")
    else if text_eq p (text "/run")
    then folder
    else none

abbrev pub machine : Process Tree
machine = record { world = record { files = files; stream = []; signals = 2 }; injected = none }

pub ne_of : (a b : Text) → text_eq a b ≡ false → a ≢ b
ne_of a b h e = grind (arith, h, (text_eq_iff a b).1 e)

pub apart : temporary ≢ target
unfolding text text_eq
apart = ne_of temporary target refl

abbrev root_metadata : Metadata
root_metadata = record { kind = regular; mode = 384; uid = 0; gid = 0 }

abbrev pub plan : ChangePlan
plan = record { kind = update; target = target; installed = text "old\n"; generated = text "new\n" }

abbrev pub names : Names
names = record { temporary = temporary; backup_candidate = candidate; rollback = rollback_path }

abbrev pub ids : Ids
ids = record { user = 0; group = 0 }

distinct : Distinct plan names
unfolding text text_eq
distinct = record {
  temporary_target = ne_of temporary target refl;
  candidate_target = ne_of candidate target refl;
  candidate_temporary = ne_of candidate temporary refl;
  candidate_rollback = ne_of candidate rollback_path refl;
  rollback_target = ne_of rollback_path target refl;
  candidate_given = refl;
}

changed : has_changes plan ≡ true
unfolding has_changes
changed = refl

-- the content that a run leaves
abbrev content_after : Process Tree → FilePath → Option Text
content_after s p = content_of (s.world.files p)
  where
    content_of : Option Node → Option Text
    content_of none = none
    content_of (some n) = some n.content

restored_run :
    content_after
      (atomic_restore_file tree backup target temporary (text "b") (text "t") machine).1
      target
    ≡ some (text "the backup")
unfolding text text_eq fail_if_injected atomic_restore_file replace_by_copy copy_file_secure
    copy_content read_all read_from write_all write_from lstat_existing fsync_directory
restored_run = refl

copy_file_secure-Triple_example :
    Triple
      (In (At tree (λ u. u ≡ files)))
      (λ a. In (At tree (Copied files backup temporary (kept_metadata tree root_metadata))))
      (In (At tree (Unharmed files temporary)))
      (copy_file_secure tree backup temporary root_metadata (text "backup") (text "copy"))
copy_file_secure-Triple_example =
    copy_file_secure-Triple tree tree-IsLawful files backup temporary root_metadata (text "backup")
      (text "copy")

atomic_restore_file-Triple_example :
    Triple
      (In (At tree (λ u. u ≡ files)))
      (λ a. In (
        At tree (λ u.
          Replaced files backup target temporary (λ n. kept_metadata tree n.metadata) u
          × (unsafe_target (stat_of (files backup)) ≡ false)
          × (unsafe_target (stat_of (files target)) ≡ false))))
      (In (At tree (Atomic files backup target temporary (λ n. kept_metadata tree n.metadata))))
      (atomic_restore_file tree backup target temporary (text "backup") (text "target"))
atomic_restore_file-Triple_example =
    atomic_restore_file-Triple tree tree-IsLawful files backup target temporary apart
      (text "backup") (text "target")

remove_regular_file_secure-Triple_example :
    Triple
      (In (At tree (λ u. u ≡ files)))
      (λ a. In (At tree (Removed files backup)))
      (In (At tree (Removing files backup)))
      (remove_regular_file_secure tree backup (text "backup"))
remove_regular_file_secure-Triple_example =
    remove_regular_file_secure-Triple tree tree-IsLawful files backup (text "backup")

apply-Ruled_example :
    Ruled
      (In (At tree (λ u. u ≡ files)))
      (λ r.
        In (At tree (Succeeded tree tree-IsLawful plan names ids distinct files (text "/run") r)))
      (λ e. In (At tree (Refused tree tree-IsLawful plan names ids distinct files (text "/run") e)))
      (apply tree (text "/run") ids names plan)
apply-Ruled_example =
    apply-Ruled tree tree-IsLawful plan names ids distinct files (text "/run") changed

applied_run :
    content_after (apply tree (text "/run") ids names plan machine).1 target ≡ some (text "new\n")
unfolding text text_eq has_changes normalize_newline filename parent_path join fail_if_injected
    read_all read_from write_all write_from copy_file_secure copy_content lstat_existing
    fsync_directory apply take_lock inspect_target replace_safely make_backup replace_target
    write_temporary
applied_run = refl
