-- ===== src/Tests/SecureBoot.antt =====
-- A Secure Boot transaction on the file tree of Tests/FileTree.antt.
use limine_manager.Prelude.{
  ◌≡◌, refl, ◌≢◌, true, false, none, List, [], Text, text, text_eq, ok, is_ok,
}
use limine_manager.FilePath.{FilePath, filename, parent_path, join}
use limine_manager.Exec.{Exec}
use limine_manager.Exec.Triples.{Ended}
use limine_manager.Files.{fail_if_injected, remove_regular_file_secure, fsync_directory}
use limine_manager.Apply.{ApplyResult}
use limine_manager.SecureBoot.Tools.{ProcessResult}
use limine_manager.SecureBoot.EfiImage.{Efi, commit_image, rollback_image}
use limine_manager.SecureBoot.EfiImage.Restored.{OnFiles, Restored, Whole, rollback_image-Restored}
use limine_manager.SecureBoot.Transaction.{
  Transaction, started, rollback_pending, record_apply, commit, rollback, destroy,
}
use limine_manager.SecureBoot.Transaction.States.{IsConsistent}
use limine_manager.SecureBoot.Transaction.Leaving.{LeftToDo, rollback-LeftToDo}
use limine_manager.SecureBoot.Transaction.Closing.{
  begun, recorded, concluded, rolled_back, Reached-IsConsistent, rollback-destroy_idle,
}
use limine_manager.SecureBoot.Service.{Surroundings}
use limine_manager.Tests.FileTree.{Tree, tree, tree-IsLawful}
use limine_manager.Tests.Files.{ne_of, apart, files, machine, target, backup, temporary, names, ids}

abbrev spare : FilePath
spare = text "/boot/limine.conf.spare"

abbrev applied : ApplyResult
applied = record { changed = true; target = target; backup = backup }

abbrev new_transaction : Transaction Tree
new_transaction = started machine [] none

-- a transaction after a committed apply
abbrev ended : Transaction Tree
ended = (commit tree target backup temporary spare (record_apply applied new_transaction).1).1

ended_idle : rollback_pending ended ≡ false
unfolding text text_eq rollback_pending record_apply commit commit_image fail_if_injected
    remove_regular_file_secure fsync_directory parent_path filename join
ended_idle = refl

rollback-LeftToDo_example :
    Ended
      (λ a u. IsConsistent u × (rollback_pending u ≡ false))
      (λ x u.
        IsConsistent u
        × LeftToDo tree target backup temporary spare (record_apply applied new_transaction).1 u)
      (rollback tree target backup temporary spare (record_apply applied new_transaction).1)
rollback-LeftToDo_example =
    rollback-LeftToDo tree target backup temporary spare (record_apply applied new_transaction).1 (
      Reached-IsConsistent tree target backup temporary spare
        (record_apply applied new_transaction).1
        (recorded applied new_transaction (begun machine [] none)))

Reached-IsConsistent_example :
    IsConsistent
      (rollback tree target backup temporary spare (record_apply applied new_transaction).1).1
Reached-IsConsistent_example =
    Reached-IsConsistent tree target backup temporary spare
      (rollback tree target backup temporary spare (record_apply applied new_transaction).1).1
      (rolled_back (record_apply applied new_transaction).1
        (recorded applied new_transaction (begun machine [] none)))

rollback-destroy_idle_example :
    (rollback tree target backup temporary spare ended ≡ (ok tt, ended))
    × (destroy tree target backup temporary spare ended ≡ ended)
    × (is_ok (record_apply applied ended).0 ≡ false)
rollback-destroy_idle_example =
    rollback-destroy_idle tree target backup temporary spare ended applied
      (concluded (record_apply applied new_transaction).1
        (recorded applied new_transaction (begun machine [] none)))
      ended_idle

abbrev pub quiet : List Text → Exec Tree ProcessResult
quiet arguments w = (ok (record { exit_code = 0; output = [] }), w)

abbrev pub surroundings : Surroundings
surroundings = record {
  ids = ids;
  names = names;
  backup = spare;
  temporary = temporary;
  config_temporary = temporary;
}

backup_target : backup ≢ target
unfolding text text_eq
backup_target = ne_of backup target refl

abbrev image_transaction : Efi Tree
image_transaction = record { process = machine; active = true; reports = [] }

rollback_image-Restored_example :
    Ended
      (λ a.
        OnFiles tree tree-IsLawful target backup temporary apart backup_target files
          (Restored tree tree-IsLawful target backup temporary apart backup_target files))
      (λ x.
        OnFiles tree tree-IsLawful target backup temporary apart backup_target files
          (Whole tree tree-IsLawful target backup temporary apart backup_target files))
      (rollback_image tree target backup temporary image_transaction)
rollback_image-Restored_example =
    rollback_image-Restored tree tree-IsLawful target backup temporary apart backup_target files
      image_transaction refl refl
