-- ===== src/SecureBoot/Service/Outcomes.antt =====
-- How the transaction of `SecureBootApplyService::apply` ends.
use limine_manager.Prelude.{◌≡◌, false, none, List, ◌++◌, Text, text, Error, runtime_error}
use limine_manager.FilePath.{FilePath}
use limine_manager.Exec.{Exec}
use limine_manager.Posix.{Posix}
use limine_manager.SecureBoot.Tools.{ProcessResult}
use limine_manager.SecureBoot.Transaction.{Transaction, rollback_pending}
use limine_manager.SecureBoot.Service.{Surroundings}

-- everything is rolled back and `Gone` holds, or the error says that the rollback failed, and with what
pub data Undone {World : Type 0} (Gone : Transaction World → Type 0) (e : Error)
    (t : Transaction World) : Type 0 where
  undone : rollback_pending t ≡ false → Gone t → Undone Gone e t
  admitted :
      (first second : Text)
      → e ≡ runtime_error (first ++ (text "; automatic rollback also failed: " ++ second))
      → Undone Gone e t

module _ (c : Posix) (run : List Text → Exec (Posix.World c) ProcessResult) (x : Surroundings)
    (runtime_directory image : FilePath) where
  open c use {World, node}

  abbrev pub Gone : Transaction World → Type 0
  Gone t = node t.efi.process.world x.backup ≡ none
