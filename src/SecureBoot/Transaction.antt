-- ===== src/SecureBoot/Transaction.antt =====
-- src/application/secure_boot_transaction.cpp. An error reporter that throws changes nothing, so it
-- is a list of what it was handed.
pub mod States
pub mod Undoing
pub mod Leaving
pub mod Closing
use limine_manager.Prelude.{
  Bool, true, false, not, ◌&&◌, ◌||◌, Option, none, some, List, [], ◌∷◌, ◌++◌, if◌then◌else◌,
  is_empty, Text, text, Result, ok, err, Error, runtime_error, logic_error,
}
use limine_manager.FilePath.{FilePath}
use limine_manager.Exec.{Exec, pure, throw, throw_if, modify, gets, ◌>>=◌, ◌>>◌}
use limine_manager.Rollback.Planner.{what}
use limine_manager.Posix.{Posix}
use limine_manager.Files.{Process, atomic_restore_file, remove_regular_file_secure}
use limine_manager.Apply.{ApplyResult}
use limine_manager.SecureBoot.EfiImage.{Efi, commit_image, rollback_image, close_image}

pub data SecureBootApplyFailurePoint : Type 0 where
  after_config_apply after_digest after_efi_update before_commit : SecureBootApplyFailurePoint

-- The members, and the thread-local `injected_failure` of secure_boot_apply_service.cpp.
pub record Transaction (World : Type 0) : Type 0 where
  pub efi : Efi World
  pub apply_result : Option ApplyResult
  pub config_rollback_pending : Bool
  pub efi_rollback_pending : Bool
  pub committed : Bool
  pub injected : Option SecureBootApplyFailurePoint

abbrev pub has_result : Option ApplyResult → Bool
has_result none = false
has_result (some r) = true

-- the error that a catch block writes to `errors`
abbrev pub message_of : Result (Unit {0}) → Text
message_of (ok a) = []
message_of (err e) = what e

-- if (!errors.empty()) errors += "; ";
abbrev pub add_message : Text → Text → Text
add_message errors message = if is_empty errors then message else errors ++ (text "; " ++ message)

abbrev pub joined : Text → Result (Unit {0}) → Text
joined errors (ok a) = errors
joined errors (err e) = add_message errors (what e)

module _ {World : Type 0} where
  abbrev pub in_efi : {A : Type 0} → Exec (Efi World) A → Exec (Transaction World) A
  in_efi m t = let (r, e) = m t.efi in (r, record t { efi = e })

  abbrev pub on_process : {A : Type 0} → Exec (Process World) A → Exec (Transaction World) A
  on_process m t =
      let (r, s) = m t.efi.process in (r, record t { efi = record t.efi { process = s } })

  -- a catch block that keeps the error
  abbrev pub keeping :
      Exec (Transaction World) (Unit {0}) → Exec (Transaction World) (Result (Unit {0}))
  keeping m t = let (r, after) = m t in (ok r, after)

  -- a transaction that has just been constructed
  abbrev pub started :
      Process World → List Text → Option SecureBootApplyFailurePoint → Transaction World
  started s reports injected = record {
    efi = record { process = s; active = true; reports = reports };
    apply_result = none;
    config_rollback_pending = false;
    efi_rollback_pending = true;
    committed = false;
    injected = injected;
  }

  unfoldable pub rollback_pending : Transaction World → Bool
  rollback_pending t = t.config_rollback_pending || t.efi_rollback_pending

  unfoldable pub record_apply : ApplyResult → Exec (Transaction World) (Unit {0})
  record_apply result t =
      (do
        throw_if (t.committed || not t.efi_rollback_pending)
            (logic_error (text "cannot record apply result on inactive Secure Boot transaction"))
        throw_if (has_result t.apply_result)
            (logic_error (text "apply result already recorded for Secure Boot transaction"))
        modify (λ u. record u {
          config_rollback_pending = result.changed;
          apply_result = some result;
        }))
        t

module _ (c : Posix) (image backup temporary config_temporary : FilePath) where
  open c use {World}

  -- what follows the two tests of `commit`
  unfoldable pub conclude_commit : Exec (Transaction World) (Unit {0})
  conclude_commit = do
    in_efi (commit_image c image backup temporary)
    modify (λ t. record t {
      efi_rollback_pending = false;
      config_rollback_pending = false;
      committed = true;
    })

  unfoldable pub commit : Exec (Transaction World) (Unit {0})
  unfolding conclude_commit
  commit t =
      if t.committed
      then (ok tt, t)
      else (do
        throw_if (not (rollback_pending t))
            (logic_error (text "cannot commit a rolled back Secure Boot transaction"))
        conclude_commit)
          t

  -- the file that `rollback_config` restores or removes
  pub undo_config : Option ApplyResult → Exec (Process World) (Unit {0})
  undo_config none = throw (logic_error (text "configuration rollback state is inconsistent"))
  undo_config (some r) =
      if not r.changed
      then throw (logic_error (text "configuration rollback state is inconsistent"))
      else if not (is_empty r.backup)
      then atomic_restore_file c r.backup r.target config_temporary (text "configuration backup")
          (text "configuration rollback target")
      else remove_regular_file_secure c r.target (text "newly created configuration")

  unfoldable pub rollback_config : Exec (Transaction World) (Unit {0})
  unfolding undo_config
  rollback_config t =
      if not t.config_rollback_pending
      then (ok tt, t)
      else (do
        on_process (undo_config t.apply_result)
        modify (λ u. record u { config_rollback_pending = false }))
          t

  -- the second try block of `rollback`
  unfoldable pub rollback_efi : Exec (Transaction World) (Unit {0})
  rollback_efi t =
      if not t.efi_rollback_pending
      then (ok tt, t)
      else (do
        in_efi (rollback_image c image backup temporary)
        modify (λ u. record u { efi_rollback_pending = false }))
          t

  -- `errors` after both try blocks
  unfoldable pub collect_errors : Exec (Transaction World) Text
  collect_errors = do
    config ← keeping rollback_config
    efi ← keeping rollback_efi
    pure (joined (message_of config) efi)

  unfoldable pub rollback : Exec (Transaction World) (Unit {0})
  rollback t =
      if t.committed || not (rollback_pending t)
      then (ok tt, t)
      else (do
        errors ← collect_errors
        throw_if (not (is_empty errors))
            (runtime_error (text "Secure Boot rollback failed: " ++ errors)))
          t

  report_destructor_error : Result (Unit {0}) → Transaction World → Transaction World
  report_destructor_error (ok a) t = t
  report_destructor_error (err x) t = record t {
    efi = record t.efi {
      reports =
          t.efi.reports
          ++ ((text "Secure Boot rollback failed during destruction: " ++ what x) ∷ []);
    };
  }

  -- the body of the destructor, then the destructor of `efi_transaction_`
  unfoldable pub destroy : Transaction World → Transaction World
  unfolding report_destructor_error
  destroy t =
      let last =
        if t.committed || not (rollback_pending t)
        then t
        else (let (r, u) = rollback t in report_destructor_error r u) in
      record last { efi = close_image c image backup temporary last.efi }
