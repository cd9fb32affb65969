-- ===== src/SecureBoot/Service.antt =====
-- src/application/secure_boot_apply_service.cpp. The runtime directory, the ids, the temporary names
-- and the names of the EFI backup are arguments.
pub mod Released
pub mod GivenUp
pub mod Outcomes
use limine_manager.Prelude.{
  ℕ, Bool, true, false, not, ◌||◌, Option, none, some, List, [], ◌++◌, ◌==◌, if◌then◌else◌,
  is_empty, Text, text, Result, ok, err, Error, runtime_error,
}
use limine_manager.FilePath.{FilePath}
use limine_manager.Exec.{Exec, pure, throw, throw_if, modify, ◌>>=◌, ◌>>◌, catch_all}
use limine_manager.Rollback.Planner.{what}
use limine_manager.Model.{SystemInfo, SecureBootInfo, AppConfig}
use limine_manager.Changes.{ChangePlan, has_changes}
use limine_manager.Posix.{Posix}
use limine_manager.Files.{Process, call}
use limine_manager.Apply.{ApplyResult, Ids, Names, apply}
use limine_manager.SecureBoot.Tools.{ProcessResult, digest, update_limine_image}
use limine_manager.SecureBoot.EfiImage.{Efi, open_image}
use limine_manager.SecureBoot.Transaction.{
  SecureBootApplyFailurePoint, after_config_apply, after_digest, after_efi_update, before_commit,
  Transaction, started, on_process, record_apply, commit, rollback, destroy,
}

-- a number for each point, for `==`
abbrev number_of : SecureBootApplyFailurePoint → ℕ
number_of after_config_apply = 0
number_of after_digest = 1
number_of after_efi_update = 2
number_of before_commit = 3

abbrev fails_at : Option SecureBootApplyFailurePoint → SecureBootApplyFailurePoint → Bool
fails_at none point = false
fails_at (some q) point = number_of q == number_of point

module _ {World : Type 0} where
  pub maybe_fail : SecureBootApplyFailurePoint → Exec (Transaction World) (Unit {0})
  maybe_fail point t =
      if fails_at t.injected point
      then (
        err (runtime_error (text "injected Secure Boot apply failure")),
        record t { injected = none },
      )
      else (ok tt, t)

-- the paths and names that the service is given
pub record Surroundings : Type 0 where
  pub ids : Ids
  pub names : Names
  pub backup : FilePath
  pub temporary : FilePath
  pub config_temporary : FilePath

module _ (c : Posix) (run : List Text → Exec (Posix.World c) ProcessResult) (x : Surroundings)
    (runtime_directory image : FilePath) where
  open c use {World}

  -- the try block
  unfoldable pub protected_apply : ChangePlan → Exec (Transaction World) ApplyResult
  protected_apply plan = do
    result ← on_process (apply c runtime_directory x.ids x.names plan)
    record_apply result
    maybe_fail after_config_apply
    value ← on_process (call (digest run plan.target))
    maybe_fail after_digest
    on_process (call (update_limine_image run image value))
    maybe_fail after_efi_update
    maybe_fail before_commit
    commit c image x.backup x.temporary x.config_temporary
    pure result

  -- the catch block
  unfoldable pub undo_apply : Error → Exec (Transaction World) ApplyResult
  undo_apply original_error = do
    catch_all (rollback c image x.backup x.temporary x.config_temporary) (λ rollback_error. throw (
        runtime_error (
          what original_error
          ++ (text "; automatic rollback also failed: " ++ what rollback_error))))
    throw original_error

  unfoldable pub run_transaction : ChangePlan → Exec (Transaction World) ApplyResult
  run_transaction plan = catch_all (protected_apply plan) undo_apply

  -- the constructor, the two blocks and the destructor of the transaction
  transact : ChangePlan → Exec (Transaction World) ApplyResult
  transact plan t =
      let (r, after) = run_transaction plan t in
      (r, destroy c image x.backup x.temporary x.config_temporary after)

-- the process, what was handed to the error reporter, and the thread-local `injected_failure`
pub record Session (World : Type 0) : Type 0 where
  pub process : Process World
  pub reports : List Text
  pub injected : Option SecureBootApplyFailurePoint

module _ (c : Posix) (run : List Text → Exec (Posix.World c) ProcessResult) (x : Surroundings) where
  open c use {World}

  in_session : {A : Type 0} → Exec (Process World) A → Exec (Session World) A
  in_session m s = let (r, p) = m s.process in (r, record s { process = p })

  protect : ChangePlan → FilePath → FilePath → Exec (Session World) ApplyResult
  protect plan runtime_directory image = do
    in_session (open_image c image x.backup x.temporary)
    λ s.
        let (r, t) =
          transact c run x runtime_directory image plan (started s.process s.reports s.injected) in
        (r, record { process = t.efi.process; reports = t.efi.reports; injected = t.injected })

  unfoldable pub apply_protected :
      ChangePlan → SystemInfo → AppConfig → Exec (Session World) ApplyResult
  unfolding in_session protect transact
  apply_protected plan system config =
      if not (has_changes plan)
      then pure (record { changed = false; target = plan.target; backup = [] })
      else if not system.secure_boot.enabled || not config.secure_boot_protect_config
      then in_session (apply c config.automation_runtime_directory x.ids x.names plan)
      else if is_empty system.secure_boot.efi_executable
      then throw (
          runtime_error
            (text "Secure Boot is enabled but the active Limine EFI executable is unknown"))
      else protect plan config.automation_runtime_directory system.secure_boot.efi_executable
