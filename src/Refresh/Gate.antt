-- ===== src/Refresh/Gate.antt =====
-- A refresh touches the machine only behind its three tests.
use limine_manager.Prelude.{
  ◌≡◌, refl, sym, ◌⊎◌, inl, inr, Bool, true, false, not, ◌&&◌, Option, List, Text, Result, ok, err,
}
use limine_manager.FilePath.{FilePath}
use limine_manager.FileSystem.{FileSystem}
use limine_manager.Exec.{Exec, pure}
use limine_manager.Exec.Triples.{Ended, branch}
use limine_manager.Model.{SystemInfo, SnapperConfig, SnapshotInfo, AppConfig}
use limine_manager.Domain.Validation.{valid}
use limine_manager.Validation.{validate}
use limine_manager.Changes.{ChangePlan, has_changes}
use limine_manager.Menu.Preview.{Relative}
use limine_manager.Posix.{Posix}
use limine_manager.Backups.{Entry, RemoveAnswer}
use limine_manager.SecureBoot.Tools.{ProcessResult}
use limine_manager.SecureBoot.Service.{Surroundings, Session}
use limine_manager.SecureBoot.Transaction.States.{asserted}
use limine_manager.Refresh.{
  RefreshResult, report_result, follow, planned, deferred, apply_and_prune, refresh_plan, refresh,
}

deferred_cases : (a b : Bool) → a && not b ≡ false → (a ≡ false) ⊎ (b ≡ true)
deferred_cases true true h = inr refl
deferred_cases true false h = inr (sym h)
deferred_cases false b h = inl refl

module _ (c : Posix) (run : List Text → Exec (Posix.World c) ProcessResult) (x : Surroundings)
    (look : Posix.World c → FileSystem) (relative : Relative)
    (entries : Posix.World c → FilePath → Result (Option (List Entry)))
    (remove : FilePath → Posix.World c → RemoveAnswer × Posix.World c) (system : SystemInfo)
    (snapper_config : SnapperConfig) (snapshots : List SnapshotInfo) (config : AppConfig) where
  open c use {World}

  -- the tests before anything is written
  pub record Allowed (s : Session World) : Type 0 where
    pub valid_machine :
        valid (validate (look s.process.world) system snapper_config snapshots config) ≡ true
    pub plan : ChangePlan
    pub of_menu : planned (look s.process.world) relative system snapshots config ≡ ok plan
    pub changes : has_changes plan ≡ true
    pub may_apply :
        (system.secure_boot.enabled ≡ false) ⊎ (config.secure_boot_automatic_apply ≡ true)

  pub data Touched (s t : Session World) : Type 0 where
    untouched : t ≡ s → Touched s t
    allowed : Allowed s → Touched s t

  abbrev Any : {A : Type 0} → Session World → Result A × Session World → Type 0
  Any s = Ended (λ r. Touched s) (λ e. Touched s)

  whatever :
      {A : Type 0} (s : Session World) (r : Result A) (t : Session World) → Allowed s → Any s (r, t)
  whatever s (ok a) t h = allowed h
  whatever s (err e) t h = allowed h

  behind_plan :
      (s : Session World) (report : RefreshResult) (r : Result ChangePlan)
      → valid (validate (look s.process.world) system snapper_config snapshots config) ≡ true
      → planned (look s.process.world) relative system snapshots config ≡ r
      → Any s (follow r (refresh_plan c run x look relative entries remove system config report) s)
  unfolding refresh_plan
  behind_plan s report (err e) h k = untouched refl
  behind_plan s report (ok plan) h k =
      let result = record report { planned_change = plan.kind } in
      let after =
        apply_and_prune c run x look relative entries remove plan system config result s in
      branch (λ m. Any s (m s)) (not (has_changes plan)) (pure result) _ (λ a. untouched refl)
        (λ a.
          branch (λ m. Any s (m s)) (deferred system config)
            (pure (record result { secure_boot_activation_required = true })) _
            (λ b. untouched refl)
            (λ b. whatever s after.0 after.1 (record {
              valid_machine = h;
              plan = plan;
              of_menu = k;
              changes = asserted (has_changes plan) a;
              may_apply =
                  deferred_cases system.secure_boot.enabled config.secure_boot_automatic_apply b;
            })))

  -- A refresh that returns or throws has changed nothing of the machine, unless the validation
  -- found no error, the rendered menu made a plan with changes, and Secure Boot is off or its
  -- automatic apply is on.
  pub refresh-Touched :
      (s : Session World)
      → Ended
          (λ r. Touched s)
          (λ e. Touched s)
          (refresh c run x look relative entries remove system snapper_config snapshots config s)
  unfolding refresh
  refresh-Touched s =
      let report = validate (look s.process.world) system snapper_config snapshots config in
      branch (λ m. Any s (m s)) (not (valid report)) (pure (report_result report)) _
        (λ a. untouched refl)
        (λ a.
          behind_plan s (report_result report)
            (planned (look s.process.world) relative system snapshots config)
            (asserted (valid report) a) refl)
