-- ===== src/SecureBoot/Service/Released.antt =====
-- A protected apply that returns has removed the backup of the EFI image.
use limine_manager.Prelude.{
  ◌≡◌, refl, ap, Bool, true, false, not, ◌||◌, none, some, List, Text, text, Result, ok, err, Error,
  ◌∙◌,
}
use limine_manager.FilePath.{FilePath}
use limine_manager.Exec.{Exec, throw_if, modify, ◌>>=◌, ◌>>◌}
use limine_manager.Exec.Triples.{Post, Ended, Ruled, binding, branch}
use limine_manager.Changes.{ChangePlan}
use limine_manager.Posix.{Posix, IsLawful}
use limine_manager.Files.{Process, call, remove_regular_file_secure}
use limine_manager.Files.Steps.{In, At}
use limine_manager.Files.Remove.{Removed, Removing, remove_regular_file_secure-Triple}
use limine_manager.Apply.{ApplyResult, apply}
use limine_manager.SecureBoot.Tools.{ProcessResult, digest, update_limine_image}
use limine_manager.SecureBoot.EfiImage.{Efi, in_process, drop_backup, commit_image}
use limine_manager.SecureBoot.Transaction.{
  SecureBootApplyFailurePoint, after_config_apply, after_digest, after_efi_update, before_commit,
  Transaction, has_result, in_efi, on_process, rollback_pending, record_apply, conclude_commit,
  commit,
}
use limine_manager.SecureBoot.Transaction.States.{false_true}
use limine_manager.SecureBoot.Service.{Surroundings, fails_at, maybe_fail, protected_apply}

-- the image's own transaction is active, its rollback is pending, and the whole is not committed
pub record IsHeld {World : Type 0} (t : Transaction World) : Type 0 where
  pub active : t.efi.active ≡ true
  pub image_pending : t.efi_rollback_pending ≡ true
  pub open_still : t.committed ≡ false

abbrev pub StillHeld : {World : Type 0} → Error → Transaction World → Type 0
StillHeld x u = IsHeld u

module _ {World : Type 0} where
  process_rule :
      {A : Type 0} (m : Exec (Process World) A)
      → Ruled IsHeld (λ a. IsHeld) StillHeld (on_process m)
  process_rule {A} m = record { run = λ t h. pass (m t.efi.process).0 (m t.efi.process).1 t h }
    where
      pass :
          (r : Result A) (s : Process World) (t : Transaction World)
          → IsHeld t
          → Ended (λ a. IsHeld) StillHeld (on_process (λ _. (r, s)) t)
      pass (ok a) s t h = record {
        active = h.active;
        image_pending = h.image_pending;
        open_still = h.open_still;
      }
      pass (err e) s t h = record {
        active = h.active;
        image_pending = h.image_pending;
        open_still = h.open_still;
      }

  failure_rule :
      (point : SecureBootApplyFailurePoint)
      → Ruled IsHeld (λ a. IsHeld) StillHeld (maybe_fail {World = World} point)
  unfolding maybe_fail
  failure_rule point = record {
    run = λ t h.
        branch (Ended (λ a. IsHeld) StillHeld) (fails_at t.injected point) _ (ok tt, t)
          (λ k. record {
            active = h.active;
            image_pending = h.image_pending;
            open_still = h.open_still;
          })
          (λ k. h);
  }

  recording_rule :
      (r : ApplyResult) → Ruled IsHeld (λ a. IsHeld) StillHeld (record_apply {World = World} r)
  unfolding record_apply
  recording_rule r = record {
    run = λ t h.
        two_tests (t.committed || not t.efi_rollback_pending) (has_result t.apply_result) _ _ t h;
  }
    where
      two_tests :
          (a b : Bool) (e f : Error) (t : Transaction World)
          → IsHeld t
          → Ended
              (λ a. IsHeld)
              StillHeld
              ((throw_if a e
                  >> (throw_if b f
                      >> modify (λ u. record u {
                        config_rollback_pending = r.changed;
                        apply_result = some r;
                      })))
                t)
      two_tests true b e f t h = h
      two_tests false true e f t h = h
      two_tests false false e f t h = record {
        active = h.active;
        image_pending = h.image_pending;
        open_still = h.open_still;
      }

module _ (c : Posix) (lawful : IsLawful c) (run : List Text → Exec (Posix.World c) ProcessResult)
    (x : Surroundings) (runtime_directory image : FilePath) where
  open c use {World, node}

  -- the file of the backup is gone
  abbrev pub Absent : Efi World → Type 0
  Absent e = node e.process.world x.backup ≡ none

  pub drop_backup-Absent :
      (e : Efi World)
      → Ended
          (λ a. Absent)
          (λ z f. f.active ≡ e.active)
          (drop_backup c image x.backup x.temporary e)
  unfolding drop_backup
  drop_backup-Absent e =
      let removing = remove_regular_file_secure c x.backup (text "EFI image backup") in
      pass (removing e.process).0 (removing e.process).1 (
        (remove_regular_file_secure-Triple c lawful (node e.process.world) x.backup
            (text "EFI image backup")).run
          e.process (record { holds = refl }))
    where
      pass :
          (r : Result (Unit {0})) (s : Process World)
          → Post
              (λ a. In (At c (Removed (node e.process.world) x.backup)))
              (In (At c (Removing (node e.process.world) x.backup)))
              (r, s)
          → Ended
              (λ a. Absent)
              (λ z f. f.active ≡ e.active)
              ((in_process (λ _. (r, s)) >>= λ _. modify (λ f. record f { active = false })) e)
      pass (ok a) s h = h.holds.absent
      pass (err z) s h = refl

  commit_image-Absent :
      (e : Efi World)
      → e.active ≡ true
      → Ended
          (λ a. Absent)
          (λ z f. f.active ≡ e.active)
          (commit_image c image x.backup x.temporary e)
  unfolding commit_image
  commit_image-Absent e active =
      branch (Ended (λ a. Absent) (λ z f. f.active ≡ e.active)) (not e.active) (ok tt, e)
        (drop_backup c image x.backup x.temporary e) (λ k. false_true (ap not active) k)
        (λ k. drop_backup-Absent e)

  abbrev pub AbsentAfter : Transaction World → Type 0
  AbsentAfter t = Absent t.efi

  conclude_commit-Absent :
      (t : Transaction World)
      → IsHeld t
      → Ended
          (λ a. AbsentAfter)
          StillHeld
          (conclude_commit c image x.backup x.temporary x.config_temporary t)
  unfolding conclude_commit
  conclude_commit-Absent t held =
      let committing = commit_image c image x.backup x.temporary t.efi in
      pass committing.0 committing.1 (commit_image-Absent t.efi held.active)
    where
      pass :
          (r : Result (Unit {0})) (e : Efi World)
          → Ended (λ a. Absent) (λ z f. f.active ≡ t.efi.active) (r, e)
          → Ended
              (λ a. AbsentAfter)
              StillHeld
              ((in_efi (λ _. (r, e)) >>= λ _. modify (λ t. record t {
                efi_rollback_pending = false;
                config_rollback_pending = false;
                committed = true;
              }))
                t)
      pass (ok a) e h = h
      pass (err z) e h = record {
        active = h ∙ held.active;
        image_pending = held.image_pending;
        open_still = held.open_still;
      }

  commit-Absent :
      Ruled IsHeld
        (λ a. AbsentAfter)
        StillHeld
        (commit c image x.backup x.temporary x.config_temporary)
  unfolding commit
  commit-Absent = record {
    run = λ t h.
        branch (Ended (λ a. AbsentAfter) StillHeld) t.committed (ok tt, t) _
          (λ k. false_true h.open_still k) (λ k. tested (not (rollback_pending t)) _ t h);
  }
    where
      tested :
          (b : Bool) (e : Error) (t : Transaction World)
          → IsHeld t
          → Ended
              (λ a. AbsentAfter)
              StillHeld
              ((throw_if b e >> conclude_commit c image x.backup x.temporary x.config_temporary) t)
      tested true e t h = h
      tested false e t h = conclude_commit-Absent t h

  pub protected_apply-Absent :
      (plan : ChangePlan)
      → Ruled IsHeld
          (λ r. AbsentAfter)
          StillHeld
          (protected_apply c run x runtime_directory image plan)
  unfolding protected_apply
  protected_apply-Absent plan =
      binding _ _ (process_rule (apply c runtime_directory x.ids x.names plan)) λ result.
        binding _ _ (recording_rule result) λ _. binding _ _ (failure_rule after_config_apply) λ _.
          binding _ _ (process_rule (call (digest run plan.target))) λ value.
            binding _ _ (failure_rule after_digest) λ _.
              binding _ _ (process_rule (call (update_limine_image run image value))) λ _.
                binding _ _ (failure_rule after_efi_update) λ _.
                  binding _ _ (failure_rule before_commit)
                    λ _. binding _ _ commit-Absent λ _. record { run = λ t h. h }
