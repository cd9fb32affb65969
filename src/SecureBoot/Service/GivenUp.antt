-- ===== src/SecureBoot/Service/GivenUp.antt =====
-- A rollback of a protected apply that leaves nothing pending has removed the backup of the EFI
-- image.
use limine_manager.Prelude.{
  ◌≡◌, ap, Bool, true, false, not, ◌||◌, List, Text, text, Result, ok, err, runtime_error, is_empty,
  ◌++◌,
}
use limine_manager.FilePath.{FilePath}
use limine_manager.Exec.{Exec, throw_if, modify, ◌>>=◌}
use limine_manager.Exec.Triples.{Ended, branch}
use limine_manager.Posix.{Posix, IsLawful}
use limine_manager.Files.{Process, atomic_restore_file}
use limine_manager.SecureBoot.Tools.{ProcessResult}
use limine_manager.SecureBoot.EfiImage.{Efi, in_process, drop_backup, restore_image, rollback_image}
use limine_manager.SecureBoot.Transaction.{
  Transaction, in_efi, on_process, rollback_pending, undo_config, rollback_config, rollback_efi,
  collect_errors, rollback,
}
use limine_manager.SecureBoot.Transaction.States.{false_true, or_false}
use limine_manager.SecureBoot.Service.{Surroundings}
use limine_manager.SecureBoot.Service.Released.{IsHeld, Absent, drop_backup-Absent}

module _ (c : Posix) (lawful : IsLawful c) (run : List Text → Exec (Posix.World c) ProcessResult)
    (x : Surroundings) (runtime_directory image : FilePath) where
  open c use {World}

  abbrev Lost : Efi World → Type 0
  Lost = Absent c lawful run x runtime_directory image

  abbrev pub LostAfter : Transaction World → Type 0
  LostAfter t = Absent c lawful run x runtime_directory image t.efi

  rollback_image-Lost :
      (e : Efi World)
      → e.active ≡ true
      → Ended (λ a. Lost) (λ z f. Unit {0}) (rollback_image c image x.backup x.temporary e)
  unfolding rollback_image restore_image drop_backup
  rollback_image-Lost e active =
      branch (Ended (λ a. Lost) (λ z f. Unit {0})) (not e.active) (ok tt, e)
        (restore_image c image x.backup x.temporary e) (λ k. false_true (ap not active) k)
        (λ k. restored (restoring e.process).0 (restoring e.process).1)
    where
      restoring : Exec (Process World) (Unit {0})
      restoring =
          atomic_restore_file c x.backup image x.temporary (text "EFI image backup")
            (text "EFI image rollback target")

      loosened :
          (r : Result (Unit {0})) (f : Efi World) (b : Bool)
          → Ended (λ a. Lost) (λ z g. g.active ≡ b) (r, f)
          → Ended (λ a. Lost) (λ z g. Unit {0}) (r, f)
      loosened (ok a) f b h = h
      loosened (err z) f b h = tt

      restored :
          (r : Result (Unit {0})) (s : Process World)
          → Ended
              (λ a. Lost)
              (λ z f. Unit {0})
              ((in_process (λ _. (r, s)) >>= λ _. drop_backup c image x.backup x.temporary) e)
      restored (err z) s = tt
      restored (ok a) s =
          let f : Efi World = record e { process = s } in
          let after = drop_backup c image x.backup x.temporary f in
          loosened after.0 after.1 f.active
            (drop_backup-Absent c lawful run x runtime_directory image f)

  -- the configuration's part keeps the image's flags
  rollback_config-IsHeld :
      (t : Transaction World)
      → IsHeld t
      → IsHeld (rollback_config c image x.backup x.temporary x.config_temporary t).1
  unfolding rollback_config
  rollback_config-IsHeld t h =
      branch (λ (m : Result (Unit {0}) × Transaction World). IsHeld m.1)
        (not t.config_rollback_pending) (ok tt, t) _ (λ k. h)
        (λ k. kept (undoing t.efi.process).0 (undoing t.efi.process).1)
    where
      undoing : Exec (Process World) (Unit {0})
      undoing = undo_config c image x.backup x.temporary x.config_temporary t.apply_result

      kept :
          (r : Result (Unit {0})) (s : Process World)
          → IsHeld
              ((on_process (λ _. (r, s)) >>= λ _.
                  modify (λ u. record u { config_rollback_pending = false }))
                t).1
      kept (ok a) s = record {
        active = h.active;
        image_pending = h.image_pending;
        open_still = h.open_still;
      }
      kept (err e) s = record {
        active = h.active;
        image_pending = h.image_pending;
        open_still = h.open_still;
      }

  rollback_efi-Lost :
      (t : Transaction World)
      → IsHeld t
      → Ended
          (λ a. LostAfter)
          (λ z u. u.efi_rollback_pending ≡ true)
          (rollback_efi c image x.backup x.temporary x.config_temporary t)
  unfolding rollback_efi
  rollback_efi-Lost t h =
      let undoing = rollback_image c image x.backup x.temporary t.efi in
      branch (Ended (λ a. LostAfter) (λ z u. u.efi_rollback_pending ≡ true))
        (not t.efi_rollback_pending) (ok tt, t) _ (λ k. false_true (ap not h.image_pending) k)
        (λ k. pass undoing.0 undoing.1 (rollback_image-Lost t.efi h.active))
    where
      pass :
          (r : Result (Unit {0})) (e : Efi World)
          → Ended (λ a. Lost) (λ z f. Unit {0}) (r, e)
          → Ended
              (λ a. LostAfter)
              (λ z u. u.efi_rollback_pending ≡ true)
              ((in_efi (λ _. (r, e)) >>= λ _.
                  modify (λ u. record u { efi_rollback_pending = false }))
                t)
      pass (ok a) e k = k
      pass (err z) e k = h.image_pending

  -- the file is gone where nothing is pending
  abbrev pub Unheld : Transaction World → Type 0
  Unheld u = rollback_pending u ≡ false → LostAfter u

  pending_image : (t : Transaction World) → t.efi_rollback_pending ≡ true → Unheld t
  unfolding rollback_pending
  pending_image t h k = false_true (or_false t.config_rollback_pending t.efi_rollback_pending k).1 h

  collect_errors-Unheld :
      (t : Transaction World)
      → IsHeld t
      → Unheld (collect_errors c image x.backup x.temporary x.config_temporary t).1
  unfolding collect_errors
  collect_errors-Unheld t h =
      let u = (rollback_config c image x.backup x.temporary x.config_temporary t).1 in
      let second = rollback_efi c image x.backup x.temporary x.config_temporary u in
      by_result second.0 second.1 (rollback_efi-Lost u (rollback_config-IsHeld t h))
    where
      by_result :
          (r : Result (Unit {0})) (v : Transaction World)
          → Ended (λ a. LostAfter) (λ z w. w.efi_rollback_pending ≡ true) (r, v)
          → Unheld v
      by_result (ok a) v k = λ e. k
      by_result (err z) v k = pending_image v k

  pub rollback-Unheld :
      (t : Transaction World)
      → IsHeld t
      → Unheld (rollback c image x.backup x.temporary x.config_temporary t).1
  unfolding rollback
  rollback-Unheld t h =
      branch (λ (m : Result (Unit {0}) × Transaction World). Unheld m.1)
        (t.committed || not (rollback_pending t)) (ok tt, t) _
        (λ k. pending_image t h.image_pending)
        (λ k.
          let after = collect_errors c image x.backup x.temporary x.config_temporary t in
          concluded after.0 after.1 (collect_errors-Unheld t h))
    where
      concluded :
          (r : Result Text) (u : Transaction World)
          → Unheld u
          → Unheld
              (((λ _. (r, u)) >>= λ errors.
                  throw_if
                    (not (is_empty errors))
                    (runtime_error (text "Secure Boot rollback failed: " ++ errors)))
                t).1
      concluded (err e) u k = k
      concluded (ok errors) u k = tested (not (is_empty errors))
        where
          tested :
              (b : Bool)
              → Unheld
                  (throw_if b (runtime_error (text "Secure Boot rollback failed: " ++ errors)) u).1
          tested true = k
          tested false = k
