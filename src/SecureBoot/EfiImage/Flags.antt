-- ===== src/SecureBoot/EfiImage/Flags.antt =====
-- `commit` and `rollback` of the EFI image: they end the transaction or leave it as it was.
use limine_manager.Prelude.{
  ◌≡◌, refl, Bool, true, false, not, if◌then◌else◌, text, Result, ok, err, Error,
}
use limine_manager.FilePath.{FilePath}
use limine_manager.Exec.{Exec}
use limine_manager.Exec.Triples.{Ended, Ruled, binding, branch}
use limine_manager.Posix.{Posix}
use limine_manager.Files.{Process}
use limine_manager.Files.Messages.{
  Spoken, Speaks, remove_regular_file_secure-Speaks, atomic_restore_file-Speaks,
}
use limine_manager.SecureBoot.EfiImage.{
  Efi, in_process, drop_backup, restore_image, commit_image, rollback_image,
}

-- the flag, and what an error says
pub record Flag {World : Type 0} (b : Bool) (e : Efi World) : Type 0 where
  pub set : e.active ≡ b

abbrev pub Told : {World : Type 0} → Bool → Error → Efi World → Type 0
Told b x e = Flag b e × Spoken x

pub refuted : (b : Bool) → not b ≡ true → b ≡ false
refuted true h = cc
refuted false h = refl

module _ (c : Posix) (image backup temporary : FilePath) where
  open c use {World}

  in_process-Flag :
      {A : Type 0} (b : Bool) (m : Exec (Process World) A)
      → Speaks m
      → Ruled (Flag b) (λ a. Flag b) (Told b) (in_process m)
  in_process-Flag {A} b m spoken = record {
    run = λ e h. pass (m e.process).0 e (m e.process).1 h (spoken.run e.process tt);
  }
    where
      pass :
          (r : Result A) (e : Efi World) (s : Process World)
          → Flag b e
          → Ended (λ a t. Unit {0}) (λ x t. Spoken x) (r, s)
          → Ended (λ a. Flag b) (Told b) (r, record e { process = s })
      pass (ok a) e s h k = record { set = h.set }
      pass (err x) e s h k = (record { set = h.set }, k)

  abbrev Ends : Bool → Exec (Efi World) (Unit {0}) → Type 0
  Ends b m = Ruled (Flag b) (λ a. Flag false) (Told b) m

  drop_backup-Flag : (b : Bool) → Ends b (drop_backup c image backup temporary)
  unfolding drop_backup
  drop_backup-Flag b =
      binding _ _
        (in_process-Flag b _ (remove_regular_file_secure-Speaks c backup (text "EFI image backup")))
        (λ a. record { run = λ e h. record { set = refl } })

  restore_image-Flag : (b : Bool) → Ends b (restore_image c image backup temporary)
  unfolding restore_image
  restore_image-Flag b =
      binding _ _
        (in_process-Flag b _ (
          atomic_restore_file-Speaks c backup image temporary (text "EFI image backup")
            (text "EFI image rollback target")))
        (λ a.
          binding _ _
            (in_process-Flag b _
              (remove_regular_file_secure-Speaks c backup (text "EFI image backup")))
            (λ u. record { run = λ e h. record { set = refl } }))

  -- the test of `active_`
  guarded :
      (b : Bool) (m : Exec (Efi World) (Unit {0})) (e : Efi World)
      → Ends b m
      → Flag b e
      → Ended (λ a. Flag false) (Told b) (if not e.active then (ok tt, e) else m e)
  guarded b m e t h =
      branch (Ended (λ a. Flag false) (Told b)) (not e.active) (ok tt, e) (m e)
        (λ k. record { set = refuted e.active k }) (λ k. t.run e h)

  pub commit_image-Flag : (b : Bool) → Ends b (commit_image c image backup temporary)
  unfolding commit_image
  commit_image-Flag b = record {
    run = λ e h. guarded b (drop_backup c image backup temporary) e (drop_backup-Flag b) h;
  }

  pub rollback_image-Flag : (b : Bool) → Ends b (rollback_image c image backup temporary)
  unfolding rollback_image
  rollback_image-Flag b = record {
    run = λ e h. guarded b (restore_image c image backup temporary) e (restore_image-Flag b) h;
  }
