-- ===== src/SecureBoot/EfiImage/Restored.antt =====
-- What `rollback` of the EFI image does to the image.
use limine_manager.Prelude.{
  ◌≡◌, refl, ◌∙◌, sym, ap, subst, ◌≢◌, ◌⊎◌, inl, inr, true, false, not, none, some, text, Result,
  ok, err, if◌then◌else◌,
}
use limine_manager.FilePath.{FilePath}
use limine_manager.Exec.{Exec, modify}
use limine_manager.Exec.Triples.{Post, Ended, Triple, Ruled, binding, weakening}
use limine_manager.Posix.{Posix, IsLawful, View, Node, put, stat_of}
use limine_manager.Files.{Process, unsafe_target, remove_regular_file_secure}
use limine_manager.Files.Steps.{In, At}
use limine_manager.Files.Copy.{copy_of, kept_metadata, put_same, put_elsewhere}
use limine_manager.Files.Restore.{Replaced, Atomic, renamed_target, atomic_restore_file-Triple}
use limine_manager.Files.Remove.{
  Removed, Removing, still_there, gone, remove_regular_file_secure-Triple,
}
use limine_manager.SecureBoot.EfiImage.{Efi, in_process, restore_image, rollback_image}

module _ (c : Posix) (lawful : IsLawful c) (image backup temporary : FilePath)
    (temporary_image : temporary ≢ image) (backup_image : backup ≢ image) (v : View) where
  open c use {World, node}

  -- the image is a copy of the backup
  pub record Back (u : View) : Type 0 where
    pub original : Node
    pub was_backup : v backup ≡ some original
    pub now : u image ≡ some (copy_of (kept_metadata c original.metadata) original.content)

  abbrev pub Restored : View → Type 0
  Restored u = Back u × (u backup ≡ none)

  -- the image is the one before, or a copy of the backup
  abbrev pub Whole : View → Type 0
  Whole u = (u image ≡ v image) ⊎ Back u

  abbrev pub OnFiles : (View → Type 0) → Efi World → Type 0
  OnFiles P e = P (node e.process.world)

  lifted :
      {A : Type 0} (P E : View → Type 0) (Q : View → Type 0) (m : Exec (Process World) A)
      → Triple (In (At c P)) (λ a. In (At c Q)) (In (At c E)) m
      → Ruled (OnFiles P) (λ a. OnFiles Q) (λ x. OnFiles E) (in_process m)
  lifted {A} P E Q m t = record {
    run = λ e h. pass (m e.process).0 (m e.process).1 e (t.run e.process (record { holds = h }));
  }
    where
      pass :
          (r : Result A) (s : Process World) (e : Efi World)
          → Post (λ a. In (At c Q)) (In (At c E)) (r, s)
          → Ended (λ a. OnFiles Q) (λ x. OnFiles E) (r, record e { process = s })
      pass (ok a) s e k = k.holds
      pass (err x) s e k = k.holds

  replaced_image :
      (u : View) → Replaced v backup image temporary (λ n. kept_metadata c n.metadata) u → Back u
  replaced_image u h =
      let whole = some (copy_of (kept_metadata c h.original.metadata) h.original.content) in
      record {
        original = h.original;
        was_backup = h.was_backup;
        now =
            ap (λ x. x image) h.now
            ∙ renamed_target (put v temporary whole) temporary image
            ∙ put_same v temporary whole;
      }

  unmoved_image : (u w : View) → w image ≡ u image → Back u → Back w
  unmoved_image u w same h = record {
    original = h.original;
    was_backup = h.was_backup;
    now = same ∙ h.now;
  }

  image_backup : image ≢ backup
  image_backup e = backup_image (sym e)

  removed_after :
      (u : View)
      → Back u
      → Ruled
          (OnFiles (λ w. w ≡ u))
          (λ a. OnFiles Restored)
          (λ x. OnFiles Whole)
          (in_process (remove_regular_file_secure c backup (text "EFI image backup")))
  removed_after u h =
      weakening _
        (lifted (λ w. w ≡ u) (Removing u backup) (Removed u backup) _
          (remove_regular_file_secure-Triple c lawful u backup (text "EFI image backup")))
        (λ a e k. (unmoved_image u _ (k.elsewhere image image_backup) h, k.absent))
        (λ x e k. inr (left u (node e.process.world) h k))
    where
      left : (u w : View) → Back u → Removing u backup w → Back w
      left u w h (still_there e) = unmoved_image u w (ap (λ y. y image) e) h
      left u w h (gone safe e) =
          unmoved_image u w (ap (λ y. y image) e ∙ put_elsewhere u backup image none image_backup) h

  restore_image-Restored :
      Ruled
        (OnFiles (λ w. w ≡ v))
        (λ a. OnFiles Restored)
        (λ x. OnFiles Whole)
        (restore_image c image backup temporary)
  unfolding restore_image
  restore_image-Restored =
      binding _ _
        (weakening _
          (lifted (λ w. w ≡ v) (Atomic v backup image temporary (λ n. kept_metadata c n.metadata))
            (λ u.
              Replaced v backup image temporary (λ n. kept_metadata c n.metadata) u
              × (unsafe_target (stat_of (v backup)) ≡ false)
              × (unsafe_target (stat_of (v image)) ≡ false))
            _
            (atomic_restore_file-Triple c lawful v backup image temporary temporary_image
              (text "EFI image backup") (text "EFI image rollback target")))
          (λ a e k. replaced_image (node e.process.world) k.0)
          (λ x e k. old_or_back (node e.process.world) k))
        λ _.
          binding (in_process (remove_regular_file_secure c backup (text "EFI image backup")))
            (λ _. modify (λ e. record e { active = false }))
            (record { run = λ e k. (removed_after (node e.process.world) k).run e refl })
            λ _. record { run = λ e k. k }
    where
      old_or_back :
          (u : View) → Atomic v backup image temporary (λ n. kept_metadata c n.metadata) u → Whole u
      old_or_back u h = elim h.old_or_new [
        | inl same ↦ inl same
        | inr new ↦ inr (record { original = new.0; was_backup = new.1; now = new.2 })
      ]

  -- A rollback of an active EFI transaction: when it returns, the image is a copy of the backup,
  -- with its owner and what chown(2) leaves of its mode, and the backup is gone. When it throws, the image is what it was before or
  -- already that copy, never a part of it. The temporary name and the backup's must not be the
  -- image's.
  pub rollback_image-Restored :
      (e : Efi World)
      → e.active ≡ true
      → node e.process.world ≡ v
      → Ended
          (λ a. OnFiles Restored)
          (λ x. OnFiles Whole)
          (rollback_image c image backup temporary e)
  unfolding rollback_image
  rollback_image-Restored e active same =
      subst
        (λ b.
          Ended (λ a. OnFiles Restored) (λ x. OnFiles Whole)
            (if not b then (ok tt, e) else restore_image c image backup temporary e))
        (sym active) (restore_image-Restored.run e same)
