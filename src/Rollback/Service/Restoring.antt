-- ===== src/Rollback/Service/Restoring.antt =====
-- When the catch block of `execute` puts the main root back, and when it cannot.
use limine_manager.Prelude.{ℕ, ◌≡◌, ◌≢◌, ◌∙◌, sym, ap, false, Option, none, ok, err, Error}
use limine_manager.FilePath.{FilePath}
use limine_manager.Exec.{ignoring}
use limine_manager.Domain.Rollback.{RollbackPlan}
use limine_manager.Rollback.Client.{BtrfsClient, IsLawful, inside, moved, outcome}
use limine_manager.Rollback.Service.{Paths, Run, try_move, undo, recover}
use limine_manager.Rollback.Service.Stages.{Stage, preserved, switched, view_at, Sees}
use limine_manager.Rollback.Service.Recovery.{IsDistinct, view_preserved_switched, ne_sym}
use limine_manager.Rollback.Service.Outcomes.{target_switched, elsewhere_switched}

-- The two renames by which the catch block puts the old root back are made, where there is
-- something to rename and its new name is free.
pub record MovesFree (c : BtrfsClient) (p : Paths) : Type 0 where
  pub away_ok :
      (w : c.World)
      → c.at w p.target ≢ none
      → c.at w p.failed ≡ none
      → (c.move_subvolume p.target p.failed w).0 ≡ ok tt
  pub back_ok :
      (w : c.World)
      → c.at w p.preserved ≢ none
      → c.at w p.target ≡ none
      → (c.move_subvolume p.preserved p.target w).0 ≡ ok tt

-- rename(2) onto a directory that is not empty fails.
pub record RefusesOccupied (c : BtrfsClient) : Type 0 where
  pub refusal : FilePath → FilePath → c.World → Error
  pub move_refused :
      (x y : FilePath) (w : c.World)
      → c.at w y ≢ none
      → (c.move_subvolume x y w).0 ≡ err (refusal x y w)

module _ (c : BtrfsClient) (lawful : IsLawful c) where
  open c use {World, at}

  at-refused :
      (x y q : FilePath) (w : World) {e : Error}
      → inside q x ≡ false
      → inside q y ≡ false
      → (c.move_subvolume x y w).0 ≡ err e
      → at (try_move c x y w) q ≡ at w q
  at-refused x y q w ox oy h =
      lawful.at-move x y q w ox oy ∙ ap (λ r. outcome (at w) (moved (at w) x y) r q) h

  at-close :
      (m q : FilePath) (w : World)
      → at (ignoring (c.unmount m) (ignoring (c.sync_filesystem m) w)) q ≡ at w q
  at-close m q w = lawful.at-unmount m q _ ∙ lawful.at-sync m q w

  module _ (plan : RollbackPlan) (p : Paths) (distinct : IsDistinct p)
      (v : FilePath → Option ℕ) where
    abbrev SeesAt : Stage → Run World → Type 0
    SeesAt g s = Sees c lawful plan p v g g s

    view_failed : view_at p v switched p.failed ≡ v p.failed
    view_failed =
        elsewhere_switched p distinct v p.failed (ne_sym distinct.target_failed)
          (ne_sym distinct.preserved_failed) (ne_sym distinct.replacement_failed)

    -- With the failed name taken, the replacement stays at the target.
    pub recover_blocked :
        RefusesOccupied c
        → v p.failed ≢ none
        → v p.source ≢ none
        → (s : Run World) → SeesAt switched s
        → (at (recover c p s).world p.target ≡ v p.source)
          × (at (recover c p s).world p.preserved ≡ v p.target)
    unfolding recover undo
    recover_blocked refuses taken source s h =
        let first =
          refuses.move_refused p.target p.failed s.world
            (λ z. taken (sym (h.view p.failed distinct.unnested.failed ∙ view_failed) ∙ z)) in
        let w1 = try_move c p.target p.failed s.world in
        let target1 : at w1 p.target ≡ v p.source =
          at-refused p.target p.failed p.target s.world distinct.unnested.target.of_target
            distinct.unnested.target.of_failed first
          ∙ h.view p.target distinct.unnested.target
          ∙ target_switched p distinct v in
        let second = refuses.move_refused p.preserved p.target w1 (λ z. source (sym target1 ∙ z)) in
        simp (h.mounted, h.switched)
          (
            at-close p.mount_point p.target _
                ∙ at-refused p.preserved p.target p.target w1 distinct.unnested.target.of_preserved
                    distinct.unnested.target.of_target second
                ∙ target1,
            at-close p.mount_point p.preserved _
                ∙ at-refused p.preserved p.target p.preserved w1
                    distinct.unnested.preserved.of_preserved distinct.unnested.preserved.of_target
                    second
                ∙ at-refused p.target p.failed p.preserved s.world
                    distinct.unnested.preserved.of_target distinct.unnested.preserved.of_failed
                    first
                ∙ h.view p.preserved distinct.unnested.preserved
                ∙ view_preserved_switched p distinct v,
          )
