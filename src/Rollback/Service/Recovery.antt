-- ===== src/Rollback/Service/Recovery.antt =====
-- What `RollbackService::execute` leaves, whatever call of the client fails.
use limine_manager.Prelude.{
  ℕ, ◌≡◌, refl, ◌≢◌, ◌∙◌, sym, subst, false, ◌⊎◌, inl, inr, Option, none, text_eq-of_ne,
  text_eq_refl, Result, ok, err, arith,
}
use limine_manager.FilePath.{FilePath}
use limine_manager.Exec.{on_error, ignoring}
use limine_manager.Exec.Triples.{Post}
use limine_manager.Domain.Rollback.{RollbackPlan}
use limine_manager.Rollback.Client.{BtrfsClient, IsLawful, inside, moved, copied, outcome}
use limine_manager.Rollback.Service.{RollbackResult, Paths, Run, try_move, undo, recover}
use limine_manager.Rollback.Service.Stages.{
  Stage, IsUnnested, begun, is_mounted, created, preserved, switched, view_at, Sees, Stopped,
  Finished,
}

-- The paths of the snapshot, the target and the three new names are different, and none is inside
-- another that is moved.
pub record IsDistinct (p : Paths) : Type 0 where
  pub source_target : p.source ≢ p.target
  pub source_preserved : p.source ≢ p.preserved
  pub source_replacement : p.source ≢ p.replacement
  pub source_failed : p.source ≢ p.failed
  pub target_preserved : p.target ≢ p.preserved
  pub target_replacement : p.target ≢ p.replacement
  pub target_failed : p.target ≢ p.failed
  pub preserved_replacement : p.preserved ≢ p.replacement
  pub preserved_failed : p.preserved ≢ p.failed
  pub replacement_failed : p.replacement ≢ p.failed
  pub unnested : IsUnnested p

pub ne_sym : {a b : FilePath} → a ≢ b → b ≢ a
ne_sym h e = h (sym e)

abbrev View : Type 0
View = FilePath → Option ℕ

pub moved_elsewhere : (v : View) (x y q : FilePath) → q ≢ x → q ≢ y → moved v x y q ≡ v q
moved_elsewhere v x y q hx hy = ground (arith, text_eq-of_ne q x hx, text_eq-of_ne q y hy)

pub copied_elsewhere : (v : View) (x y q : FilePath) → q ≢ y → copied v x y q ≡ v q
copied_elsewhere v x y q h = ground (arith, text_eq-of_ne q y h)

pub moved_end : (v : View) (x y : FilePath) → moved v x y y ≡ v x
moved_end v x y = ground (arith, text_eq_refl y)

pub copied_end : (v : View) (x y : FilePath) → copied v x y y ≡ v x
copied_end v x y = ground (arith, text_eq_refl y)

pub moved_start : (v : View) (x y : FilePath) → x ≢ y → moved v x y x ≡ none
moved_start v x y h = ground (arith, text_eq_refl x, text_eq-of_ne x y h)

module _ (p : Paths) (distinct : IsDistinct p) (v : View) where
  open distinct use {
    source_target, source_preserved, source_replacement, source_failed, target_preserved,
    target_replacement, target_failed, preserved_replacement, preserved_failed,
  }

  pub source_created : view_at p v created p.source ≡ v p.source
  source_created = copied_elsewhere v _ _ _ source_replacement

  pub source_preserved_stage : view_at p v preserved p.source ≡ v p.source
  source_preserved_stage =
      moved_elsewhere (copied v p.source p.replacement) p.target p.preserved p.source source_target
        source_preserved
      ∙ source_created

  pub source_switched : view_at p v switched p.source ≡ v p.source
  source_switched =
      moved_elsewhere (view_at p v preserved) p.replacement p.target p.source source_replacement
        source_target
      ∙ source_preserved_stage

  pub view_target_created : view_at p v created p.target ≡ v p.target
  view_target_created = copied_elsewhere v _ _ _ target_replacement

  pub view_preserved : view_at p v preserved p.preserved ≡ v p.target
  view_preserved =
      moved_end (copied v p.source p.replacement) p.target p.preserved ∙ view_target_created

  pub view_preserved_switched : view_at p v switched p.preserved ≡ v p.target
  view_preserved_switched =
      moved_elsewhere (view_at p v preserved) p.replacement p.target p.preserved
        preserved_replacement (ne_sym target_preserved)
      ∙ view_preserved

module _ (c : BtrfsClient) (lawful : IsLawful c) where
  open c use {World, at}

  -- A path that a move does not name keeps its subvolume, whether or not the move was made.
  pub at-try_move :
      (x y q : FilePath) (w : World)
      → q ≢ x
      → q ≢ y
      → inside q x ≡ false
      → inside q y ≡ false
      → at (try_move c x y w) q ≡ at w q
  at-try_move x y q w hx hy ox oy = lawful.at-move x y q w ox oy ∙ either (c.move_subvolume x y w).0
    where
      either : (r : Result (Unit {0})) → outcome (at w) (moved (at w) x y) r q ≡ at w q
      either (ok u) = moved_elsewhere (at w) x y q hx hy
      either (err e) = refl

  -- What a move takes is at its end or still at its start.
  at-try_move_back :
      (x y : FilePath) (w : World)
      → x ≢ y
      → ((q : FilePath) → (q ≡ x) ⊎ (q ≡ y) → (inside q x ≡ false) × (inside q y ≡ false))
      → (at (try_move c x y w) y ≡ at w x) ⊎ (at (try_move c x y w) x ≡ at w x)
  at-try_move_back x y w h apart =
      either (c.move_subvolume x y w).0 (λ q e. lawful.at-move x y q w (apart q e).0 (apart q e).1)
    where
      either :
          (r : Result (Unit {0}))
          → ((q : FilePath)
              → (q ≡ x) ⊎ (q ≡ y)
              → at (try_move c x y w) q ≡ outcome (at w) (moved (at w) x y) r q)
          → (at (try_move c x y w) y ≡ at w x) ⊎ (at (try_move c x y w) x ≡ at w x)
      either (ok u) e = inl (e y (inr refl) ∙ ground (arith, text_eq_refl y))
      either (err z) e = inr (e x (inl refl))

  module _ (plan : RollbackPlan) (p : Paths) (distinct : IsDistinct p)
      (v : FilePath → Option ℕ) where
    -- The original root is at the target or at the preserved name, and the source is untouched.
    pub record Kept (w : World) : Type 0 where
      pub root_kept : (at w p.target ≡ v p.target) ⊎ (at w p.preserved ≡ v p.target)
      pub source_kept : at w p.source ≡ v p.source

    ends :
        (q : FilePath)
        → (q ≡ p.preserved) ⊎ (q ≡ p.target)
        → (inside q p.preserved ≡ false) × (inside q p.target ≡ false)
    ends q (inl e) =
        subst (λ z. (inside z p.preserved ≡ false) × (inside z p.target ≡ false)) (sym e)
          (distinct.unnested.preserved.of_preserved, distinct.unnested.preserved.of_target)
    ends q (inr e) =
        subst (λ z. (inside z p.preserved ≡ false) × (inside z p.target ≡ false)) (sym e)
          (distinct.unnested.target.of_preserved, distinct.unnested.target.of_target)

    Kept-restore :
        (w : World)
        → at w p.preserved ≡ v p.target
        → at w p.source ≡ v p.source
        → Kept (try_move c p.preserved p.target w)
    Kept-restore w h k = record {
      root_kept =
          root (at-try_move_back p.preserved p.target w (ne_sym distinct.target_preserved) ends);
      source_kept =
          at-try_move _ _ _ w distinct.source_preserved distinct.source_target
            distinct.unnested.source.of_preserved distinct.unnested.source.of_target
          ∙ k;
    }
      where
        root :
            (at (try_move c p.preserved p.target w) p.target ≡ at w p.preserved)
              ⊎ (at (try_move c p.preserved p.target w) p.preserved ≡ at w p.preserved)
            → (at (try_move c p.preserved p.target w) p.target ≡ v p.target)
              ⊎ (at (try_move c p.preserved p.target w) p.preserved ≡ v p.target)
        root (inl e) = inl (e ∙ h)
        root (inr e) = inr (e ∙ h)

    Kept-undo : (s : Run World) (g : Stage) → Sees c lawful plan p v g g s → Kept (undo c p s)
    unfolding undo
    Kept-undo s begun h =
        simp (h.switched, h.preserved, h.created)
          (record {
            root_kept = inl (h.view p.target distinct.unnested.target);
            source_kept = h.view p.source distinct.unnested.source;
          })
    Kept-undo s is_mounted h =
        simp (h.switched, h.preserved, h.created)
          (record {
            root_kept = inl (h.view p.target distinct.unnested.target);
            source_kept = h.view p.source distinct.unnested.source;
          })
    Kept-undo s created h =
        simp (h.switched, h.preserved, h.created)
          (record {
            root_kept = inl (
                at-try_move _ _ _ s.world distinct.target_replacement distinct.target_failed
                  distinct.unnested.target.of_replacement distinct.unnested.target.of_failed
                ∙ h.view p.target distinct.unnested.target
                ∙ view_target_created p distinct v);
            source_kept =
                at-try_move _ _ _ s.world distinct.source_replacement distinct.source_failed
                  distinct.unnested.source.of_replacement distinct.unnested.source.of_failed
                ∙ h.view p.source distinct.unnested.source
                ∙ source_created p distinct v;
          })
    Kept-undo s preserved h =
        simp (h.switched, h.preserved, h.created)
          (Kept-restore (try_move c p.replacement p.failed s.world)
            (at-try_move _ _ _ s.world distinct.preserved_replacement distinct.preserved_failed
                distinct.unnested.preserved.of_replacement distinct.unnested.preserved.of_failed
              ∙ h.view p.preserved distinct.unnested.preserved
              ∙ view_preserved p distinct v)
            (at-try_move _ _ _ s.world distinct.source_replacement distinct.source_failed
                distinct.unnested.source.of_replacement distinct.unnested.source.of_failed
              ∙ h.view p.source distinct.unnested.source
              ∙ source_preserved_stage p distinct v))
    Kept-undo s switched h =
        simp (h.switched, h.preserved, h.created)
          (Kept-restore (try_move c p.target p.failed s.world)
            (at-try_move _ _ _ s.world (ne_sym distinct.target_preserved) distinct.preserved_failed
                distinct.unnested.preserved.of_target distinct.unnested.preserved.of_failed
              ∙ h.view p.preserved distinct.unnested.preserved
              ∙ view_preserved_switched p distinct v)
            (at-try_move _ _ _ s.world distinct.source_target distinct.source_failed
                distinct.unnested.source.of_target distinct.unnested.source.of_failed
              ∙ h.view p.source distinct.unnested.source
              ∙ source_switched p distinct v))

    -- Sync and unmount, made or not, change no subvolume.
    Kept-close :
        (w : World)
        → Kept w
        → Kept (ignoring (c.unmount p.mount_point) (ignoring (c.sync_filesystem p.mount_point) w))
    Kept-close w k = record {
      root_kept = root k.root_kept;
      source_kept = same p.source ∙ k.source_kept;
    }
      where
        same :
            (q : FilePath)
            → at
                (ignoring (c.unmount p.mount_point) (ignoring (c.sync_filesystem p.mount_point) w))
                q
              ≡ at w q
        same q = lawful.at-unmount p.mount_point q _ ∙ lawful.at-sync p.mount_point q w

        root :
            (at w p.target ≡ v p.target) ⊎ (at w p.preserved ≡ v p.target)
            → (at
                  (ignoring
                    (c.unmount p.mount_point)
                    (ignoring (c.sync_filesystem p.mount_point) w))
                  p.target
                ≡ v p.target)
              ⊎ (at
                    (ignoring
                      (c.unmount p.mount_point)
                      (ignoring (c.sync_filesystem p.mount_point) w))
                    p.preserved
                  ≡ v p.target)
        root (inl e) = inl (same p.target ∙ e)
        root (inr e) = inr (same p.preserved ∙ e)

    Kept-recover :
        (s : Run World) (g : Stage) → Sees c lawful plan p v g g s → Kept (recover c p s).world
    unfolding recover
    Kept-recover s begun h = simp h.mounted (record {
      root_kept = inl (h.view p.target distinct.unnested.target);
      source_kept = h.view p.source distinct.unnested.source;
    })
    Kept-recover s is_mounted h = simp h.mounted (Kept-close _ (Kept-undo s is_mounted h))
    Kept-recover s created h = simp h.mounted (Kept-close _ (Kept-undo s created h))
    Kept-recover s preserved h = simp h.mounted (Kept-close _ (Kept-undo s preserved h))
    Kept-recover s switched h = simp h.mounted (Kept-close _ (Kept-undo s switched h))

    Kept-Finished :
        (r : RollbackResult) (s : Run World) → Finished c lawful plan p v r s → Kept s.world
    Kept-Finished r s f = record {
      root_kept =
          inr
            (f.view p.preserved distinct.unnested.preserved ∙ view_preserved_switched p distinct v);
      source_kept = f.view p.source distinct.unnested.source ∙ source_switched p distinct v;
    }

    pub Kept-on_error :
        (r : Result RollbackResult) (s : Run World)
        → Post (Finished c lawful plan p v) (Stopped c lawful plan p v) (r, s)
        → Kept (on_error (recover c p) (λ _. (r, s)) s).1.world
    Kept-on_error (ok a) s h = Kept-Finished a s h
    Kept-on_error (err e) s h = Kept-recover s h.stage h.seen
