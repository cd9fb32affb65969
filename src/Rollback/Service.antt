-- ===== src/Rollback/Service.antt =====
-- src/application/rollback_service.cpp: `RollbackService::execute`. `lock` is what creating the
-- runtime directory and taking the rollback lock return or throw.
pub mod Stages
pub mod Recovery
pub mod Outcomes
pub mod Restoring
use limine_manager.Prelude.{
  ℕ, Bool, true, false, not, ◌&&◌, ◌||◌, List, [], ◌∷◌, ◌++◌, if◌then◌else◌, is_empty, Text, text,
  Result, ok, err, runtime_error,
}
use limine_manager.FilePath.{FilePath, join, relative_path}
use limine_manager.Exec.{Exec, pure, throw_if, modify, continue, ◌>>=◌, ◌>>◌, on_error, ignoring}
use limine_manager.Domain.Rollback.{RollbackPlan}
use limine_manager.Rollback.Naming.{contains_subvolume}
use limine_manager.Rollback.Client.{BtrfsClient}

pub record RollbackResult : Type 0 where
  pub mounted_top_level : FilePath
  pub preserved_subvolume : Text
  pub active_subvolume : Text

unfoldable pub under : FilePath → Text → FilePath
under root relative = join root (relative_path relative)

-- the paths that `execute` computes before its try block
pub record Paths : Type 0 where
  pub mount_point : FilePath
  pub source : FilePath
  pub target : FilePath
  pub preserved : FilePath
  pub replacement : FilePath
  pub failed : FilePath

unfoldable pub paths_of : FilePath → RollbackPlan → Paths
unfolding under
paths_of runtime_directory plan =
    let mount_point = join runtime_directory (text "btrfs-top") in
    record {
      mount_point = mount_point;
      source = under mount_point plan.source_snapshot_subvolume;
      target = under mount_point plan.target_subvolume;
      preserved = under mount_point plan.preserved_subvolume;
      replacement = under mount_point plan.replacement_subvolume;
      failed =
          under mount_point (plan.target_subvolume ++ text ".limine-manager.failed-replacement");
    }

-- the world and the locals that the catch block reads
pub record Run (World : Type 0) : Type 0 where
  pub world : World
  pub mounted : Bool
  pub replacement_created : Bool
  pub target_preserved : Bool
  pub target_switched : Bool

unfoldable pub is_complete : RollbackPlan → Bool
is_complete plan = not (
    is_empty plan.btrfs_source
    || is_empty plan.source_snapshot_subvolume
    || is_empty plan.target_subvolume
    || is_empty plan.preserved_subvolume
    || is_empty plan.replacement_subvolume)

module _ (c : BtrfsClient) where
  open c use {
    World, mount_top_level, unmount, create_writable_snapshot, move_subvolume, sync_filesystem,
    list_subvolumes,
  }

  -- a call of the client on the world of a run
  abbrev pub call : {A : Type 0} → Exec World A → Exec (Run World) A
  call m s = let (r, w) = m s.world in (r, record s { world = w })

  -- the try block behind the switch: verification, sync and unmount
  unfoldable pub finish : RollbackPlan → Paths → Exec (Run World) RollbackResult
  finish plan p = do
    subvolumes ← call (list_subvolumes p.mount_point)
    throw_if
        (not (contains_subvolume subvolumes plan.target_subvolume)
          || not (contains_subvolume subvolumes plan.preserved_subvolume))
        (runtime_error (text "post-rollback Btrfs topology verification failed"))
    call (sync_filesystem p.mount_point)
    call (unmount p.mount_point)
    modify (λ s. record s { mounted = false })
    pure (record {
      mounted_top_level = p.mount_point;
      preserved_subvolume = plan.preserved_subvolume;
      active_subvolume = plan.target_subvolume;
    })

  -- the try block
  unfoldable pub switch : RollbackPlan → Paths → Exec (Run World) RollbackResult
  switch plan p = do
    call (mount_top_level plan.btrfs_source p.mount_point)
    modify (λ s. record s { mounted = true })
    call (create_writable_snapshot p.source p.replacement)
    modify (λ s. record s { replacement_created = true })
    call (move_subvolume p.target p.preserved)
    modify (λ s. record s { target_preserved = true })
    call (move_subvolume p.replacement p.target)
    modify (λ s. record s { target_switched = true })
    finish plan p

  -- try_move: a failure is ignored
  abbrev pub try_move : FilePath → FilePath → World → World
  try_move source destination = ignoring (move_subvolume source destination)

  -- the moves of the catch block
  unfoldable pub undo : Paths → Run World → World
  undo p s =
      if s.target_switched
      then try_move p.preserved p.target (try_move p.target p.failed s.world)
      else if s.target_preserved
      then try_move p.preserved p.target
          (if s.replacement_created then try_move p.replacement p.failed s.world else s.world)
      else if s.replacement_created
      then try_move p.replacement p.failed s.world
      else s.world

  -- the catch block
  unfoldable pub recover : Paths → Run World → Run World
  unfolding undo
  recover p s =
      if s.mounted
      then record s {
        world =
            ignoring (unmount p.mount_point) (ignoring (sync_filesystem p.mount_point) (undo p s));
      }
      else s

  abbrev pub fresh : World → Run World
  fresh w = record {
    world = w;
    mounted = false;
    replacement_created = false;
    target_preserved = false;
    target_switched = false;
  }

  -- the try block with its catch
  unfoldable pub attempt : FilePath → RollbackPlan → Exec World RollbackResult
  unfolding switch recover
  attempt runtime_directory plan w =
      let p = paths_of runtime_directory plan in
      let (r, s) = on_error (recover p) (switch plan p) (fresh w) in (r, s.world)

  unfoldable pub execute : FilePath → Result (Unit {0}) → RollbackPlan → Exec World RollbackResult
  execute runtime_directory lock plan w =
      if not plan.eligible
      then (err (runtime_error (text "rollback plan is not eligible")), w)
      else if not (is_complete plan)
      then (err (runtime_error (text "rollback plan is incomplete")), w)
      else continue lock (λ _. attempt runtime_directory plan) w
