-- ===== src/Apply/Lock.antt =====
-- The runtime directory and the lock of `ApplyService::apply`.

use limine_manager.Prelude.{◌≡◌, ◌∙◌, ap, ◌≢◌, false, not, is_empty, text, starts_with}
use limine_manager.FilePath.{FilePath}
use limine_manager.Exec.{Exec}
use limine_manager.Exec.Triples.{Triple, bind}
use limine_manager.Posix.{Posix, IsLawful, View}
use limine_manager.Files.{Process, throw_errno, call, lstat_existing}
use limine_manager.Files.Steps.{In, At, call_rule, keep_rule, guard_rule, starting, tested_rule}
use limine_manager.Files.Restore.{existing-Keeps}
use limine_manager.Apply.{take_lock, lock_path, is_directory}

-- nothing but the runtime directory, its parents and the lock has changed
pub record Locked (v : View) (runtime_directory : FilePath) (u : View) : Type 0 where
  pub elsewhere :
      (q : FilePath)
      → starts_with runtime_directory q ≡ false
      → q ≢ lock_path runtime_directory
      → u q ≡ v q

module _ (c : Posix) (lawful : IsLawful c) where
  open c use {World, Input, node}

  elsewhere_rule :
      {A : Type 0} (v : View) (runtime_directory : FilePath) (m : Exec World A)
      → ((w : World) (q : FilePath)
          → starts_with runtime_directory q ≡ false
          → q ≢ lock_path runtime_directory
          → node (m w).1 q ≡ node w q)
      → Triple
          (In (At c (Locked v runtime_directory)))
          (λ _. In (At c (Locked v runtime_directory)))
          (In (At c (Locked v runtime_directory)))
          (call m)
  elsewhere_rule v runtime_directory m same =
      call_rule (At c (Locked v runtime_directory)) (λ _. At c (Locked v runtime_directory))
        (At c (Locked v runtime_directory)) m (λ w a h e. moved w h) (λ w x h e. moved w h)
    where
      moved :
          (w : World)
          → Locked v runtime_directory (node w)
          → Locked v runtime_directory (node (m w).1)
      moved w h = record { elsewhere = λ q a b. same w q a b ∙ h.elsewhere q a b }

  pub take_lock-Triple :
      (v : View) (runtime_directory : FilePath)
      → Triple
          (In (At c (λ u. u ≡ v)))
          (λ _. In (At c (Locked v runtime_directory)))
          (In (At c (Locked v runtime_directory)))
          (take_lock c runtime_directory)
  unfolding take_lock
  take_lock-Triple v runtime_directory =
      let held = Locked v runtime_directory in
      let lock = lock_path runtime_directory in
      let start : (s : Process World) → In (At c (λ u. u ≡ v)) s → In (At c held) s =
        λ s h. record { holds = record { elsewhere = λ q a b. ap (λ x. x q) h.holds } } in
      guard_rule (is_empty runtime_directory) _ _ start λ given.
        bind _ _
          (starting _ start (
            elsewhere_rule v runtime_directory
              (throw_errno (text "cannot create runtime directory") runtime_directory
                (c.create_directories runtime_directory))
              (λ w q a b. lawful.create_directories_elsewhere runtime_directory w q a)))
          λ _.
            bind _ _
              (keep_rule c held
                (lstat_existing c (text "cannot inspect runtime directory") runtime_directory)
                (existing-Keeps c lawful (text "cannot inspect runtime directory")
                  runtime_directory))
              λ metadata.
                guard_rule (not (is_directory metadata.kind)) _ _ (λ s h. h)
                  λ safe.
                    bind _ _
                      (elsewhere_rule v runtime_directory
                        (throw_errno (text "cannot open lock") lock (c.open_lock lock))
                        (λ w q a b. lawful.open_lock_elsewhere lock w q b))
                      λ _.
                        bind _ _
                          (keep_rule c held (throw_errno (text "cannot lock") lock (c.flock lock))
                            (lawful.flock-Keeps lock))
                          λ locked. tested_rule (In (At c held)) (not locked) _
