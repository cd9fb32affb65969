-- ===== src/Apply/Atomicity.antt =====
-- `ApplyService::apply` as a whole: the target is never a part of a file.
use limine_manager.Prelude.{◌≡◌, refl, sym, ap, subst, true, ◌||◌, is_empty, Error}
use limine_manager.FilePath.{FilePath, filename}
use limine_manager.Exec.{Exec, ◌>>=◌}
use limine_manager.Exec.Triples.{Ruled, raising, weakening, binding}
use limine_manager.Changes.{ChangePlan, has_changes}
use limine_manager.Posix.{Posix, IsLawful, View}
use limine_manager.Files.{Process}
use limine_manager.Files.Steps.{In, At, tested_rule}
use limine_manager.Apply.{Names, Ids, ApplyResult, replace_safely, inspect_target, apply}
use limine_manager.Apply.Lock.{Locked, take_lock-Triple}
use limine_manager.Apply.Checks.{Expected, inspect_target-Triple}
use limine_manager.Apply.Rollback.{Distinct, Applied, Failure, intact}
use limine_manager.Apply.Replacing.{Failed, Done, replace_safely-Ruled}

module _ (c : Posix) (lawful : IsLawful c) (plan : ChangePlan) (names : Names) (ids : Ids)
    (distinct : Distinct plan names) where
  open c use {World, node}

  module _ (before : View) (runtime_directory : FilePath) where
    abbrev pub Succeeded : ApplyResult → View → Type 0
    Succeeded r u =
        (v : View) × Locked before runtime_directory v
        × Expected plan v
        × Applied c plan names ids v r u

    abbrev pub Refused : Error → View → Type 0
    Refused e u = (v : View) × Locked before runtime_directory v × Failure c plan names ids v e u

    early : (e : Error) (u : View) → Locked before runtime_directory u → Refused e u
    early e u h = (u, h, record { target = intact refl; elsewhere = λ q a b d r. refl })

    under_lock :
        (v : View)
        → Locked before runtime_directory v
        → Ruled
            (In (At c (λ u. u ≡ v)))
            (λ r. In (At c (Succeeded r)))
            (λ e. In (At c (Refused e)))
            (inspect_target c plan >>= λ found. replace_safely c plan names ids found)
    under_lock v locked =
        binding _ _
          (raising _ (inspect_target-Triple c lawful v plan) (λ e s h. record {
            holds = early e _ (subst (Locked before runtime_directory) (sym h.holds) locked);
          }))
          λ found. record {
            run = λ s h.
                let (there, expected) = h.holds.1 in
                (outcome (replace_safely-Ruled c lawful plan names ids distinct v found there)
                    expected).run
                  s (record { holds = h.holds.0 });
          }
      where
        outcome :
            {m : Exec (Process World) ApplyResult}
            → Ruled
                (In (At c (λ u. u ≡ v)))
                (Done c lawful plan names ids distinct v)
                (Failed c lawful plan names ids distinct v)
                m
            → Expected plan v
            → Ruled
                (In (At c (λ u. u ≡ v)))
                (λ r. In (At c (Succeeded r)))
                (λ e. In (At c (Refused e)))
                m
        outcome t expected =
            weakening _ t (λ r s k. record { holds = (v, locked, expected, k.holds) })
              (λ e s k. record { holds = (v, locked, k.holds) })

    -- `ApplyService::apply` on a plan with changes. When it returns, the target was what the plan
    -- was made for, it now holds the generated text under the old file's owner and mode, less what
    -- chown(2) clears of the mode where the process has another owner, and where there was a
    -- target, the backup that is named holds a copy of it. A copy has the content and the owner,
    -- and of the mode what chown(2) leaves. When it throws, whatever
    -- the call that failed, the target is the old file or a whole copy of it, or it is the whole
    -- new file, and then only after the error that the rollback failed too and with a backup that
    -- holds the old file, or where there was no target before. Apart from the runtime directory
    -- and the lock, no file but the target, the temporary ones and the backup has changed. The
    -- three names must be different from the target's, and the backup's from the others.
    pub apply-Ruled :
        has_changes plan ≡ true
        → Ruled
            (In (At c (λ u. u ≡ before)))
            (λ r. In (At c (Succeeded r)))
            (λ e. In (At c (Refused e)))
            (apply c runtime_directory ids names plan)
    unfolding apply
    apply-Ruled changes = rw changes (
        binding _ _
          (raising _
            (tested_rule (In (At c (λ u. u ≡ before)))
              (is_empty plan.target || is_empty (filename plan.target)) _)
            (λ e s h. record { holds = early e _ (unlocked _ h.holds) }))
          λ _.
            binding _ _
              (raising _ (take_lock-Triple c lawful before runtime_directory)
                (λ e s h. record { holds = early e _ h.holds }))
              λ _. record {
                run = λ s h. (under_lock (node s.world) h.holds).run s (record { holds = refl });
              })
      where
        unlocked : (u : View) → u ≡ before → Locked before runtime_directory u
        unlocked u h = record { elsewhere = λ q a b. ap (λ x. x q) h }
