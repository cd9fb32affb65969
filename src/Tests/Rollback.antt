-- ===== src/Tests/Rollback.antt =====
-- Rollback on the simulated client.
use limine_manager.Prelude.{
  starts_with, ℕ, ◌≡◌, refl, ◌≢◌, ◌⊎◌, ◌↔◌, true, false, none, some, [], ◌∷◌, if◌then◌else◌, Text,
  text, text_eq, text_eq_iff, ok, arith,
}
use limine_manager.FilePath.{FilePath, join, relative_path, filename}
use limine_manager.Rollback.Naming.{contains_subvolume}
use limine_manager.Rollback.Planner.{build}
use limine_manager.Rollback.Planner.Eligibility.{IsSafe, eligible_iff}
use limine_manager.Tests.Machines.{inputs}
use limine_manager.Domain.Rollback.{RollbackPlan, managed_snapshot}
use limine_manager.Rollback.Service.{
  RollbackResult, paths_of, execute, attempt, switch, finish, is_complete, under,
}
use limine_manager.Rollback.Client.{inside}
use limine_manager.Rollback.Service.Recovery.{IsDistinct}
use limine_manager.Rollback.Service.Outcomes.{execute-Kept, execute_switches, Undisturbed}
use limine_manager.Tests.Simulated.{Tree, simulated, simulated-IsLawful}

abbrev plan : RollbackPlan
plan = record {
  eligible = true;
  boot_mode = managed_snapshot;
  btrfs_source = text "/dev/sda2";
  current_subvolume = text "@snapshots/7/snapshot";
  target_subvolume = text "@";
  source_snapshot_subvolume = text "@snapshots/7/snapshot";
  snapshot_number = some 7;
  source_snapshot_read_only = true;
  preserved_subvolume = text "@.old";
  replacement_subvolume = text "@.new";
  operations = [];
  diagnostics = [];
}

abbrev runtime : FilePath
runtime = text "/r"

ne_of : (a b : Text) → text_eq a b ≡ false → a ≢ b
ne_of a b h e = ground (arith, text_eq_iff a b)

plan-IsDistinct : IsDistinct (paths_of runtime plan)
unfolding paths_of text text_eq join relative_path filename inside starts_with
plan-IsDistinct = record {
  source_target = ne_of _ _ refl;
  source_preserved = ne_of _ _ refl;
  source_replacement = ne_of _ _ refl;
  source_failed = ne_of _ _ refl;
  target_preserved = ne_of _ _ refl;
  target_replacement = ne_of _ _ refl;
  target_failed = ne_of _ _ refl;
  preserved_replacement = ne_of _ _ refl;
  preserved_failed = ne_of _ _ refl;
  replacement_failed = ne_of _ _ refl;
  unnested = record {
    source = record {
      of_target = refl;
      of_preserved = refl;
      of_replacement = refl;
      of_failed = refl;
    };
    target = record {
      of_target = refl;
      of_preserved = refl;
      of_replacement = refl;
      of_failed = refl;
    };
    preserved = record {
      of_target = refl;
      of_preserved = refl;
      of_replacement = refl;
      of_failed = refl;
    };
    replacement = record {
      of_target = refl;
      of_preserved = refl;
      of_replacement = refl;
      of_failed = refl;
    };
    failed = record {
      of_target = refl;
      of_preserved = refl;
      of_replacement = refl;
      of_failed = refl;
    };
  };
}

-- the main root holds 1 and snapshot 7 holds 2; the client reports no subvolume
abbrev silent : Tree
silent = record {
  at = λ q.
      if text_eq q (text "/r/btrfs-top/@")
      then some 1
      else if text_eq q (text "/r/btrfs-top/@snapshots/7/snapshot")
      then some 2
      else none;
  names = [];
}

execute-Kept_example :
    ((simulated.at (execute simulated runtime (ok tt) plan silent).1 (paths_of runtime plan).target
        ≡ simulated.at silent (paths_of runtime plan).target)
      ⊎ (simulated.at
            (execute simulated runtime (ok tt) plan silent).1
            (paths_of runtime plan).preserved
          ≡ simulated.at silent (paths_of runtime plan).target))
    × (simulated.at (execute simulated runtime (ok tt) plan silent).1 (paths_of runtime plan).source
        ≡ simulated.at silent (paths_of runtime plan).source)
unfolding paths_of text text_eq join relative_path filename
execute-Kept_example =
    execute-Kept simulated simulated-IsLawful runtime (ok tt) plan silent plan-IsDistinct refl

-- the client reports the two subvolumes that the verification looks for
abbrev reporting : Tree
reporting = record silent {
  names = record { id = 256; path = text "@" } ∷ record { id = 257; path = text "@.old" } ∷ [];
}

abbrev switched_result : RollbackResult
switched_result = record {
  mounted_top_level = text "/r/btrfs-top";
  preserved_subvolume = text "@.old";
  active_subvolume = text "@";
}

execute_switches_example :
    (simulated.at
        (execute simulated runtime (ok tt) plan reporting).1
        (paths_of runtime plan).target
      ≡ simulated.at reporting (paths_of runtime plan).source)
    × (simulated.at
          (execute simulated runtime (ok tt) plan reporting).1
          (paths_of runtime plan).preserved
        ≡ simulated.at reporting (paths_of runtime plan).target)
    × (simulated.at
          (execute simulated runtime (ok tt) plan reporting).1
          (paths_of runtime plan).replacement
        ≡ none)
    × Undisturbed
        (paths_of runtime plan)
        (simulated.at reporting)
        (simulated.at (execute simulated runtime (ok tt) plan reporting).1)
unfolding paths_of text text_eq join relative_path filename execute attempt switch finish
    is_complete contains_subvolume under
execute_switches_example =
    execute_switches simulated simulated-IsLawful runtime (ok tt) plan reporting switched_result
      plan-IsDistinct refl refl

eligible_iff_example :
    ((p : RollbackPlan) × (build inputs ≡ ok p) × (p.eligible ≡ true)) ↔ ((n : ℕ) × IsSafe inputs n)
eligible_iff_example = eligible_iff inputs
