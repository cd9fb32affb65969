-- ===== src/Rollback/Planner/Inspection.antt =====
-- What the steps behind the boot mode reject.
use limine_manager.Prelude.{
  ℕ, ◌≡◌, refl, ◌∙◌, ap, Bool, true, not, ◌||◌, Option, none, some, List, ◌==◌, is_empty, find_if,
  is_some, text, text_eq, Result, ok, err, arith,
}
use limine_manager.Domain.Rollback.{RollbackPlan}
use limine_manager.Model.{SystemInfo, SnapperConfig, SnapshotInfo, AppConfig, BtrfsSubvolume}
use limine_manager.Rollback.Naming.{contains_subvolume}
use limine_manager.Rollback.Planner.{
  Inputs, add, has_error, check_snapper, with_snapshot, check_snapshot, listed, list_subvolumes,
  check_target_exists, check_source_exists, preserved_name, replacement_name, inspect,
}
use limine_manager.Rollback.Planner.Errors.{
  succeeded, has_error-check_snapper, has_error-check_snapshot, has_error-check_target_exists,
  has_error-check_source_exists, has_error-name_subvolumes, has_error-list_subvolumes,
  check_snapshot_mono, name_subvolumes_mono, list_subvolumes_mono,
}
use limine_manager.Rollback.Planner.BootMode.{target_of, Managed}

-- The names that the later steps read.
abbrev SameNames : RollbackPlan → RollbackPlan → Type 0
SameNames q p =
    (q.snapshot_number ≡ p.snapshot_number)
    × (q.target_subvolume ≡ p.target_subvolume)
    × (q.source_snapshot_subvolume ≡ p.source_snapshot_subvolume)

-- What the steps behind the boot mode reject, for a plan with a snapshot number.
abbrev pub inspect_bad : Inputs → ℕ → Bool
inspect_bad i n =
    let subvolumes = listed i.system i.subvolumes in
    not (text_eq i.snapper_config.subvolume (text "/"))
    || not (is_some (find_if (λ (item : SnapshotInfo). item.number == n) i.snapshots))
    || not (succeeded i.subvolumes)
    || not (contains_subvolume subvolumes (target_of i))
    || not (contains_subvolume subvolumes i.system.root_subvolume)
    || contains_subvolume subvolumes (preserved_name (target_of i) n i.transaction_id)
    || contains_subvolume subvolumes (replacement_name (target_of i) n i.transaction_id)

check_snapper-names :
    (snapper : SnapperConfig) (config : AppConfig) (p : RollbackPlan)
    → SameNames (check_snapper snapper config p) p
unfolding check_snapper add
check_snapper-names snapper config p = ground arith

with_snapshot-names :
    (p : RollbackPlan) (n : ℕ) (found : Option SnapshotInfo) → SameNames (with_snapshot p n found) p
unfolding with_snapshot add
with_snapshot-names p n none = (refl, refl, refl)
with_snapshot-names p n (some s) = ground arith

check_snapshot-names :
    (snapshots : List SnapshotInfo) (p : RollbackPlan) (number : Option ℕ)
    → p.snapshot_number ≡ number
    → SameNames (check_snapshot snapshots p) p
unfolding check_snapshot
check_snapshot-names snapshots p none e = simp (e, check_snapshot) (refl, refl, refl)
check_snapshot-names snapshots p (some n) e =
    let t =
      with_snapshot-names p n (find_if (λ (item : SnapshotInfo). item.number == n) snapshots) in
    simp (e, check_snapshot) (t.0 ∙ e, t.1, t.2)

list_subvolumes-names :
    (system : SystemInfo) (answer : Result (List BtrfsSubvolume)) (p : RollbackPlan)
    → SameNames (list_subvolumes system answer p) p
unfolding list_subvolumes add
list_subvolumes-names system (ok found) p = (refl, refl, refl)
list_subvolumes-names system (err e) p = ground arith

check_target_exists-names :
    (subvolumes : List BtrfsSubvolume) (p : RollbackPlan)
    → SameNames (check_target_exists subvolumes p) p
unfolding check_target_exists add
check_target_exists-names subvolumes p = ground arith

check_source_exists-names :
    (subvolumes : List BtrfsSubvolume) (p : RollbackPlan)
    → SameNames (check_source_exists subvolumes p) p
unfolding check_source_exists add
check_source_exists-names subvolumes p = ground arith

module _ (i : Inputs) (p : RollbackPlan) where
  abbrev p1 : RollbackPlan
  p1 = check_snapper i.snapper_config i.config p

  abbrev p2 : RollbackPlan
  p2 = check_snapshot i.snapshots p1

  abbrev p3 : RollbackPlan
  p3 = list_subvolumes i.system i.subvolumes p2

  abbrev p4 : RollbackPlan
  p4 = check_target_exists (listed i.system i.subvolumes) p3

  abbrev p5 : RollbackPlan
  p5 = check_source_exists (listed i.system i.subvolumes) p4

  pub inspect_mono : has_error p ≡ true → has_error (inspect i p) ≡ true
  unfolding inspect
  inspect_mono h =
      let h1 : has_error p1 ≡ true =
        has_error-check_snapper p i.snapper_config i.config ∙ ground arith in
      let h2 : has_error p2 ≡ true = check_snapshot_mono p1 i.snapshots h1 in
      let h3 : has_error p3 ≡ true = list_subvolumes_mono p2 i.system i.subvolumes h2 in
      let h4 : has_error p4 ≡ true =
        has_error-check_target_exists p3 (listed i.system i.subvolumes) ∙ ground arith in
      let h5 : has_error p5 ≡ true =
        has_error-check_source_exists p4 (listed i.system i.subvolumes) ∙ ground arith in
      name_subvolumes_mono p5 i.transaction_id (listed i.system i.subvolumes) h5

  pub has_error-inspect : (n : ℕ) → Managed i p n → has_error (inspect i p) ≡ inspect_bad i n
  unfolding inspect
  has_error-inspect n m =
      let subvolumes = listed i.system i.subvolumes in
      let n1 = check_snapper-names i.snapper_config i.config p in
      let n2 = check_snapshot-names i.snapshots p1 p1.snapshot_number refl in
      let n3 = list_subvolumes-names i.system i.subvolumes p2 in
      let n4 = check_target_exists-names subvolumes p3 in
      let n5 = check_source_exists-names subvolumes p4 in
      let number1 : p1.snapshot_number ≡ some n = n1.0 ∙ m.number_is in
      let target3 : p3.target_subvolume ≡ target_of i = n3.1 ∙ n2.1 ∙ n1.1 ∙ m.target_is in
      let source4 : p4.source_snapshot_subvolume ≡ i.system.root_subvolume =
        n4.2 ∙ n3.2 ∙ n2.2 ∙ n1.2 ∙ m.source_is in
      let target5 : p5.target_subvolume ≡ target_of i = n5.1 ∙ n4.1 ∙ target3 in
      let number5 : p5.snapshot_number ≡ some n = n5.0 ∙ n4.0 ∙ n3.0 ∙ n2.0 ∙ number1 in
      has_error-name_subvolumes p5 i.transaction_id subvolumes n number5
        (ap is_empty target5 ∙ m.named)
      ∙ ground (
        arith,
        target5,
        target3,
        source4,
        has_error-check_snapper p i.snapper_config i.config,
        has_error-check_snapshot p1 i.snapshots n number1,
        has_error-list_subvolumes p2 i.system i.subvolumes m.btrfs,
        has_error-check_target_exists p3 subvolumes,
        has_error-check_source_exists p4 subvolumes,
      )
