-- ===== src/Rollback/Planner/Errors.antt =====
-- What each step of the planner adds to the errors of the plan.
use limine_manager.Prelude.{
  ℕ, ◌≡◌, refl, ◌∙◌, ap, inl, inr, Bool, true, false, not, ◌&&◌, ◌||◌, Option, none, some, List, [],
  ◌∷◌, ◌==◌, is_empty, any_of-append, find_if, is_some, Bool-cases, Option-cases, Text, text,
  text_eq, Result, ok, err, arith,
}
use limine_manager.Domain.Rollback.{RollbackPlan, RollbackSeverity, RollbackDiagnostic}
use limine_manager.Model.{SystemInfo, SnapperConfig, SnapshotInfo, AppConfig, BtrfsSubvolume}
use limine_manager.Rollback.Naming.{contains_subvolume}
use limine_manager.Rollback.Planner.{
  add, is_error, any_error, has_error, check_filesystem, check_rootflags, check_snapper,
  check_snapshot, list_subvolumes, check_target_exists, check_source_exists, preserved_name,
  replacement_name, with_snapshot, check_preserved, check_replacement, with_names, name_subvolumes,
}

pub has_error-add :
    (p : RollbackPlan) (s : RollbackSeverity) (c m : Text)
    → has_error (add p s c m) ≡ (has_error p || is_error s)
unfolding any_error add
has_error-add p s c m = ground (
  arith,
  any_of-append (λ (item : RollbackDiagnostic). is_error item.severity) p.diagnostics
      (record { severity = s; code = c; message = m } ∷ []),
)

has_error-with_snapshot :
    (p : RollbackPlan) (n : ℕ) (found : Option SnapshotInfo)
    → has_error (with_snapshot p n found) ≡ (has_error p || not (is_some found))
unfolding with_snapshot
has_error-with_snapshot p n none = grind (arith, has_error-add)
has_error-with_snapshot p n (some s) = grind (arith, has_error-add)

has_error-check_preserved :
    (subvolumes : List BtrfsSubvolume) (p : RollbackPlan)
    → has_error (check_preserved subvolumes p)
      ≡ (has_error p || contains_subvolume subvolumes p.preserved_subvolume)
unfolding check_preserved
has_error-check_preserved subvolumes p = grind (arith, has_error-add)

has_error-check_replacement :
    (subvolumes : List BtrfsSubvolume) (p : RollbackPlan)
    → has_error (check_replacement subvolumes p)
      ≡ (has_error p || contains_subvolume subvolumes p.replacement_subvolume)
unfolding check_replacement
has_error-check_replacement subvolumes p = grind (arith, has_error-add)

replacement-check_preserved :
    (subvolumes : List BtrfsSubvolume) (p : RollbackPlan)
    → (check_preserved subvolumes p).replacement_subvolume ≡ p.replacement_subvolume
unfolding check_preserved add
replacement-check_preserved subvolumes p = ground arith

abbrev pub succeeded : Result (List BtrfsSubvolume) → Bool
succeeded (ok found) = true
succeeded (err e) = false

module _ (p : RollbackPlan) where
  pub has_error-check_filesystem :
      (system : SystemInfo)
      → has_error (check_filesystem system p)
        ≡ (has_error p || not (text_eq system.root_fstype (text "btrfs")))
  unfolding check_filesystem
  has_error-check_filesystem system = grind (arith, has_error-add)

  pub has_error-check_rootflags :
      has_error (check_rootflags p) ≡ (has_error p || is_empty p.target_subvolume)
  unfolding check_rootflags
  has_error-check_rootflags = grind (arith, has_error-add)

  pub has_error-check_snapper :
      (snapper : SnapperConfig) (config : AppConfig)
      → has_error (check_snapper snapper config p)
        ≡ (has_error p || not (text_eq snapper.subvolume (text "/")))
  unfolding check_snapper
  has_error-check_snapper snapper config = grind (arith, has_error-add)

  pub has_error-check_snapshot :
      (snapshots : List SnapshotInfo) (n : ℕ)
      → p.snapshot_number ≡ some n
      → has_error (check_snapshot snapshots p) ≡ (
          has_error p
          || not (is_some (find_if (λ (item : SnapshotInfo). item.number == n) snapshots)))
  unfolding check_snapshot
  has_error-check_snapshot snapshots n e = rw (e, check_snapshot) (has_error-with_snapshot p n _)

  pub has_error-check_target_exists :
      (subvolumes : List BtrfsSubvolume)
      → has_error (check_target_exists subvolumes p) ≡ (
          has_error p
          || (not (is_empty p.target_subvolume)
              && not (contains_subvolume subvolumes p.target_subvolume)))
  unfolding check_target_exists
  has_error-check_target_exists subvolumes = grind (arith, has_error-add)

  pub has_error-check_source_exists :
      (subvolumes : List BtrfsSubvolume)
      → has_error (check_source_exists subvolumes p) ≡ (
          has_error p
          || (not (is_empty p.source_snapshot_subvolume)
              && not (contains_subvolume subvolumes p.source_snapshot_subvolume)))
  unfolding check_source_exists
  has_error-check_source_exists subvolumes = grind (arith, has_error-add)

  pub has_error-name_subvolumes :
      (id : Text) (subvolumes : List BtrfsSubvolume) (n : ℕ)
      → p.snapshot_number ≡ some n
      → is_empty p.target_subvolume ≡ false
      → has_error (name_subvolumes id subvolumes p) ≡ (
          has_error p
          || contains_subvolume subvolumes (preserved_name p.target_subvolume n id)
          || contains_subvolume subvolumes (replacement_name p.target_subvolume n id))
  unfolding name_subvolumes
  has_error-name_subvolumes id subvolumes n e h =
      let named = with_names id p n in
      rw (e, name_subvolumes)
        (rw h (
          has_error-check_replacement subvolumes (check_preserved subvolumes named)
          ∙ ap
              (λ b.
                b
                || contains_subvolume subvolumes
                    (check_preserved subvolumes named).replacement_subvolume)
              (has_error-check_preserved subvolumes named)
          ∙ rw replacement-check_preserved (unfold with_names in refl)))

  pub has_error-list_subvolumes :
      (system : SystemInfo) (answer : Result (List BtrfsSubvolume))
      → text_eq system.root_fstype (text "btrfs") ≡ true
      → has_error (list_subvolumes system answer p) ≡ (has_error p || not (succeeded answer))
  unfolding list_subvolumes
  has_error-list_subvolumes system (ok found) h = ground arith
  has_error-list_subvolumes system (err e) h = grind (arith, has_error-add)

  -- No step takes an error back.
  pub check_snapshot_mono :
      (snapshots : List SnapshotInfo)
      → has_error p ≡ true
      → has_error (check_snapshot snapshots p) ≡ true
  unfolding check_snapshot
  check_snapshot_mono snapshots h = elim (Option-cases p.snapshot_number) [
    | inl e ↦ rw (e, check_snapshot) h
    | inr (n, e) ↦ has_error-check_snapshot snapshots n e ∙ ground arith
  ]

  pub name_subvolumes_mono :
      (id : Text) (subvolumes : List BtrfsSubvolume)
      → has_error p ≡ true
      → has_error (name_subvolumes id subvolumes p) ≡ true
  unfolding name_subvolumes
  name_subvolumes_mono id subvolumes h = elim (Option-cases p.snapshot_number) [
    | inl e ↦ rw (e, name_subvolumes) h
    | inr (n, e) ↦ elim (Bool-cases (is_empty p.target_subvolume)) [
      | inl f ↦ rw (e, name_subvolumes) (rw f h)
      | inr f ↦ has_error-name_subvolumes id subvolumes n e f ∙ ground arith
    ]
  ]

  pub list_subvolumes_mono :
      (system : SystemInfo) (answer : Result (List BtrfsSubvolume))
      → has_error p ≡ true
      → has_error (list_subvolumes system answer p) ≡ true
  unfolding list_subvolumes
  list_subvolumes_mono system (ok found) h = h
  list_subvolumes_mono system (err e) h = grind (arith, has_error-add)
