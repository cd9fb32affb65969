-- ===== src/Rollback/Planner/Eligibility.antt =====
-- When `RollbackPlanner::build` calls a plan eligible.
use limine_manager.Prelude.{
  ℕ, ◌≡◌, refl, ◌≢◌, ◌∙◌, sym, ap, inl, inr, Bool, true, false, not, ◌↔◌, some, [], ◌==◌, is_empty,
  find_if, is_some, is_empty-of_ne, text, text_eq_iff, ok, >>=-eq-ok, ok-injective, arith,
}
use limine_manager.Domain.Rollback.{RollbackPlan}
use limine_manager.Model.{SnapshotInfo}
use limine_manager.Rollback.Naming.{contains_subvolume, parse_snapshot_number}
use limine_manager.Rollback.Planner.{
  Inputs, has_error, with_number, check_boot_mode, listed, preserved_name, replacement_name, front,
  conclude, inspect, build,
}
use limine_manager.Rollback.Planner.Errors.{succeeded}
use limine_manager.Rollback.Planner.BootMode.{
  target_of, Managed, Numbered, begin, begin-names, has_error-begin, has_error-with_number, managed,
  boot_mode_cases,
}
use limine_manager.Rollback.Planner.Inspection.{inspect_bad, inspect_mono, has_error-inspect}

-- What an eligible plan rests on. `number` is the snapshot that is booted.
pub record IsSafe (i : Inputs) (number : ℕ) : Type 0 where
  pub btrfs : i.system.root_fstype ≡ text "btrfs"
  pub target_named : target_of i ≢ []
  pub booted_known : i.system.root_subvolume ≢ []
  pub booted_elsewhere : i.system.root_subvolume ≢ target_of i
  pub booted_snapshot :
      parse_snapshot_number i.system.root_subvolume i.config.snapshots_subvolume ≡ ok (some number)
  pub manages_root : i.snapper_config.subvolume ≡ text "/"
  pub reported :
      is_some (find_if (λ (item : SnapshotInfo). item.number == number) i.snapshots) ≡ true
  pub inspected : succeeded i.subvolumes ≡ true
  pub target_exists : contains_subvolume (listed i.system i.subvolumes) (target_of i) ≡ true
  pub source_exists :
      contains_subvolume (listed i.system i.subvolumes) i.system.root_subvolume ≡ true
  pub preserved_free :
      contains_subvolume
        (listed i.system i.subvolumes)
        (preserved_name (target_of i) number i.transaction_id)
      ≡ false
  pub replacement_free :
      contains_subvolume
        (listed i.system i.subvolumes)
        (replacement_name (target_of i) number i.transaction_id)
      ≡ false

abbrev eligible_of : RollbackPlan → Bool
eligible_of plan = plan.eligible

eligible-conclude :
    (i : Inputs) (plan : RollbackPlan)
    → build i ≡ ok plan
    → (p : RollbackPlan) × (front i ≡ ok p) × (plan.eligible ≡ not (has_error (inspect i p)))
unfolding build conclude
eligible-conclude i plan h =
    let (p, e, f) = >>=-eq-ok (front i) (λ p. ok (conclude (inspect i p))) h in
    (p, e, sym (ap eligible_of (ok-injective f)))

current_known : (i : Inputs) (n : ℕ) → IsSafe i n → is_empty (begin i).current_subvolume ≡ false
current_known i n s = rw (begin-names i).1 (is_empty-of_ne _ s.booted_known)

check_boot_mode-IsSafe :
    (i : Inputs) (n : ℕ)
    → IsSafe i n
    → check_boot_mode i.config (begin i) ≡ ok (with_number (begin i) (some n))
unfolding check_boot_mode
check_boot_mode-IsSafe i n s =
    let parsed : parse_snapshot_number (begin i).current_subvolume i.config.snapshots_subvolume
        ≡ ok (some n) =
      ap (λ t. parse_snapshot_number t i.config.snapshots_subvolume) (begin-names i).1
      ∙ s.booted_snapshot in
    ground (
      arith,
      parsed,
      current_known i n s,
      begin-names i,
      text_eq_iff i.system.root_subvolume (target_of i),
    )

front-IsSafe : (i : Inputs) (n : ℕ) → IsSafe i n → front i ≡ ok (with_number (begin i) (some n))
unfolding front
front-IsSafe i n s = unfold begin in check_boot_mode-IsSafe i n s

IsSafe-inspect_bad :
    (i : Inputs) (p : RollbackPlan) (n : ℕ) → Managed i p n → inspect_bad i n ≡ false → IsSafe i n
IsSafe-inspect_bad i p n m b = record {
  btrfs = (text_eq_iff _ _).0 m.btrfs;
  target_named = λ z. ground (arith, m.named);
  booted_known = λ z. ground (arith, m.detected);
  booted_elsewhere =
      λ z. ground (arith, m.elsewhere, text_eq_iff i.system.root_subvolume (target_of i));
  booted_snapshot = m.parsed;
  manages_root = ground (arith, b, text_eq_iff i.snapper_config.subvolume (text "/"));
  reported = ground (arith, b);
  inspected = ground (arith, b);
  target_exists = ground (arith, b);
  source_exists = ground (arith, b);
  preserved_free = ground (arith, b);
  replacement_free = ground (arith, b);
}

inspect_bad-IsSafe : (i : Inputs) (n : ℕ) → IsSafe i n → inspect_bad i n ≡ false
inspect_bad-IsSafe i n s = ground (arith, text_eq_iff i.snapper_config.subvolume (text "/"))

pub eligible→IsSafe :
    (i : Inputs) (plan : RollbackPlan)
    → build i ≡ ok plan
    → plan.eligible ≡ true
    → (n : ℕ) × IsSafe i n
eligible→IsSafe i plan h e =
    let (p, f, k) = eligible-conclude i plan h in
    elim (boot_mode_cases i p f) [
      | inl bad ↦ ground (arith, inspect_mono i p bad, k, e)
      | inr (n, m) ↦
          (n, IsSafe-inspect_bad i p n m (ground (arith, has_error-inspect i p n m, k, e)))
    ]

pub IsSafe→eligible :
    (i : Inputs) (plan : RollbackPlan) (n : ℕ)
    → build i ≡ ok plan
    → IsSafe i n
    → plan.eligible ≡ true
IsSafe→eligible i plan n h s =
    let (p, f, k) = eligible-conclude i plan h in
    let q = with_number (begin i) (some n) in
    let same : q ≡ p = ok-injective (sym (front-IsSafe i n s) ∙ f) in
    let clean : has_error q ≡ false =
      has_error-with_number (begin i) n
      ∙ has_error-begin i
      ∙ ground (
        arith,
        is_empty-of_ne (target_of i) s.target_named,
        text_eq_iff i.system.root_fstype (text "btrfs"),
      ) in
    let numbered : Numbered i.config (begin i) q n = record {
      detected = current_known i n s;
      elsewhere = ground (arith, begin-names i, text_eq_iff i.system.root_subvolume (target_of i));
      parsed =
          ap (λ t. parse_snapshot_number t i.config.snapshots_subvolume) (begin-names i).1
          ∙ s.booted_snapshot;
      result = refl;
    } in
    k
    ∙ ap (λ r. not (has_error (inspect i r))) (sym same)
    ∙ ap not (has_error-inspect i q n (managed i q n numbered clean) ∙ inspect_bad-IsSafe i n s)

built-IsSafe :
    (i : Inputs) (n : ℕ)
    → IsSafe i n
    → build i ≡ ok (conclude (inspect i (with_number (begin i) (some n))))
unfolding build
built-IsSafe i n s = rw (front-IsSafe i n s) refl

-- `build` returns an eligible plan exactly when `IsSafe` holds for some snapshot number: the root
-- is Btrfs, the command line names a target that is not the booted subvolume, the booted subvolume
-- is a managed snapshot that Snapper reports for `/`, the subvolume list could be read and has both
-- subvolumes, and neither new name is taken.
pub eligible_iff :
    (i : Inputs)
    → ((plan : RollbackPlan) × (build i ≡ ok plan) × (plan.eligible ≡ true))
      ↔ ((n : ℕ) × IsSafe i n)
eligible_iff i = (
  λ (plan, h, e). eligible→IsSafe i plan h e,
  λ (n, s).
      let plan = conclude (inspect i (with_number (begin i) (some n))) in
      let made = built-IsSafe i n s in (plan, made, IsSafe→eligible i plan n made s),
)
