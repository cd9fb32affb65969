-- ===== src/Rollback/Planner/BootMode.antt =====
-- What the steps of the planner up to the boot mode establish when they add no error.
use limine_manager.Prelude.{
  ℕ, ◌≡◌, refl, ◌⊎◌, ◌∙◌, sym, ap, inl, inr, true, false, not, ◌&&◌, ◌||◌, Option, none, some, ◌++◌,
  is_empty, Bool-cases, Text, text, text_eq, Result, ok, err, ◌>>=◌, arith,
}
use limine_manager.Decimal.{to_string}
use limine_manager.Domain.Rollback.{RollbackPlan, info, managed_snapshot}
use limine_manager.Model.{AppConfig}
use limine_manager.Rollback.Naming.{parse_snapshot_number, rootflags_subvolume}
use limine_manager.Rollback.Planner.{
  Inputs, add, any_error, has_error, initial_plan, check_filesystem, check_rootflags, with_number,
  check_boot_mode, front,
}
use limine_manager.Rollback.Planner.Errors.{has_error-add, has_error-check_rootflags}

abbrev pub target_of : Inputs → Text
target_of i = rootflags_subvolume i.system.kernel_cmdline

-- What the first steps establish when they add no error.
pub record Managed (i : Inputs) (p : RollbackPlan) (n : ℕ) : Type 0 where
  pub btrfs : text_eq i.system.root_fstype (text "btrfs") ≡ true
  pub named : is_empty (target_of i) ≡ false
  pub detected : is_empty i.system.root_subvolume ≡ false
  pub elsewhere : text_eq i.system.root_subvolume (target_of i) ≡ false
  pub parsed :
      parse_snapshot_number i.system.root_subvolume i.config.snapshots_subvolume ≡ ok (some n)
  pub number_is : p.snapshot_number ≡ some n
  pub target_is : p.target_subvolume ≡ target_of i
  pub source_is : p.source_snapshot_subvolume ≡ i.system.root_subvolume
  pub clean : has_error p ≡ false

unfoldable pub begin : Inputs → RollbackPlan
begin i = check_rootflags (check_filesystem i.system (initial_plan i.system))

pub begin-names :
    (i : Inputs)
    → ((begin i).target_subvolume ≡ target_of i)
      × ((begin i).current_subvolume ≡ i.system.root_subvolume)
unfolding begin check_rootflags check_filesystem add initial_plan
begin-names i = ground arith

pub has_error-begin :
    (i : Inputs)
    → has_error (begin i)
      ≡ (not (text_eq i.system.root_fstype (text "btrfs")) || is_empty (target_of i))
unfolding begin
has_error-begin i =
    has_error-check_rootflags (check_filesystem i.system (initial_plan i.system))
    ∙ unfold check_filesystem add initial_plan any_error in ground arith

-- A boot mode without an error comes from a parsed snapshot number.
pub record Numbered (config : AppConfig) (p q : RollbackPlan) (n : ℕ) : Type 0 where
  pub detected : is_empty p.current_subvolume ≡ false
  pub elsewhere :
      (not (is_empty p.target_subvolume) && text_eq p.current_subvolume p.target_subvolume) ≡ false
  pub parsed : parse_snapshot_number p.current_subvolume config.snapshots_subvolume ≡ ok (some n)
  pub result : with_number p (some n) ≡ q

with_number_cases :
    (config : AppConfig) (p q : RollbackPlan) (number : Option ℕ)
    → is_empty p.current_subvolume ≡ false
    → (not (is_empty p.target_subvolume) && text_eq p.current_subvolume p.target_subvolume) ≡ false
    → parse_snapshot_number p.current_subvolume config.snapshots_subvolume ≡ ok number
    → with_number p number ≡ q
    → (has_error q ≡ true) ⊎ ((n : ℕ) × Numbered config p q n)
with_number_cases config p q none d e f h =
    inl (rw (← h) (unfold with_number in grind (arith, has_error-add)))
with_number_cases config p q (some n) d e f h =
    inr (n, record { detected = d; elsewhere = e; parsed = f; result = h })

bind_number :
    (config : AppConfig) (p q : RollbackPlan) (r : Result (Option ℕ))
    → is_empty p.current_subvolume ≡ false
    → (not (is_empty p.target_subvolume) && text_eq p.current_subvolume p.target_subvolume) ≡ false
    → parse_snapshot_number p.current_subvolume config.snapshots_subvolume ≡ r
    → (r >>= λ number. ok (with_number p number)) ≡ ok q
    → (has_error q ≡ true) ⊎ ((n : ℕ) × Numbered config p q n)
bind_number config p q (ok number) d e f h =
    with_number_cases config p q number d e f (ground arith)
bind_number config p q (err _) d e f h = cc

check_boot_mode_cases :
    (config : AppConfig) (p q : RollbackPlan)
    → check_boot_mode config p ≡ ok q
    → (has_error q ≡ true) ⊎ ((n : ℕ) × Numbered config p q n)
unfolding check_boot_mode
check_boot_mode_cases config p q h = elim (Bool-cases (is_empty p.current_subvolume)) [
  | inl missing ↦ inl (grind (arith, has_error-add))
  | inr detected ↦
      elim (Bool-cases
        (not (is_empty p.target_subvolume) && text_eq p.current_subvolume p.target_subvolume)) [
          | inl same ↦ inl (grind (arith, has_error-add))
          | inr elsewhere ↦
              bind_number config p q _ detected elsewhere refl (rw elsewhere at (rw detected at h))
        ]
]

pub has_error-with_number :
    (p : RollbackPlan) (n : ℕ) → has_error (with_number p (some n)) ≡ has_error p
unfolding with_number
has_error-with_number p n =
    has_error-add
      (record p {
        snapshot_number = some n;
        boot_mode = managed_snapshot;
        source_snapshot_subvolume = p.current_subvolume;
      })
      info (text "rollback.boot_mode") (text "Booted from managed snapshot #" ++ to_string n)
    ∙ ground arith

pub managed :
    (i : Inputs) (p : RollbackPlan) (n : ℕ)
    → Numbered i.config (begin i) p n
    → has_error p ≡ false
    → Managed i p n
unfolding with_number add
managed i p n f clean =
    let begun : has_error (begin i) ≡ false =
      sym (has_error-with_number (begin i) n) ∙ ap (λ q. has_error q) f.result ∙ clean in
    record {
      btrfs = ground (arith, has_error-begin i);
      named = ground (arith, has_error-begin i);
      detected = ground (arith, begin-names i);
      elsewhere = ground (arith, has_error-begin i, begin-names i);
      parsed = ground (arith, begin-names i);
      number_is = ground arith;
      target_is = ground (arith, begin-names i);
      source_is = ground (arith, begin-names i);
      clean = clean;
    }

pub boot_mode_cases :
    (i : Inputs) (p : RollbackPlan)
    → front i ≡ ok p
    → (has_error p ≡ true) ⊎ ((n : ℕ) × Managed i p n)
unfolding front
boot_mode_cases i p h = elim (check_boot_mode_cases i.config (begin i) p (unfold begin in h)) [
  | inl e ↦ inl e
  | inr (n, f) ↦ elim (Bool-cases (has_error p)) [
    | inl e ↦ inl e
    | inr clean ↦ inr (n, managed i p n f clean)
  ]
]
