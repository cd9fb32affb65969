-- ===== src/Rollback/Planner.antt =====
-- `RollbackPlanner::build`, one function for each of its steps. `subvolumes` is what
-- `BtrfsClient::list_subvolumes("/")` returns or throws, which the planner asks for on Btrfs only.
mod Errors
mod BootMode
mod Inspection
pub mod Eligibility
use limine_manager.Prelude.{
  ℕ, Bool, true, false, not, ◌&&◌, ◌||◌, Option, none, some, List, [], ◌∷◌, ◌++◌, ◌==◌,
  if◌then◌else◌, is_empty, any_of, find_if, Text, text, text_eq, Error, runtime_error,
  invalid_argument, logic_error, out_of_range, Result, ok, err, ◌>>=◌,
}
use limine_manager.Decimal.{to_string}
use limine_manager.Domain.Rollback.{
  RollbackPlan, RollbackSeverity, info, warning, error, normal_root, managed_snapshot, unknown,
  RollbackDiagnostic,
}
use limine_manager.Model.{SystemInfo, SnapperConfig, SnapshotInfo, AppConfig, BtrfsSubvolume}
use limine_manager.Rollback.Naming.{
  normalize_btrfs_source, contains_subvolume, parse_snapshot_number, rootflags_subvolume,
}

-- the arguments of `build`, the transaction id of the planner's options, and the client's answer
pub record Inputs : Type 0 where
  pub system : SystemInfo
  pub snapper_config : SnapperConfig
  pub snapshots : List SnapshotInfo
  pub config : AppConfig
  pub transaction_id : Text
  pub subvolumes : Result (List BtrfsSubvolume)

unfoldable pub add : RollbackPlan → RollbackSeverity → Text → Text → RollbackPlan
add plan severity code message = record plan {
  diagnostics =
      plan.diagnostics ++ (record { severity = severity; code = code; message = message } ∷ []);
}

abbrev pub is_error : RollbackSeverity → Bool
is_error info = false
is_error warning = false
is_error error = true

pub any_error : List RollbackDiagnostic → Bool
any_error = any_of (λ (item : RollbackDiagnostic). is_error item.severity)

abbrev pub has_error : RollbackPlan → Bool
has_error plan = any_error plan.diagnostics

pub initial_plan : SystemInfo → RollbackPlan
initial_plan system = record {
  eligible = false;
  boot_mode = unknown;
  btrfs_source = normalize_btrfs_source system.root_source;
  current_subvolume = system.root_subvolume;
  target_subvolume = rootflags_subvolume system.kernel_cmdline;
  source_snapshot_subvolume = [];
  snapshot_number = none;
  source_snapshot_read_only = false;
  preserved_subvolume = [];
  replacement_subvolume = [];
  operations = [];
  diagnostics = [];
}

pub check_filesystem : SystemInfo → RollbackPlan → RollbackPlan
check_filesystem system plan =
    if not (text_eq system.root_fstype (text "btrfs"))
    then add plan error (text "root.filesystem")
        (text "Rollback requires Btrfs; detected " ++ system.root_fstype)
    else add plan info (text "root.filesystem") (text "Root filesystem is Btrfs")

pub check_rootflags : RollbackPlan → RollbackPlan
check_rootflags plan =
    if is_empty plan.target_subvolume
    then add plan error (text "kernel.rootflags")
        (text "Canonical kernel command line must define rootflags=subvol=<main-root>")
    else plan

-- what the parsed snapshot number makes of the plan
pub with_number : RollbackPlan → Option ℕ → RollbackPlan
with_number plan (some n) =
    add
      (record plan {
        snapshot_number = some n;
        boot_mode = managed_snapshot;
        source_snapshot_subvolume = plan.current_subvolume;
      })
      info (text "rollback.boot_mode") (text "Booted from managed snapshot #" ++ to_string n)
with_number plan none =
    add (record plan { snapshot_number = none; boot_mode = unknown }) error
      (text "rollback.boot_mode")
      (text "Current root subvolume is not a managed Snapper snapshot: " ++ plan.current_subvolume)

pub check_boot_mode : AppConfig → RollbackPlan → Result RollbackPlan
unfolding with_number
check_boot_mode config plan =
    if is_empty plan.current_subvolume
    then ok (
        add plan error (text "root.subvolume")
          (text "Unable to detect the currently booted Btrfs subvolume"))
    else if not (is_empty plan.target_subvolume)
        && text_eq plan.current_subvolume plan.target_subvolume
    then ok (
        add (record plan { boot_mode = normal_root }) error (text "rollback.boot_mode")
          (text "Refusing rollback while booted from the normal root subvolume "
            ++ plan.current_subvolume))
    else (do
      number ← parse_snapshot_number plan.current_subvolume config.snapshots_subvolume
      ok (with_number plan number))

pub check_snapper : SnapperConfig → AppConfig → RollbackPlan → RollbackPlan
check_snapper snapper_config config plan =
    if not (text_eq snapper_config.subvolume (text "/"))
    then add plan error (text "snapper.subvolume") (
        text "Snapper config '"
        ++ config.snapper_config
        ++ text "' manages '"
        ++ snapper_config.subvolume
        ++ text "', expected '/'")
    else plan

-- `snapshot` is the result of std::find_if, `none` for the end iterator
with_snapshot : RollbackPlan → ℕ → Option SnapshotInfo → RollbackPlan
with_snapshot plan n none = add plan error (text "snapshot.snapper") (
    text "Snapshot #"
    ++ to_string n
    ++ text " is not reported by the configured Snapper root config")
with_snapshot plan n (some snapshot) =
    let noted = record plan { source_snapshot_read_only = snapshot.read_only } in
    if snapshot.read_only
    then add noted info (text "snapshot.read_only")
        (text "Source snapshot is read-only and will not be modified")
    else add noted warning (text "snapshot.read_only")
        (text "Source snapshot is read-write; rollback will still create a separate writable @")

pub check_snapshot : List SnapshotInfo → RollbackPlan → RollbackPlan
unfolding with_snapshot
check_snapshot snapshots plan = elim plan.snapshot_number [
  | none ↦ plan
  | some n ↦ with_snapshot plan n (find_if (λ (item : SnapshotInfo). item.number == n) snapshots)
]

unfoldable pub what : Error → Text
what (runtime_error m) = m
what (invalid_argument m) = m
what (logic_error m) = m
what (out_of_range m) = m

-- the list is empty where it was not asked for, and where the client threw
pub listed : SystemInfo → Result (List BtrfsSubvolume) → List BtrfsSubvolume
listed system (ok found) = if text_eq system.root_fstype (text "btrfs") then found else []
listed system (err e) = []

pub list_subvolumes : SystemInfo → Result (List BtrfsSubvolume) → RollbackPlan → RollbackPlan
unfolding what
list_subvolumes system (ok found) plan = plan
list_subvolumes system (err e) plan =
    if text_eq system.root_fstype (text "btrfs")
    then add plan error (text "btrfs.subvolumes")
        (text "Unable to inspect Btrfs subvolumes: " ++ what e)
    else plan

pub check_target_exists : List BtrfsSubvolume → RollbackPlan → RollbackPlan
check_target_exists subvolumes plan =
    if not (is_empty plan.target_subvolume)
      && not (contains_subvolume subvolumes plan.target_subvolume)
    then add plan error (text "target.exists")
        (text "Main root subvolume does not exist: " ++ plan.target_subvolume)
    else plan

pub check_source_exists : List BtrfsSubvolume → RollbackPlan → RollbackPlan
check_source_exists subvolumes plan =
    if not (is_empty plan.source_snapshot_subvolume)
      && not (contains_subvolume subvolumes plan.source_snapshot_subvolume)
    then add plan error (text "snapshot.exists")
        (text "Source snapshot subvolume does not exist: " ++ plan.source_snapshot_subvolume)
    else plan

unfoldable pub preserved_name : Text → ℕ → Text → Text
preserved_name target n transaction_id =
    target ++ (text ".limine-manager.rollback." ++ (to_string n ++ (b'.' ∷ transaction_id)))

unfoldable pub replacement_name : Text → ℕ → Text → Text
replacement_name target n transaction_id =
    target ++ (text ".limine-manager.new." ++ (to_string n ++ (b'.' ∷ transaction_id)))

check_preserved : List BtrfsSubvolume → RollbackPlan → RollbackPlan
check_preserved subvolumes plan =
    if contains_subvolume subvolumes plan.preserved_subvolume
    then add plan error (text "preserve.conflict")
        (text "Recovery subvolume already exists: " ++ plan.preserved_subvolume)
    else plan

check_replacement : List BtrfsSubvolume → RollbackPlan → RollbackPlan
check_replacement subvolumes plan =
    if contains_subvolume subvolumes plan.replacement_subvolume
    then add plan error (text "replacement.conflict")
        (text "Temporary replacement subvolume already exists: " ++ plan.replacement_subvolume)
    else plan

-- the names themselves
with_names : Text → RollbackPlan → ℕ → RollbackPlan
with_names transaction_id plan n = record plan {
  preserved_subvolume = preserved_name plan.target_subvolume n transaction_id;
  replacement_subvolume = replacement_name plan.target_subvolume n transaction_id;
}

pub name_subvolumes : Text → List BtrfsSubvolume → RollbackPlan → RollbackPlan
unfolding check_preserved check_replacement
name_subvolumes transaction_id subvolumes plan = elim plan.snapshot_number [
  | none ↦ plan
  | some n ↦
      if not (is_empty plan.target_subvolume)
      then check_replacement subvolumes
          (check_preserved subvolumes (with_names transaction_id plan n))
      else plan
]

operations_for : RollbackPlan → List Text
operations_for plan =
    text "Validate rollback preconditions"
    ∷ text "Acquire rollback lock"
    ∷ text "Mount Btrfs top-level with subvolid=5"
    ∷ (text "Create writable replacement from snapshot "
        ++ elim plan.snapshot_number [ none ↦ text "?" | some n ↦ to_string n ])
    ∷ (text "Preserve current " ++ plan.target_subvolume ++ text " as " ++ plan.preserved_subvolume)
    ∷ (text "Move writable replacement into " ++ plan.target_subvolume)
    ∷ text "Verify resulting Btrfs topology"
    ∷ text "Regenerate limine.conf with the existing apply workflow"
    ∷ text "Require reboot"
    ∷ []

pub conclude : RollbackPlan → RollbackPlan
unfolding operations_for
conclude plan = record plan { eligible = not (has_error plan); operations = operations_for plan }

-- the steps behind the boot mode
pub inspect : Inputs → RollbackPlan → RollbackPlan
inspect i plan =
    let subvolumes = listed i.system i.subvolumes in
    name_subvolumes i.transaction_id subvolumes (
      check_source_exists subvolumes (
        check_target_exists subvolumes (
          list_subvolumes i.system i.subvolumes
            (check_snapshot i.snapshots (check_snapper i.snapper_config i.config plan)))))

-- the steps up to the boot mode
pub front : Inputs → Result RollbackPlan
front i =
    check_boot_mode i.config (check_rootflags (check_filesystem i.system (initial_plan i.system)))

unfoldable pub build : Inputs → Result RollbackPlan
unfolding front inspect conclude
build i = do plan ← front i; ok (conclude (inspect i plan))
