-- ===== src/Menu/Preview.antt =====
-- src/application/preview_service.cpp: the menu for a machine. `relative` is
-- std::filesystem::relative, which reads the file system: nothing where it reports an error.
use limine_manager.Prelude.{
  ℕ, suc, Bool, true, false, not, ◌&&◌, ◌||◌, Option, none, some, List, [], ◌∷◌, ◌++◌, ltb, leb,
  if◌then◌else◌, is_empty, length, any_of, keep_if, map, take, Text, text, text_eq, starts_with,
  Result, ok, ◌>>=◌,
}
use limine_manager.Decimal.{to_string}
use limine_manager.FilePath.{FilePath, filename}
use limine_manager.Model.{SystemInfo, SnapshotInfo, AppConfig, KernelInstallation}
use limine_manager.Domain.KernelCmdline.{KernelCommandLine, set, render}
use limine_manager.Config.Assign.{text_lt}
use limine_manager.Config.Themes.{ThemePreset, find_theme}
use limine_manager.Validation.SecureBoot.{hash_of}
use limine_manager.Menu.{
  LinuxBootSpec, MenuNode, no_nodes, add_node, MenuDocument, directory_node, linux_node, add_child,
}
use limine_manager.Menu.Selection.{select_menu_snapshots}

abbrev pub Relative : Type 0
Relative = FilePath → FilePath → Option FilePath

relative_or_name : Option FilePath → FilePath → FilePath
relative_or_name none absolute = filename absolute
relative_or_name (some path) absolute =
    if is_empty path || starts_with path (text "..") then filename absolute else path

pub limine_path : Relative → FilePath → FilePath → SystemInfo → Bool → Text
unfolding relative_or_name
limine_path relative boot_mount absolute system hash_resource =
    let result = text "boot():/" ++ relative_or_name (relative absolute boot_mount) absolute in
    let hash = hash_of system.secure_boot.resource_hashes absolute in
    if hash_resource && system.secure_boot.enabled && not (is_empty hash)
    then result ++ (b'#' ∷ hash)
    else result

unfoldable pub rootflags_for : Text → ℕ → Text
rootflags_for snapshots_subvolume number =
    text "subvol=" ++ (snapshots_subvolume ++ (b'/' ∷ (to_string number ++ text "/snapshot")))

-- the command line of a snapshot's entries, before it is rendered
unfoldable pub snapshot_arguments : KernelCommandLine → Text → ℕ → KernelCommandLine
snapshot_arguments cmdline snapshots_subvolume number =
    set cmdline (text "rootflags") (rootflags_for snapshots_subvolume number)

unfoldable pub snapshot_cmdline : KernelCommandLine → Text → ℕ → Text
snapshot_cmdline cmdline snapshots_subvolume number =
    render (snapshot_arguments cmdline snapshots_subvolume number)

pub display_date : Text → Text
display_date date = if leb 16 (length date) then take 16 date else date

pub modules_for : Relative → KernelInstallation → SystemInfo → List Text
unfolding limine_path
modules_for relative kernel system =
    map (λ initrd. limine_path relative system.boot_mount initrd system true) kernel.initrds

pub kernel_comment : KernelInstallation → Text
kernel_comment kernel =
    if not (is_empty kernel.release)
    then text "Kernel " ++ kernel.release
    else text "Kernel release unavailable (" ++ (kernel.package_base ++ text ")")

-- std::unordered_set::contains
abbrev contains_name : List Text → Text → Bool
contains_name names name = any_of (λ other. text_eq other name) names

unfoldable pub is_selected : AppConfig → KernelInstallation → Bool
is_selected config kernel =
    (is_empty config.include_kernels || contains_name config.include_kernels kernel.package_base)
    && not (contains_name config.exclude_kernels kernel.package_base)

-- the index of the first occurrence, which is what `emplace` keeps
rank_of : ℕ → List Text → Text → Option ℕ
rank_of i [] name = none
rank_of i (other ∷ rest) name =
    let later = rank_of (suc i) rest name in if text_eq other name then some i else later

ranked_before : Option ℕ → Option ℕ → Bool → Bool
ranked_before none none otherwise = otherwise
ranked_before none (some r) otherwise = false
ranked_before (some l) none otherwise = true
ranked_before (some l) (some r) otherwise = ltb l r

-- the comparator of `select_kernels`
kernel_before : AppConfig → KernelInstallation → KernelInstallation → Bool
unfolding ranked_before rank_of
kernel_before config lhs rhs =
    ranked_before (rank_of 0 config.kernel_order lhs.package_base)
      (rank_of 0 config.kernel_order rhs.package_base)
      (if lhs.running && not rhs.running
        then true
        else if not lhs.running && rhs.running
        then false
        else text_lt lhs.package_base rhs.package_base)

insert_kernel : AppConfig → KernelInstallation → List KernelInstallation → List KernelInstallation
unfolding kernel_before
insert_kernel config k [] = k ∷ []
insert_kernel config k (l ∷ ls) =
    let later = insert_kernel config k ls in
    if kernel_before config l k then l ∷ later else k ∷ l ∷ ls

-- std::stable_sort, as insertion in front of equal elements
pub sort_kernels : AppConfig → List KernelInstallation → List KernelInstallation
unfolding insert_kernel
sort_kernels config [] = []
sort_kernels config (k ∷ ks) = insert_kernel config k (sort_kernels config ks)

pub select_kernels : List KernelInstallation → AppConfig → List KernelInstallation
select_kernels kernels config = sort_kernels config (keep_if (is_selected config) kernels)

pub boot_spec : Relative → SystemInfo → KernelInstallation → Text → LinuxBootSpec
unfolding limine_path modules_for
boot_spec relative system kernel cmdline = record {
  protocol = if kernel.unified_kernel_image then text "efi" else text "linux";
  kernel_path =
      limine_path relative system.boot_mount kernel.image system (not kernel.unified_kernel_image);
  module_paths = modules_for relative kernel system;
  cmdline = cmdline;
}

-- an em dash between spaces, in UTF-8
abbrev pub dash : Text
dash = b' ' ∷ 226 ∷ 128 ∷ 148 ∷ b' ' ∷ []

-- the loop over the kernels at the root
unfoldable pub add_kernels :
    Relative → SystemInfo → List KernelInstallation → MenuNode → Result MenuNode
unfolding boot_spec kernel_comment
add_kernels relative system [] parent = ok parent
add_kernels relative system (kernel ∷ rest) parent = do
  added ← add_child parent (
      linux_node kernel.display_name (kernel_comment kernel)
        (boot_spec relative system kernel (render system.kernel_cmdline)))
  add_kernels relative system rest added

pub describe : SnapshotInfo → Text
describe snapshot =
    if is_empty snapshot.description
    then text "Snapper snapshot #" ++ to_string snapshot.number
    else snapshot.description

-- the loop over the kernels below a snapshot
unfoldable pub add_snapshot_kernels :
    Relative
    → SystemInfo
    → AppConfig
    → SnapshotInfo
    → List KernelInstallation
    → MenuNode
    → Result MenuNode
unfolding boot_spec kernel_comment describe snapshot_cmdline
add_snapshot_kernels relative system config snapshot [] parent = ok parent
add_snapshot_kernels relative system config snapshot (kernel ∷ rest) parent = do
  added ← add_child parent (
      linux_node kernel.display_name (describe snapshot ++ (dash ++ kernel_comment kernel)) (
        boot_spec relative system kernel
          (snapshot_cmdline system.kernel_cmdline config.snapshots_subvolume snapshot.number)))
  add_snapshot_kernels relative system config snapshot rest added

-- the loop over the snapshots
unfoldable pub add_snapshots :
    Relative
    → SystemInfo
    → AppConfig
    → List KernelInstallation
    → List SnapshotInfo
    → MenuNode
    → Result MenuNode
unfolding add_snapshot_kernels display_date
add_snapshots relative system config kernels [] parent = ok parent
add_snapshots relative system config kernels (snapshot ∷ rest) parent = do
  below ←
      add_snapshot_kernels relative system config snapshot kernels
        (directory_node (display_date snapshot.date) false)
  added ← add_child parent below
  add_snapshots relative system config kernels rest added

pub theme_options : Option ThemePreset → List (Text × Text)
theme_options none = []
theme_options (some theme) = theme.options

unfoldable pub build_menu :
    Relative → SystemInfo → List SnapshotInfo → AppConfig → Result MenuDocument
unfolding add_kernels add_snapshots theme_options
build_menu relative system snapshots config = do
  let kernels = select_kernels system.kernels config
  root ←
      add_kernels relative system kernels
        (directory_node config.root_menu_title config.root_menu_expanded)
  below ←
      add_snapshots relative system config kernels (select_menu_snapshots snapshots config)
        (directory_node config.snapshots_menu_title config.snapshots_menu_expanded)
  whole ← add_child root below
  ok (record {
    global_options = theme_options (find_theme config.theme_name) ++ config.limine_options;
    roots = add_node whole no_nodes;
  })
