-- ===== src/Menu/Complete.antt =====
-- Every menu that is built can be rendered.
use limine_manager.Prelude.{
  sym, ap, subst, ℕ, ◌+◌, ◌≡◌, refl, ◌∙◌, Bool, true, false, ◌&&◌, Option, none, some, List, [],
  ◌∷◌, Text, and_true, ok, ◌>>=◌, is_ok, is_ok->>=, ◌==◌, >>=-ok, ◌++◌, arith,
}
use limine_manager.Model.{SystemInfo, SnapshotInfo, AppConfig, KernelInstallation}
use limine_manager.Domain.KernelCmdline.{render}
use limine_manager.Menu.{
  add_child, directory_node, NodeKind, directory, linux_entry, LinuxBootSpec, MenuNode, MenuNodes,
  node, no_nodes, add_node, push_node, linux_node,
}
use limine_manager.Menu.Preview.{
  describe, dash, kernel_comment, boot_spec, snapshot_cmdline, display_date, Relative,
  select_kernels, add_kernels, add_snapshot_kernels, add_snapshots, build_menu,
}
use limine_manager.Menu.Selection.{select_menu_snapshots}
use limine_manager.Menu.Limine.{render_node, render_nodes, render_menu}

abbrev entry_complete : NodeKind → Option LinuxBootSpec → Bool
entry_complete directory boot = true
entry_complete linux_entry none = false
entry_complete linux_entry (some boot) = true

-- every Linux entry has its boot specification
mutual
  complete_node : MenuNode → Bool
  complete_node (node kind title comment expanded boot children) =
      entry_complete kind boot && complete_nodes children

  complete_nodes : MenuNodes → Bool
  complete_nodes no_nodes = true
  complete_nodes (add_node n rest) = complete_node n && complete_nodes rest

complete_nodes-push_node :
    (nodes : MenuNodes) (n : MenuNode)
    → complete_nodes nodes ≡ true
    → complete_node n ≡ true
    → complete_nodes (push_node nodes n) ≡ true
unfolding complete_nodes
complete_nodes-push_node no_nodes n h k = ground arith
complete_nodes-push_node (add_node m rest) n h k = ground (arith, complete_nodes-push_node rest n)

mutual
  unfolding render_node complete_node

  render_node_ok :
      (n : MenuNode) (depth : ℕ)
      → (depth == 0) ≡ false
      → complete_node n ≡ true
      → is_ok (render_node n depth) ≡ true
  render_node_ok (node directory title comment expanded boot children) depth deep h = rw deep (
      is_ok->>= (render_nodes children (depth + 1)) _
        (render_nodes_ok children (depth + 1) (ground arith) h) (λ t. refl))
  render_node_ok (node linux_entry title comment expanded none children) depth deep h = cc
  render_node_ok (node linux_entry title comment expanded (some boot) children) depth deep h =
      rw deep (
        is_ok->>= (render_nodes children (depth + 1)) _
          (render_nodes_ok children (depth + 1) (ground arith) h) (λ t. refl))

  render_nodes_ok :
      (ns : MenuNodes) (depth : ℕ)
      → (depth == 0) ≡ false
      → complete_nodes ns ≡ true
      → is_ok (render_nodes ns depth) ≡ true
  render_nodes_ok no_nodes depth deep h = refl
  render_nodes_ok (add_node n rest) depth deep h =
      let (a, b) = and_true (complete_node n) (complete_nodes rest) h in
      is_ok->>= (render_node n depth) _ (render_node_ok n depth deep a) (λ first.
        is_ok->>= (render_nodes rest depth) _ (render_nodes_ok rest depth deep b) (λ later. refl))

-- A directory whose entries are all complete.
record IsMenu (n : MenuNode) : Type 0 where
  title : Text
  comment : Option Text
  expanded : Bool
  boot : Option LinuxBootSpec
  children : MenuNodes
  shape : n ≡ node directory title comment expanded boot children
  complete : complete_nodes children ≡ true

complete-IsMenu : (n : MenuNode) → IsMenu n → complete_node n ≡ true
unfolding complete_node
complete-IsMenu n m = subst (λ k. complete_node k ≡ true) (sym m.shape) m.complete

IsMenu-add_child :
    (n child : MenuNode)
    → IsMenu n
    → complete_node child ≡ true
    → (k : MenuNode) × (add_child n child ≡ ok k) × IsMenu k
IsMenu-add_child n child m h = (
  node directory m.title m.comment m.expanded m.boot (push_node m.children child),
  ap (λ x. add_child x child) m.shape,
  record {
    title = m.title;
    comment = m.comment;
    expanded = m.expanded;
    boot = m.boot;
    children = push_node m.children child;
    shape = refl;
    complete = complete_nodes-push_node m.children child m.complete h;
  },
)

linux_node_complete :
    (title comment : Text) (spec : LinuxBootSpec)
    → complete_node (linux_node title comment spec) ≡ true
unfolding complete_node
linux_node_complete title comment spec = refl

IsMenu-directory_node : (title : Text) (expanded : Bool) → IsMenu (directory_node title expanded)
unfolding complete_node
IsMenu-directory_node t e = record {
  title = t;
  comment = none;
  expanded = e;
  boot = none;
  children = no_nodes;
  shape = refl;
  complete = refl;
}

module _ (relative : Relative) (system : SystemInfo) where
  IsMenu-add_kernels :
      (kernels : List KernelInstallation) (n : MenuNode)
      → IsMenu n
      → (k : MenuNode) × (add_kernels relative system kernels n ≡ ok k) × IsMenu k
  unfolding add_kernels
  IsMenu-add_kernels [] n m = (n, refl, m)
  IsMenu-add_kernels (kernel ∷ rest) n m =
      let (k, e, m') =
        IsMenu-add_child n
          (linux_node kernel.display_name (kernel_comment kernel)
            (boot_spec relative system kernel (render system.kernel_cmdline)))
          m (linux_node_complete _ _ _) in
      let (l, f, m'') = IsMenu-add_kernels rest k m' in (l, (>>=-ok _ e f), m'')

  IsMenu-add_snapshot_kernels :
      (config : AppConfig) (snapshot : SnapshotInfo) (kernels : List KernelInstallation)
      (n : MenuNode)
      → IsMenu n
      → (k : MenuNode) × (add_snapshot_kernels relative system config snapshot kernels n ≡ ok k)
        × IsMenu k
  unfolding add_snapshot_kernels
  IsMenu-add_snapshot_kernels config snapshot [] n m = (n, refl, m)
  IsMenu-add_snapshot_kernels config snapshot (kernel ∷ rest) n m =
      let (k, e, m') =
        IsMenu-add_child n
          (linux_node kernel.display_name (describe snapshot ++ (dash ++ kernel_comment kernel)) (
            boot_spec relative system kernel
              (snapshot_cmdline system.kernel_cmdline config.snapshots_subvolume snapshot.number)))
          m (linux_node_complete _ _ _) in
      let (l, f, m'') = IsMenu-add_snapshot_kernels config snapshot rest k m' in
      (l, (>>=-ok _ e f), m'')

  IsMenu-add_snapshots :
      (config : AppConfig) (kernels : List KernelInstallation) (snapshots : List SnapshotInfo)
      (n : MenuNode)
      → IsMenu n
      → (k : MenuNode) × (add_snapshots relative system config kernels snapshots n ≡ ok k)
        × IsMenu k
  unfolding add_snapshots
  IsMenu-add_snapshots config kernels [] n m = (n, refl, m)
  IsMenu-add_snapshots config kernels (snapshot ∷ rest) n m =
      let (b, g, mb) =
        IsMenu-add_snapshot_kernels config snapshot kernels
          (directory_node (display_date snapshot.date) false)
          (IsMenu-directory_node (display_date snapshot.date) false) in
      let (k, e, m') = IsMenu-add_child n b m (complete-IsMenu b mb) in
      let (l, f, m'') = IsMenu-add_snapshots config kernels rest k m' in
      (l, >>=-ok _ g (>>=-ok _ e f), m'')

-- A menu is built and rendered for every machine, whatever kernels and snapshots it has: neither
-- of the two logic errors of the source is thrown.
pub render_menu-build_menu :
    (relative : Relative) (system : SystemInfo) (snapshots : List SnapshotInfo) (config : AppConfig)
    → is_ok (build_menu relative system snapshots config >>= render_menu) ≡ true
unfolding build_menu render_menu complete_node
render_menu-build_menu relative system snapshots config =
    let kernels = select_kernels system.kernels config in
    let (root, e, mr) =
      IsMenu-add_kernels relative system kernels
        (directory_node config.root_menu_title config.root_menu_expanded)
        (IsMenu-directory_node config.root_menu_title config.root_menu_expanded) in
    let (below, f, mb) =
      IsMenu-add_snapshots relative system config kernels (select_menu_snapshots snapshots config)
        (directory_node config.snapshots_menu_title config.snapshots_menu_expanded)
        (IsMenu-directory_node config.snapshots_menu_title config.snapshots_menu_expanded) in
    let (whole, g, mw) = IsMenu-add_child root below mr (complete-IsMenu below mb) in
    let built = >>=-ok _ e (>>=-ok _ f (>>=-ok _ g refl)) in
    ap (λ r. is_ok (r >>= render_menu)) built
    ∙ is_ok->>= (render_nodes (add_node whole no_nodes) 1) _
        (render_nodes_ok (add_node whole no_nodes) 1 refl
          (ground (arith, complete-IsMenu whole mw)))
        (λ t. refl)
