-- ===== src/Menu.antt =====
-- The boot menu: src/domain/menu.cpp and its header.
pub mod Selection
pub mod Preview
pub mod Limine
pub mod Booting
pub mod Complete
use limine_manager.Prelude.{
  Bool, true, false, Option, none, some, List, [], ◌∷◌, ◌++◌, Text, text, Result, ok, err,
  logic_error,
}

pub data NodeKind : Type 0 where
  directory linux_entry : NodeKind

pub record LinuxBootSpec : Type 0 where
  pub protocol : Text
  pub kernel_path : Text
  pub module_paths : List Text
  pub cmdline : Text

-- `children` is the vector of the nodes below
mutual
  pub data MenuNode : Type 0 where
    node :
        (kind : NodeKind) (title : Text) (comment : Option Text) (expanded : Bool)
        (boot : Option LinuxBootSpec) (children : MenuNodes)
        → MenuNode

  pub data MenuNodes : Type 0 where
    no_nodes : MenuNodes
    add_node : MenuNode → MenuNodes → MenuNodes

pub record MenuDocument : Type 0 where
  pub global_options : List (Text × Text)
  pub roots : MenuNodes

-- MenuNode::directory
abbrev pub directory_node : Text → Bool → MenuNode
directory_node title expanded = node directory title none expanded none no_nodes

-- MenuNode::linux_entry
abbrev pub linux_node : Text → Text → LinuxBootSpec → MenuNode
linux_node title comment spec = node linux_entry title (some comment) false (some spec) no_nodes

-- children.push_back(child)
abbrev pub push_node : MenuNodes → MenuNode → MenuNodes
push_node no_nodes child = add_node child no_nodes
push_node (add_node n rest) child = add_node n (push_node rest child)

abbrev pub add_child : MenuNode → MenuNode → Result MenuNode
add_child (node directory title comment expanded boot children) child =
    ok (node directory title comment expanded boot (push_node children child))
add_child (node linux_entry title comment expanded boot children) child =
    err (logic_error (text "Only directory nodes can contain children"))
