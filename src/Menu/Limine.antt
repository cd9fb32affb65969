-- ===== src/Menu/Limine.antt =====
-- src/render/limine_renderer.cpp: the text of limine.conf.
use limine_manager.Prelude.{
  ℕ, zero, suc, ◌+◌, Bool, Option, none, some, List, [], ◌∷◌, ◌++◌, ◌==◌, if◌then◌else◌, is_empty,
  Text, text, newline, Result, ok, err, ◌>>=◌, logic_error,
}
use limine_manager.Menu.{
  NodeKind, directory, linux_entry, LinuxBootSpec, MenuNode, MenuNodes, node, no_nodes, add_node,
  MenuDocument,
}

-- std::string(depth, '/')
pub slashes : ℕ → Text
slashes zero = []
slashes (suc n) = b'/' ∷ slashes n

-- name << value << '\n'
abbrev pub row : Text → Text → Text
row label value = label ++ (value ++ (newline ∷ []))

pub render_modules : List Text → Text
render_modules [] = []
render_modules (m ∷ ms) = row (text "    module_path: ") m ++ render_modules ms

pub render_boot : LinuxBootSpec → Text
unfolding render_modules
render_boot boot =
    row (text "    protocol: ") boot.protocol
    ++ (row (text "    path: ") boot.kernel_path
        ++ (render_modules boot.module_paths ++ row (text "    cmdline: ") boot.cmdline))

-- the lines of a Linux entry, and none for a directory
pub render_entry : NodeKind → Option LinuxBootSpec → Result Text
unfolding render_boot
render_entry directory boot = ok []
render_entry linux_entry none = err (logic_error (text "Linux entry has no boot specification"))
render_entry linux_entry (some boot) = ok (render_boot boot)

pub render_comment : Option Text → Text
render_comment none = []
render_comment (some comment) = if is_empty comment then [] else row (text "    comment: ") comment

pub render_title : ℕ → Bool → Text → Text
unfolding slashes
render_title depth expanded title =
    slashes depth ++ ((if expanded then text "+" else []) ++ (title ++ (newline ∷ [])))

unfoldable mutual
  unfolding render_title render_comment render_entry

  pub render_node : MenuNode → ℕ → Result Text
  render_node (node kind title comment expanded boot children) depth =
      if depth == 0 then err (logic_error (text "Menu depth starts at one")) else (do
        written ← render_entry kind boot
        below ← render_nodes children (depth + 1)
        ok (
            render_title depth expanded title
            ++ (render_comment comment ++ (written ++ (below ++ (newline ∷ []))))))

  pub render_nodes : MenuNodes → ℕ → Result Text
  render_nodes no_nodes depth = ok []
  render_nodes (add_node n rest) depth = do
    first ← render_node n depth
    later ← render_nodes rest depth
    ok (first ++ later)

pub render_options : List (Text × Text) → Text
render_options [] = []
render_options (option ∷ rest) =
    (option.0 ++ (text ": " ++ (option.1 ++ (newline ∷ [])))) ++ render_options rest

unfoldable pub render_menu : MenuDocument → Result Text
unfolding render_options
render_menu document = do
  roots ← render_nodes document.roots 1
  ok (
      text "# Generated by limine-manager. Do not edit manually.\n"
      ++ (render_options document.global_options ++ ((newline ∷ []) ++ roots)))
