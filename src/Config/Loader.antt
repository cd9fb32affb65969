-- ===== src/Config/Loader.antt =====
-- `ConfigLoader::load` and `ConfigLoader::render` of src/config/config_loader.cpp.
use limine_manager.Prelude.{
  subst, ℕ, suc, ◌+◌, ◌-◌, ◌≡◌, Bool, true, false, not, ◌&&◌, ◌||◌, Option, none, some, List, [],
  ◌∷◌, ◌++◌, ◌==◌, if◌then◌else◌, is_empty, length, take, drop, Text, text, has_char, before_char,
  lines, Result, ok, err, ◌>>=◌, >>=-eq-ok, ok-injective, runtime_error, arith,
}
use limine_manager.Decimal.{to_string}
use limine_manager.FilePath.{FilePath}
use limine_manager.FileSystem.{FileSystem}
use limine_manager.Model.{AppConfig, default_config}
use limine_manager.Config.Values.{trim, lower}
use limine_manager.Config.Assign.{assign}
use limine_manager.Config.Rules.{validate_config, IsUsable, validate_config_iff}

pub record LoadedConfig : Type 0 where
  pub value : AppConfig
  pub source : Option FilePath

pub at_line : Text → ℕ → Text
at_line message line = message ++ to_string line

front_is : ℕ → Text → Bool
front_is c [] = false
front_is c (d ∷ ds) = d == c

back_is : ℕ → Text → Bool
back_is c [] = false
back_is c (d ∷ []) = d == c
back_is c (d ∷ e ∷ es) = back_is c (e ∷ es)

-- the locals of the loop of `load`
pub record Reading : Type 0 where
  pub config : AppConfig
  pub section : Text

read_section : Reading → Text → ℕ → Result Reading
read_section reading content line =
    let section = lower (trim (take (length content - 2) (drop 1 content))) in
    if is_empty section
    then err (runtime_error (at_line (text "Empty section at line ") line))
    else ok (record reading { section = section })

read_entry : Reading → Text → ℕ → Result Reading
read_entry reading content line =
    let key = lower (trim (before_char b'=' content)) in
    let value = trim (drop (length (before_char b'=' content) + 1) content) in
    if not (has_char b'=' content)
    then err (runtime_error (at_line (text "Expected key=value at line ") line))
    else if is_empty reading.section
    then err (runtime_error (at_line (text "Key outside a section at line ") line))
    else if is_empty key
    then err (runtime_error (at_line (text "Empty key at line ") line))
    else (do
      assigned ← assign reading.config reading.section key value line
      ok (record reading { config = assigned }))

-- the body of the loop; `line` counts from one
read_line : Reading → Text → ℕ → Result Reading
unfolding read_section read_entry front_is back_is
read_line reading line_text line =
    let content = trim line_text in
    if is_empty content || front_is b'#' content || front_is b';' content
    then ok reading
    else if front_is b'[' content && back_is b']' content
    then read_section reading content line
    else read_entry reading content line

read_lines : Reading → List Text → ℕ → Result Reading
unfolding read_line
read_lines reading [] line = ok reading
read_lines reading (line_text ∷ rest) line = do
  next ← read_line reading line_text (suc line)
  read_lines next rest (suc line)

-- validate_config(loaded.value); return loaded;
validated : AppConfig → Option FilePath → Result LoadedConfig
validated config source = do
  checked ← validate_config config
  ok (record { value = config; source = source })

-- what follows the check that the file is readable
read_config : FileSystem → FilePath → Result LoadedConfig
unfolding read_lines validated
read_config filesystem path = do
  content ← filesystem.read_text path
  reading ← read_lines (record { config = default_config; section = [] }) (lines content) 0
  validated reading.config (some path)

load_file : FileSystem → FilePath → Result LoadedConfig
unfolding read_config
load_file filesystem path =
    if not (filesystem.readable path)
    then err (runtime_error (text "Unable to read configuration file: " ++ path))
    else read_config filesystem path

-- explicit_path.value_or(default_path_)
path_or : Option FilePath → FilePath → FilePath
path_or none default_path = default_path
path_or (some path) default_path = path

is_given : Option FilePath → Bool
is_given none = false
is_given (some path) = true

unfoldable pub load : FileSystem → FilePath → Option FilePath → Result LoadedConfig
unfolding load_file validated path_or is_given
load filesystem default_path explicit_path =
    let path = path_or explicit_path default_path in
    if not (filesystem.exists path)
    then (if is_given explicit_path
        then err (runtime_error (text "Configuration file not found: " ++ path))
        else validated default_config none)
    else load_file filesystem path

validated-IsUsable :
    (config : AppConfig) (source : Option FilePath) (loaded : LoadedConfig)
    → validated config source ≡ ok loaded
    → IsUsable loaded.value
unfolding validated
validated-IsUsable config source loaded h =
    let (u, checked, made) =
      >>=-eq-ok (validate_config config) (λ u. ok (record { value = config; source = source })) h in
    subst (λ l. IsUsable l.value) (ok-injective made) ((validate_config_iff config).0 checked)

read_config-IsUsable :
    (filesystem : FileSystem) (path : FilePath) (loaded : LoadedConfig)
    → read_config filesystem path ≡ ok loaded
    → IsUsable loaded.value
unfolding read_config
read_config-IsUsable filesystem path loaded h =
    let (content, e, h2) = >>=-eq-ok (filesystem.read_text path) _ h in
    let (reading, e2, h3) = >>=-eq-ok (read_lines _ (lines content) 0) _ h2 in
    validated-IsUsable reading.config (some path) loaded h3

load_file-IsUsable :
    (filesystem : FileSystem) (path : FilePath) (loaded : LoadedConfig)
    → load_file filesystem path ≡ ok loaded
    → IsUsable loaded.value
unfolding load_file
load_file-IsUsable filesystem path loaded h =
    ground (arith, read_config-IsUsable filesystem path loaded)

-- A configuration that `load` returns, read from a file or built in, is usable.
pub load-IsUsable :
    (filesystem : FileSystem) (default_path : FilePath) (explicit_path : Option FilePath)
    (loaded : LoadedConfig)
    → load filesystem default_path explicit_path ≡ ok loaded
    → IsUsable loaded.value
unfolding load
load-IsUsable filesystem default_path explicit_path loaded h = ground (
  arith,
  load_file-IsUsable filesystem (path_or explicit_path default_path) loaded,
  validated-IsUsable default_config none loaded,
)
