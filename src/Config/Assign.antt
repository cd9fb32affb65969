-- ===== src/Config/Assign.antt =====
-- `assign` of src/config/config_loader.cpp, one function for each section.
use limine_manager.Prelude.{
  ℕ, Bool, true, false, ◌&&◌, ◌||◌, List, [], ◌∷◌, ◌++◌, ltb, ◌==◌, if◌then◌else◌, Text, text,
  text_eq, Result, ok, err, ◌>>=◌, runtime_error,
}
use limine_manager.Decimal.{to_string}
use limine_manager.Model.{AppConfig}
use limine_manager.Config.Values.{parse_bool, parse_size, parse_list, lower}

pub unknown_key : Text → Text → ℕ → Result AppConfig
unknown_key section key line = err (
    runtime_error (
      text "Unknown key ["
      ++ (section ++ (text "]." ++ (key ++ (text " at line " ++ to_string line))))))

assign_manager : AppConfig → Text → Text → ℕ → Result AppConfig
assign_manager config key value line =
    if text_eq key (text "schema_version")
    then (do n ← parse_size value line; ok (record config { schema_version = n }))
    else unknown_key (text "manager") key line

assign_system : AppConfig → Text → Text → ℕ → Result AppConfig
assign_system config key value line =
    if text_eq key (text "boot_mount")
    then ok (record config { system = record config.system { boot_mount = value } })
    else if text_eq key (text "limine_config")
    then ok (record config { system = record config.system { limine_config = value } })
    else if text_eq key (text "kernel_cmdline_file")
    then ok (record config { system = record config.system { kernel_cmdline_file = value } })
    else if text_eq key (text "modules_root")
    then ok (record config { system = record config.system { modules_root = value } })
    else if text_eq key (text "cpuinfo")
    then ok (record config { system = record config.system { cpuinfo = value } })
    else if text_eq key (text "mkinitcpio_config")
    then ok (record config { system = record config.system { mkinitcpio_config = value } })
    else unknown_key (text "system") key line

assign_snapper : AppConfig → Text → Text → ℕ → Result AppConfig
assign_snapper config key value line =
    if text_eq key (text "config")
    then ok (record config { snapper_config = value })
    else if text_eq key (text "snapshots_subvolume")
    then ok (record config { snapshots_subvolume = value })
    else if text_eq key (text "snapshots_directory")
    then ok (record config { snapshots_directory = value })
    else if text_eq key (text "max_snapshots")
    then (do n ← parse_size value line; ok (record config { max_snapshots = n }))
    else if text_eq key (text "include_read_write")
    then (do b ← parse_bool value line; ok (record config { include_read_write_snapshots = b }))
    else unknown_key (text "snapper") key line

assign_backups : AppConfig → Text → Text → ℕ → Result AppConfig
assign_backups config key value line =
    if text_eq key (text "retain")
    then (do n ← parse_size value line; ok (record config { backup_retention = n }))
    else unknown_key (text "backups") key line

assign_menu : AppConfig → Text → Text → ℕ → Result AppConfig
assign_menu config key value line =
    if text_eq key (text "root_title")
    then ok (record config { root_menu_title = value })
    else if text_eq key (text "snapshots_title")
    then ok (record config { snapshots_menu_title = value })
    else if text_eq key (text "root_expanded")
    then (do b ← parse_bool value line; ok (record config { root_menu_expanded = b }))
    else if text_eq key (text "snapshots_expanded")
    then (do b ← parse_bool value line; ok (record config { snapshots_menu_expanded = b }))
    else unknown_key (text "menu") key line

assign_kernels : AppConfig → Text → Text → ℕ → Result AppConfig
assign_kernels config key value line =
    if text_eq key (text "include")
    then ok (record config { include_kernels = parse_list value })
    else if text_eq key (text "exclude")
    then ok (record config { exclude_kernels = parse_list value })
    else if text_eq key (text "order")
    then ok (record config { kernel_order = parse_list value })
    else unknown_key (text "kernels") key line

assign_theme : AppConfig → Text → Text → ℕ → Result AppConfig
assign_theme config key value line =
    if text_eq key (text "name")
    then ok (record config { theme_name = lower value })
    else unknown_key (text "theme") key line

assign_automation : AppConfig → Text → Text → ℕ → Result AppConfig
assign_automation config key value line =
    if text_eq key (text "enabled")
    then (do b ← parse_bool value line; ok (record config { automation_enabled = b }))
    else if text_eq key (text "snapper")
    then (do b ← parse_bool value line; ok (record config { automation_snapper = b }))
    else if text_eq key (text "pacman")
    then (do b ← parse_bool value line; ok (record config { automation_pacman = b }))
    else if text_eq key (text "debounce_seconds")
    then (do n ← parse_size value line; ok (record config { automation_debounce_seconds = n }))
    else if text_eq key (text "runtime_directory")
    then ok (record config { automation_runtime_directory = value })
    else unknown_key (text "automation") key line

assign_secure_boot : AppConfig → Text → Text → ℕ → Result AppConfig
assign_secure_boot config key value line =
    let executable = if text_eq value (text "auto") then [] else value in
    if text_eq key (text "protect_config")
    then (do b ← parse_bool value line; ok (record config { secure_boot_protect_config = b }))
    else if text_eq key (text "automatic_apply")
    then (do b ← parse_bool value line; ok (record config { secure_boot_automatic_apply = b }))
    else if text_eq key (text "efi_executable")
    then ok (record config {
      secure_boot_efi_executable = executable;
      system = record config.system { limine_efi_executable = executable };
    })
    else unknown_key (text "secure_boot") key line

-- std::string::operator<, byte by byte
unfoldable pub text_lt : Text → Text → Bool
text_lt a [] = false
text_lt [] (y ∷ ys) = true
text_lt (x ∷ xs) (y ∷ ys) = ltb x y || (x == y && text_lt xs ys)

-- map[key] = value, in key order
unfoldable pub map_set : Text → Text → List (Text × Text) → List (Text × Text)
unfolding text_lt
map_set key value [] = (key, value) ∷ []
map_set key value (entry ∷ rest) =
    let later = map_set key value rest in
    if text_eq key entry.0
    then (key, value) ∷ rest
    else if text_lt key entry.0
    then (key, value) ∷ entry ∷ rest
    else entry ∷ later

pub assign : AppConfig → Text → Text → Text → ℕ → Result AppConfig
unfolding assign_manager assign_system assign_snapper assign_backups assign_menu assign_kernels
    assign_theme assign_automation assign_secure_boot
assign config section key value line =
    if text_eq section (text "manager")
    then assign_manager config key value line
    else if text_eq section (text "system")
    then assign_system config key value line
    else if text_eq section (text "snapper")
    then assign_snapper config key value line
    else if text_eq section (text "backups")
    then assign_backups config key value line
    else if text_eq section (text "menu")
    then assign_menu config key value line
    else if text_eq section (text "kernels")
    then assign_kernels config key value line
    else if text_eq section (text "theme")
    then assign_theme config key value line
    else if text_eq section (text "automation")
    then assign_automation config key value line
    else if text_eq section (text "secure_boot")
    then assign_secure_boot config key value line
    else if text_eq section (text "limine")
    then ok (record config { limine_options = map_set key value config.limine_options })
    else err (
        runtime_error
          (text "Unknown section [" ++ (section ++ (text "] at line " ++ to_string line))))
