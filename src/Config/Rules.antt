-- ===== src/Config/Rules.antt =====
-- `validate_config` of src/config/config_loader.cpp, and the configurations that pass it.
use limine_manager.Prelude.{
  ◌≡◌, ◌↔◌, ◌≤◌, Bool, true, false, not, is_some, List, [], ◌∷◌, ◌++◌, ltb, ◌==◌, is_empty, any_of,
  Text, text, text_eq, Result, ok, err, runtime_error, arith,
}
use limine_manager.Decimal.{to_string}
use limine_manager.Model.{AppConfig}
use limine_manager.Config.Themes.{find_theme}

-- if (test) throw std::runtime_error(message); and what follows
abbrev refuse_if : Bool → Text → Result (Unit {0}) → Result (Unit {0})
refuse_if true message next = err (runtime_error message)
refuse_if false message next = next

-- std::find(values.begin(), values.end(), item) != values.end()
unfoldable pub listed_in : List Text → Text → Bool
listed_in values item = any_of (λ other. text_eq other item) values

check_lists : List Text → List Text → Result (Unit {0})
check_lists exclude [] = ok tt
check_lists exclude (item ∷ rest) =
    refuse_if (listed_in exclude item)
      (text "Kernel '" ++ (item ++ text "' appears in both include and exclude lists"))
      (check_lists exclude rest)

unfoldable pub validate_config : AppConfig → Result (Unit {0})
unfolding check_lists
validate_config config =
    refuse_if (not (config.schema_version == 1))
      (text "Unsupported configuration schema_version "
        ++ (to_string config.schema_version ++ text "; supported version is 1"))
      (refuse_if (is_empty config.system.boot_mount) (text "system.boot_mount cannot be empty") (
        refuse_if (is_empty config.system.limine_config)
          (text "system.limine_config cannot be empty")
          (refuse_if (is_empty config.snapper_config) (text "snapper.config cannot be empty") (
            refuse_if (is_empty config.snapshots_subvolume)
              (text "snapper.snapshots_subvolume cannot be empty")
              (refuse_if (is_empty config.snapshots_directory)
                (text "snapper.snapshots_directory cannot be empty")
                (refuse_if (is_empty config.root_menu_title)
                  (text "menu.root_title cannot be empty")
                  (refuse_if (is_empty config.snapshots_menu_title)
                    (text "menu.snapshots_title cannot be empty")
                    (refuse_if (not (is_some (find_theme config.theme_name)))
                      (text "Unknown theme '"
                        ++ (config.theme_name
                            ++ text
                                "'. Supported themes: none, tokyo-night, catppuccin, nord, dracula, gruvbox"))
                      (refuse_if (ltb 3600 config.automation_debounce_seconds)
                        (text "automation.debounce_seconds must be <= 3600")
                        (refuse_if (is_empty config.automation_runtime_directory)
                          (text "automation.runtime_directory cannot be empty")
                          (check_lists config.exclude_kernels config.include_kernels)))))))))))

-- A configuration that the program works with.
pub record IsUsable (config : AppConfig) : Type 0 where
  pub version : config.schema_version ≡ 1
  pub boot_mount_given : is_empty config.system.boot_mount ≡ false
  pub limine_config_given : is_empty config.system.limine_config ≡ false
  pub snapper_given : is_empty config.snapper_config ≡ false
  pub subvolume_given : is_empty config.snapshots_subvolume ≡ false
  pub directory_given : is_empty config.snapshots_directory ≡ false
  pub root_title_given : is_empty config.root_menu_title ≡ false
  pub snapshots_title_given : is_empty config.snapshots_menu_title ≡ false
  pub theme_known : is_some (find_theme config.theme_name) ≡ true
  pub debounce_bounded : config.automation_debounce_seconds ≤ 3600
  pub runtime_given : is_empty config.automation_runtime_directory ≡ false
  pub lists_apart : any_of (listed_in config.exclude_kernels) config.include_kernels ≡ false

check_lists-ok :
    (exclude include : List Text)
    → (check_lists exclude include ≡ ok tt) ↔ (any_of (listed_in exclude) include ≡ false)
unfolding check_lists
check_lists-ok exclude [] = ground arith
check_lists-ok exclude (item ∷ rest) = ground (arith, check_lists-ok exclude rest)

-- `validate_config` passes exactly the usable configurations.
pub validate_config_iff : (config : AppConfig) → (validate_config config ≡ ok tt) ↔ IsUsable config
unfolding validate_config
validate_config_iff config = (
  λ h. record {
    version = ground (arith, check_lists-ok config.exclude_kernels config.include_kernels);
    boot_mount_given = ground (arith, check_lists-ok config.exclude_kernels config.include_kernels);
    limine_config_given =
        ground (arith, check_lists-ok config.exclude_kernels config.include_kernels);
    snapper_given = ground (arith, check_lists-ok config.exclude_kernels config.include_kernels);
    subvolume_given = ground (arith, check_lists-ok config.exclude_kernels config.include_kernels);
    directory_given = ground (arith, check_lists-ok config.exclude_kernels config.include_kernels);
    root_title_given = ground (arith, check_lists-ok config.exclude_kernels config.include_kernels);
    snapshots_title_given =
        ground (arith, check_lists-ok config.exclude_kernels config.include_kernels);
    theme_known = ground (arith, check_lists-ok config.exclude_kernels config.include_kernels);
    debounce_bounded = ground (arith, check_lists-ok config.exclude_kernels config.include_kernels);
    runtime_given = ground (arith, check_lists-ok config.exclude_kernels config.include_kernels);
    lists_apart = ground (arith, check_lists-ok config.exclude_kernels config.include_kernels);
  },
  λ u. ground (arith, check_lists-ok config.exclude_kernels config.include_kernels),
)
