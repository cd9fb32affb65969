-- ===== src/Tests/Services.antt =====
-- Validation, configuration and changes on a machine that is in order.
use limine_manager.Prelude.{
  ◌≡◌, refl, ◌↔◌, ◌-◌, true, false, none, List, [], ◌∷◌, Text, text, ok, err, runtime_error, arith,
  text_eq,
}
use limine_manager.Decimal.{to_string, ulong_limit}
use limine_manager.FileSystem.{FileSystem}
use limine_manager.Model.{default_config}
use limine_manager.Config.Themes.{find_theme, themes, normalize}
use limine_manager.Validation.Devices.{to_lower}
use limine_manager.Config.Values.{parse_size, parse_size-to_string, parse_size-minus}
use limine_manager.Config.Rules.{validate_config, IsUsable, validate_config_iff}
use limine_manager.Config.Loader.{load, load-IsUsable}
use limine_manager.Changes.{
  ChangePlan, unchanged, create, plan_change, plan_change-unchanged, normalize_newline, ends_line,
}
use limine_manager.Changes.Diff.{diff, old_lines, new_lines, diff-lines}

-- every file is there and holds `content`
abbrev pub holding : Text → FileSystem
holding content = record {
  exists = λ p. true;
  is_directory = λ p. true;
  readable = λ p. true;
  read_text = λ p. ok content;
  canonical = λ p. ok p;
}

-- no file is there
abbrev bare : FileSystem
bare = record {
  exists = λ p. false;
  is_directory = λ p. false;
  readable = λ p. false;
  read_text = λ p. err (runtime_error (text "read"));
  canonical = λ p. err (runtime_error (text "canonical"));
}

validate_config_iff_example : (validate_config default_config ≡ ok tt) ↔ IsUsable default_config
validate_config_iff_example = validate_config_iff default_config

parse_size-to_string_example : parse_size (to_string 12) 1 ≡ ok 12
parse_size-to_string_example = parse_size-to_string 12 1 (omega arith)

parse_size-minus_example : parse_size (b'-' ∷ to_string 1) 1 ≡ ok (ulong_limit - 1)
parse_size-minus_example = parse_size-minus 1 1 (omega arith) (omega arith)

abbrev created : ChangePlan
created = record {
  kind = create;
  target = text "/boot/limine.conf";
  installed = [];
  generated = b'a' ∷ 10 ∷ [];
}

plan_change-unchanged_example :
    plan_change (holding created.generated) created.target (b'a' ∷ [])
    ≡ ok (record {
      kind = unchanged;
      target = created.target;
      installed = created.generated;
      generated = created.generated;
    })
unfolding plan_change
plan_change-unchanged_example =
    plan_change-unchanged bare (holding created.generated) created.target (b'a' ∷ []) created
      (unfold normalize_newline ends_line in refl) refl refl

abbrev old : List Text
old = text "a" ∷ text "b" ∷ []

abbrev new : List Text
new = text "b" ∷ text "c" ∷ []

diff-lines_example : (old_lines (diff old new) ≡ old) × (new_lines (diff old new) ≡ new)
diff-lines_example = diff-lines old new

load-IsUsable_example : IsUsable default_config
unfolding load validate_config find_theme themes normalize to_lower text text_eq
load-IsUsable_example =
    load-IsUsable bare (text "/etc/limine-manager.conf") none
      (record { value = default_config; source = none }) refl
