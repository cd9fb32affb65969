-- ===== src/Config/Themes.antt =====
-- src/config/theme.cpp: the theme presets. The options of a preset are the std::map in key order.
use limine_manager.Prelude.{
  Option, List, [], ◌∷◌, ◌==◌, if◌then◌else◌, find_if, map, Text, text, text_eq,
}
use limine_manager.Validation.Devices.{to_lower}

pub record ThemePreset : Type 0 where
  pub name : Text
  pub display_name : Text
  pub options : List (Text × Text)

unfoldable pub normalize : Text → Text
normalize value = map (λ ch. if ch == b'_' then b'-' else to_lower ch) value

no_theme : ThemePreset
no_theme = record { name = text "none"; display_name = text "None"; options = [] }

tokyo_night : ThemePreset
tokyo_night = record {
  name = text "tokyo-night";
  display_name = text "Tokyo Night";
  options =
      (text "backdrop", text "1A1B26")
      ∷ (text "interface_branding_colour", text "7AA2F7")
      ∷ (text "interface_help_colour", text "9ECE6A")
      ∷ (text "interface_help_colour_bright", text "BB9AF7")
      ∷ (text "term_background", text "001A1B26")
      ∷ (text "term_background_bright", text "24283B")
      ∷ (text "term_foreground", text "C0CAF5")
      ∷ (text "term_foreground_bright", text "FFFFFF")
      ∷ (text "term_palette", text "15161E;F7768E;9ECE6A;E0AF68;7AA2F7;BB9AF7;7DCFFF;A9B1D6")
      ∷ (text "term_palette_bright", text "414868;FF899D;9FE044;FABA4A;8DB0FF;C7A9FF;A4DAFF;C0CAF5")
      ∷ [];
}

catppuccin : ThemePreset
catppuccin = record {
  name = text "catppuccin";
  display_name = text "Catppuccin Mocha";
  options =
      (text "backdrop", text "1E1E2E")
      ∷ (text "interface_branding_colour", text "89B4FA")
      ∷ (text "interface_help_colour", text "A6E3A1")
      ∷ (text "interface_help_colour_bright", text "CBA6F7")
      ∷ (text "term_background", text "001E1E2E")
      ∷ (text "term_background_bright", text "313244")
      ∷ (text "term_foreground", text "CDD6F4")
      ∷ (text "term_foreground_bright", text "FFFFFF")
      ∷ (text "term_palette", text "11111B;F38BA8;A6E3A1;F9E2AF;89B4FA;CBA6F7;94E2D5;BAC2DE")
      ∷ (text "term_palette_bright", text "45475A;F5A2B8;B1F0AB;FAE8C8;9AC2FA;D5B4FA;A6E9DE;CDD6F4")
      ∷ [];
}

nord : ThemePreset
nord = record {
  name = text "nord";
  display_name = text "Nord";
  options =
      (text "backdrop", text "2E3440")
      ∷ (text "interface_branding_colour", text "88C0D0")
      ∷ (text "interface_help_colour", text "A3BE8C")
      ∷ (text "interface_help_colour_bright", text "81A1C1")
      ∷ (text "term_background", text "002E3440")
      ∷ (text "term_background_bright", text "3B4252")
      ∷ (text "term_foreground", text "D8DEE9")
      ∷ (text "term_foreground_bright", text "ECEFF4")
      ∷ (text "term_palette", text "2E3440;BF616A;A3BE8C;EBCB8B;81A1C1;B48EAD;88C0D0;E5E9F0")
      ∷ (text "term_palette_bright", text "4C566A;BF616A;A3BE8C;EBCB8B;81A1C1;B48EAD;8FBCBB;ECEFF4")
      ∷ [];
}

dracula : ThemePreset
dracula = record {
  name = text "dracula";
  display_name = text "Dracula";
  options =
      (text "backdrop", text "282A36")
      ∷ (text "interface_branding_colour", text "BD93F9")
      ∷ (text "interface_help_colour", text "50FA7B")
      ∷ (text "interface_help_colour_bright", text "FF79C6")
      ∷ (text "term_background", text "00282A36")
      ∷ (text "term_background_bright", text "44475A")
      ∷ (text "term_foreground", text "F8F8F2")
      ∷ (text "term_foreground_bright", text "FFFFFF")
      ∷ (text "term_palette", text "21222C;FF5555;50FA7B;F1FA8C;BD93F9;FF79C6;8BE9FD;F8F8F2")
      ∷ (text "term_palette_bright", text "6272A4;FF6E6E;69FF94;FFFFA5;D6ACFF;FF92DF;A4FFFF;FFFFFF")
      ∷ [];
}

gruvbox : ThemePreset
gruvbox = record {
  name = text "gruvbox";
  display_name = text "Gruvbox Dark";
  options =
      (text "backdrop", text "282828")
      ∷ (text "interface_branding_colour", text "FABD2F")
      ∷ (text "interface_help_colour", text "B8BB26")
      ∷ (text "interface_help_colour_bright", text "83A598")
      ∷ (text "term_background", text "00282828")
      ∷ (text "term_background_bright", text "3C3836")
      ∷ (text "term_foreground", text "EBDBB2")
      ∷ (text "term_foreground_bright", text "FBF1C7")
      ∷ (text "term_palette", text "282828;CC241D;98971A;D79921;458588;B16286;689D6A;A89984")
      ∷ (text "term_palette_bright", text "928374;FB4934;B8BB26;FABD2F;83A598;D3869B;8EC07C;EBDBB2")
      ∷ [];
}

unfoldable pub themes : List ThemePreset
unfolding no_theme tokyo_night catppuccin nord dracula gruvbox
themes = no_theme ∷ tokyo_night ∷ catppuccin ∷ nord ∷ dracula ∷ gruvbox ∷ []

unfoldable pub find_theme : Text → Option ThemePreset
unfolding normalize
find_theme name = find_if (λ (theme : ThemePreset). text_eq theme.name (normalize name)) themes
