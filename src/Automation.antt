-- ===== src/Automation.antt =====
-- src/application/automation.cpp. The marker of a refresh is a file that requests append to.
pub mod Marker
use limine_manager.Prelude.{
  ℕ, Bool, true, false, not, ◌&&◌, ◌||◌, Option, none, some, List, [], ◌∷◌, ◌++◌, if◌then◌else◌,
  Text, text, text_eq, newline, Result, ok, err, runtime_error,
}
use limine_manager.Decimal.{to_string}
use limine_manager.FilePath.{FilePath, join}
use limine_manager.Exec.{Exec, pure, throw_if, modify, ◌>>=◌, ◌>>◌}
use limine_manager.Rollback.Planner.{what}

pub record SnapperPluginEvent : Type 0 where
  pub action : Text
  pub subvolume : Text
  pub fstype : Text
  pub extra_arguments : List Text

abbrev no_event : SnapperPluginEvent
no_event = record { action = []; subvolume = []; fstype = []; extra_arguments = [] }

unfoldable pub parse_snapper_plugin_event : List Text → SnapperPluginEvent
parse_snapper_plugin_event [] = no_event
parse_snapper_plugin_event (action ∷ []) = record no_event { action = action }
parse_snapper_plugin_event (action ∷ subvolume ∷ []) = record no_event {
  action = action;
  subvolume = subvolume;
}
parse_snapper_plugin_event (action ∷ subvolume ∷ fstype ∷ extra) = record {
  action = action;
  subvolume = subvolume;
  fstype = fstype;
  extra_arguments = extra;
}

unfoldable pub is_relevant_action : Text → Bool
is_relevant_action action =
    text_eq action (text "create-snapshot-post")
    || text_eq action (text "modify-snapshot-post")
    || text_eq action (text "delete-snapshot-post")
    || text_eq action (text "set-read-only-post")
    || text_eq action (text "rollback-post")

unfoldable pub is_relevant_snapper_event : SnapperPluginEvent → Text → Bool
is_relevant_snapper_event event expected_subvolume =
    is_relevant_action event.action
    && text_eq event.subvolume expected_subvolume
    && text_eq event.fstype (text "btrfs")

pub record RefreshRequest : Type 0 where
  pub requested : Bool
  pub coalesced : Bool
  pub pending_marker : FilePath

abbrev pub marker_of : FilePath → FilePath
marker_of runtime_directory = join runtime_directory (text "refresh.pending")

-- std::filesystem::create_directories and exists, opening a std::ofstream in append mode, writing
-- to it and closing it, of which nobody asks how it went, and std::filesystem::remove, which says
-- whether the file was removed
pub record Markers : Type 1 where
  pub World : Type 0
  pub content : World → FilePath → Option Text
  pub create_directories : FilePath → Exec World (Unit {0})
  pub exists : FilePath → Exec World Bool
  pub open_append : FilePath → World → Bool × World
  pub write_close : FilePath → Text → World → World
  pub remove : FilePath → Exec World Bool

abbrev pub cleared : Result Bool → FilePath → Result (Unit {0})
cleared (ok b) marker = ok tt
cleared (err e) marker = err (
    runtime_error
      (text "cannot remove refresh pending marker: " ++ (marker ++ (text ": " ++ what e))))

module _ (c : Markers) where
  open c use {World, create_directories, exists, open_append, write_close, remove}

  open_marker : FilePath → Exec World Bool
  open_marker path w = let (opened, w') = open_append path w in (ok opened, w')

  -- `now` is std::chrono::system_clock::to_time_t
  unfoldable pub request : FilePath → ℕ → Text → Exec World RefreshRequest
  unfolding open_marker
  request runtime_directory now source = do
    create_directories runtime_directory
    let marker = marker_of runtime_directory
    existed ← exists marker
    output ← open_marker marker
    throw_if (not output) (runtime_error (text "cannot create refresh pending marker: " ++ marker))
    modify (write_close marker (to_string now ++ (text " " ++ (source ++ (newline ∷ [])))))
    pure (record { requested = true; coalesced = existed; pending_marker = marker })

  unfoldable pub pending : FilePath → Exec World Bool
  pending runtime_directory = exists (marker_of runtime_directory)

  unfoldable pub clear_pending : FilePath → Exec World (Unit {0})
  clear_pending runtime_directory w =
      let marker = marker_of runtime_directory in
      let (r, w') = remove marker w in (cleared r marker, w')
