-- ===== src/Tests/Menu.antt =====
-- The menu of a machine with one kernel and one snapshot.
use limine_manager.Prelude.{
  text_eq, inr, ◌≡◌, refl, ◌++◌, true, Option, some, none, [], ◌∷◌, ◌==◌, if◌then◌else◌, keep_if,
  take, text, ok, is_ok, ◌>>=◌, drop_while, drop_last_while, arith,
}
use limine_manager.Decimal.{to_string}
use limine_manager.FilePath.{FilePath}
use limine_manager.Model.{default_config}
use limine_manager.Domain.KernelCmdline.{KernelCommandLine, parse, value, set, needs_quote}
use limine_manager.Domain.KernelCmdline.RoundTrip.{breaks}
use limine_manager.Rollback.Naming.{snapshot_prefix, parse_snapshot_number}
use limine_manager.Menu.Selection.{
  newest_first, newest_first-select_menu_snapshots, is_offered, sort_snapshots,
  select_menu_snapshots, select_menu_snapshots-take,
}
use limine_manager.Menu.Preview.{snapshot_arguments, snapshot_cmdline, rootflags_for, build_menu}
use limine_manager.Menu.Limine.{render_menu}
use limine_manager.Menu.Booting.{snapshot_subvolume, parse_snapshot_number-snapshot_cmdline}
use limine_manager.Menu.Complete.{render_menu-build_menu}
use limine_manager.Tests.Machines.{system, snapshot, command_line}

select_menu_snapshots-take_example : select_menu_snapshots (snapshot ∷ []) default_config ≡ (
    if default_config.max_snapshots == 0
    then keep_if (is_offered default_config) (sort_snapshots (snapshot ∷ []))
    else take default_config.max_snapshots
        (keep_if (is_offered default_config) (sort_snapshots (snapshot ∷ []))))
select_menu_snapshots-take_example = select_menu_snapshots-take (snapshot ∷ []) default_config

parse_snapshot_number-snapshot_cmdline_example :
    (read : KernelCommandLine) × (parse (snapshot_cmdline command_line (text "@snapshots") 7)
      ≡ ok read)
    × (value read (text "rootflags")
        ≡ some (text "subvol=" ++ snapshot_subvolume (text "@snapshots") 7))
    × (parse_snapshot_number (snapshot_subvolume (text "@snapshots") 7) (text "@snapshots")
        ≡ ok (some 7))
unfolding text text_eq snapshot_prefix drop_while drop_last_while to_string snapshot_arguments
    rootflags_for set needs_quote breaks
parse_snapshot_number-snapshot_cmdline_example =
    parse_snapshot_number-snapshot_cmdline command_line (text "@snapshots") 7 refl (omega arith)
      (omega arith) (((λ e. cc), inr refl), (((λ e. cc), inr refl), (((λ e. cc), inr refl), tt)))

-- std::filesystem::relative, where it fails
abbrev pub no_relative : FilePath → FilePath → Option FilePath
no_relative path base = none

render_menu-build_menu_example :
    is_ok (build_menu no_relative system (snapshot ∷ []) default_config >>= render_menu) ≡ true
render_menu-build_menu_example =
    render_menu-build_menu no_relative system (snapshot ∷ []) default_config

newest_first-select_menu_snapshots_example :
    newest_first
      (select_menu_snapshots (snapshot ∷ record snapshot { number = 9 } ∷ []) default_config)
    ≡ true
newest_first-select_menu_snapshots_example =
    newest_first-select_menu_snapshots (snapshot ∷ record snapshot { number = 9 } ∷ [])
      default_config
