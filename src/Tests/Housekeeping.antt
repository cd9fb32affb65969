-- ===== src/Tests/Housekeeping.antt =====
-- Rows of Snapper, backups and a refresh.
use limine_manager.Prelude.{
  has_char, Option, ◌++◌, ◌≡◌, refl, Bool, true, false, ◌&&◌, none, some, List, [], ◌∷◌, count_if,
  if◌then◌else◌, Text, text, text_eq, ok, arith,
}
use limine_manager.Decimal.{to_string}
use limine_manager.FilePath.{FilePath}
use limine_manager.Exec.Triples.{Ended}
use limine_manager.Model.{SnapshotInfo, default_config}
use limine_manager.Snapper.{parse_csv_row, list}
use limine_manager.Snapper.RoundTrip.{csv_row, parse_csv_row-csv_row}
use limine_manager.Snapper.Listing.{snapshot_rows, IsOneLine, list-snapshot_rows}
use limine_manager.Backups.{BackupInfo, Entry, RemoveAnswer, list_backups, prune}
use limine_manager.Backups.Pruning.{
  NewestFirst, is_backup_where, list_backups-NewestFirst, Pruned, prune-Pruned,
}
use limine_manager.SecureBoot.Service.{Session}
use limine_manager.Automation.{Markers}
use limine_manager.Automation.Marker.{text_of, holds_file}
use limine_manager.Exec.{pure}
use limine_manager.Refresh.{refresh}
use limine_manager.Refresh.Gate.{Touched, refresh-Touched}
use limine_manager.Tests.FileTree.{Tree, tree}
use limine_manager.Tests.Files.{machine}
use limine_manager.Tests.SecureBoot.{quiet, surroundings}
use limine_manager.Tests.Services.{holding}
use limine_manager.Tests.Menu.{no_relative}
use limine_manager.Tests.Machines.{system, snapper, snapshot}

parse_csv_row-csv_row_example :
    parse_csv_row (csv_row (text "a\"b") (text "c,d" ∷ [])) ≡ ok (text "a\"b" ∷ (text "c,d" ∷ []))
parse_csv_row-csv_row_example = parse_csv_row-csv_row (text "a\"b") (text "c,d" ∷ [])

abbrev taken : SnapshotInfo
taken = record { number = 12; date = text "2024"; description = text "a, b"; read_only = true }

taken_line : IsOneLine taken
unfolding to_string text text_eq has_char
taken_line = record {
  small = omega arith;
  present = refl;
  date_line = refl;
  description_line = refl;
}

list-snapshot_rows_example :
    list (record { exit_code = 0; output = snapshot_rows (taken ∷ (taken ∷ [])) })
    ≡ ok (taken ∷ (taken ∷ []))
list-snapshot_rows_example =
    list-snapshot_rows (taken ∷ (taken ∷ [])) (taken_line, (taken_line, tt))

abbrev entry : Text → Entry
entry name = record {
  path = name;
  is_regular_file = true;
  file_size = some 1;
  last_write_time = some 5;
}

abbrev entries : List Entry
entries = entry (text "/boot/limine.conf.bak.1") ∷ (entry (text "/boot/limine.conf.bak.2") ∷ [])

list_backups-NewestFirst_example :
    (backups : List BackupInfo) × (list_backups (ok (some entries)) (text "/boot/limine.conf")
      ≡ ok backups)
    × NewestFirst backups
    × ((p : BackupInfo → Bool)
        → count_if p backups ≡ count_if (is_backup_where p (text "/boot/limine.conf")) entries)
list_backups-NewestFirst_example = list_backups-NewestFirst entries (text "/boot/limine.conf")

-- a directory as the set of its files
abbrev Folder : Type 0
Folder = FilePath → Bool

abbrev unlinked : FilePath → Folder → RemoveAnswer × Folder
unlinked p w = (
  record { removed = w p; failed = false; message = [] },
  λ q. if w p && text_eq q p then false else w q,
)

abbrev all_there : Folder
all_there p = true

prune-Pruned_example :
    Pruned unlinked
      (λ w q. w q)
      (λ p q w. refl)
      all_there
      1
      (list_backups (ok (some entries)) (text "/boot/limine.conf"))
      (prune unlinked (ok (some entries)) (text "/boot/limine.conf") 1 all_there)
prune-Pruned_example =
    prune-Pruned unlinked (λ w q. w q) (λ p q w. refl) (ok (some entries))
      (text "/boot/limine.conf") 1 all_there

abbrev session : Session Tree
session = record { process = machine; reports = []; injected = none }

abbrev unremovable : FilePath → Tree → RemoveAnswer × Tree
unremovable p w = (record { removed = false; failed = true; message = [] }, w)

refresh-Touched_example :
    Ended
      (λ r.
        Touched tree quiet surroundings
          (λ w. holding [])
          no_relative
          (λ w p. ok none)
          unremovable
          system
          snapper
          (snapshot ∷ [])
          default_config
          session)
      (λ e.
        Touched tree quiet surroundings
          (λ w. holding [])
          no_relative
          (λ w p. ok none)
          unremovable
          system
          snapper
          (snapshot ∷ [])
          default_config
          session)
      (refresh tree quiet surroundings
        (λ w. holding [])
        no_relative
        (λ w p. ok none)
        unremovable
        system
        snapper
        (snapshot ∷ [])
        default_config
        session)
refresh-Touched_example =
    refresh-Touched tree quiet surroundings (λ w. holding []) no_relative (λ w p. ok none)
      unremovable system snapper (snapshot ∷ []) default_config session

-- markers as the contents of all files
abbrev pub notes : Markers
notes = record {
  World = FilePath → Option Text;
  content = λ w. w;
  create_directories = λ d. pure tt;
  exists = λ p w. (ok (holds_file (w p)), w);
  open_append = λ p w. (true, λ q. if text_eq q p then some (text_of (w p)) else w q);
  write_close = λ p line w q. if text_eq q p then some (text_of (w p) ++ line) else w q;
  remove = λ p w. (ok true, λ q. if text_eq q p then none else w q);
}

abbrev no_file : FilePath → Option Text
no_file p = none
