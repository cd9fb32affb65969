-- ===== src/Snapper.antt =====
-- src/infrastructure/snapper_client.cpp, on the result of the process that the client runs. The
-- reading of a row looks one byte ahead for a doubled quote; here that is a mode of its own, which
-- the next byte decides.
pub mod RoundTrip
pub mod Listing
use limine_manager.Prelude.{
  ℕ, Bool, true, false, not, ◌&&◌, ◌||◌, Option, none, some, List, [], ◌∷◌, ◌++◌, ◌==◌,
  if◌then◌else◌, is_empty, all_of, keep_if, length, map, lines, Text, text, text_eq, Result, ok,
  err, ◌>>=◌, ◌>>◌, require, runtime_error,
}
use limine_manager.Decimal.{is_digit, stoul}
use limine_manager.Model.{SnapperConfig, SnapshotInfo}
use limine_manager.SecureBoot.Tools.{ProcessResult}

pub data CsvMode : Type 0 where
  plain quoted after_quote : CsvMode

pub record CsvScan : Type 0 where
  pub mode : CsvMode
  pub fields : List Text
  pub field : Text

abbrev pub double_quote : ℕ
double_quote = b'"'

abbrev pub comma : ℕ
comma = b','

scan_unquoted : CsvScan → ℕ → CsvScan
scan_unquoted s c =
    if c == double_quote
    then record s { mode = quoted }
    else if c == comma
    then record { mode = plain; fields = s.fields ++ (s.field ∷ []); field = [] }
    else record s { mode = plain; field = s.field ++ (c ∷ []) }

scan_quoted : CsvScan → ℕ → CsvScan
scan_quoted s c =
    if c == double_quote
    then record s { mode = after_quote }
    else record s { field = s.field ++ (c ∷ []) }

-- the byte behind a quote in a quoted field
scan_after_quote : CsvScan → ℕ → CsvScan
unfolding scan_unquoted
scan_after_quote s c =
    if c == double_quote
    then record s { mode = quoted; field = s.field ++ (double_quote ∷ []) }
    else scan_unquoted s c

scan_byte : CsvScan → ℕ → CsvScan
unfolding scan_unquoted scan_quoted scan_after_quote
scan_byte s c = elim s.mode [
  | plain ↦ scan_unquoted s c
  | quoted ↦ scan_quoted s c
  | after_quote ↦ scan_after_quote s c
]

scan_row : CsvScan → Text → CsvScan
scan_row s [] = s
scan_row s (c ∷ cs) = scan_row (scan_byte s c) cs

end_row : CsvScan → Result (List Text)
end_row s = elim s.mode [
  | plain ↦ ok (s.fields ++ (s.field ∷ []))
  | quoted ↦ err (runtime_error (text "Malformed CSV output from snapper"))
  | after_quote ↦ ok (s.fields ++ (s.field ∷ []))
]

unfoldable pub parse_csv_row : Text → Result (List Text)
unfolding scan_byte scan_row end_row
parse_csv_row line = end_row (scan_row (record { mode = plain; fields = []; field = [] }) line)

without_return : Text → Text
without_return [] = []
without_return (c ∷ []) = if c == 13 then [] else c ∷ []
without_return (c ∷ d ∷ ds) = c ∷ without_return (d ∷ ds)

-- the lines that `for_each_line` passes on
unfoldable pub filled_lines : Text → List Text
unfolding without_return
filled_lines output = keep_if (λ line. not (is_empty line)) (map without_return (lines output))

checked : ProcessResult → Text → Result (Unit {0})
checked result operation =
    require (result.exit_code == 0) (runtime_error (operation ++ result.output))

-- values[key] of the map that the lines fill: the last line with that key
value_of : Text → Text → List (List Text) → Text
value_of key found [] = found
value_of key found ((k ∷ v ∷ []) ∷ rows) = value_of key (if text_eq k key then v else found) rows
value_of key found (row ∷ rows) = value_of key found rows

unfoldable pub parse_rows : List Text → Result (List (List Text))
parse_rows [] = ok []
parse_rows (line ∷ rest) = do row ← parse_csv_row line; rows ← parse_rows rest; ok (row ∷ rows)

unfoldable pub get_config : Text → ProcessResult → Result SnapperConfig
unfolding checked value_of
get_config config result = do
  checked result (text "snapper get-config failed: ")
  rows ← parse_rows (filled_lines result.output)
  ok (record {
    name = config;
    subvolume = value_of (text "SUBVOLUME") [] rows;
    filesystem_type = value_of (text "FSTYPE") [] rows;
  })

-- std::from_chars of an unsigned long that reads the whole text
unfoldable pub from_chars : Text → Option ℕ
from_chars digits =
    if is_empty digits || not (all_of is_digit digits)
    then none
    else elim (stoul digits) [ ok n ↦ some n | err e ↦ none ]

numbered : Option ℕ → Text → Text → Text → Text → Result (Option SnapshotInfo)
numbered none number date description read_only =
    err (runtime_error (text "Invalid snapshot number: " ++ number))
numbered (some n) number date description read_only = ok (
    some (record {
      number = n;
      date = date;
      description = description;
      read_only = text_eq read_only (text "yes");
    }))

-- nothing for the row of the current system
unfoldable pub snapshot_of : List Text → Result (Option SnapshotInfo)
unfolding numbered
snapshot_of (number ∷ date ∷ description ∷ read_only ∷ []) =
    if text_eq number (text "0")
    then ok none
    else numbered (from_chars number) number date description read_only
snapshot_of fields = err (runtime_error (text "Unexpected snapper CSV column count"))

add_snapshot : Option SnapshotInfo → List SnapshotInfo → List SnapshotInfo
add_snapshot none snapshots = snapshots
add_snapshot (some s) snapshots = s ∷ snapshots

unfoldable pub parse_snapshots : List Text → Result (List SnapshotInfo)
unfolding add_snapshot
parse_snapshots [] = ok []
parse_snapshots (line ∷ rest) = do
  fields ← parse_csv_row line
  snapshot ← snapshot_of fields
  snapshots ← parse_snapshots rest
  ok (add_snapshot snapshot snapshots)

unfoldable pub list : ProcessResult → Result (List SnapshotInfo)
unfolding checked
list result = do
  checked result (text "snapper list failed: ")
  parse_snapshots (filled_lines result.output)
