-- ===== src/Snapper/Listing.antt =====
-- The rows of several snapshots, from the output of Snapper to the list.
use limine_manager.Prelude.{
  ℕ, ◌≡◌, refl, ◌∙◌, sym, ap, ◌<◌, Bool, true, false, ◌||◌, List, [], ◌∷◌, ◌++◌, ◌==◌, append_assoc,
  All, all_of, has_char, is_empty, lines, pieces_until, newline, Text, text, text_eq, ok, ◌>>=◌,
  arith,
}
use limine_manager.Decimal.{to_string, is_digit, ulong_limit, all_of-to_string}
use limine_manager.Model.{SnapshotInfo}
use limine_manager.Snapper.{
  double_quote, comma, snapshot_of, without_return, filled_lines, parse_snapshots, add_snapshot,
  checked, list,
}
use limine_manager.Snapper.RoundTrip.{
  doubled, enclosed, csv_row, answer, snapshot_row, parse_csv_row-csv_row, snapshot_of-snapshot_row,
}

-- the output for some snapshots, each row with a newline behind it
unfoldable pub snapshot_rows : List SnapshotInfo → Text
snapshot_rows [] = []
snapshot_rows (s ∷ ss) = snapshot_row s ++ (newline ∷ snapshot_rows ss)

-- a snapshot that a row of one line can give: its number is an unsigned long and not written 0
pub record IsOneLine (s : SnapshotInfo) : Type 0 where
  pub small : s.number < ulong_limit
  pub present : text_eq (to_string s.number) (text "0") ≡ false
  pub date_line : has_char newline s.date ≡ false
  pub description_line : has_char newline s.description ≡ false

has_char-append : (c : ℕ) (a b : Text) → has_char c (a ++ b) ≡ (has_char c a || has_char c b)
unfolding has_char
has_char-append c [] b = refl
has_char-append c (x ∷ xs) b = ground (arith, has_char-append c xs b)

has_char-doubled : (t : Text) → has_char newline (doubled t) ≡ has_char newline t
unfolding has_char doubled
has_char-doubled [] = refl
has_char-doubled (c ∷ cs) = ground (arith, has_char-doubled cs)

digits_no_newline : (t : Text) → all_of is_digit t ≡ true → has_char newline t ≡ false
unfolding has_char is_digit
digits_no_newline [] h = refl
digits_no_newline (c ∷ cs) h = ground (arith, h, digits_no_newline cs)

has_char-enclosed :
    (field rest : Text)
    → has_char newline field ≡ false
    → has_char newline rest ≡ false
    → has_char newline (enclosed field rest) ≡ false
unfolding has_char
has_char-enclosed field rest h k =
    has_char-append newline (doubled field) (double_quote ∷ rest)
    ∙ rw (has_char-doubled field, h, k) refl

abbrev OneLine : Text → Type 0
OneLine t = has_char newline t ≡ false

has_char-csv_row :
    (field : Text) (more : List Text)
    → OneLine field
    → All OneLine more
    → OneLine (csv_row field more)
unfolding csv_row has_char
has_char-csv_row field [] h k = has_char-enclosed field [] h refl
has_char-csv_row field (next ∷ more) h k =
    has_char-enclosed field (comma ∷ csv_row next more) h (has_char-csv_row next more k.0 k.1)

answer_line : (b : Bool) → OneLine (answer b)
unfolding has_char text
answer_line true = refl
answer_line false = refl

snapshot_row_line : (s : SnapshotInfo) → IsOneLine s → OneLine (snapshot_row s)
snapshot_row_line s h =
    has_char-csv_row (to_string s.number) (s.date ∷ (s.description ∷ (answer s.read_only ∷ [])))
      (digits_no_newline (to_string s.number) (all_of-to_string s.number))
      (h.date_line, (h.description_line, (answer_line s.read_only, tt)))

lines-row : (t rest : Text) → OneLine t → lines (t ++ (newline ∷ rest)) ≡ t ∷ lines rest
unfolding lines pieces_until has_char
lines-row [] rest h = refl
lines-row (c ∷ cs) rest h =
    let later = lines-row cs rest (ground (arith, h)) in
    let other : (c == newline) ≡ false = ground (arith, h) in rw other (rw later refl)

-- a text with a quote at its end keeps all of its bytes
without_return-quoted :
    (t : Text) → without_return (t ++ (double_quote ∷ [])) ≡ t ++ (double_quote ∷ [])
unfolding without_return
without_return-quoted [] = refl
without_return-quoted (c ∷ []) = refl
without_return-quoted (c ∷ (d ∷ ds)) = ap (λ r. c ∷ r) (without_return-quoted (d ∷ ds))

quoted_end :
    (field : Text) (more : List Text) → (t : Text) × (csv_row field more ≡ t ++ (double_quote ∷ []))
unfolding csv_row
quoted_end field [] = (double_quote ∷ doubled field, refl)
quoted_end field (next ∷ more) =
    let (t, e) = quoted_end next more in
    (
      double_quote ∷ (doubled field ++ (double_quote ∷ (comma ∷ t))),
      ap (λ r. double_quote ∷ (doubled field ++ (double_quote ∷ (comma ∷ r)))) e
          ∙ ap (λ r. double_quote ∷ r)
              (sym (append_assoc (doubled field) (double_quote ∷ (comma ∷ t)) (double_quote ∷ []))),
    )

without_return-csv_row :
    (field : Text) (more : List Text) → without_return (csv_row field more) ≡ csv_row field more
without_return-csv_row field more =
    let (t, e) = quoted_end field more in ap without_return e ∙ without_return-quoted t ∙ sym e

csv_row-filled : (field : Text) (more : List Text) → is_empty (csv_row field more) ≡ false
unfolding csv_row
csv_row-filled field [] = refl
csv_row-filled field (next ∷ more) = refl

filled_lines-row :
    (s : SnapshotInfo) (rest : Text)
    → IsOneLine s
    → filled_lines (snapshot_row s ++ (newline ∷ rest)) ≡ snapshot_row s ∷ filled_lines rest
unfolding filled_lines
filled_lines-row s rest h = rw (lines-row (snapshot_row s) rest (snapshot_row_line s h)) (
    rw
      (without_return-csv_row (to_string s.number)
        (s.date ∷ (s.description ∷ (answer s.read_only ∷ []))))
      (rw
        (csv_row-filled (to_string s.number) (s.date ∷ (s.description ∷ (answer s.read_only ∷ []))))
        refl))

parse_snapshots-row :
    (s : SnapshotInfo) (rest : List Text) (ss : List SnapshotInfo)
    → IsOneLine s
    → parse_snapshots rest ≡ ok ss
    → parse_snapshots (snapshot_row s ∷ rest) ≡ ok (s ∷ ss)
unfolding parse_snapshots add_snapshot
parse_snapshots-row s rest ss h later =
    let fields = s.date ∷ (s.description ∷ (answer s.read_only ∷ [])) in
    let row = parse_csv_row-csv_row (to_string s.number) fields in
    let read =
      ap (λ z. z >>= snapshot_of) (sym row) ∙ snapshot_of-snapshot_row s h.small h.present in
    rw row (rw read (rw later refl))

parse_snapshots-snapshot_rows :
    (ss : List SnapshotInfo)
    → All IsOneLine ss
    → parse_snapshots (filled_lines (snapshot_rows ss)) ≡ ok ss
unfolding snapshot_rows filled_lines lines pieces_until parse_snapshots
parse_snapshots-snapshot_rows [] h = refl
parse_snapshots-snapshot_rows (s ∷ ss) h =
    ap parse_snapshots (filled_lines-row s (snapshot_rows ss) h.0)
    ∙ parse_snapshots-row s (filled_lines (snapshot_rows ss)) ss h.0
        (parse_snapshots-snapshot_rows ss h.1)

-- `list` reads any snapshots back from the output with a row for each, every field in quotes and
-- every quote in it doubled: for numbers that are an unsigned long and are not written 0, which
-- stands for the current system, and dates and descriptions without a newline.
pub list-snapshot_rows :
    (ss : List SnapshotInfo)
    → All IsOneLine ss
    → list (record { exit_code = 0; output = snapshot_rows ss }) ≡ ok ss
unfolding list checked
list-snapshot_rows ss h = parse_snapshots-snapshot_rows ss h
