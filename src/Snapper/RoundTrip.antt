-- ===== src/Snapper/RoundTrip.antt =====
-- Rows in the format of RFC 4180, with every field in quotes, are read back.
use limine_manager.Prelude.{
  ℕ, ◌≡◌, refl, ◌∙◌, sym, ap, ◌<◌, inl, inr, Bool, true, false, Bool-cases, some, List, [], ◌∷◌,
  ◌++◌, append-nil, append_assoc, ◌==◌, if◌then◌else◌, Text, text, text_eq, ok, ◌>>=◌, arith,
}
use limine_manager.Decimal.{
  to_string, ulong_limit, stoul-to_string, is_empty-to_string, all_of-to_string,
}
use limine_manager.Model.{SnapshotInfo}
use limine_manager.Snapper.{
  CsvScan, plain, quoted, double_quote, comma, scan_byte, scan_row, end_row, parse_csv_row,
  scan_unquoted, scan_quoted, scan_after_quote, snapshot_of, from_chars, numbered,
}

-- each quote twice
unfoldable pub doubled : Text → Text
doubled [] = []
doubled (c ∷ cs) =
    let rest = doubled cs in
    if c == double_quote then double_quote ∷ (double_quote ∷ rest) else c ∷ rest

abbrev pub enclosed : Text → Text → Text
enclosed field rest = double_quote ∷ (doubled field ++ (double_quote ∷ rest))

unfoldable pub csv_row : Text → List Text → Text
csv_row field [] = enclosed field []
csv_row field (next ∷ more) = enclosed field (comma ∷ csv_row next more)

abbrev inside : List Text → Text → CsvScan
inside fields field = record { mode = quoted; fields = fields; field = field }

same_byte : (c : ℕ) → (c == double_quote) ≡ true → c ≡ double_quote
same_byte c h = grind (arith, h)

scan_byte-other :
    (fields : List Text) (before : Text) (c : ℕ)
    → (c == double_quote) ≡ false
    → scan_byte (inside fields before) c ≡ inside fields (before ++ (c ∷ []))
unfolding scan_byte scan_quoted
scan_byte-other fields before c e = rw e refl

scan_row-doubled :
    (field : Text) (fields : List Text) (before rest : Text)
    → scan_row (inside fields before) (doubled field ++ rest)
      ≡ scan_row (inside fields (before ++ field)) rest
unfolding doubled scan_row scan_byte scan_quoted scan_after_quote scan_unquoted
scan_row-doubled [] fields before rest =
    ap (λ t. scan_row (inside fields t) rest) (sym (append-nil before))
scan_row-doubled (c ∷ cs) fields before rest = elim (Bool-cases (c == double_quote)) [
  | inl e ↦ rw e (
      scan_row-doubled cs fields (before ++ (double_quote ∷ [])) rest
      ∙ ap (λ t. scan_row (inside fields t) rest)
          (append_assoc before (double_quote ∷ []) cs
            ∙ ap (λ d. before ++ (d ∷ cs)) (sym (same_byte c e))))
  | inr e ↦ rw e (
      ap (λ s. scan_row s (doubled cs ++ rest)) (scan_byte-other fields before c e)
      ∙ scan_row-doubled cs fields (before ++ (c ∷ [])) rest
      ∙ ap (λ t. scan_row (inside fields t) rest) (append_assoc before (c ∷ []) cs))
]

-- what is read of a row, behind the fields before it
end_row-csv_row :
    (fields : List Text) (field : Text) (more : List Text)
    → end_row (scan_row (record { mode = plain; fields = fields; field = [] }) (csv_row field more))
      ≡ ok (fields ++ (field ∷ more))
unfolding csv_row scan_row scan_byte scan_quoted scan_after_quote scan_unquoted end_row
end_row-csv_row fields field [] = ap end_row (scan_row-doubled field fields [] (double_quote ∷ []))
end_row-csv_row fields field (next ∷ more) =
    ap end_row (scan_row-doubled field fields [] (double_quote ∷ (comma ∷ csv_row next more)))
    ∙ end_row-csv_row (fields ++ (field ∷ [])) next more
    ∙ ap ok (append_assoc fields (field ∷ []) (next ∷ more))

-- A row whose fields are written in quotes, with every quote doubled, is read back as those fields,
-- whatever bytes they hold.
pub parse_csv_row-csv_row :
    (field : Text) (more : List Text) → parse_csv_row (csv_row field more) ≡ ok (field ∷ more)
unfolding parse_csv_row
parse_csv_row-csv_row field more = end_row-csv_row [] field more

abbrev pub answer : Bool → Text
answer read_only = if read_only then text "yes" else text "no"

abbrev pub snapshot_row : SnapshotInfo → Text
snapshot_row s = csv_row (to_string s.number) (s.date ∷ (s.description ∷ (answer s.read_only ∷ [])))

from_chars-to_string : (n : ℕ) → n < ulong_limit → from_chars (to_string n) ≡ some n
unfolding from_chars
from_chars-to_string n h =
    rw (is_empty-to_string n) (rw (all_of-to_string n) (rw (stoul-to_string n h) refl))

read_answer : (b : Bool) → text_eq (answer b) (text "yes") ≡ b
unfolding text text_eq
read_answer true = refl
read_answer false = refl

-- The row of a snapshot, as one text, is read back as that snapshot,
-- where its number is an unsigned long and is not written 0, which stands for the current system.
pub snapshot_of-snapshot_row :
    (s : SnapshotInfo)
    → s.number < ulong_limit
    → text_eq (to_string s.number) (text "0") ≡ false
    → (parse_csv_row (snapshot_row s) >>= snapshot_of) ≡ ok (some s)
unfolding snapshot_of numbered
snapshot_of-snapshot_row s small present =
    rw
      (parse_csv_row-csv_row (to_string s.number)
        (s.date ∷ (s.description ∷ (answer s.read_only ∷ []))))
      (rw present (
        rw (from_chars-to_string s.number small) (
          ap
            (λ b. ok (
              some (record {
                number = s.number;
                date = s.date;
                description = s.description;
                read_only = b;
              })))
            (read_answer s.read_only))))
