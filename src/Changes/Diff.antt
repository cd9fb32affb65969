-- ===== src/Changes/Diff.antt =====
-- src/render/unified_diff_renderer.cpp: a longest common subsequence and the edits it gives.
use limine_manager.Prelude.{
  ℕ, zero, suc, ◌+◌, ◌≤◌, ◌≡◌, refl, List, [], ◌∷◌, ◌++◌, leb, ltb, if◌then◌else◌, length, get_or,
  Text, text_eq, text_eq_iff, newline, arith,
}

larger : ℕ → ℕ → ℕ
larger a b = if ltb a b then b else a

-- the row of `lcs` for a line of `before`, from the row below it
unfoldable pub lcs_row : Text → List Text → List ℕ → List ℕ
unfolding larger
lcs_row line [] below = 0 ∷ []
lcs_row line (a ∷ as') below =
    let row = lcs_row line as' (drop_one below) in
    (if text_eq line a then 1 + get_or below 1 0 else larger (get_or below 0 0) (get_or row 0 0))
    ∷ row
  where
    drop_one : List ℕ → List ℕ
    drop_one [] = []
    drop_one (x ∷ xs) = xs

-- the row for the end of `before`
unfoldable pub zeros : List Text → List ℕ
zeros [] = 0 ∷ []
zeros (a ∷ as') = 0 ∷ zeros as'

-- the table, from row i for what is left of `before`
unfoldable pub lcs_table : List Text → List Text → List (List ℕ)
unfolding zeros lcs_row
lcs_table [] after = zeros after ∷ []
lcs_table (b ∷ bs) after =
    let below = lcs_table bs after in lcs_row b after (get_or below 0 []) ∷ below

-- the lines that the loop writes
pub data Edit : Type 0 where
  keep insert remove : Text → Edit

entry : List (List ℕ) → ℕ → ℕ → ℕ
entry table i j = get_or (get_or table i []) j 0

-- The loop of `render`: `bs` and `as'` are what is left of the lines from i and from j.
unfoldable pub edits : ℕ → List (List ℕ) → ℕ → ℕ → List Text → List Text → List Edit
unfolding entry
edits zero table i j bs as' = []
edits (suc fuel) table i j [] [] = []
edits (suc fuel) table i j (b ∷ bs) [] = remove b ∷ edits fuel table (i + 1) j bs []
edits (suc fuel) table i j [] (a ∷ as') = insert a ∷ edits fuel table i (j + 1) [] as'
edits (suc fuel) table i j (b ∷ bs) (a ∷ as') =
    let kept = edits fuel table (i + 1) (j + 1) bs as' in
    let inserted = edits fuel table i (j + 1) (b ∷ bs) as' in
    let removed = edits fuel table (i + 1) j bs (a ∷ as') in
    if text_eq b a
    then keep b ∷ kept
    else if leb (entry table (i + 1) j) (entry table i (j + 1))
    then insert a ∷ inserted
    else remove b ∷ removed

-- the edits between two lists of lines
unfoldable pub diff : List Text → List Text → List Edit
unfolding edits lcs_table
diff before after = edits (length before + length after) (lcs_table before after) 0 0 before after

unfoldable pub edit_line : Edit → Text
edit_line (keep line) = b' ' ∷ line
edit_line (insert line) = b'+' ∷ line
edit_line (remove line) = b'-' ∷ line

unfoldable pub body : List Edit → Text
unfolding edit_line
body [] = []
body (e ∷ es) = edit_line e ++ (newline ∷ body es)

-- What the edits leave and what they start from.
pub old_lines : List Edit → List Text
old_lines [] = []
old_lines (keep line ∷ es) = line ∷ old_lines es
old_lines (insert line ∷ es) = old_lines es
old_lines (remove line ∷ es) = line ∷ old_lines es

pub new_lines : List Edit → List Text
new_lines [] = []
new_lines (keep line ∷ es) = line ∷ new_lines es
new_lines (insert line ∷ es) = line ∷ new_lines es
new_lines (remove line ∷ es) = new_lines es

-- With fuel for every line that is left, no line is lost.
edits-lines :
    (fuel : ℕ) (table : List (List ℕ)) (i j : ℕ) (bs as' : List Text)
    → length bs + length as' ≤ fuel
    → (old_lines (edits fuel table i j bs as') ≡ bs)
      × (new_lines (edits fuel table i j bs as') ≡ as')
unfolding edits old_lines new_lines
edits-lines zero table i j [] [] h = (refl, refl)
edits-lines zero table i j [] (a ∷ as') h = absurd (omega arith)
edits-lines zero table i j (b ∷ bs) as' h = absurd (omega arith)
edits-lines (suc fuel) table i j [] [] h = (refl, refl)
edits-lines (suc fuel) table i j (b ∷ bs) [] h =
    ground (arith, edits-lines fuel table (i + 1) j bs [])
edits-lines (suc fuel) table i j [] (a ∷ as') h =
    ground (arith, edits-lines fuel table i (j + 1) [] as')
edits-lines (suc fuel) table i j (b ∷ bs) (a ∷ as') h = ground (
  arith,
  text_eq_iff b a,
  edits-lines fuel table (i + 1) (j + 1) bs as',
  edits-lines fuel table i (j + 1) (b ∷ bs) as',
  edits-lines fuel table (i + 1) j bs (a ∷ as'),
)

-- The context and removed lines of a diff are the old text, the context and added lines the new
-- one, whatever the two texts are.
pub diff-lines :
    (before after : List Text)
    → (old_lines (diff before after) ≡ before) × (new_lines (diff before after) ≡ after)
unfolding diff
diff-lines before after =
    edits-lines (length before + length after) (lcs_table before after) 0 0 before after
      (omega arith)
