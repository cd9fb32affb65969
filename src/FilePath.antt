-- ===== src/FilePath.antt =====
-- The operations of std::filesystem::path that the program uses, on POSIX path texts.
use limine_manager.Prelude.{
  ℕ, Bool, false, not, ◌&&◌, [], ◌∷◌, ◌++◌, ◌==◌, if◌then◌else◌, is_empty, any_of, Text,
}

abbrev pub FilePath : Type 0
FilePath = Text

abbrev pub slash : ℕ
slash = b'/'

-- the text behind the last '/', or all of it: path::filename
unfoldable pub filename : FilePath → Text
filename [] = []
filename (c ∷ cs) =
    let later = filename cs in if any_of (λ d. d == slash) (c ∷ cs) then later else c ∷ cs

-- leading '/' removed: path::relative_path
unfoldable pub relative_path : FilePath → FilePath
relative_path [] = []
relative_path (c ∷ cs) = let later = relative_path cs in if c == slash then later else c ∷ cs

is_absolute : FilePath → Bool
is_absolute [] = false
is_absolute (c ∷ cs) = c == slash

-- path::operator/
unfoldable pub join : FilePath → FilePath → FilePath
unfolding is_absolute filename
join a b = if is_absolute b then b else if is_empty (filename a) then a ++ b else a ++ (slash ∷ b)

-- trailing '/' removed, with one kept at the root
trim_slashes : FilePath → FilePath
trim_slashes [] = []
trim_slashes (c ∷ cs) =
    let later = trim_slashes cs in if is_empty later && c == slash then [] else c ∷ later

-- path::parent_path for a path with a filename, or that ends in '/'
before_filename : FilePath → FilePath
before_filename [] = []
before_filename (c ∷ cs) =
    let later = before_filename cs in if any_of (λ d. d == slash) (c ∷ cs) then c ∷ later else []

unfoldable pub parent_path : FilePath → FilePath
unfolding trim_slashes before_filename
parent_path p =
    let head = before_filename p in
    let trimmed = trim_slashes head in
    if is_empty trimmed && not (is_empty head) then slash ∷ [] else trimmed
