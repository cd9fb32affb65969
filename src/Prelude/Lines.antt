-- ===== src/Prelude/Lines.antt =====
-- Texts cut at a byte.
use Prim.Native.Nat.{ℕ}
use mathlib.Core.List.{List, [], ◌∷◌}
use limine_manager.Prelude.Tests.{◌==◌, if◌then◌else◌}
use limine_manager.Prelude.Bytes.{Text}

abbrev prepend : ℕ → List Text → List Text
prepend c [] = (c ∷ []) ∷ []
prepend c (piece ∷ pieces) = (c ∷ piece) ∷ pieces

-- the pieces that find(c) and substr cut; a separator at the end leaves no empty piece behind it,
-- as with std::getline
unfoldable pub pieces_until : ℕ → Text → List Text
pieces_until separator [] = []
pieces_until separator (c ∷ cs) =
    let pieces = pieces_until separator cs in
    if c == separator then [] ∷ pieces else prepend c pieces

abbrev pub newline : ℕ
newline = 10

unfoldable pub lines : Text → List Text
unfolding pieces_until
lines t = pieces_until newline t
