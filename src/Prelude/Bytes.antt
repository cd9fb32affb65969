-- ===== src/Prelude/Bytes.antt =====
-- std::string as a list of bytes, with the tests and searches that the program makes.
use Prim.Native.Nat.{ℕ, ◌-◌}
use Prim.Native.Char.{code}
use Prim.Native.String.{String}
use mathlib.Core.Path.{◌≡◌, refl}
use mathlib.Core.Logic.{◌↔◌}
use mathlib.Core.Bool.{Bool, true, false, ◌&&◌, ◌||◌}
use mathlib.Core.List.{List, [], ◌∷◌, ◌++◌}
use native.Mathlib.Omega.{arith}
use limine_manager.Prelude.Tests.{leb, ◌==◌, if◌then◌else◌}
use limine_manager.Prelude.Lists.{drop, length, is_empty}

abbrev pub Text : Type 0
Text = List ℕ

-- A literal. It stays shut, so that a proof sees one unknown and not its bytes.
unfoldable pub text : String → Text
text String.[] = []
text (String.◌∷◌ c s) = code c ∷ text s

unfoldable pub text_eq : Text → Text → Bool
text_eq [] [] = true
text_eq [] (y ∷ ys) = false
text_eq (x ∷ xs) [] = false
text_eq (x ∷ xs) (y ∷ ys) = x == y && text_eq xs ys

pub text_eq_iff : (a b : Text) → (text_eq a b ≡ true) ↔ (a ≡ b)
unfolding text_eq
text_eq_iff [] [] = ground arith
text_eq_iff [] (y ∷ ys) = ground arith
text_eq_iff (x ∷ xs) [] = ground arith
text_eq_iff (x ∷ xs) (y ∷ ys) = ground (arith, text_eq_iff xs ys)

pub text_eq_refl : (a : Text) → text_eq a a ≡ true
text_eq_refl a = (text_eq_iff a a).1 refl

-- std::string::starts_with and ends_with
unfoldable pub starts_with : Text → Text → Bool
starts_with t [] = true
starts_with [] (p ∷ ps) = false
starts_with (c ∷ cs) (p ∷ ps) = c == p && starts_with cs ps

unfoldable pub ends_with : Text → Text → Bool
unfolding text_eq
ends_with t suffix =
    leb (length suffix) (length t) && text_eq (drop (length t - length suffix) t) suffix

-- find(c) != npos
unfoldable pub has_char : ℕ → Text → Bool
has_char c [] = false
has_char c (d ∷ ds) = d == c || has_char c ds

-- substr(0, find(c)): all of the text where `c` does not occur
unfoldable pub before_char : ℕ → Text → Text
before_char c [] = []
before_char c (d ∷ ds) = let later = before_char c ds in if d == c then [] else d ∷ later

-- the text without the bytes at its end that pass the test
unfoldable pub drop_last_while : (ℕ → Bool) → Text → Text
drop_last_while p [] = []
drop_last_while p (c ∷ cs) =
    let later = drop_last_while p cs in if is_empty later && p c then [] else c ∷ later

-- the text without the bytes at its start that pass the test
unfoldable pub drop_while : (ℕ → Bool) → Text → Text
drop_while p [] = []
drop_while p (c ∷ cs) = let later = drop_while p cs in if p c then later else c ∷ cs

pub starts_with-append : (a b : Text) → starts_with (a ++ b) a ≡ true
unfolding starts_with
starts_with-append [] b = refl
starts_with-append (c ∷ cs) b = ground (arith, starts_with-append cs b)

pub text_eq-of_ne : (a b : Text) → (a ≡ b → ⊥) → text_eq a b ≡ false
text_eq-of_ne a b h = ground (arith, text_eq_iff a b)
