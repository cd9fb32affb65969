-- ===== src/Decimal.antt =====
-- std::to_string of an unsigned integer, and std::stoul on a text of digits. An unsigned long has
-- 64 bits. The fuel of `digits_onto` is one more than the number, which has fewer digits.
use limine_manager.Prelude.{
  ℕ, zero, suc, ◌+◌, ◌-◌, ◌*◌, ◌/◌, ◌%◌, ◌^◌, ◌<◌, ◌≡◌, refl, ◌∙◌, ap, inl, inr, Bool, true, false,
  ◌&&◌, [], ◌∷◌, ltb, leb, if◌then◌else◌, is_empty, all_of, Bool-cases, Text, text, Result, ok, err,
  out_of_range, arith,
}

unfoldable pub is_digit : ℕ → Bool
is_digit c = leb b'0' c && leb c b'9'

digits_onto : ℕ → ℕ → Text → Text
digits_onto zero n acc = acc
digits_onto (suc fuel) n acc =
    let longer = digits_onto fuel (n / 10) ((b'0' + n % 10) ∷ acc) in
    if ltb n 10 then (b'0' + n % 10) ∷ acc else longer

unfoldable pub to_string : ℕ → Text
unfolding digits_onto
to_string n = digits_onto (suc n) n []

-- the number that digits stand for, behind those already read
unfoldable pub decimal_from : ℕ → Text → ℕ
decimal_from n [] = n
decimal_from n (c ∷ cs) = decimal_from (n * 10 + (c - b'0')) cs

abbrev pub ulong_limit : ℕ
ulong_limit = 2 ^ 64

-- The caller has checked that the text is not empty and has only digits.
unfoldable pub stoul : Text → Result ℕ
unfolding decimal_from
stoul digits =
    let n = decimal_from 0 digits in
    if ltb n ulong_limit then ok n else err (out_of_range (text "stoul"))

decimal_from-digits_onto :
    (fuel n : ℕ) (acc : Text)
    → n < fuel
    → decimal_from 0 (digits_onto fuel n acc) ≡ decimal_from n acc
unfolding digits_onto decimal_from
decimal_from-digits_onto zero n acc h = absurd (omega arith)
decimal_from-digits_onto (suc fuel) n acc h = elim (Bool-cases (ltb n 10)) [
  | inl small ↦ rw small (ap (λ m. decimal_from m acc) (ground arith))
  | inr large ↦ rw large (
      decimal_from-digits_onto fuel (n / 10) ((b'0' + n % 10) ∷ acc) (ground arith)
      ∙ ap (λ m. decimal_from m acc) (omega arith))
]

pub decimal_from-to_string : (n : ℕ) → decimal_from 0 (to_string n) ≡ n
unfolding to_string decimal_from
decimal_from-to_string n = decimal_from-digits_onto (suc n) n [] (omega arith)

all_of-digits_onto :
    (fuel n : ℕ) (acc : Text)
    → all_of is_digit acc ≡ true
    → all_of is_digit (digits_onto fuel n acc) ≡ true
unfolding digits_onto is_digit
all_of-digits_onto zero n acc h = h
all_of-digits_onto (suc fuel) n acc h =
    ground (arith, all_of-digits_onto fuel (n / 10) ((b'0' + n % 10) ∷ acc))

pub all_of-to_string : (n : ℕ) → all_of is_digit (to_string n) ≡ true
unfolding to_string
all_of-to_string n = all_of-digits_onto (suc n) n [] refl

is_empty-digits_onto : (fuel n c : ℕ) (acc : Text) → is_empty (digits_onto fuel n (c ∷ acc)) ≡ false
unfolding digits_onto
is_empty-digits_onto zero n c acc = refl
is_empty-digits_onto (suc fuel) n c acc =
    ground (arith, is_empty-digits_onto fuel (n / 10) (b'0' + n % 10) (c ∷ acc))

pub is_empty-to_string : (n : ℕ) → is_empty (to_string n) ≡ false
unfolding to_string digits_onto
is_empty-to_string n = ground (arith, is_empty-digits_onto n (n / 10) (b'0' + n % 10) [])

-- `stoul` reads back what `to_string` writes, for every value of an unsigned long.
pub stoul-to_string : (n : ℕ) → n < ulong_limit → stoul (to_string n) ≡ ok n
unfolding stoul
stoul-to_string n h = ground (arith, decimal_from-to_string n)
