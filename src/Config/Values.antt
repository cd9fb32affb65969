-- ===== src/Config/Values.antt =====
-- The value parsers of src/config/config_loader.cpp.
use limine_manager.Prelude.{
  ap, ◌∙◌, ◌<◌, ◌≡◌, refl, ℕ, ◌-◌, ◌%◌, Bool, true, false, not, ◌||◌, Option, none, some, List, [],
  ◌∷◌, ◌++◌, ltb, ◌==◌, if◌then◌else◌, is_empty, keep_if, all_of, map, Text, text, text_eq,
  drop_while, drop_last_while, pieces_until, Result, ok, err, runtime_error, arith,
}
use limine_manager.Decimal.{
  is_digit, to_string, decimal_from, ulong_limit, decimal_from-to_string, all_of-to_string,
  is_empty-to_string,
}
use limine_manager.Domain.KernelCmdline.{is_space}
use limine_manager.Validation.Devices.{to_lower}

-- the characters of " \t\r\n"
unfoldable pub is_blank : ℕ → Bool
is_blank c = c == b' ' || c == 9 || c == 13 || c == 10

unfoldable pub trim : Text → Text
unfolding is_blank drop_while drop_last_while
trim value = drop_last_while is_blank (drop_while is_blank value)

unfoldable pub lower : Text → Text
unfolding to_lower
lower value = map to_lower value

unfoldable pub parse_bool : Text → ℕ → Result Bool
parse_bool value line =
    let normalized = lower (trim value) in
    if text_eq normalized (text "true")
      || text_eq normalized (text "yes")
      || text_eq normalized (text "1")
    then ok true
    else if text_eq normalized (text "false")
        || text_eq normalized (text "no")
        || text_eq normalized (text "0")
    then ok false
    else err (
        runtime_error (text "Invalid boolean at line " ++ (to_string line ++ (text ": " ++ value))))

-- std::stoull of a text that is digits to its end; nothing where it throws
unfoldable pub stoull_digits : Text → Option ℕ
unfolding decimal_from is_digit
stoull_digits digits =
    let n = decimal_from 0 digits in
    if is_empty digits || not (all_of is_digit digits)
    then none
    else if ltb n ulong_limit
    then some n
    else none

-- the value modulo 2^64, as std::stoull negates
unfoldable pub negate : Option ℕ → Option ℕ
negate none = none
negate (some n) = some ((ulong_limit - n) % ulong_limit)

-- an optional sign before the digits
unfoldable pub stoull_signed : Text → Option ℕ
unfolding stoull_digits negate
stoull_signed [] = none
stoull_signed (c ∷ cs) =
    if c == b'-'
    then negate (stoull_digits cs)
    else if c == b'+'
    then stoull_digits cs
    else stoull_digits (c ∷ cs)

-- std::stoull(text, &consumed) where `consumed` is the size of the text
unfoldable pub stoull : Text → Option ℕ
unfolding stoull_signed is_space drop_while
stoull value = stoull_signed (drop_while is_space value)

abbrev size_or : Option ℕ → Text → ℕ → Result ℕ
size_or (some n) value line = ok n
size_or none value line = err (
    runtime_error
      (text "Invalid non-negative integer at line " ++ (to_string line ++ (text ": " ++ value))))

unfoldable pub parse_size : Text → ℕ → Result ℕ
unfolding stoull trim
parse_size value line = size_or (stoull (trim value)) value line

unfoldable pub parse_list : Text → List Text
unfolding trim pieces_until
parse_list value = keep_if (λ item. not (is_empty item)) (map trim (pieces_until b',' value))

unfoldable pub join_with : Text → List Text → Text
join_with separator [] = []
join_with separator (v ∷ []) = v
join_with separator (v ∷ w ∷ ws) = v ++ (separator ++ join_with separator (w ∷ ws))

unfoldable pub join_list : List Text → Text
unfolding join_with
join_list values = join_with (text ", ") values

drop_while_none :
    (p : ℕ → Bool) (q : ℕ → Bool) (t : Text)
    → ((c : ℕ) → q c ≡ true → p c ≡ false)
    → all_of q t ≡ true
    → drop_while p t ≡ t
unfolding drop_while
drop_while_none p q [] h all = refl
drop_while_none p q (c ∷ cs) h all = ground (arith, h c)

drop_last_while_none :
    (p : ℕ → Bool) (q : ℕ → Bool) (t : Text)
    → ((c : ℕ) → q c ≡ true → p c ≡ false)
    → all_of q t ≡ true
    → drop_last_while p t ≡ t
unfolding drop_last_while
drop_last_while_none p q [] h all = refl
drop_last_while_none p q (c ∷ cs) h all = ground (arith, h c, drop_last_while_none p q cs h)

-- A byte that is a digit is none of those in `is_blank` and `is_space`.
trim-digits : (t : Text) → all_of is_digit t ≡ true → trim t ≡ t
unfolding trim
trim-digits t digits =
    ap (drop_last_while is_blank)
      (drop_while_none is_blank is_digit t (λ c h. unfold is_blank is_digit in ground arith) digits)
    ∙ drop_last_while_none is_blank is_digit t (λ c h. unfold is_blank is_digit in ground arith)
        digits

stoull_signed-digits : (t : Text) → all_of is_digit t ≡ true → stoull_signed t ≡ stoull_digits t
unfolding stoull_signed is_digit stoull_digits
stoull_signed-digits [] h = refl
stoull_signed-digits (c ∷ cs) h = ground arith

stoull-digits : (t : Text) → all_of is_digit t ≡ true → stoull t ≡ stoull_digits t
unfolding stoull
stoull-digits t digits =
    ap stoull_signed
      (drop_while_none is_space is_digit t (λ c h. unfold is_space is_digit in ground arith) digits)
    ∙ stoull_signed-digits t digits

stoull_digits-to_string : (n : ℕ) → n < ulong_limit → stoull_digits (to_string n) ≡ some n
unfolding stoull_digits
stoull_digits-to_string n h =
    ground (arith, decimal_from-to_string n, all_of-to_string n, is_empty-to_string n)

-- A size written in decimal digits is read back, for every value of an unsigned 64-bit integer.
pub parse_size-to_string : (n line : ℕ) → n < ulong_limit → parse_size (to_string n) line ≡ ok n
unfolding parse_size
parse_size-to_string n line h =
    let digits = all_of-to_string n in
    ap (λ t. size_or (stoull t) (to_string n) line) (trim-digits (to_string n) digits)
    ∙ ap (λ m. size_or m (to_string n) line)
        (stoull-digits (to_string n) digits ∙ stoull_digits-to_string n h)

trim-minus : (t : Text) → all_of is_digit t ≡ true → trim (b'-' ∷ t) ≡ b'-' ∷ t
unfolding trim
trim-minus t digits =
    let blank : (c : ℕ) → (c == b'-' || is_digit c) ≡ true → is_blank c ≡ false =
      λ c h. unfold is_blank is_digit in ground arith in
    let all : all_of (λ c. c == b'-' || is_digit c) (b'-' ∷ t) ≡ true = signed t digits in
    ap (drop_last_while is_blank)
      (drop_while_none is_blank (λ c. c == b'-' || is_digit c) (b'-' ∷ t) blank all)
    ∙ drop_last_while_none is_blank (λ c. c == b'-' || is_digit c) (b'-' ∷ t) blank all
  where
    signed : (u : Text) → all_of is_digit u ≡ true → all_of (λ c. c == b'-' || is_digit c) u ≡ true
    signed [] h = refl
    signed (c ∷ cs) h = ground (arith, signed cs)

stoull-minus :
    (n : ℕ) → 0 < n → n < ulong_limit → stoull (b'-' ∷ to_string n) ≡ some (ulong_limit - n)
unfolding stoull stoull_signed is_space drop_while
stoull-minus n positive h =
    ap negate (stoull_digits-to_string n h) ∙ unfold negate in ap some (omega arith)

-- A negative number, from -1 to -(2^64 - 1), is not refused as the message of `parse_size` says: it
-- is read modulo 2^64.
pub parse_size-minus :
    (n line : ℕ)
    → 0 < n
    → n < ulong_limit
    → parse_size (b'-' ∷ to_string n) line ≡ ok (ulong_limit - n)
unfolding parse_size
parse_size-minus n line positive h =
    let written = b'-' ∷ to_string n in
    ap (λ t. size_or (stoull t) written line) (trim-minus (to_string n) (all_of-to_string n))
    ∙ ap (λ m. size_or m written line) (stoull-minus n positive h)
