-- ===== src/Domain/KernelCmdline.antt =====
-- src/domain/kernel_cmdline.cpp and its header: the kernel command line as a list of arguments.
mod Keys
pub mod Parsed
pub mod Lookup
pub mod RoundTrip
use limine_manager.Prelude.{
  ℕ, ◌+◌, Bool, true, false, not, ◌&&◌, ◌||◌, Option, none, some, List, [], ◌∷◌, ◌++◌, ltb, leb,
  ◌==◌, if◌then◌else◌, length, is_empty, get_or, take, drop, any_of, Text, text, text_eq, Result,
  ok, err, invalid_argument,
}

pub record KernelCommandLine : Type 0 where
  pub arguments : List Text

-- std::isspace in the C locale
unfoldable pub is_space : ℕ → Bool
is_space c = c == b' ' || (leb 9 c && leb c 13)

-- argument.size() > key.size() && argument.compare(0, key.size(), key) == 0
--     && argument[key.size()] == '='
pub has_value : Text → Text → Bool
has_value argument key =
    ltb (length key) (length argument)
    && text_eq (take (length key) argument) key
    && get_or argument (length key) 0 == b'='

pub is_key : Text → Text → Bool
is_key argument key = text_eq argument key || has_value argument key

-- the characters of find_first_of(" \t\r\n\"\\")
unfoldable pub needs_quote : ℕ → Bool
needs_quote c = c == b' ' || c == 9 || c == 13 || c == 10 || c == b'"' || c == b'\\'

unfoldable pub escape_quoted : Text → Text
escape_quoted [] = []
escape_quoted (c ∷ cs) =
    let later = escape_quoted cs in if c == b'"' || c == b'\\' then b'\\' ∷ c ∷ later else c ∷ later

unfoldable pub quote_argument : Text → Text
unfolding escape_quoted needs_quote
quote_argument argument =
    if not (any_of needs_quote argument)
    then argument
    else b'"' ∷ (escape_quoted argument ++ b'"' ∷ [])

-- The locals of `parse`; a `quote` of 0 means that no quote is open.
pub record Scan : Type 0 where
  pub arguments : List Text
  pub current : Text
  pub escaped : Bool
  pub quote : ℕ

abbrev pub push : Scan → ℕ → Scan
push s ch = record s { current = s.current ++ (ch ∷ []) }

unfoldable pub flush : Scan → Scan
flush s =
    if not (is_empty s.current)
    then record s { arguments = s.arguments ++ (s.current ∷ []); current = [] }
    else s

-- the body of the loop of `parse`
unfoldable pub scan_char : Scan → ℕ → Scan
unfolding flush is_space
scan_char s ch =
    if s.escaped
    then record s { current = s.current ++ (ch ∷ []); escaped = false }
    else if ch == b'\\'
    then record s { escaped = true }
    else if not (s.quote == 0)
    then (if ch == s.quote then record s { quote = 0 } else push s ch)
    else if ch == b'\'' || ch == b'"'
    then record s { quote = ch }
    else if is_space ch
    then flush s
    else push s ch

unfoldable pub scan : Scan → Text → Scan
scan s [] = s
scan s (ch ∷ rest) = scan (scan_char s ch) rest

abbrev pub start : Scan
start = record { arguments = []; current = []; escaped = false; quote = 0 }

-- what follows the loop of `parse`
unfoldable pub finish_scan : Scan → Result KernelCommandLine
unfolding flush
finish_scan s =
    if s.escaped
    then err (invalid_argument (text "Kernel command line ends with an escape character"))
    else if not (s.quote == 0)
    then err (invalid_argument (text "Kernel command line contains an unterminated quote"))
    else ok (record { arguments = (flush s).arguments })

unfoldable pub parse : Text → Result KernelCommandLine
unfolding scan scan_char finish_scan
parse input = finish_scan (scan start input)

pub empty : KernelCommandLine → Bool
empty c = is_empty c.arguments

pub value_in : Text → List Text → Option Text
value_in key [] = none
value_in key (argument ∷ rest) =
    if has_value argument key then some (drop (length key + 1) argument) else value_in key rest

unfoldable pub value : KernelCommandLine → Text → Option Text
unfolding value_in has_value text_eq
value c key = value_in key c.arguments

pub values_in : Text → List Text → List Text
values_in key [] = []
values_in key (argument ∷ rest) =
    let later = values_in key rest in
    if has_value argument key then drop (length key + 1) argument ∷ later else later

unfoldable pub values : KernelCommandLine → Text → List Text
unfolding values_in
values c key = values_in key c.arguments

pub contains_in : Text → List Text → Bool
contains_in key [] = false
contains_in key (argument ∷ rest) = if is_key argument key then true else contains_in key rest

unfoldable pub contains : KernelCommandLine → Text → Bool
unfolding contains_in
contains c key = contains_in key c.arguments

-- substr(0, find('=')): what stands before the first '=', or the whole text
unfoldable pub before_equals : Text → Text
before_equals [] = []
before_equals (c ∷ cs) = if c == b'=' then [] else c ∷ before_equals cs

-- the loop of `set` over the arguments, with the push_back after it
pub set_in : Text → List Text → List Text
set_in replacement [] = replacement ∷ []
set_in replacement (argument ∷ rest) =
    if is_key argument (before_equals replacement)
    then replacement ∷ rest
    else argument ∷ set_in replacement rest

unfoldable pub set : KernelCommandLine → Text → Text → KernelCommandLine
unfolding set_in is_key has_value before_equals text_eq
set c key v = record { arguments = set_in (key ++ (b'=' ∷ v)) c.arguments }

pub erase_in : Text → List Text → List Text
erase_in key [] = []
erase_in key (argument ∷ rest) =
    let kept = erase_in key rest in if is_key argument key then kept else argument ∷ kept

unfoldable pub erase : KernelCommandLine → Text → KernelCommandLine
unfolding erase_in
erase c key = record { arguments = erase_in key c.arguments }

pub render_from : Text → List Text → Text
render_from result [] = result
render_from result (argument ∷ rest) =
    render_from
      ((if not (is_empty result) then result ++ (b' ' ∷ []) else result) ++ quote_argument argument)
      rest

unfoldable pub render : KernelCommandLine → Text
unfolding render_from quote_argument
render c = render_from [] c.arguments
