-- ===== src/Tests/Cmdline.antt =====
-- The kernel command line on concrete arguments.
use limine_manager.Prelude.{
  ◌≡◌, refl, false, some, [], ◌∷◌, ◌++◌, text, All, head?, inl, inr, if◌then◌else◌, text_eq, ok,
  err, invalid_argument, arith,
}
use limine_manager.Decimal.{stoul, to_string, stoul-to_string}
use limine_manager.Domain.KernelCmdline.{
  KernelCommandLine, parse, render, set, erase, value, values, contains, scan, scan_char,
  finish_scan, flush, is_space, needs_quote,
}
use limine_manager.Domain.KernelCmdline.Parsed.{NonEmpty, parse-NonEmpty, parse-render_apostrophe}
use limine_manager.Domain.KernelCmdline.RoundTrip.{parse-render, breaks}
use limine_manager.Domain.KernelCmdline.Lookup.{value-set, values-erase, value-values}

abbrev line : KernelCommandLine
line = record { arguments = text "root=/dev/sda2" ∷ text "quiet" ∷ text "x=a b" ∷ [] }

parsed : parse (text "root=/dev/sda2 quiet \"x=a b\"") ≡ ok line
unfolding parse scan scan_char finish_scan flush is_space text
parsed = refl

parse-render_example : parse (render line) ≡ ok line
unfolding text needs_quote breaks
parse-render_example =
    parse-render line (((λ e. cc), inr refl), (((λ e. cc), inr refl), (((λ e. cc), inl refl), tt)))

value-set_example : value (set line (text "root") (text "UUID=1")) (text "quiet") ≡ (
    if text_eq (text "root") (text "quiet")
    then some (text "UUID=1")
    else value line (text "quiet"))
unfolding text
value-set_example = value-set line (text "quiet") (text "root") (text "UUID=1") refl refl

values-erase_example :
    (contains (erase line (text "quiet")) (text "quiet") ≡ false)
    × (values (erase line (text "quiet")) (text "root")
        ≡ (if text_eq (text "quiet") (text "root") then [] else values line (text "root")))
unfolding text
values-erase_example = values-erase line (text "root") (text "quiet") refl refl

value-values_example : value line (text "root") ≡ head? (values line (text "root"))
value-values_example = value-values line (text "root")

parse-NonEmpty_example : All NonEmpty line.arguments
parse-NonEmpty_example = parse-NonEmpty (text "root=/dev/sda2 quiet \"x=a b\"") line parsed

parse-render_apostrophe_example :
    parse (render (record { arguments = (text "a" ++ (b'\'' ∷ text "b")) ∷ [] }))
    ≡ err (invalid_argument (text "Kernel command line contains an unterminated quote"))
unfolding text needs_quote breaks
parse-render_apostrophe_example = parse-render_apostrophe (text "a") (text "b") refl refl refl refl

stoul-to_string_example : stoul (to_string 7) ≡ ok 7
stoul-to_string_example = stoul-to_string 7 (omega arith)
