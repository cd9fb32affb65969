-- ===== src/Domain/KernelCmdline/Parsed.antt =====
-- What `parse` returns, and where `render` writes a text that `parse` refuses.
use limine_manager.Prelude.{
  ℕ, ◌≡◌, ◌≢◌, ◌∙◌, ap, inl, inr, false, List, [], ◌∷◌, ◌++◌, is_empty, any_of, All, All-append,
  Bool-cases, or_false, Text, text, ok, err, invalid_argument, append_assoc, append-nil,
  any_of-append, subst, arith,
}
use limine_manager.Domain.KernelCmdline.{
  KernelCommandLine, needs_quote, quote_argument, Scan, flush, scan_char, scan, start, finish_scan,
  parse, render_from, render,
}
use limine_manager.Domain.KernelCmdline.RoundTrip.{breaks, scan_plain}

abbrev pub NonEmpty : Text → Type 0
NonEmpty a = a ≢ []

flush-NonEmpty : (s : Scan) → All NonEmpty s.arguments → All NonEmpty (flush s).arguments
unfolding flush
flush-NonEmpty s h = elim (Bool-cases (is_empty s.current)) [
  | inl e ↦ rw e h
  | inr e ↦ rw e (All-append NonEmpty s.arguments (s.current ∷ []) h ((λ z. ground arith), tt))
]

scan_char-NonEmpty :
    (s : Scan) (c : ℕ) → All NonEmpty s.arguments → All NonEmpty (scan_char s c).arguments
unfolding scan_char
scan_char-NonEmpty s c h = ground (arith, flush-NonEmpty s h)

scan-NonEmpty : (s : Scan) (t : Text) → All NonEmpty s.arguments → All NonEmpty (scan s t).arguments
unfolding scan
scan-NonEmpty s [] h = h
scan-NonEmpty s (c ∷ cs) h = scan-NonEmpty (scan_char s c) cs (scan_char-NonEmpty s c h)

finish_scan-arguments :
    (s : Scan) (c : KernelCommandLine) → finish_scan s ≡ ok c → (flush s).arguments ≡ c.arguments
unfolding finish_scan
finish_scan-arguments s c e = ground arith

-- Every argument of a parsed command line is non-empty.
pub parse-NonEmpty : (t : Text) (c : KernelCommandLine) → parse t ≡ ok c → All NonEmpty c.arguments
unfolding parse
parse-NonEmpty t c e =
    subst (All NonEmpty) (finish_scan-arguments (scan start t) c e)
      (flush-NonEmpty (scan start t) (scan-NonEmpty start t tt))

inside : List Text → Text → Scan
inside args cur = record { arguments = args; current = cur; escaped = false; quote = b'\'' }

-- Inside single quotes, a byte other than a quote or a backslash is appended.
scan_char-inside :
    (args : List Text) (cur : Text) (c : ℕ)
    → needs_quote c ≡ false
    → breaks c ≡ false
    → scan_char (inside args cur) c ≡ inside args (cur ++ (c ∷ []))
unfolding scan_char inside needs_quote breaks
scan_char-inside args cur c h k = ground arith

scan-inside :
    (t cur : Text) (args : List Text)
    → any_of needs_quote t ≡ false
    → any_of breaks t ≡ false
    → scan (inside args cur) t ≡ inside args (cur ++ t)
unfolding scan
scan-inside [] cur args h k = rw append-nil
scan-inside (c ∷ cs) cur args h k =
    let (h', hs) = or_false (needs_quote c) (any_of needs_quote cs) h in
    let (k', ks) = or_false (breaks c) (any_of breaks cs) k in
    ap (λ s. scan s cs) (scan_char-inside args cur c h' k')
    ∙ scan-inside cs (cur ++ (c ∷ [])) args hs ks
    ∙ rw append_assoc

quote_argument-apostrophe :
    (a b : Text)
    → any_of needs_quote a ≡ false
    → any_of needs_quote b ≡ false
    → quote_argument (a ++ (b'\'' ∷ b)) ≡ a ++ (b'\'' ∷ b)
unfolding quote_argument needs_quote
quote_argument-apostrophe a b h k = ground (arith, any_of-append needs_quote a (b'\'' ∷ b))

-- An argument with one single quote, and no byte that makes `render` quote it, is rendered bare,
-- and `parse` refuses the result: the quote is never closed.
pub parse-render_apostrophe :
    (a b : Text)
    → any_of needs_quote a ≡ false
    → any_of breaks a ≡ false
    → any_of needs_quote b ≡ false
    → any_of breaks b ≡ false
    → parse (render (record { arguments = (a ++ (b'\'' ∷ b)) ∷ [] }))
      ≡ err (invalid_argument (text "Kernel command line contains an unterminated quote"))
unfolding parse render render_from
parse-render_apostrophe a b h k h' k' =
    ap (λ t. finish_scan (scan start t)) (quote_argument-apostrophe a b h h')
    ∙ ap finish_scan (scan_plain a (b'\'' ∷ b) [] [] h k)
    ∙ unfold scan scan_char inside finish_scan in ap finish_scan (scan-inside b a [] h' k')
