-- ===== src/Domain/KernelCmdline/RoundTrip.antt =====
-- `parse` after `render`: each lemma runs the scanner over one piece, with any `rest` behind it.
use limine_manager.Prelude.{
  ℕ, ◌≡◌, refl, ◌≢◌, ◌⊎◌, inl, inr, ◌∙◌, sym, ap, Bool, true, false, ◌||◌, List, [], ◌∷◌, ◌++◌,
  ◌==◌, is_empty, any_of, All, Bool-cases, or_false, Text, ok, append-nil, append_assoc, arith,
}
use limine_manager.Domain.KernelCmdline.{
  KernelCommandLine, needs_quote, escape_quoted, quote_argument, Scan, scan_char, scan, start,
  finish_scan, parse, render_from, render,
}

-- The bytes that `parse` treats specially and `quote_argument` does not look for.
unfoldable pub breaks : ℕ → Bool
breaks c = c == b'\'' || c == 11 || c == 12

-- An argument that `render` writes so that `parse` reads it back.
abbrev pub IsPrintable : Text → Type 0
IsPrintable a = (a ≢ []) × ((any_of needs_quote a ≡ true) ⊎ (any_of breaks a ≡ false))

abbrev pub between : List Text → Text → ℕ → Scan
between args cur q = record { arguments = args; current = cur; escaped = false; quote = q }

-- A byte that is neither quoted nor special is appended.
scan_char-plain :
    (args : List Text) (cur : Text) (c : ℕ)
    → needs_quote c ≡ false
    → breaks c ≡ false
    → scan_char (between args cur 0) c ≡ between args (cur ++ (c ∷ [])) 0
unfolding scan_char needs_quote breaks
scan_char-plain args cur c h k = ground arith

pub scan_plain :
    (a rest cur : Text) (args : List Text)
    → any_of needs_quote a ≡ false
    → any_of breaks a ≡ false
    → scan (between args cur 0) (a ++ rest) ≡ scan (between args (cur ++ a) 0) rest
unfolding scan
scan_plain [] rest cur args h k = rw append-nil
scan_plain (c ∷ cs) rest cur args h k =
    let (h', hs) = or_false (needs_quote c) (any_of needs_quote cs) h in
    let (k', ks) = or_false (breaks c) (any_of breaks cs) k in
    ap (λ s. scan s (cs ++ rest)) (scan_char-plain args cur c h' k')
    ∙ scan_plain cs rest (cur ++ (c ∷ [])) args hs ks
    ∙ rw append_assoc

scan_escaped :
    (a rest cur : Text) (args : List Text)
    → scan (between args cur b'"') (escape_quoted a ++ (b'"' ∷ rest))
      ≡ scan (between args (cur ++ a) 0) rest
unfolding scan scan_char escape_quoted
scan_escaped [] rest cur args = rw append-nil
scan_escaped (c ∷ cs) rest cur args =
    ground (arith, scan_escaped cs rest (cur ++ (c ∷ [])) args, append_assoc cur (c ∷ []) cs)

-- From outside any quote, a written argument is read whole.
scan-quote_argument :
    (a rest : Text) (args : List Text)
    → IsPrintable a
    → scan (between args [] 0) (quote_argument a ++ rest) ≡ scan (between args a 0) rest
unfolding quote_argument
scan-quote_argument a rest args h = elim (Bool-cases (any_of needs_quote a)) [
  | inl quoted ↦ rw quoted (
      unfold scan scan_char in
      ap (scan (between args [] b'"')) (append_assoc (escape_quoted a) (b'"' ∷ []) rest)
      ∙ scan_escaped a rest [] args)
  | inr plain ↦ rw plain (scan_plain a rest [] args plain (quoted_or_plain h.1 plain))
]
  where
    quoted_or_plain :
        (any_of needs_quote a ≡ true) ⊎ (any_of breaks a ≡ false)
        → any_of needs_quote a ≡ false
        → any_of breaks a ≡ false
    quoted_or_plain (inl e) n = cc
    quoted_or_plain (inr e) n = e

-- What `render_from` appends for the arguments behind the first.
render_rest : List Text → Text
render_rest [] = []
render_rest (a ∷ args') = b' ' ∷ (quote_argument a ++ render_rest args')

quote_argument-ne-nil : (a : Text) → a ≢ [] → is_empty (quote_argument a) ≡ false
unfolding quote_argument
quote_argument-ne-nil [] h = absurd (h refl)
quote_argument-ne-nil (c ∷ cs) h = ground arith

is_empty-append : (a b : Text) → is_empty a ≡ false → is_empty (a ++ b) ≡ false
is_empty-append [] b h = cc
is_empty-append (c ∷ a) b h = refl

render_from-render_rest :
    (args' : List Text) (r : Text)
    → is_empty r ≡ false
    → render_from r args' ≡ r ++ render_rest args'
unfolding render_from render_rest
render_from-render_rest [] r h = sym (append-nil r)
render_from-render_rest (a ∷ args') r h = rw h (
    render_from-render_rest args' ((r ++ (b' ' ∷ [])) ++ quote_argument a)
      (is_empty-append (r ++ (b' ' ∷ [])) (quote_argument a) (is_empty-append r (b' ' ∷ []) h))
    ∙ simp append_assoc)

scan-flush :
    (args : List Text) (a rest : Text)
    → a ≢ []
    → scan (between args a 0) (b' ' ∷ rest) ≡ scan (between (args ++ (a ∷ [])) [] 0) rest
unfolding scan scan_char
scan-flush args [] rest h = absurd (h refl)
scan-flush args (c ∷ cs) rest h = refl

finish_scan-between :
    (args : List Text) (a : Text)
    → a ≢ []
    → finish_scan (between args a 0) ≡ ok (record { arguments = args ++ (a ∷ []) })
unfolding finish_scan
finish_scan-between args [] h = absurd (h refl)
finish_scan-between args (c ∷ cs) h = refl

finish_scan-render_rest :
    (args' : List Text) (args : List Text) (a : Text)
    → a ≢ []
    → All IsPrintable args'
    → finish_scan (scan (between args a 0) (render_rest args'))
      ≡ ok (record { arguments = args ++ (a ∷ args') })
unfolding render_rest
finish_scan-render_rest [] args a h p = unfold scan in finish_scan-between args a h
finish_scan-render_rest (b ∷ args') args a h p =
    ap finish_scan (
      scan-flush args a (quote_argument b ++ render_rest args') h
      ∙ scan-quote_argument b (render_rest args') (args ++ (a ∷ [])) p.0)
    ∙ finish_scan-render_rest args' (args ++ (a ∷ [])) b p.0.0 p.1
    ∙ rw append_assoc

pub parse-render-arguments :
    (args' : List Text)
    → All IsPrintable args'
    → parse (render (record { arguments = args' })) ≡ ok (record { arguments = args' })
unfolding parse render
parse-render-arguments [] p = refl
parse-render-arguments (a ∷ args') p =
    ap (λ t. finish_scan (scan start t))
      (render_from-render_rest args' (quote_argument a) (quote_argument-ne-nil a p.0.0))
    ∙ ap finish_scan (scan-quote_argument a (render_rest args') [] p.0)
    ∙ finish_scan-render_rest args' [] a p.0.0 p.1

-- A command line whose arguments are non-empty, and hold a single quote, a vertical tab or a form
-- feed only beside a byte that makes `render` quote them, is read back by `parse` as it was.
pub parse-render : (c : KernelCommandLine) → All IsPrintable c.arguments → parse (render c) ≡ ok c
parse-render c p = parse-render-arguments c.arguments p
