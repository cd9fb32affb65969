-- ===== src/Files/CopyFile.antt =====
-- `copy_file_secure`, from the opening of the source to the clean-up.
use mathlib.Core.Path.{fun_ext}
use limine_manager.Prelude.{ℕ, ◌≡◌, ◌∙◌, sym, ap, ◌≢◌, none, some, ◌++◌, Text, text}
use limine_manager.FilePath.{FilePath}
use limine_manager.Exec.Triples.{Triple, bind}
use limine_manager.Posix.{Posix, IsLawful, View, Node, Metadata, put, fresh_node, settled}
use limine_manager.Files.{
  throw_errno, call, permissions, copy_content, remove_quietly, copy_file_secure,
}
use limine_manager.Files.Steps.{
  In, At, call_rule, assume_rule, exists_rule, throw_errno-eq-ok, throw_errno-Changes, weaken,
  handled,
}
use limine_manager.Files.Copy.{
  Apart, copy_of, kept_metadata, remove_quietly_elsewhere, Loaded, Opened, copy_content-Triple,
}

-- the copy stands where no file was
pub record Copied (v : View) (source destination : FilePath) (metadata : Metadata) (u : View)
    : Type 0 where
  pub original : Node
  pub was_source : v source ≡ some original
  pub was_free : v destination ≡ none
  pub now : u ≡ put v destination (some (copy_of metadata original.content))

-- no file has changed, or the one that was created is left over
pub data Unharmed (v : View) (p : FilePath) (u : View) : Type 0 where
  unchanged : u ≡ v → Unharmed v p u
  left_over : v p ≡ none → Apart v p u → Unharmed v p u

pub elsewhere-Unharmed :
    (v : View) (p : FilePath) (u : View) → Unharmed v p u → (q : FilePath) → q ≢ p → u q ≡ v q
elsewhere-Unharmed v p u (unchanged e) q n = ap (λ x. x q) e
elsewhere-Unharmed v p u (left_over e a) q n = a.elsewhere q n

module _ (c : Posix) (lawful : IsLawful c) where
  open c use {World, Input, Output, node, remaining, name_of}

  module _ (v : View) (source : FilePath) where
    -- the input holds what the source did
    abbrev pub SourceRead : Input → Node → World → Type 0
    SourceRead i n w = Loaded c lawful v i n.content w × (v source ≡ some n)

    pub open_source :
        (operation : Text)
        → Triple
            (In (At c (λ u. u ≡ v)))
            (λ i. In (λ w. (n : Node) × SourceRead i n w))
            (In (At c (λ u. u ≡ v)))
            (call (throw_errno operation source (c.open_read source)))
    open_source operation =
        call_rule (At c (λ u. u ≡ v)) (λ i w. (n : Node) × SourceRead i n w) (At c (λ u. u ≡ v))
          (throw_errno operation source (c.open_read source))
          (λ w i h e.
            let (n, held, left) =
              lawful.open_read-remaining source w
                (throw_errno-eq-ok operation source (c.open_read source) w i e) in
            (
              n,
              (
                (fun_ext (lawful.open_read-Keeps source w) ∙ h, left),
                sym (ap (λ u. u source) h) ∙ held,
              ),
            ))
          (λ w x h e. fun_ext (lawful.open_read-Keeps source w) ∙ h)

  -- a new file, where none was; `kept` is what the call cannot change
  pub create_rule :
      (v : View) (p : FilePath) (mode : ℕ) (operation : Text) (kept : World → Type 0)
      → ((w : World) → kept w → kept (c.open_create p mode w).1)
      → Triple
          (In (λ w. (node w ≡ v) × kept w))
          (λ o. In (λ w.
            ((node w ≡ put v p (some (fresh_node (c.masked mode) c.owner))) × kept w)
            × ((name_of o ≡ p) × (v p ≡ none))))
          (In (At c (λ u. u ≡ v)))
          (call (throw_errno operation p (c.open_create p mode)))
  create_rule v p mode operation kept later =
      let creating = c.open_create p mode in
      let first = some (fresh_node (c.masked mode) c.owner) in
      let law =
        throw_errno-Changes c operation p creating (λ u. put u p first)
          (lawful.open_create-Changes p mode) in
      call_rule (λ w. (node w ≡ v) × kept w)
        (λ o w. ((node w ≡ put v p first) × kept w) × ((name_of o ≡ p) × (v p ≡ none)))
        (At c (λ u. u ≡ v)) (throw_errno operation p creating)
        (λ w o h e.
          let fresh =
            lawful.open_create-fresh p mode w (throw_errno-eq-ok operation p creating w o e) in
          (
            (
              fun_ext (λ q. law w q ∙ ap (λ r. settled r (node w) (put (node w) p first) q) e)
                  ∙ ap (λ u. put u p first) h.0,
              later w h.1,
            ),
            (fresh.1, sym (ap (λ u. u p) h.0) ∙ fresh.0),
          ))
        (λ w x h e.
          fun_ext (λ q. law w q ∙ ap (λ r. settled r (node w) (put (node w) p first) q) e) ∙ h.0)

  module _ (v : View) (source p : FilePath) (metadata : Metadata) where
    abbrev Same : View → Type 0
    Same u = u ≡ v

    abbrev first : Node
    first = fresh_node (c.masked (permissions metadata.mode)) c.owner

    -- When `copy_file_secure` returns, there was no file at the destination and it now holds the
    -- whole content of the source, with the user and the group that are given and what chown(2)
    -- leaves of the mode, of which it may clear the set-ID bits. When it
    -- throws, nothing has changed, or the destination was free and no other file has changed.
    pub copy_file_secure-Triple :
        (source_description description : Text)
        → Triple
            (In (At c Same))
            (λ _. In (At c (Copied v source p (kept_metadata c metadata))))
            (In (At c (Unharmed v p)))
            (copy_file_secure c source p metadata source_description description)
    unfolding copy_file_secure
    copy_file_secure-Triple source_description description =
        bind _ _
          (weaken _ (open_source v source (text "cannot open " ++ source_description)) (λ a s h. h)
            (λ s h. record { holds = unchanged h.holds }))
          λ i. exists_rule (SourceRead v source i) _ λ n.
            assume_rule (λ w. (node w ≡ v) × (remaining w i ≡ n.content)) (v source ≡ some n) _
              λ held.
                bind _ _
                  (weaken _
                    (create_rule v p (permissions metadata.mode)
                      (text "cannot create " ++ description) (λ w. remaining w i ≡ n.content)
                      (λ w h. lawful.open_create-remaining p (permissions metadata.mode) w i ∙ h))
                    (λ a s h. h) (λ s h. record { holds = unchanged h.holds }))
                  λ o.
                    assume_rule (Opened c lawful v p i n.content first)
                      ((name_of o ≡ p) × (v p ≡ none)) _
                      λ facts.
                        handled (remove_quietly c p) (copy_content c i o source p metadata)
                          (weaken (copy_content c i o source p metadata)
                            (copy_content-Triple c lawful v p i o source metadata n.content facts.0)
                            (λ a s h. record {
                              holds = record {
                                original = n;
                                was_source = held;
                                was_free = facts.1;
                                now = h.holds;
                              };
                            })
                            (λ s h. h))
                          (λ s h. record {
                            holds = left_over facts.1 (record {
                              elsewhere = λ q e.
                                  remove_quietly_elsewhere c lawful p q s e ∙ h.holds.elsewhere q e;
                            });
                          })
