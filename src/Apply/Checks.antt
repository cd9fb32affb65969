-- ===== src/Apply/Checks.antt =====
-- The checks of the target that `ApplyService::apply` makes under the lock.

use limine_manager.Prelude.{
  ◌≡◌, refl, ◌∙◌, sym, ap, ◌≢◌, Bool, true, false, not, ◌&&◌, Option, none, some, Text, text,
  text_eq, text_eq_iff, Error, arith,
}
use limine_manager.Exec.{throw_if}
use limine_manager.Exec.Triples.{Triple, bind}
use limine_manager.Changes.{ChangePlan, normalize_newline}
use limine_manager.Posix.{
  Posix, IsLawful, View, Node, Metadata, FileKind, regular, symbolic_link, directory_file, other,
  stat_of,
}
use limine_manager.Files.Steps.{In, At, assume_rule, exists_rule, guard_rule}
use limine_manager.Files.Copy.{read_all-Triple, Loaded}
use limine_manager.Files.CopyFile.{open_source, SourceRead}
use limine_manager.Files.Restore.{lstat-Triple}
use limine_manager.Apply.{
  inspect_target, throw_refused, refuse_target, check_installed, refused, is_create, is_update,
  is_present,
}

-- the target is what the plan was made for
pub record Expected (plan : ChangePlan) (v : View) : Type 0 where
  pub create_absent : is_create plan.kind ≡ true → v plan.target ≡ none
  pub update_present : is_update plan.kind ≡ true → v plan.target ≢ none
  pub installed :
      (n : Node)
      → v plan.target ≡ some n
      → (n.metadata.kind ≡ regular) × (normalize_newline n.content ≡ plan.installed)

same_content : {x : Option Node} (n m : Node) → x ≡ some n → x ≡ some m → n.content ≡ m.content
same_content n m h k = cc

and_false : {a b : Bool} → a ≡ true → a && b ≡ false → b ≡ false
and_false {a} {b} h k = grind (arith, h, k)

no_node :
    (found : Option Metadata) (x : Option Node)
    → found ≡ stat_of x
    → is_present found ≡ false
    → x ≡ none
no_node found none h e = refl
no_node none (some n) h e = cc
no_node (some m) (some n) h e = cc

clash :
    (found : Option Metadata) (x : Option Node)
    → found ≡ stat_of x
    → x ≡ none
    → not (is_present found) ≡ false
    → ⊥
clash none x h e k = cc
clash (some m) none h e k = cc
clash (some m) (some n) h e k = cc

negated : (b : Bool) → not b ≡ false → b ≡ true
negated true h = refl
negated false h = cc

module _ (c : Posix) (lawful : IsLawful c) where
  open c use {World, Input, node}

  module _ (v : View) (plan : ChangePlan) where
    abbrev Still : View → Type 0
    Still u = u ≡ v

    refuse_target-Triple :
        (found : Option Metadata)
        → Triple
            (In (At c Still))
            (λ _. In (λ w. (node w ≡ v) × ((m : Metadata) → found ≡ some m → m.kind ≡ regular)))
            (In (At c Still))
            (refuse_target c plan.target found)
    unfolding refuse_target throw_refused
    refuse_target-Triple none = record { run = λ s h. record { holds = (h.holds, λ m e. cc) } }
    refuse_target-Triple (some metadata) = by_kind metadata.kind refl
      where
        by_kind :
            (kind : FileKind)
            → metadata.kind ≡ kind
            → Triple
                (In (At c Still))
                (λ _. In (λ w.
                  (node w ≡ v) × ((m : Metadata) → some metadata ≡ some m → m.kind ≡ regular)))
                (In (At c Still))
                (throw_refused c (refused plan.target kind))
        by_kind regular e = record {
          run = λ s h. record { holds = (h.holds, λ m f. same_kind m f e) };
        }
          where
            same_kind :
                (m : Metadata) → some metadata ≡ some m → metadata.kind ≡ regular → m.kind ≡ regular
            same_kind m f k = cc
        by_kind symbolic_link e = record { run = λ s h. h }
        by_kind directory_file e = record { run = λ s h. h }
        by_kind other e = record { run = λ s h. h }

    abbrev Fresh : Option Metadata → Type 0
    Fresh found =
        (n : Node)
        → found ≡ some n.metadata
        → v plan.target ≡ some n
        → normalize_newline n.content ≡ plan.installed

    check_installed-Triple :
        (found : Option Metadata)
        → Triple
            (In (At c Still))
            (λ _. In (λ w. (node w ≡ v) × Fresh found))
            (In (At c Still))
            (check_installed c plan found)
    unfolding check_installed
    check_installed-Triple none = record { run = λ s h. record { holds = (h.holds, λ n e. cc) } }
    check_installed-Triple (some metadata) =
        bind _ _ (open_source c lawful v plan.target (text "cannot open target")) λ i.
          exists_rule (SourceRead c lawful v plan.target i) _ λ n.
            assume_rule (Loaded c lawful v i n.content) (v plan.target ≡ some n) _ λ held.
              bind _ _ (read_all-Triple c lawful v i n.content plan.target) λ content.
                assume_rule (At c Still) (content ≡ n.content) _ λ same.
                  last (not (text_eq (normalize_newline content) plan.installed)) _
                    (λ e m k z. kept n m content held z same e)
      where
        kept :
            (n m : Node) (content : Text)
            → v plan.target ≡ some n
            → v plan.target ≡ some m
            → content ≡ n.content
            → not (text_eq (normalize_newline content) plan.installed) ≡ false
            → normalize_newline m.content ≡ plan.installed
        kept n m content held z same e =
            ap normalize_newline (sym (same ∙ same_content n m held z))
            ∙ (text_eq_iff (normalize_newline content) plan.installed).0
                (negated (text_eq (normalize_newline content) plan.installed) e)

        last :
            (test : Bool) (e : Error)
            → (test ≡ false → Fresh (some metadata))
            → Triple
                (In (At c Still))
                (λ _. In (λ w. (node w ≡ v) × Fresh (some metadata)))
                (In (At c Still))
                (throw_if test e)
        last true e known = record { run = λ s h. h }
        last false e known = record { run = λ s h. record { holds = (h.holds, known refl) } }

    expected :
        (found : Option Metadata)
        → found ≡ stat_of (v plan.target)
        → ((m : Metadata) → found ≡ some m → m.kind ≡ regular)
        → is_create plan.kind && is_present found ≡ false
        → is_update plan.kind && not (is_present found) ≡ false
        → Fresh found
        → Expected plan v
    expected found there safe creating updating fresh = record {
      create_absent = λ h. no_node found (v plan.target) there (and_false h creating);
      update_present = λ h e. clash found (v plan.target) there e (and_false h updating);
      installed = λ n h. let seen = there ∙ ap stat_of h in (safe n.metadata seen, fresh n seen h);
    }

    pub inspect_target-Triple :
        Triple
          (In (At c Still))
          (λ found. In (λ w. (node w ≡ v) × ((found ≡ stat_of (v plan.target)) × Expected plan v)))
          (In (At c Still))
          (inspect_target c plan)
    unfolding inspect_target
    inspect_target-Triple =
        bind _ _ (lstat-Triple c lawful v plan.target (text "cannot inspect target")) λ found.
          assume_rule (At c Still) (found ≡ stat_of (v plan.target)) _ λ there.
            bind _ _ (refuse_target-Triple found) λ _.
              assume_rule (At c Still) ((m : Metadata) → found ≡ some m → m.kind ≡ regular) _
                λ safe.
                  guard_rule (is_create plan.kind && is_present found) _ _ (λ s h. h)
                    λ creating.
                      guard_rule (is_update plan.kind && not (is_present found)) _ _ (λ s h. h)
                        λ updating. bind _ _ (check_installed-Triple found) λ _.
                          assume_rule (At c Still) (Fresh found) _ λ fresh. record {
                            run = λ s h. record {
                              holds = (
                                h.holds,
                                (there, expected found there safe creating updating fresh),
                              );
                            };
                          }
