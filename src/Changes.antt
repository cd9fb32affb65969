-- ===== src/Changes.antt =====
-- src/application/change_planner.cpp: what a generated text changes.
pub mod Diff
use limine_manager.Prelude.{
  ℕ, ◌≡◌, refl, ◌∙◌, sym, ap, ◌↔◌, Bool, true, false, not, ◌&&◌, List, [], ◌∷◌, ◌++◌, ◌==◌,
  if◌then◌else◌, is_empty, Text, text, text_eq, text_eq_iff, text_eq_refl, newline, Result, ok, err,
  ◌>>=◌, ok-injective, arith,
}
use limine_manager.FilePath.{FilePath}
use limine_manager.FileSystem.{FileSystem}

pub data ChangeKind : Type 0 where
  unchanged create update : ChangeKind

pub record ChangePlan : Type 0 where
  pub kind : ChangeKind
  pub target : FilePath
  pub installed : Text
  pub generated : Text

unfoldable pub has_changes : ChangePlan → Bool
has_changes plan = differs plan.kind
  where
    differs : ChangeKind → Bool
    differs unchanged = false
    differs create = true
    differs update = true

unfoldable pub ends_line : Text → Bool
ends_line [] = false
ends_line (c ∷ []) = c == newline
ends_line (c ∷ d ∷ ds) = ends_line (d ∷ ds)

unfoldable pub normalize_newline : Text → Text
unfolding ends_line
normalize_newline value =
    if not (is_empty value) && not (ends_line value) then value ++ (newline ∷ []) else value

compare : FilePath → Text → Text → ChangePlan
compare target installed generated = record {
  kind = if text_eq installed generated then unchanged else update;
  target = target;
  installed = installed;
  generated = generated;
}

unfoldable pub plan_change : FileSystem → FilePath → Text → Result ChangePlan
unfolding compare
plan_change filesystem target generated =
    let text_generated = normalize_newline generated in
    if not (filesystem.exists target)
    then ok (record { kind = create; target = target; installed = []; generated = text_generated })
    else (do
      content ← filesystem.read_text target
      ok (compare target (normalize_newline content) text_generated))

pub change_kind_to_string : ChangeKind → Text
change_kind_to_string unchanged = text "unchanged"
change_kind_to_string create = text "create"
change_kind_to_string update = text "update"

ends_line-append : (t : Text) → ends_line (t ++ (newline ∷ [])) ≡ true
unfolding ends_line
ends_line-append [] = refl
ends_line-append (c ∷ []) = refl
ends_line-append (c ∷ d ∷ ds) = ends_line-append (d ∷ ds)

pub normalize_newline_idem :
    (t : Text) → normalize_newline (normalize_newline t) ≡ normalize_newline t
unfolding normalize_newline
normalize_newline_idem t = ground (arith, ends_line-append t)

pub generated-plan_change :
    (filesystem : FileSystem) (target : FilePath) (generated : Text) (plan : ChangePlan)
    → plan_change filesystem target generated ≡ ok plan
    → plan.generated ≡ normalize_newline generated
unfolding plan_change
generated-plan_change filesystem target generated plan h =
    settled (filesystem.exists target) (filesystem.read_text target) h
  where
    text_of : ChangePlan → Text
    text_of p = p.generated

    settled :
        (found : Bool) (content : Result Text)
        → (if not found
            then ok (record {
              kind = create;
              target = target;
              installed = [];
              generated = normalize_newline generated;
            })
            else (content >>= λ t.
                ok (compare target (normalize_newline t) (normalize_newline generated))))
          ≡ ok plan
        → plan.generated ≡ normalize_newline generated
    settled false content e = ap text_of (sym (ok-injective e))
    settled true (ok t) e = ap text_of (sym (ok-injective e))
    settled true (err x) e = cc

-- When the target of a plan exists and holds the generated text of the plan, planning the same text
-- again changes nothing.
pub plan_change-unchanged :
    (before after : FileSystem) (target : FilePath) (generated : Text) (plan : ChangePlan)
    → plan_change before target generated ≡ ok plan
    → after.exists target ≡ true
    → after.read_text target ≡ ok plan.generated
    → plan_change after target generated
      ≡ ok (record {
        kind = unchanged;
        target = target;
        installed = plan.generated;
        generated = plan.generated;
      })
unfolding plan_change compare
plan_change-unchanged before after target generated plan h present content =
    let same = generated-plan_change before target generated plan h in
    simp
      (
        present,
        content,
        same,
        normalize_newline_idem generated,
        text_eq_refl (normalize_newline generated),
      )
      refl
