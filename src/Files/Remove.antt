-- ===== src/Files/Remove.antt =====
-- `remove_regular_file_secure`.
use limine_manager.Prelude.{
  ◌≡◌, refl, ◌∙◌, sym, ap, ◌≢◌, false, Option, none, some, ◌++◌, Text, text,
}
use limine_manager.FilePath.{FilePath, parent_path}
use limine_manager.Exec.Triples.{Triple, bind}
use limine_manager.Posix.{Posix, IsLawful, View, Node, Metadata, put, stat_of}
use limine_manager.Files.{
  Process, before_unlink, is_unsafe, unsafe_target, remove_found, remove_regular_file_secure,
}
use limine_manager.Files.Steps.{
  In, At, change_rule, assume_rule, guard_rule, injected_rule, throw_errno-Changes, weaken,
}
use limine_manager.Files.Copy.{put_elsewhere, put_same}
use limine_manager.Files.Restore.{fsync_directory-Triple, lstat-Triple}

-- the file is gone, or nothing has changed
pub data Removing (v : View) (target : FilePath) (u : View) : Type 0 where
  still_there : u ≡ v → Removing v target u
  gone : unsafe_target (stat_of (v target)) ≡ false → u ≡ put v target none → Removing v target u

-- what the code promises when it returns
pub record Removed (v : View) (target : FilePath) (u : View) : Type 0 where
  pub was_safe : unsafe_target (stat_of (v target)) ≡ false
  pub absent : u target ≡ none
  pub elsewhere : (q : FilePath) → q ≢ target → u q ≡ v q

module _ (c : Posix) (lawful : IsLawful c) (v : View) (target : FilePath) where
  abbrev Unchanged : View → Type 0
  Unchanged u = u ≡ v

  abbrev Cleared : View → Type 0
  Cleared u = u ≡ put v target none

  no_change : (s : Process c.World) → In (At c Unchanged) s → In (At c (Removing v target)) s
  no_change s h = record { holds = still_there h.holds }

  no_node : stat_of (v target) ≡ none → v target ≡ none
  no_node h = decide (v target) h
    where
      decide : (m : Option Node) → stat_of m ≡ none → m ≡ none
      decide none e = refl
      decide (some n) e = cc

  remove_found-Triple :
      (description : Text) (found : Option Metadata)
      → found ≡ stat_of (v target)
      → Triple
          (In (At c Unchanged))
          (λ _. In (At c (Removed v target)))
          (In (At c (Removing v target)))
          (remove_found c target description found)
  unfolding remove_found
  remove_found-Triple description none there = record {
    run = λ s h. record {
      holds = record {
        was_safe = ap unsafe_target (sym there);
        absent = ap (λ x. x target) h.holds ∙ no_node (sym there);
        elsewhere = λ q n. ap (λ x. x q) h.holds;
      };
    };
  }
  remove_found-Triple description (some metadata) seen =
      guard_rule (is_unsafe metadata) _ _ no_change λ safe.
        let was_safe = ap unsafe_target (sym seen) ∙ safe in
        bind _ _ (weaken _ (injected_rule (At c Unchanged) before_unlink) (λ a s h. h) no_change)
          λ _.
            bind _ _
              (weaken _
                (change_rule c Unchanged Cleared _ (λ u. put u target none)
                  (throw_errno-Changes c (text "cannot remove " ++ description) target
                    (c.unlink target) (λ u. put u target none) (lawful.unlink-Changes target))
                  (λ u h. ap (λ x. put x target none) h))
                (λ a s h. h) no_change)
              λ _.
                weaken _ (fsync_directory-Triple c lawful Cleared (parent_path target))
                  (λ a s h. record {
                    holds = record {
                      was_safe = was_safe;
                      absent = ap (λ x. x target) h.holds ∙ put_same v target none;
                      elsewhere = λ q n. ap (λ x. x q) h.holds ∙ put_elsewhere v target q none n;
                    };
                  })
                  (λ s h. record { holds = gone was_safe h.holds })

  -- When `remove_regular_file_secure` returns, there is no file of that name, there was none or it
  -- was a regular file, and no other file has changed. When it throws, nothing has changed, or
  -- the only change is that the regular file is gone.
  pub remove_regular_file_secure-Triple :
      (description : Text)
      → Triple
          (In (At c Unchanged))
          (λ _. In (At c (Removed v target)))
          (In (At c (Removing v target)))
          (remove_regular_file_secure c target description)
  unfolding remove_regular_file_secure
  remove_regular_file_secure-Triple description =
      bind _ _
        (weaken _ (lstat-Triple c lawful v target (text "cannot inspect " ++ description))
          (λ a s h. h) no_change)
        λ found.
          assume_rule (At c Unchanged) (found ≡ stat_of (v target)) _
            λ there. remove_found-Triple description found there
