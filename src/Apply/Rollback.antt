-- ===== src/Apply/Rollback.antt =====
-- `restore_from_backup`, and what the files are when `ApplyService::apply` ends.
use limine_manager.Prelude.{
  ◌≡◌, refl, ◌≢◌, true, false, Option, none, some, ◌++◌, is_empty, text, Error, runtime_error,
}
use limine_manager.FilePath.{FilePath, parent_path}
use limine_manager.Exec.Triples.{Triple, bind}
use limine_manager.Changes.{ChangePlan}
use limine_manager.Posix.{Posix, IsLawful, View, Node, Metadata, stat_of}
use limine_manager.Files.Steps.{In, At, rename_rule, weaken, handled}
use limine_manager.Files.Copy.{copy_of, kept_metadata}
use limine_manager.Files.CopyFile.{Copied, copy_file_secure-Triple}
use limine_manager.Files.Restore.{
  Replaced, Atomic, unharmed, copied, temporary_regular, replaced, step, clean,
  fsync_directory-Triple,
}
use limine_manager.Apply.{Names, Ids, ApplyResult, wanted, restore_from_backup}
use limine_manager.Apply.Staging.{new_file}

-- the names are different, and none is the target's
pub record Distinct (plan : ChangePlan) (names : Names) : Type 0 where
  pub temporary_target : names.temporary ≢ plan.target
  pub candidate_target : names.backup_candidate ≢ plan.target
  pub candidate_temporary : names.backup_candidate ≢ names.temporary
  pub candidate_rollback : names.backup_candidate ≢ names.rollback
  pub rollback_target : names.rollback ≢ plan.target
  pub candidate_given : is_empty names.backup_candidate ≡ false

abbrev pub copy : Posix → Node → Option Node
copy c n = some (copy_of (kept_metadata c n.metadata) n.content)

module _ (c : Posix) (plan : ChangePlan) (names : Names) (ids : Ids) (v : View) where
  -- the generated text, with the metadata of the old target
  abbrev pub generated : Option Node
  generated = some (new_file c (wanted ids (stat_of (v plan.target))) plan.generated)

  pub record Applied (r : ApplyResult) (u : View) : Type 0 where
    pub now : u plan.target ≡ generated
    pub result : r ≡ record { changed = true; target = plan.target; backup = r.backup }
    pub backed :
        (n : Node)
        → v plan.target ≡ some n
        → (r.backup ≡ names.backup_candidate) × (u names.backup_candidate ≡ copy c n)
    pub elsewhere :
        (q : FilePath)
        → q ≢ plan.target
        → q ≢ names.temporary
        → q ≢ names.backup_candidate
        → u q ≡ v q

  abbrev pub also_failed : Error
  also_failed =
      runtime_error
        (text "apply failed and automatic rollback also failed; backup: " ++ names.backup_candidate)

  -- the target that an error leaves: never a part of a file
  pub data Leftover (e : Error) (u : View) : Type 0 where
    intact : u plan.target ≡ v plan.target → Leftover e u
    restored : (n : Node) → v plan.target ≡ some n → u plan.target ≡ copy c n → Leftover e u
    abandoned :
        (n : Node)
        → v plan.target ≡ some n
        → u plan.target ≡ generated
        → u names.backup_candidate ≡ copy c n
        → e ≡ also_failed
        → Leftover e u
    uncleaned : v plan.target ≡ none → u plan.target ≡ generated → Leftover e u

  pub record Failure (e : Error) (u : View) : Type 0 where
    pub target : Leftover e u
    pub elsewhere :
        (q : FilePath)
        → q ≢ plan.target
        → q ≢ names.temporary
        → q ≢ names.backup_candidate
        → q ≢ names.rollback
        → u q ≡ v q

module _ (c : Posix) (lawful : IsLawful c) (y : View) (backup target rollback : FilePath)
    (metadata : Metadata) (apart : rollback ≢ target) where
  abbrev chosen : Node → Metadata
  chosen n = kept_metadata c metadata

  pub restore_from_backup-Triple :
      Triple
        (In (At c (λ u. u ≡ y)))
        (λ _. In (At c (Replaced y backup target rollback (λ n. kept_metadata c metadata))))
        (In (At c (Atomic y backup target rollback (λ n. kept_metadata c metadata))))
        (restore_from_backup c backup target rollback metadata)
  unfolding restore_from_backup
  restore_from_backup-Triple =
      let finished = Replaced y backup target rollback chosen in
      handled _ _
        (bind _ _
          (weaken _
            (copy_file_secure-Triple c lawful y backup rollback metadata (text "backup")
              (text "rollback file"))
            (λ a s h. h)
            (λ s h. record {
              holds = unharmed c lawful y backup target rollback chosen apart _ h.holds;
            }))
          λ _.
            bind _ _
              (weaken _
                (rename_rule c lawful (Copied y backup rollback (kept_metadata c metadata)) finished
                  rollback target (text "cannot restore backup")
                  (λ u h. temporary_regular y backup rollback _ u h refl)
                  (step c lawful y backup target rollback chosen apart (kept_metadata c metadata)
                    (λ n h. refl)))
                (λ a s h. h)
                (λ s h. record {
                  holds =
                      copied c lawful y backup target rollback chosen apart
                        (kept_metadata c metadata) _ h.holds;
                }))
              λ _.
                weaken _ (fsync_directory-Triple c lawful finished (parent_path target))
                  (λ a s h. h)
                  (λ s h. record {
                    holds = replaced c lawful y backup target rollback chosen apart _ h.holds;
                  }))
        (clean c lawful y backup target rollback chosen apart)
