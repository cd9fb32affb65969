-- ===== src/Backups.antt =====
-- src/application/backup_service.cpp. `entries` is what the directory iterator gives: the size and
-- the time are missing where reading them failed. An error while iterating is one of the whole
-- listing.
pub mod Pruning
use limine_manager.Prelude.{
  ℕ, zero, suc, ◌+◌, Bool, true, false, not, ◌&&◌, ◌||◌, Option, none, some, List, [], ◌∷◌, ◌++◌,
  ◌==◌, ltb, leb, if◌then◌else◌, is_empty, length, drop, Text, text, text_eq, starts_with, Result,
  ok, err, runtime_error,
}
use limine_manager.FilePath.{FilePath, filename, parent_path}
use limine_manager.Exec.{Exec, pure, throw_if, continue, ◌>>=◌, ◌>>◌}

pub record BackupInfo : Type 0 where
  pub path : FilePath
  pub size : ℕ
  pub modified : ℕ

-- a directory entry, with what asking for its kind, size and time gives
pub record Entry : Type 0 where
  pub path : FilePath
  pub is_regular_file : Bool
  pub file_size : Option ℕ
  pub last_write_time : Option ℕ

unfoldable pub prefix_for : FilePath → Text
prefix_for target = filename target ++ text ".bak."

unfoldable pub is_backup : Entry → Text → Bool
is_backup entry prefix = entry.is_regular_file && starts_with (filename entry.path) prefix

-- std::string operator>
unfoldable pub text_after : Text → Text → Bool
text_after [] b = false
text_after (x ∷ xs) [] = true
text_after (x ∷ xs) (y ∷ ys) = let rest = text_after xs ys in if x == y then rest else ltb y x

-- the comparison of std::sort
unfoldable pub newer : BackupInfo → BackupInfo → Bool
unfolding text_after
newer left right =
    if not (left.modified == right.modified)
    then ltb right.modified left.modified
    else text_after (filename left.path) (filename right.path)

insert_backup : BackupInfo → List BackupInfo → List BackupInfo
insert_backup b [] = b ∷ []
insert_backup b (c ∷ cs) =
    let later = insert_backup b cs in if newer b c then b ∷ (c ∷ cs) else c ∷ later

unfoldable pub sort_backups : List BackupInfo → List BackupInfo
unfolding insert_backup
sort_backups [] = []
sort_backups (b ∷ bs) = insert_backup b (sort_backups bs)

add_backup : FilePath → Option ℕ → Option ℕ → List BackupInfo → List BackupInfo
add_backup path (some size) (some modified) result =
    record { path = path; size = size; modified = modified } ∷ result
add_backup path none time result = result
add_backup path (some size) none result = result

unfoldable pub backups_among : List Entry → Text → List BackupInfo
unfolding add_backup
backups_among [] prefix = []
backups_among (entry ∷ rest) prefix =
    let result = backups_among rest prefix in
    if is_backup entry prefix
    then add_backup entry.path entry.file_size entry.last_write_time result
    else result

-- `entries` is none where the directory is none, and an error where iterating over it throws
unfoldable pub list_backups : Result (Option (List Entry)) → FilePath → Result (List BackupInfo)
list_backups (err e) target = err e
list_backups (ok none) target = ok []
list_backups (ok (some entries)) target =
    ok (sort_backups (backups_among entries (prefix_for target)))

abbrev newest : List BackupInfo → Option BackupInfo
newest [] = none
newest (b ∷ bs) = some b

unfoldable pub latest : Result (Option (List Entry)) → FilePath → Result (Option BackupInfo)
latest entries target = elim (list_backups entries target) [
  | ok backups ↦ ok (newest backups)
  | err e ↦ err e
]

-- std::filesystem::remove(path, ec): what it returns, whether `ec` is set, and its message
pub record RemoveAnswer : Type 0 where
  pub removed : Bool
  pub failed : Bool
  pub message : Text

module _ {World : Type 0} (remove : FilePath → World → RemoveAnswer × World) where
  call_remove : FilePath → Exec World RemoveAnswer
  call_remove path w = let (answer, w') = remove path w in (ok answer, w')

  -- the loop of `prune`, from a position on
  remove_each : List BackupInfo → Exec World ℕ
  unfolding call_remove
  remove_each [] = pure 0
  remove_each (backup ∷ rest) = do
    answer ← call_remove backup.path
    throw_if (not answer.removed || answer.failed) (
        runtime_error
          (text "cannot remove old backup '" ++ (backup.path ++ (text "': " ++ answer.message))))
    count ← remove_each rest
    pure (suc count)

  unfoldable pub prune : Result (Option (List Entry)) → FilePath → ℕ → Exec World ℕ
  unfolding remove_each
  prune entries target retain = continue (list_backups entries target) (λ backups.
      if (retain == 0) || leb (length backups) retain
      then pure 0
      else remove_each (drop retain backups))
