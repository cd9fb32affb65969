-- ===== src/Backups/Pruning.antt =====
-- What `prune` removes, and the order of the backups.
use limine_manager.Prelude.{
  ◌<◌, none, ◌++◌, ◌⊎◌, inl, inr, Bool-cases, text, starts_with, ℕ, zero, suc, ◌≤◌, ◌≡◌, refl, ◌∙◌,
  sym, ap, subst, Bool, true, false, not, ◌&&◌, ◌||◌, Option, some, List, [], ◌∷◌, ◌==◌, leb,
  if◌then◌else◌, length, drop, any_of, count_if, Text, text_eq, Result, ok, err, Error, arith,
}
use limine_manager.FilePath.{FilePath, filename}
use limine_manager.Exec.{pure, throw_if, ◌>>=◌, ◌>>◌}
use limine_manager.Exec.Triples.{Ended, branch}
use limine_manager.Backups.{
  BackupInfo, Entry, text_after, newer, insert_backup, sort_backups, is_backup, add_backup,
  list_backups, backups_among, prefix_for, RemoveAnswer, remove_each, prune,
}

abbrev pub is_listed : FilePath → List BackupInfo → Bool
is_listed q backups = any_of (λ (b : BackupInfo). text_eq q b.path) backups

-- the backups behind the newest `retain` ones; zero keeps all
abbrev pub surplus : ℕ → List BackupInfo → List BackupInfo
surplus zero backups = []
surplus (suc n) backups = drop (suc n) backups

drop_all : (n : ℕ) (xs : List BackupInfo) → length xs ≤ n → drop n xs ≡ []
drop_all zero [] h = refl
drop_all zero (x ∷ xs) h = absurd (omega arith)
drop_all (suc n) [] h = refl
drop_all (suc n) (x ∷ xs) h = drop_all n xs (omega (arith, h))

few : (n m : ℕ) → (suc n == 0) || leb m (suc n) ≡ true → m ≤ suc n
few n m h = ground (arith, h)

text_after-asymmetric : (a b : Text) → text_after a b ≡ true → text_after b a ≡ false
unfolding text_after
text_after-asymmetric [] b h = cc
text_after-asymmetric (x ∷ xs) [] h = refl
text_after-asymmetric (x ∷ xs) (y ∷ ys) h = ground (arith, h, text_after-asymmetric xs ys)

newer-asymmetric : (a b : BackupInfo) → newer a b ≡ true → newer b a ≡ false
unfolding newer
newer-asymmetric a b h =
    ground (arith, h, text_after-asymmetric (filename a.path) (filename b.path))

abbrev leads : BackupInfo → List BackupInfo → Bool
leads b [] = true
leads b (c ∷ cs) = not (newer c b)

abbrev newest_first : List BackupInfo → Bool
newest_first [] = true
newest_first (b ∷ bs) = leads b bs && newest_first bs

leads-insert_backup :
    (b c : BackupInfo) (cs : List BackupInfo)
    → newer b c ≡ false
    → leads c cs ≡ true
    → leads c (insert_backup b cs) ≡ true
unfolding insert_backup
leads-insert_backup b c [] h k = ground (arith, h)
leads-insert_backup b c (d ∷ ds) h k = ground (arith, h, k)

newest_first-insert_backup :
    (b : BackupInfo) (bs : List BackupInfo)
    → newest_first bs ≡ true
    → newest_first (insert_backup b bs) ≡ true
unfolding insert_backup
newest_first-insert_backup b [] h = refl
newest_first-insert_backup b (c ∷ cs) h =
    ground
      (arith, h, newest_first-insert_backup b cs, leads-insert_backup b c cs, newer-asymmetric b c)

newest_first-sort_backups : (bs : List BackupInfo) → newest_first (sort_backups bs) ≡ true
unfolding sort_backups
newest_first-sort_backups [] = refl
newest_first-sort_backups (b ∷ bs) =
    newest_first-insert_backup b (sort_backups bs) (newest_first-sort_backups bs)

count_if-insert_backup :
    (p : BackupInfo → Bool) (b : BackupInfo) (bs : List BackupInfo)
    → count_if p (insert_backup b bs) ≡ count_if p (b ∷ bs)
unfolding insert_backup
count_if-insert_backup p b [] = refl
count_if-insert_backup p b (c ∷ cs) = ground (arith, count_if-insert_backup p b cs)

count_if-sort_backups :
    (p : BackupInfo → Bool) (bs : List BackupInfo) → count_if p (sort_backups bs) ≡ count_if p bs
unfolding sort_backups
count_if-sort_backups p [] = refl
count_if-sort_backups p (b ∷ bs) =
    count_if-insert_backup p b (sort_backups bs) ∙ ground (arith, count_if-sort_backups p bs)

-- the lexicographic order of names
abbrev pub AtMost : Text → Text → Type 0
AtMost [] b = Unit {0}
AtMost (x ∷ xs) [] = ⊥
AtMost (x ∷ xs) (y ∷ ys) = (x < y) ⊎ ((x ≡ y) × AtMost xs ys)

-- `b` is older than `a`, or as old with a name that is not greater
abbrev pub Follows : BackupInfo → BackupInfo → Type 0
Follows a b =
    (b.modified < a.modified)
    ⊎ ((b.modified ≡ a.modified) × AtMost (filename b.path) (filename a.path))

abbrev pub Leads : BackupInfo → List BackupInfo → Type 0
Leads a [] = Unit {0}
Leads a (b ∷ bs) = Follows a b

-- each backup follows the one before it
abbrev pub NewestFirst : List BackupInfo → Type 0
NewestFirst [] = Unit {0}
NewestFirst (b ∷ bs) = Leads b bs × NewestFirst bs

text_after-AtMost : (a b : Text) → text_after a b ≡ false → AtMost a b
unfolding text_after
text_after-AtMost [] b h = tt
text_after-AtMost (x ∷ xs) [] h = cc
text_after-AtMost (x ∷ xs) (y ∷ ys) h = elim (Bool-cases (x == y)) [
  | inl e ↦ inr (grind (arith, e), text_after-AtMost xs ys (ground (arith, h, e)))
  | inr e ↦ inl (ground (arith, h, e))
]

newer-Follows : (a b : BackupInfo) → newer b a ≡ false → Follows a b
unfolding newer
newer-Follows a b h = elim (Bool-cases (b.modified == a.modified)) [
  | inl e ↦ inr (
    grind (arith, e),
    text_after-AtMost (filename b.path) (filename a.path) (ground (arith, h, e)),
  )
  | inr e ↦ inl (ground (arith, h, e))
]

leads-Leads : (a : BackupInfo) (bs : List BackupInfo) → leads a bs ≡ true → Leads a bs
leads-Leads a [] h = tt
leads-Leads a (b ∷ bs) h = newer-Follows a b (ground (arith, h))

NewestFirst-of : (bs : List BackupInfo) → newest_first bs ≡ true → NewestFirst bs
NewestFirst-of [] h = tt
NewestFirst-of (b ∷ bs) h =
    (leads-Leads b bs (ground (arith, h)), NewestFirst-of bs (ground (arith, h)))

pub sort_backups-NewestFirst : (bs : List BackupInfo) → NewestFirst (sort_backups bs)
sort_backups-NewestFirst bs = NewestFirst-of (sort_backups bs) (newest_first-sort_backups bs)

-- a test of the backup that an entry is, where it is one
abbrev told : (BackupInfo → Bool) → FilePath → Option ℕ → Option ℕ → Bool
told p path (some size) (some modified) =
    p (record { path = path; size = size; modified = modified })
told p path (some size) none = false
told p path none modified = false

-- a regular file named as the target with `.bak.` behind it, of which size and time can be read
abbrev pub is_backup_where : (BackupInfo → Bool) → FilePath → Entry → Bool
is_backup_where p target e =
    e.is_regular_file
    && (starts_with (filename e.path) (filename target ++ text ".bak.")
        && told p e.path e.file_size e.last_write_time)

count_if-add_backup :
    (p : BackupInfo → Bool) (path : FilePath) (size modified : Option ℕ) (rest : List BackupInfo)
    → count_if p (add_backup path size modified rest)
      ≡ (if told p path size modified then suc (count_if p rest) else count_if p rest)
unfolding add_backup
count_if-add_backup p path (some size) (some modified) rest = refl
count_if-add_backup p path (some size) none rest = refl
count_if-add_backup p path none modified rest = refl

count_if-backups_among :
    (p : BackupInfo → Bool) (target : FilePath) (entries : List Entry)
    → count_if p (backups_among entries (prefix_for target))
      ≡ count_if (is_backup_where p target) entries
unfolding backups_among prefix_for is_backup
count_if-backups_among p target [] = refl
count_if-backups_among p target (e ∷ rest) = ground (
  arith,
  count_if-backups_among p target rest,
  count_if-add_backup p e.path e.file_size e.last_write_time
      (backups_among rest (filename target ++ text ".bak.")),
)

-- For a directory that can be read, `list` gives as many backups with any property as the directory
-- has regular files of that property, named as the target with `.bak.` behind it, of which size and
-- time can be read. They are in order: each is older than the one before it, or as old and its name
-- is not greater.
pub list_backups-NewestFirst :
    (entries : List Entry) (target : FilePath)
    → (backups : List BackupInfo) × (list_backups (ok (some entries)) target ≡ ok backups)
      × NewestFirst backups
      × ((p : BackupInfo → Bool) → count_if p backups ≡ count_if (is_backup_where p target) entries)
unfolding list_backups
list_backups-NewestFirst entries target =
    let found = backups_among entries (prefix_for target) in
    (
      sort_backups found,
      refl,
      sort_backups-NewestFirst found,
      λ p. count_if-sort_backups p found ∙ count_if-backups_among p target entries,
    )

module _ {World : Type 0} (remove : FilePath → World → RemoveAnswer × World)
    (present : World → FilePath → Bool)
    (removes : (p q : FilePath) (w : World)
      → present (remove p w).1 q
        ≡ (if (remove p w).0.removed && text_eq q p then false else present w q)) where
  abbrev pub Removed : World → List BackupInfo → ℕ → World → Type 0
  Removed w backups n after =
      (n ≡ length backups)
      × ((q : FilePath) → present after q ≡ (if is_listed q backups then false else present w q))

  abbrev pub Untouched : World → List BackupInfo → Error → World → Type 0
  Untouched w backups e after =
      (q : FilePath) → is_listed q backups ≡ false → present after q ≡ present w q

  other_file : (a b : Bool) (x y : Bool) → x ≡ (if a && b then false else y) → b ≡ false → x ≡ y
  other_file true b x y h k = grind (arith, h, k)
  other_file false b x y h k = h

  this_file :
      (a b l : Bool) (x y z : Bool)
      → a ≡ true
      → x ≡ (if a && b then false else y)
      → z ≡ (if l then false else x)
      → z ≡ (if b || l then false else y)
  this_file true true true x y z e h k = k
  this_file true true false x y z e h k = k ∙ h
  this_file true false l x y z e h k = k ∙ ap (λ r. if l then false else r) h
  this_file false b l x y z e h k = cc

  or_false : (a b : Bool) → a || b ≡ false → (a ≡ false) × (b ≡ false)
  or_false true b h = cc
  or_false false b h = (refl, h)

  round :
      (backup : BackupInfo) (rest : List BackupInfo) (w w1 : World) (removed test : Bool)
      (e : Error)
      → ((q : FilePath)
          → present w1 q ≡ (if removed && text_eq q backup.path then false else present w q))
      → (test ≡ false → removed ≡ true)
      → Ended (Removed w1 rest) (Untouched w1 rest) (remove_each remove rest w1)
      → Ended
          (Removed w (backup ∷ rest))
          (Untouched w (backup ∷ rest))
          ((throw_if test e >> (remove_each remove rest >>= λ count. pure (suc count))) w1)
  round backup rest w w1 removed true e first good again = λ q h.
      other_file removed (text_eq q backup.path) (present w1 q) (present w q) (first q)
        (or_false (text_eq q backup.path) (is_listed q rest) h).0
  round backup rest w w1 removed false e first good again =
      pass (remove_each remove rest w1).0 (remove_each remove rest w1).1 again
    where
      pass :
          (r : Result ℕ) (after : World)
          → Ended (Removed w1 rest) (Untouched w1 rest) (r, after)
          → Ended
              (Removed w (backup ∷ rest))
              (Untouched w (backup ∷ rest))
              (((λ u. (r, after)) >>= λ count. pure (suc count)) w1)
      pass (ok n) after k = (
        ap suc k.0,
        λ q.
            this_file removed (text_eq q backup.path) (is_listed q rest) (present w1 q)
              (present w q) (present after q) (good refl) (first q) (k.1 q),
      )
      pass (err x) after k = λ q h.
          let (here, later) = or_false (text_eq q backup.path) (is_listed q rest) h in
          k q later
          ∙ other_file removed (text_eq q backup.path) (present w1 q) (present w q) (first q) here

  was_removed : (a b : Bool) → not a || b ≡ false → a ≡ true
  was_removed true b h = refl
  was_removed false b h = cc

  remove_each-Removed :
      (backups : List BackupInfo) (w : World)
      → Ended (Removed w backups) (Untouched w backups) (remove_each remove backups w)
  unfolding remove_each
  remove_each-Removed [] w = (refl, λ q. refl)
  remove_each-Removed (backup ∷ rest) w =
      let (answer, w1) = remove backup.path w in
      round backup rest w w1 answer.removed (not answer.removed || answer.failed) _
        (λ q. removes backup.path q w) (was_removed answer.removed answer.failed)
        (remove_each-Removed rest w1)

  behind_retained :
      (backups : List BackupInfo) (retain : ℕ) (w : World)
      → Ended (Removed w (surplus retain backups)) (Untouched w (surplus retain backups)) (
          (if (retain == 0) || leb (length backups) retain
              then pure 0
              else remove_each remove (drop retain backups))
            w)
  behind_retained backups zero w = (refl, λ q. refl)
  behind_retained backups (suc n) w =
      branch
        (λ m. Ended (Removed w (drop (suc n) backups)) (Untouched w (drop (suc n) backups)) (m w))
        ((suc n == 0) || leb (length backups) (suc n)) (pure 0)
        (remove_each remove (drop (suc n) backups))
        (λ h.
          subst (λ bs. Ended (Removed w bs) (Untouched w bs) (ok 0, w))
            (sym (drop_all (suc n) backups (few n (length backups) h))) (refl, λ q. refl))
        (λ h. remove_each-Removed (drop (suc n) backups) w)

  -- what `prune` does, by what `list` gives
  abbrev pub Pruned : World → ℕ → Result (List BackupInfo) → Result ℕ × World → Type 0
  Pruned w retain (ok backups) after =
      NewestFirst backups
      × Ended (Removed w (surplus retain backups)) (Untouched w (surplus retain backups)) after
  Pruned w retain (err e) after = after ≡ (err e, w)

  -- `prune` throws what `list` throws, with nothing done. Otherwise the backups of `list` are in
  -- the order of their times, the newest first, and of their names where the times are equal. When
  -- `prune` returns, it has removed exactly the backups behind the first `retain` ones, none where
  -- `retain` is 0, and says how many these are; every other file is still there. When it throws, no
  -- file but these has been removed.
  pub prune-Pruned :
      (entries : Result (Option (List Entry))) (target : FilePath) (retain : ℕ) (w : World)
      → Pruned w retain (list_backups entries target) (prune remove entries target retain w)
  unfolding prune list_backups
  prune-Pruned (err e) target retain w = refl
  prune-Pruned (ok none) target retain w = (tt, behind_retained [] retain w)
  prune-Pruned (ok (some entries)) target retain w =
      let backups = sort_backups (backups_among entries (prefix_for target)) in
      (
        sort_backups-NewestFirst (backups_among entries (prefix_for target)),
        behind_retained backups retain w,
      )
