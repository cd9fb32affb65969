-- ===== src/Tests/FileTree.antt =====
-- A file tree for `Posix`: a read gives two bytes at most, a write takes three, and the first
-- calls of both are interrupted.
use limine_manager.Prelude.{
  if◌then◌else◌, ltb, ◌%◌, ℕ, zero, suc, ◌≤◌, ◌<◌, ◌≡◌, refl, subst, true, Option, none, some, [],
  ◌∷◌, ◌++◌, length, take, Text, text, Result, is_ok, ok, err, Error, runtime_error, arith,
}
use limine_manager.FilePath.{FilePath}
use limine_manager.Exec.{Exec, pure}
use limine_manager.Posix.{
  Posix, IsLawful, MakesProgress, regular, Metadata, Node, View, ReadAnswer, end, bytes,
  read_interrupted, WriteAnswer, wrote, write_interrupted, put, renamed, fresh_node, appended,
  with_mode, with_owner, edited, stat_of, settled,
}

pub record Tree : Type 0 where
  pub files : View
  pub stream : Text
  pub signals : ℕ

abbrev missing : Error
missing = runtime_error (text "No such file or directory")

abbrev root_owner : Metadata
root_owner = record { kind = regular; mode = 0; uid = 0; gid = 0 }

abbrev opening : Option Node → Exec Tree (Unit {0})
opening none w = (err missing, w)
opening (some n) w = (ok tt, record w { stream = n.content })

abbrev creating : Option Node → FilePath → ℕ → Exec Tree FilePath
creating none p mode w =
    (ok p, record w { files = put w.files p (some (fresh_node mode root_owner)) })
creating (some n) p mode w = (err (runtime_error (text "File exists")), w)

abbrev reading : ℕ → Text → Exec Tree ReadAnswer
reading (suc k) t w = (ok read_interrupted, record w { signals = k })
reading zero [] w = (ok end, w)
reading zero (x ∷ []) w = (ok (bytes (x ∷ [])), record w { stream = [] })
reading zero (x ∷ (y ∷ t)) w = (ok (bytes (x ∷ (y ∷ []))), record w { stream = t })

abbrev at_most_three : ℕ → ℕ
at_most_three (suc (suc (suc k))) = 3
at_most_three k = k

abbrev writing : ℕ → FilePath → Text → Exec Tree WriteAnswer
writing (suc k) o t w = (ok write_interrupted, record w { signals = k })
writing zero o t w =
    let n = at_most_three (length t) in
    (ok (wrote n), record w { files = edited w.files o (appended (take n t)) })

abbrev renaming : Option Node → FilePath → FilePath → Exec Tree (Unit {0})
renaming none x y w = (err missing, w)
renaming (some n) x y w = (ok tt, record w { files = renamed w.files x y })

abbrev removing : Option Node → FilePath → Exec Tree (Unit {0})
removing none p w = (err missing, w)
removing (some n) p w = (ok tt, record w { files = put w.files p none })

abbrev seen_owner : Option Node → Result Metadata
seen_owner none = err missing
seen_owner (some n) = ok n.metadata

-- the mode 06755, say, becomes 0755
abbrev pub without_set_ids : ℕ → ℕ
without_set_ids mode = if ltb mode 1024 then mode else mode % 512

without_set_ids_plain : (mode : ℕ) → mode < 1024 → without_set_ids mode ≡ mode
without_set_ids_plain mode h = ground (arith, h)

abbrev pub tree : Posix
tree = record {
  World = Tree;
  Input = Unit {0};
  Output = FilePath;
  node = λ w. w.files;
  remaining = λ w i. w.stream;
  interrupts = λ w. w.signals;
  name_of = λ o. o;
  owner = root_owner;
  masked = λ mode. mode;
  chowned = without_set_ids;
  lstat = λ p w. (ok (stat_of (w.files p)), w);
  open_read = λ p w. opening (w.files p) w;
  open_create = λ p mode w. creating (w.files p) p mode w;
  read = λ i w. reading w.signals w.stream w;
  write = λ o t w. writing w.signals o t w;
  fstat = λ o w. (seen_owner (w.files o), w);
  fchmod = λ o mode w. (ok tt, record w { files = edited w.files o (with_mode mode) });
  fchown = λ o uid gid w.
      (ok tt, record w { files = edited w.files o (with_owner without_set_ids uid gid) });
  fsync = λ o. pure tt;
  open_directory = λ p. pure tt;
  fsync_open_directory = λ p. pure tt;
  rename = λ x y w. renaming (w.files x) x y w;
  unlink = λ p w. removing (w.files p) p w;
  create_directories = λ p. pure tt;
  open_lock = λ p. pure tt;
  flock = λ p. pure true;
}

bytes_eq : {t u : Text} → ok (bytes t) ≡ ok (bytes u) → t ≡ u
bytes_eq h = cc

wrote_eq : {m n : ℕ} → ok (wrote m) ≡ ok (wrote n) → m ≡ n
wrote_eq h = cc

length_positive : (t : Text) → (t ≡ [] → ⊥) → 0 < length t
length_positive [] h = absurd (h refl)
length_positive (x ∷ xs) h = omega arith

seen_owner-sees : (m : Option Node) (d : Metadata) → seen_owner m ≡ ok d → some d ≡ stat_of m
seen_owner-sees none d h = cc
seen_owner-sees (some n) d h = cc

opening-remaining :
    (m : Option Node) (w : Tree) (i : Unit {0})
    → (opening m w).0 ≡ ok i
    → (n : Node) × (m ≡ some n) × ((opening m w).1.stream ≡ n.content)
opening-remaining none w i h = cc
opening-remaining (some n) w i h = (n, refl, refl)

opening-files : (m : Option Node) (w : Tree) (q : FilePath) → (opening m w).1.files q ≡ w.files q
opening-files none w q = refl
opening-files (some n) w q = refl

creating-files :
    (m : Option Node) (p : FilePath) (mode : ℕ) (w : Tree) (q : FilePath)
    → (creating m p mode w).1.files q
      ≡ settled
          (creating m p mode w).0
          w.files
          (put w.files p (some (fresh_node mode root_owner)))
          q
creating-files none p mode w q = refl
creating-files (some n) p mode w q = refl

creating-fresh :
    (m : Option Node) (p : FilePath) (mode : ℕ) (w : Tree) (o : FilePath)
    → (creating m p mode w).0 ≡ ok o
    → (m ≡ none) × (o ≡ p)
creating-fresh none p mode w o h = (refl, cc)
creating-fresh (some n) p mode w o h = cc

creating-stream :
    (m : Option Node) (p : FilePath) (mode : ℕ) (w : Tree)
    → (creating m p mode w).1.stream ≡ w.stream
creating-stream none p mode w = refl
creating-stream (some n) p mode w = refl

reading-files : (k : ℕ) (t : Text) (w : Tree) (q : FilePath) → (reading k t w).1.files q ≡ w.files q
reading-files (suc k) t w q = refl
reading-files zero [] w q = refl
reading-files zero (x ∷ []) w q = refl
reading-files zero (x ∷ (y ∷ t)) w q = refl

reading-end : (k : ℕ) (t : Text) (w : Tree) → (reading k t w).0 ≡ ok end → t ≡ []
reading-end (suc k) t w h = cc
reading-end zero [] w h = refl
reading-end zero (x ∷ []) w h = cc
reading-end zero (x ∷ (y ∷ t)) w h = cc

reading-bytes :
    (k : ℕ) (t : Text) (w : Tree) (u : Text)
    → k ≡ w.signals
    → (reading k t w).0 ≡ ok (bytes u)
    → (t ≡ u ++ (reading k t w).1.stream) × (0 < length u) × ((reading k t w).1.signals ≤ w.signals)
reading-bytes (suc k) t w u e h = cc
reading-bytes zero [] w u e h = cc
reading-bytes zero (x ∷ []) w u e h =
    subst (λ z. (x ∷ [] ≡ z ++ []) × (0 < length z) × (w.signals ≤ w.signals)) (bytes_eq h)
      (refl, omega arith, omega arith)
reading-bytes zero (x ∷ (y ∷ t)) w u e h =
    subst (λ z. (x ∷ (y ∷ t) ≡ z ++ t) × (0 < length z) × (w.signals ≤ w.signals)) (bytes_eq h)
      (refl, omega arith, omega arith)

reading-interrupted :
    (k : ℕ) (t : Text) (w : Tree)
    → t ≡ w.stream
    → k ≡ w.signals
    → (reading k t w).0 ≡ ok read_interrupted
    → ((reading k t w).1.stream ≡ w.stream) × ((reading k t w).1.signals < w.signals)
reading-interrupted (suc k) t w d e h = (refl, omega (arith, e))
reading-interrupted zero [] w d e h = cc
reading-interrupted zero (x ∷ []) w d e h = cc
reading-interrupted zero (x ∷ (y ∷ t)) w d e h = cc

at_most_three_le : (n : ℕ) → at_most_three n ≤ n
at_most_three_le zero = omega arith
at_most_three_le (suc zero) = omega arith
at_most_three_le (suc (suc zero)) = omega arith
at_most_three_le (suc (suc (suc k))) = omega arith

at_most_three_positive : (n : ℕ) → 0 < n → 0 < at_most_three n
at_most_three_positive zero h = h
at_most_three_positive (suc zero) h = omega arith
at_most_three_positive (suc (suc zero)) h = omega arith
at_most_three_positive (suc (suc (suc k))) h = omega arith

writing-wrote :
    (k : ℕ) (o : FilePath) (t : Text) (w : Tree) (n : ℕ)
    → (writing k o t w).0 ≡ ok (wrote n)
    → ((q : FilePath) → (writing k o t w).1.files q ≡ edited w.files o (appended (take n t)) q)
      × ((t ≡ [] → ⊥) → 0 < n)
      × (n ≤ length t)
      × ((writing k o t w).1.signals ≤ w.signals)
writing-wrote (suc k) o t w n h = cc
writing-wrote zero o t w n h =
    subst
      (λ z.
        ((q : FilePath) → (writing zero o t w).1.files q ≡ edited w.files o (appended (take z t)) q)
        × ((t ≡ [] → ⊥) → 0 < z)
        × (z ≤ length t)
        × ((writing zero o t w).1.signals ≤ w.signals))
      (wrote_eq h)
      (
        (λ q. refl),
        (λ e. at_most_three_positive (length t) (length_positive t e)),
        at_most_three_le (length t),
        omega arith,
      )

writing-interrupted :
    (k : ℕ) (o : FilePath) (t : Text) (w : Tree)
    → k ≡ w.signals
    → (writing k o t w).0 ≡ ok write_interrupted
    → ((q : FilePath) → (writing k o t w).1.files q ≡ w.files q)
      × ((writing k o t w).1.signals < w.signals)
writing-interrupted (suc k) o t w e h = ((λ q. refl), omega (arith, e))
writing-interrupted zero o t w e h = cc

writing-threw :
    (k : ℕ) (o : FilePath) (t : Text) (w : Tree) (e : Error)
    → (writing k o t w).0 ≡ err e
    → (q : FilePath) → (writing k o t w).1.files q ≡ w.files q
writing-threw (suc k) o t w e h = cc
writing-threw zero o t w e h = cc

renaming-files :
    (m : Option Node) (x y : FilePath) (w : Tree) (q : FilePath)
    → (renaming m x y w).1.files q ≡ settled (renaming m x y w).0 w.files (renamed w.files x y) q
renaming-files none x y w q = refl
renaming-files (some n) x y w q = refl

removing-files :
    (m : Option Node) (p : FilePath) (w : Tree) (q : FilePath)
    → (removing m p w).1.files q ≡ settled (removing m p w).0 w.files (put w.files p none) q
removing-files none p w q = refl
removing-files (some n) p w q = refl

pub tree-IsLawful : IsLawful tree
tree-IsLawful = record {
  lstat-Keeps = λ p w q. refl;
  lstat-sees = λ p w {m} h. cc;
  open_read-Keeps = λ p w q. opening-files (w.files p) w q;
  open_read-remaining = λ p w {i} h. opening-remaining (w.files p) w i h;
  open_create-Changes = λ p mode w q. creating-files (w.files p) p mode w q;
  open_create-fresh = λ p mode w {o} h. creating-fresh (w.files p) p mode w o h;
  open_create-remaining = λ p mode w i. creating-stream (w.files p) p mode w;
  read-Keeps = λ i w q. reading-files w.signals w.stream w q;
  read-end = λ i w h. reading-end w.signals w.stream w h;
  read-bytes = λ i w {t} h.
      let (whole, some_read, calmer) = reading-bytes w.signals w.stream w t refl h in
      (whole, some_read);
  read-interrupted = λ i w h. (reading-interrupted w.signals w.stream w refl refl h).0;
  write-wrote = λ o t w {n} h.
      let (view, moved, bounded, calmer) = writing-wrote w.signals o t w n h in (view, bounded);
  write-interrupted = λ o t w h. (writing-interrupted w.signals o t w refl h).0;
  write-threw = λ o t w {e} h. writing-threw w.signals o t w e h;
  fstat-Keeps = λ o w q. refl;
  fstat-sees = λ o w {m} h. seen_owner-sees (w.files o) m h;
  fchmod-Changes = λ o mode w q. refl;
  fchown-Changes = λ o uid gid w q. refl;
  chowned_plain = without_set_ids_plain;
  fsync-Keeps = λ o w q. refl;
  open_directory-Keeps = λ p w q. refl;
  fsync_open_directory-Keeps = λ p w q. refl;
  rename-Changes = λ x y w h q. renaming-files (w.files x) x y w q;
  unlink-Changes = λ p w q. removing-files (w.files p) p w q;
  create_directories_elsewhere = λ p w q h. refl;
  open_lock_elsewhere = λ p w q h. refl;
  flock-Keeps = λ p w q. refl;
}

pub tree-MakesProgress : MakesProgress tree
tree-MakesProgress = record {
  read_calmer = λ i w {t} h.
      let (whole, some_read, calmer) = reading-bytes w.signals w.stream w t refl h in calmer;
  read-interrupted_calmer = λ i w h. (reading-interrupted w.signals w.stream w refl refl h).1;
  write_advances = λ o t w {n} h.
      let (view, moved, bounded, calmer) = writing-wrote w.signals o t w n h in (moved, calmer);
  write-interrupted_calmer = λ o t w h. (writing-interrupted w.signals o t w refl h).1;
}

pub writes_succeed : (o : FilePath) (u : Text) (w : Tree) → is_ok (tree.write o u w).0 ≡ true
writes_succeed o u w = by_signals w.signals
  where
    by_signals : (k : ℕ) → is_ok (writing k o u w).0 ≡ true
    by_signals zero = refl
    by_signals (suc k) = refl

pub reads_succeed : (w : Tree) → is_ok (tree.read tt w).0 ≡ true
reads_succeed w = by_stream w.signals w.stream
  where
    by_stream : (k : ℕ) (t : Text) → is_ok (reading k t w).0 ≡ true
    by_stream (suc k) t = refl
    by_stream zero [] = refl
    by_stream zero (x ∷ []) = refl
    by_stream zero (x ∷ (y ∷ t)) = refl
