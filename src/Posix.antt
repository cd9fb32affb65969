-- ===== src/Posix.antt =====
-- The system calls of src/infrastructure/secure_file_ops.cpp and src/application/apply_service.cpp
-- as an interface. A call that fails throws its errno, as the text that strerror gives; the laws
-- say what a call that succeeds does, and that one that fails changes no file.
use limine_manager.Prelude.{
  ℕ, ◌≤◌, ◌<◌, ◌≡◌, ◌≢◌, Bool, true, false, Option, none, some, [], ◌++◌, if◌then◌else◌, length,
  take, Text, text_eq, starts_with, Result, ok, err, Error,
}
use limine_manager.FilePath.{FilePath}
use limine_manager.Exec.{Exec}

pub data FileKind : Type 0 where
  regular symbolic_link directory_file other : FileKind

-- struct stat
pub record Metadata : Type 0 where
  pub kind : FileKind
  pub mode : ℕ
  pub uid : ℕ
  pub gid : ℕ

pub record Node : Type 0 where
  pub metadata : Metadata
  pub content : Text

-- what ::read and ::write return: `interrupted` is EINTR
pub data ReadAnswer : Type 0 where
  end : ReadAnswer
  bytes : Text → ReadAnswer
  read_interrupted : ReadAnswer

pub data WriteAnswer : Type 0 where
  wrote : ℕ → WriteAnswer
  write_interrupted : WriteAnswer

abbrev pub View : Type 0
View = FilePath → Option Node

-- `owner` has the effective user and group, `masked` clears the bits of the umask.
-- `chowned` is the mode that is left of a mode after chown(2), which may clear the set-user-ID and
-- set-group-ID bits; a mode without the three highest bits stays.
-- `create_directories p` makes directories of which `p` is, or is below.
-- `node w p` is the file named `p`; `remaining w i` is what is still to be read of an open file;
-- `interrupts w` is how many rounds without progress a loop over ::read and ::write is followed.
pub record Posix : Type 1 where
  pub World : Type 0
  pub Input : Type 0
  pub Output : Type 0
  pub node : World → View
  pub remaining : World → Input → Text
  pub interrupts : World → ℕ
  pub name_of : Output → FilePath
  pub owner : Metadata
  pub masked : ℕ → ℕ
  pub chowned : ℕ → ℕ
  pub lstat : FilePath → Exec World (Option Metadata)
  pub open_read : FilePath → Exec World Input
  pub open_create : FilePath → ℕ → Exec World Output
  pub read : Input → Exec World ReadAnswer
  pub write : Output → Text → Exec World WriteAnswer
  pub fstat : Output → Exec World Metadata
  pub fchmod : Output → ℕ → Exec World (Unit {0})
  pub fchown : Output → ℕ → ℕ → Exec World (Unit {0})
  pub fsync : Output → Exec World (Unit {0})
  pub open_directory : FilePath → Exec World (Unit {0})
  pub fsync_open_directory : FilePath → Exec World (Unit {0})
  pub rename : FilePath → FilePath → Exec World (Unit {0})
  pub unlink : FilePath → Exec World (Unit {0})
  pub create_directories : FilePath → Exec World (Unit {0})
  pub open_lock : FilePath → Exec World (Unit {0})
  pub flock : FilePath → Exec World Bool

abbrev pub put : View → FilePath → Option Node → View
put v p n q = if text_eq q p then n else v q

abbrev pub renamed : View → FilePath → FilePath → View
renamed v x y q = if text_eq q y then v x else if text_eq q x then none else v q

abbrev pub fresh_node : ℕ → Metadata → Node
fresh_node mode owner = record {
  metadata = record owner { kind = regular; mode = mode };
  content = [];
}

abbrev pub appended : Text → Node → Node
appended t n = record n { content = n.content ++ t }

abbrev pub with_mode : ℕ → Node → Node
with_mode mode n = record n { metadata = record n.metadata { mode = mode } }

-- `kept` is what is left of the mode
abbrev pub with_owner : (ℕ → ℕ) → ℕ → ℕ → Node → Node
with_owner kept uid gid n = record n {
  metadata = record n.metadata { mode = kept n.metadata.mode; uid = uid; gid = gid };
}

abbrev pub map_node : (Node → Node) → Option Node → Option Node
map_node f none = none
map_node f (some n) = some (f n)

abbrev pub edited : View → FilePath → (Node → Node) → View
edited v p f q = if text_eq q p then map_node f (v p) else v q

abbrev pub is_directory : FileKind → Bool
is_directory regular = false
is_directory symbolic_link = false
is_directory directory_file = true
is_directory other = false

-- a file that is a directory: a rename takes all that is below it along
abbrev pub is_folder : Option Node → Bool
is_folder none = false
is_folder (some n) = is_directory n.metadata.kind

abbrev pub stat_of : Option Node → Option Metadata
stat_of none = none
stat_of (some n) = some n.metadata

-- what a call that returned did, and what a call that threw left
abbrev pub settled : {A : Type 0} → Result A → View → View → View
settled (ok a) before after = after
settled (err e) before after = before

module _ (c : Posix) where
  open c use {World, Input, Output, node, remaining, interrupts, name_of}

  abbrev pub Keeps : {A : Type 0} → Exec World A → Type 0
  Keeps m = (w : World) (q : FilePath) → node (m w).1 q ≡ node w q

  abbrev pub Changes : {A : Type 0} → Exec World A → (View → View) → Type 0
  Changes m change =
      (w : World) (q : FilePath) → node (m w).1 q ≡ settled (m w).0 (node w) (change (node w)) q

  pub record IsLawful : Type 0 where
    pub lstat-Keeps : (p : FilePath) → Keeps (c.lstat p)
    pub lstat-sees :
        (p : FilePath) (w : World) {m : Option Metadata}
        → (c.lstat p w).0 ≡ ok m
        → m ≡ stat_of (node w p)
    pub open_read-Keeps : (p : FilePath) → Keeps (c.open_read p)
    pub open_read-remaining :
        (p : FilePath) (w : World) {i : Input}
        → (c.open_read p w).0 ≡ ok i
        → (n : Node) × (node w p ≡ some n) × (remaining (c.open_read p w).1 i ≡ n.content)
    pub open_create-Changes :
        (p : FilePath) (mode : ℕ)
        → Changes (c.open_create p mode) (λ v. put v p (some (fresh_node (c.masked mode) c.owner)))
    pub open_create-fresh :
        (p : FilePath) (mode : ℕ) (w : World) {o : Output}
        → (c.open_create p mode w).0 ≡ ok o
        → (node w p ≡ none) × (name_of o ≡ p)
    pub open_create-remaining :
        (p : FilePath) (mode : ℕ) (w : World) (i : Input)
        → remaining (c.open_create p mode w).1 i ≡ remaining w i
    pub read-Keeps : (i : Input) → Keeps (c.read i)
    pub read-end : (i : Input) (w : World) → (c.read i w).0 ≡ ok end → remaining w i ≡ []
    pub read-bytes :
        (i : Input) (w : World) {t : Text}
        → (c.read i w).0 ≡ ok (bytes t)
        → (remaining w i ≡ t ++ remaining (c.read i w).1 i) × (0 < length t)
    pub read-interrupted :
        (i : Input) (w : World)
        → (c.read i w).0 ≡ ok read_interrupted
        → remaining (c.read i w).1 i ≡ remaining w i
    pub write-wrote :
        (o : Output) (t : Text) (w : World) {n : ℕ}
        → (c.write o t w).0 ≡ ok (wrote n)
        → ((q : FilePath)
            → node (c.write o t w).1 q ≡ edited (node w) (name_of o) (appended (take n t)) q)
          × (n ≤ length t)
    pub write-interrupted :
        (o : Output) (t : Text) (w : World)
        → (c.write o t w).0 ≡ ok write_interrupted
        → (q : FilePath) → node (c.write o t w).1 q ≡ node w q
    pub write-threw :
        (o : Output) (t : Text) (w : World) {e : Error}
        → (c.write o t w).0 ≡ err e
        → (q : FilePath) → node (c.write o t w).1 q ≡ node w q
    pub fstat-Keeps : (o : Output) → Keeps (c.fstat o)
    pub fstat-sees :
        (o : Output) (w : World) {m : Metadata}
        → (c.fstat o w).0 ≡ ok m
        → some m ≡ stat_of (node w (name_of o))
    pub fchmod-Changes :
        (o : Output) (mode : ℕ)
        → Changes (c.fchmod o mode) (λ v. edited v (name_of o) (with_mode mode))
    pub fchown-Changes :
        (o : Output) (uid gid : ℕ)
        → Changes (c.fchown o uid gid) (λ v. edited v (name_of o) (with_owner c.chowned uid gid))
    pub chowned_plain : (mode : ℕ) → mode < 1024 → c.chowned mode ≡ mode
    pub fsync-Keeps : (o : Output) → Keeps (c.fsync o)
    pub open_directory-Keeps : (p : FilePath) → Keeps (c.open_directory p)
    pub fsync_open_directory-Keeps : (p : FilePath) → Keeps (c.fsync_open_directory p)
    pub rename-Changes :
        (x y : FilePath) (w : World)
        → is_folder (node w x) ≡ false
        → (q : FilePath)
        → node (c.rename x y w).1 q ≡ settled (c.rename x y w).0 (node w) (renamed (node w) x y) q
    pub unlink-Changes : (p : FilePath) → Changes (c.unlink p) (λ v. put v p none)
    pub create_directories_elsewhere :
        (p : FilePath) (w : World) (q : FilePath)
        → starts_with p q ≡ false
        → node (c.create_directories p w).1 q ≡ node w q
    pub open_lock_elsewhere :
        (p : FilePath) (w : World) (q : FilePath) → q ≢ p → node (c.open_lock p w).1 q ≡ node w q
    pub flock-Keeps : (p : FilePath) → Keeps (c.flock p)

  -- A kernel under which the loops over ::read and ::write end, which no manual page promises: it
  -- interrupts finitely many calls, of which `interrupts` is the bound, and a ::write of some bytes
  -- that returns a count has written one at least.
  pub record MakesProgress : Type 0 where
    pub read_calmer :
        (i : Input) (w : World) {t : Text}
        → (c.read i w).0 ≡ ok (bytes t)
        → interrupts (c.read i w).1 ≤ interrupts w
    pub read-interrupted_calmer :
        (i : Input) (w : World)
        → (c.read i w).0 ≡ ok read_interrupted
        → interrupts (c.read i w).1 < interrupts w
    pub write_advances :
        (o : Output) (t : Text) (w : World) {n : ℕ}
        → (c.write o t w).0 ≡ ok (wrote n)
        → ((t ≡ [] → ⊥) → 0 < n) × (interrupts (c.write o t w).1 ≤ interrupts w)
    pub write-interrupted_calmer :
        (o : Output) (t : Text) (w : World)
        → (c.write o t w).0 ≡ ok write_interrupted
        → interrupts (c.write o t w).1 < interrupts w
