-- ===== src/Files/Messages.antt =====
-- Every exception of secure_file_ops.cpp has a message, which a caller that joins messages relies on.
use limine_manager.Prelude.{
  ℕ, zero, suc, ◌≡◌, refl, inl, inr, Bool, true, false, Bool-cases, Option, none, some, [], ◌∷◌,
  ◌++◌, is_empty, if◌then◌else◌, Text, text, drop, Result, ok, err, Error, runtime_error,
}
use limine_manager.FilePath.{FilePath}
use limine_manager.Exec.{Exec, pure, throw_if, on_error, ◌>>=◌}
use limine_manager.Exec.Triples.{Ended, Ruled, binding}
use limine_manager.Rollback.Planner.{what}
use limine_manager.Posix.{
  Posix, Metadata, ReadAnswer, end, bytes, read_interrupted, WriteAnswer, wrote, write_interrupted,
}
use limine_manager.Files.{
  Process, SecureFileFailurePoint, is_point, throw_errno, call, fail_if_injected, write_from,
  write_all, read_from, read_all, fsync_directory, copy_content, remove_quietly, copy_file_secure,
  is_unsafe, unsafe_target, must_exist, lstat_existing, replace_by_copy, atomic_restore_file,
  remove_found, remove_regular_file_secure,
}

abbrev pub Spoken : Error → Type 0
Spoken e = is_empty (what e) ≡ false

-- whatever this throws has a message
abbrev pub Speaks {ℓ κ} : {S : Type ℓ} {A : Type κ} → Exec S A → Type ℓ
Speaks m = Ruled (λ s. Unit {0}) (λ a s. Unit {0}) (λ e s. Spoken e) m

pub is_empty-append : (a b : Text) → is_empty b ≡ false → is_empty (a ++ b) ≡ false
is_empty-append [] b h = h
is_empty-append (x ∷ xs) b h = refl

module _ {ℓ} {S : Type ℓ} where
  pub told_bind {κ μ} :
      {A : Type κ} {B : Type μ} (m : Exec S A) (f : A → Exec S B)
      → Speaks m
      → ((a : A) → Speaks (f a))
      → Speaks (m >>= f)
  told_bind m f h k = binding m f h k

  pub told_if : (test : Bool) (e : Error) → Spoken e → Speaks {S = S} (throw_if test e)
  told_if true e h = record { run = λ s u. h }
  told_if false e h = record { run = λ s u. tt }

  pub told_pure {κ} : {A : Type κ} (a : A) → Speaks {S = S} (pure a)
  told_pure a = record { run = λ s u. tt }

  pub told_handled :
      {A : Type 0} (handler : S → S) (m : Exec S A) → Speaks m → Speaks (on_error handler m)
  told_handled {A} handler m h = record { run = λ s u. pass (m s).0 (m s).1 (h.run s u) }
    where
      pass :
          (r : Result A) (s : S)
          → Ended (λ a t. Unit {0}) (λ e t. Spoken e) (r, s)
          → Ended (λ a t. Unit {0}) (λ e t. Spoken e) (on_error handler (λ _. (r, s)) s)
      pass (ok a) s k = tt
      pass (err e) s k = k

module _ {World : Type 0} where
  pub told_errno :
      {A : Type 0} (operation : Text) (path : FilePath) (m : Exec World A)
      → Speaks (throw_errno operation path m)
  unfolding text what
  told_errno {A} operation path m = record { run = λ w u. decide (m w).0 (m w).1 }
    where
      decide :
          (r : Result A) (w : World)
          → Ended (λ a t. Unit {0}) (λ e t. Spoken e) (throw_errno operation path (λ _. (r, w)) w)
      decide (ok a) w = tt
      decide (err e) w =
          is_empty-append operation (text " '" ++ (path ++ (text "': " ++ what e))) refl

  pub told_call : {A : Type 0} (m : Exec World A) → Speaks m → Speaks (call m)
  told_call {A} m h = record { run = λ s u. pass (m s.world).0 s (h.run s.world u) }
    where
      pass :
          (r : Result A) (s : Process World)
          → Ended (λ a t. Unit {0}) (λ e t. Spoken e) (r, (m s.world).1)
          → Ended (λ a t. Unit {0}) (λ e t. Spoken e) (call (λ w. (r, (m s.world).1)) s)
      pass (ok a) s k = tt
      pass (err e) s k = k

  pub told_injected :
      (point : SecureFileFailurePoint) → Speaks {S = Process World} (fail_if_injected point)
  unfolding fail_if_injected text what
  told_injected point = record {
    run = λ s u. elim (Bool-cases (is_point s.injected point)) [
      | inl e ↦ rw e refl
      | inr e ↦ rw e tt
    ];
  }

module _ (c : Posix) where
  open c use {World, Input, Output}

  abbrev write_on : ℕ → Output → Text → FilePath → WriteAnswer → Exec World (Unit {0})
  write_on fuel o t path answer = elim answer [
    | wrote n ↦ write_from c fuel o (drop n t) path
    | write_interrupted ↦ write_from c fuel o t path
  ]

  told_write_on :
      (fuel : ℕ) (o : Output) (t : Text) (path : FilePath)
      → ((u : Text) → Speaks (write_from c fuel o u path))
      → (answer : WriteAnswer) → Speaks (write_on fuel o t path answer)
  told_write_on fuel o t path again (wrote n) = again (drop n t)
  told_write_on fuel o t path again write_interrupted = again t

  told_write_from :
      (fuel : ℕ) (o : Output) (t : Text) (path : FilePath) → Speaks (write_from c fuel o t path)
  unfolding write_from text what
  told_write_from zero o [] path = record { run = λ w u. tt }
  told_write_from zero o (x ∷ xs) path = record { run = λ w u. refl }
  told_write_from (suc fuel) o [] path = record { run = λ w u. tt }
  told_write_from (suc fuel) o (x ∷ xs) path = record {
    run =
        (told_bind (throw_errno (text "cannot write") path (c.write o (x ∷ xs)))
          (write_on fuel o (x ∷ xs) path)
          (told_errno (text "cannot write") path (c.write o (x ∷ xs)))
          (told_write_on fuel o (x ∷ xs) path (λ u. told_write_from fuel o u path))).run;
  }

  abbrev read_on : ℕ → Input → Text → FilePath → ReadAnswer → Exec World Text
  read_on fuel i got path answer = elim answer [
    | end ↦ pure got
    | bytes t ↦ read_from c fuel i (got ++ t) path
    | read_interrupted ↦ read_from c fuel i got path
  ]

  told_read_on :
      (fuel : ℕ) (i : Input) (got : Text) (path : FilePath)
      → ((u : Text) → Speaks (read_from c fuel i u path))
      → (answer : ReadAnswer) → Speaks (read_on fuel i got path answer)
  told_read_on fuel i got path again end = told_pure got
  told_read_on fuel i got path again (bytes t) = again (got ++ t)
  told_read_on fuel i got path again read_interrupted = again got

  told_read_from :
      (fuel : ℕ) (i : Input) (got : Text) (path : FilePath) → Speaks (read_from c fuel i got path)
  unfolding read_from text what
  told_read_from zero i got path = record { run = λ w u. refl }
  told_read_from (suc fuel) i got path = record {
    run =
        (told_bind (throw_errno (text "cannot read") path (c.read i)) (read_on fuel i got path)
          (told_errno (text "cannot read") path (c.read i))
          (told_read_on fuel i got path (λ u. told_read_from fuel i u path))).run;
  }

  told_write_all : (o : Output) (t : Text) (path : FilePath) → Speaks (write_all c o t path)
  unfolding write_all
  told_write_all o t path = record { run = λ w u. (told_write_from _ o t path).run w u }

  told_read_all : (i : Input) (path : FilePath) → Speaks (read_all c i path)
  unfolding read_all
  told_read_all i path = record { run = λ w u. (told_read_from _ i [] path).run w u }

  told_fsync_directory : (directory : FilePath) → Speaks (fsync_directory c directory)
  unfolding fsync_directory
  told_fsync_directory directory =
      let path = if is_empty directory then text "." else directory in
      told_bind _ _
        (told_call _ (told_errno (text "cannot open directory") path (c.open_directory path)))
        λ _. told_bind _ _ (told_injected _) λ _.
          told_call _
            (told_errno (text "cannot fsync directory") path (c.fsync_open_directory path))

  told_step :
      {A : Type 0} (operation : Text) (path : FilePath) (m : Exec World A)
      → Speaks (call (throw_errno operation path m))
  told_step operation path m =
      told_call (throw_errno operation path m) (told_errno operation path m)

  told_copy_content :
      (i : Input) (o : Output) (source destination : FilePath) (metadata : Metadata)
      → Speaks (copy_content c i o source destination metadata)
  unfolding copy_content
  told_copy_content i o source destination metadata = told_bind _ _ (told_injected _) λ _.
      told_bind _ _ (told_call _ (told_read_all i source)) λ content.
        told_bind _ _ (told_call _ (told_write_all o content destination)) λ _.
          told_bind _ _ (told_step (text "cannot preserve mode") destination (c.fchmod o _)) λ _.
            told_bind _ _
              (told_step (text "cannot preserve ownership") destination
                (c.fchown o metadata.uid metadata.gid))
              λ _.
                told_bind _ _ (told_injected _)
                  λ _. told_step (text "cannot fsync") destination (c.fsync o)

  told_copy_file_secure :
      (source destination : FilePath) (metadata : Metadata) (from to : Text)
      → Speaks (copy_file_secure c source destination metadata from to)
  unfolding copy_file_secure
  told_copy_file_secure source destination metadata from to =
      told_bind _ _ (told_step (text "cannot open " ++ from) source (c.open_read source)) λ i.
        told_bind _ _
          (told_step (text "cannot create " ++ to) destination (c.open_create destination _))
          λ o.
            told_handled (remove_quietly c destination) _
              (told_copy_content i o source destination metadata)

  told_lstat_existing :
      (operation : Text) (path : FilePath) → Speaks (call (lstat_existing c operation path))
  unfolding lstat_existing
  told_lstat_existing operation path =
      told_step operation path (λ w. (must_exist (c.lstat path w).0, (c.lstat path w).1))

  told_unsafe :
      (test : Bool) (rest : Text)
      → Speaks {S = Process World} (throw_if test (runtime_error (text "unsafe " ++ rest)))
  unfolding text what
  told_unsafe test rest = told_if test _ refl

  told_replace_by_copy :
      (backup target temporary : FilePath) (metadata : Metadata) (description : Text)
      → Speaks (replace_by_copy c backup target temporary metadata description)
  unfolding replace_by_copy
  told_replace_by_copy backup target temporary metadata description =
      told_bind _ _
        (told_copy_file_secure backup temporary metadata description (text "rollback file"))
        λ _. told_bind _ _ (told_injected _) λ _.
          told_bind _ _
            (told_step (text "cannot atomically restore") target (c.rename temporary target))
            λ _. told_bind _ _ (told_injected _) λ _. told_fsync_directory _

  pub atomic_restore_file-Speaks :
      (backup target temporary : FilePath) (from to : Text)
      → Speaks (atomic_restore_file c backup target temporary from to)
  unfolding atomic_restore_file
  atomic_restore_file-Speaks backup target temporary from to =
      told_bind _ _ (told_lstat_existing (text "cannot inspect " ++ from) backup) λ metadata.
        told_bind _ _ (told_unsafe (is_unsafe metadata) (from ++ (text ": " ++ backup))) λ _.
          told_bind _ _ (told_step (text "cannot inspect " ++ to) target (c.lstat target)) λ found.
            told_bind _ _ (told_unsafe (unsafe_target found) (to ++ (text ": " ++ target))) λ _.
              told_handled (remove_quietly c temporary) _
                (told_replace_by_copy backup target temporary metadata from)

  told_remove_found :
      (target : FilePath) (description : Text) (found : Option Metadata)
      → Speaks (remove_found c target description found)
  unfolding remove_found
  told_remove_found target description none = told_pure tt
  told_remove_found target description (some metadata) =
      told_bind _ _ (told_unsafe (is_unsafe metadata) (description ++ (text ": " ++ target))) λ _.
        told_bind _ _ (told_injected _) λ _.
          told_bind _ _ (told_step (text "cannot remove " ++ description) target (c.unlink target))
            λ _. told_fsync_directory _

  pub remove_regular_file_secure-Speaks :
      (target : FilePath) (description : Text)
      → Speaks (remove_regular_file_secure c target description)
  unfolding remove_regular_file_secure
  remove_regular_file_secure-Speaks target description =
      told_bind _ _ (told_step (text "cannot inspect " ++ description) target (c.lstat target))
        λ found. told_remove_found target description found
