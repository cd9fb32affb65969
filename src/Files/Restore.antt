-- ===== src/Files/Restore.antt =====
-- `atomic_restore_file`.
use mathlib.Core.Path.{fun_ext}
use limine_manager.Prelude.{
  ◌≡◌, refl, ◌∙◌, sym, ap, subst, ◌≢◌, ◌⊎◌, inl, inr, false, Option, none, some, ◌++◌, Text, text,
  text_eq_iff, text_eq-of_ne, Result, ok, err, arith,
}
use limine_manager.FilePath.{FilePath, parent_path}
use limine_manager.Exec.{Exec}
use limine_manager.Exec.Triples.{Triple, bind}
use limine_manager.Posix.{
  Posix, IsLawful, Keeps, View, Node, Metadata, put, renamed, stat_of, is_directory, is_folder,
}
use limine_manager.Files.{
  Process, before_directory_fsync, before_rename, after_rename, throw_errno, call, fsync_directory,
  is_unsafe, unsafe_target, must_exist, lstat_existing, remove_quietly, replace_by_copy,
  atomic_restore_file,
}
use limine_manager.Files.Steps.{
  In, At, call_rule, keep_rule, rename_rule, assume_rule, injected_rule, guard_rule,
  throw_errno-eq-ok, weaken, handled,
}
use limine_manager.Files.Copy.{
  copy_of, kept_metadata, put_elsewhere, put_same, remove_quietly_elsewhere,
}
use limine_manager.Files.CopyFile.{
  Copied, Unharmed, unchanged, elsewhere-Unharmed, copy_file_secure-Triple,
}

pub renamed_target : (v : View) (x y : FilePath) → renamed v x y y ≡ v x
renamed_target v x y = ground (arith, text_eq_iff y y)

pub renamed_elsewhere : (v : View) (x y q : FilePath) → q ≢ x → q ≢ y → renamed v x y q ≡ v q
renamed_elsewhere v x y q h k = ground (arith, text_eq-of_ne q x h, text_eq-of_ne q y k)

-- the target is a copy of the backup, with the metadata that `chosen` says, and the temporary file
-- is gone
pub record Replaced (v : View) (backup target temporary : FilePath) (chosen : Node → Metadata)
    (u : View) : Type 0 where
  pub original : Node
  pub was_backup : v backup ≡ some original
  pub was_free : v temporary ≡ none
  pub now :
      u
      ≡ renamed
          (put v temporary (some (copy_of (chosen original) original.content)))
          temporary
          target

-- the target is the old file or a copy of the backup, and no other file but the temporary changed
pub record Atomic (v : View) (backup target temporary : FilePath) (chosen : Node → Metadata)
    (u : View) : Type 0 where
  pub elsewhere : (q : FilePath) → q ≢ target → q ≢ temporary → u q ≡ v q
  pub old_or_new :
      (u target ≡ v target)
      ⊎ ((n : Node) × (v backup ≡ some n) × (u target ≡ some (copy_of (chosen n) n.content)))

pub temporary_regular :
    (v : View) (backup temporary : FilePath) (metadata : Metadata) (u : View)
    → Copied v backup temporary metadata u
    → is_directory metadata.kind ≡ false
    → is_folder (u temporary) ≡ false
temporary_regular v backup temporary metadata u h file =
    ap (λ x. is_folder (x temporary)) h.now ∙ ap is_folder (put_same v temporary _) ∙ file

pub must_exist-eq-ok :
    (r : Result (Option Metadata)) (m : Metadata) → must_exist r ≡ ok m → r ≡ ok (some m)
must_exist-eq-ok (ok none) m h = cc
must_exist-eq-ok (ok (some n)) m h = cc
must_exist-eq-ok (err e) m h = cc

module _ (c : Posix) (lawful : IsLawful c) where
  open c use {World, node}

  pub fsync_directory-Triple :
      (P : View → Type 0) (directory : FilePath)
      → Triple (In (At c P)) (λ _. In (At c P)) (In (At c P)) (fsync_directory c directory)
  unfolding fsync_directory
  fsync_directory-Triple P directory =
      bind _ _ (keep_rule c P _ (lawful.open_directory-Keeps _)) λ _.
        bind _ _ (injected_rule (At c P) before_directory_fsync)
          λ _. keep_rule c P _ (lawful.fsync_open_directory-Keeps _)

  pub existing-Keeps :
      (operation : Text) (path : FilePath) → Keeps c (lstat_existing c operation path)
  unfolding lstat_existing
  existing-Keeps operation path = lawful.lstat-Keeps path

  module _ (v : View) (path : FilePath) where
    abbrev pub Seen : Option Metadata → World → Type 0
    Seen m w = (node w ≡ v) × (m ≡ stat_of (v path))

    pub lstat_existing-Triple :
        (operation : Text)
        → Triple
            (In (At c (λ u. u ≡ v)))
            (λ m. In (Seen (some m)))
            (In (At c (λ u. u ≡ v)))
            (call (lstat_existing c operation path))
    unfolding lstat_existing
    lstat_existing-Triple operation =
        let seeing = lstat_existing c operation path in
        let looked : Exec World Metadata =
          λ w. (must_exist (c.lstat path w).0, (c.lstat path w).1) in
        call_rule (At c (λ u. u ≡ v)) (λ m. Seen (some m)) (At c (λ u. u ≡ v)) seeing
          (λ w m h e. (
            fun_ext (lawful.lstat-Keeps path w) ∙ h,
            lawful.lstat-sees path w (
                  must_exist-eq-ok (c.lstat path w).0 m
                    (throw_errno-eq-ok operation path looked w m e))
                ∙ ap (λ u. stat_of (u path)) h,
          ))
          (λ w x h e. fun_ext (lawful.lstat-Keeps path w) ∙ h)

    pub lstat-Triple :
        (operation : Text)
        → Triple
            (In (At c (λ u. u ≡ v)))
            (λ m. In (Seen m))
            (In (At c (λ u. u ≡ v)))
            (call (throw_errno operation path (c.lstat path)))
    lstat-Triple operation =
        call_rule (At c (λ u. u ≡ v)) Seen (At c (λ u. u ≡ v))
          (throw_errno operation path (c.lstat path))
          (λ w m h e. (
            fun_ext (lawful.lstat-Keeps path w) ∙ h,
            lawful.lstat-sees path w (throw_errno-eq-ok operation path (c.lstat path) w m e)
                ∙ ap (λ u. stat_of (u path)) h,
          ))
          (λ w x h e. fun_ext (lawful.lstat-Keeps path w) ∙ h)

  module _ (v : View) (backup target temporary : FilePath) (chosen : Node → Metadata)
      (apart : temporary ≢ target) where
    abbrev pub Outcome : View → Type 0
    Outcome = Atomic v backup target temporary chosen

    pub unharmed : (u : View) → Unharmed v temporary u → Outcome u
    unharmed u h = record {
      elsewhere = λ q n m. elsewhere-Unharmed v temporary u h q m;
      old_or_new = inl (elsewhere-Unharmed v temporary u h target (λ e. apart (sym e)));
    }

    pub copied : (metadata : Metadata) (u : View) → Copied v backup temporary metadata u → Outcome u
    copied metadata u h = record {
      elsewhere = λ q n m. ap (λ x. x q) h.now ∙ put_elsewhere v temporary q _ m;
      old_or_new =
          inl (ap (λ x. x target) h.now ∙ put_elsewhere v temporary target _ (λ e. apart (sym e)));
    }

    pub replaced : (u : View) → Replaced v backup target temporary chosen u → Outcome u
    replaced u h =
        let copy = some (copy_of (chosen h.original) h.original.content) in
        record {
          elsewhere = λ q n m.
              ap (λ x. x q) h.now
              ∙ renamed_elsewhere (put v temporary copy) temporary target q m n
              ∙ put_elsewhere v temporary q copy m;
          old_or_new = inr (
            h.original,
            h.was_backup,
            ap (λ x. x target) h.now
                ∙ renamed_target (put v temporary copy) temporary target
                ∙ put_same v temporary copy,
          );
        }

    pub step :
        (metadata : Metadata)
        → ((n : Node) → v backup ≡ some n → metadata ≡ chosen n)
        → (u : View) → Copied v backup temporary metadata u
        → Replaced v backup target temporary chosen (renamed u temporary target)
    step metadata known u h = record {
      original = h.original;
      was_backup = h.was_source;
      was_free = h.was_free;
      now =
          ap (λ x. renamed x temporary target) h.now
          ∙ ap
              (λ m.
                renamed (put v temporary (some (copy_of m h.original.content))) temporary target)
              (known h.original h.was_source);
    }

    replace_by_copy-Triple :
        (metadata : Metadata) (description : Text)
        → ((n : Node) → v backup ≡ some n → kept_metadata c metadata ≡ chosen n)
        → Triple
            (In (At c (λ u. u ≡ v)))
            (λ _. In (At c (Replaced v backup target temporary chosen)))
            (In (At c Outcome))
            (replace_by_copy c backup target temporary metadata description)
    unfolding replace_by_copy
    replace_by_copy-Triple metadata description known =
        let finished = Replaced v backup target temporary chosen in
        bind _ _
          (weaken _
            (copy_file_secure-Triple c lawful v backup temporary metadata description
              (text "rollback file"))
            (λ a s h. h) (λ s h. record { holds = unharmed _ h.holds }))
          λ _.
            bind _ _
              (weaken _
                (injected_rule (At c (Copied v backup temporary (kept_metadata c metadata)))
                  before_rename)
                (λ a s h. h)
                (λ s h. record { holds = copied (kept_metadata c metadata) _ h.holds }))
              λ _.
                bind _ _
                  (weaken _
                    (rename_rule c lawful (Copied v backup temporary (kept_metadata c metadata))
                      finished temporary target (text "cannot atomically restore")
                      (λ u h. temporary_regular v backup temporary _ u h refl)
                      (step (kept_metadata c metadata) known))
                    (λ a s h. h)
                    (λ s h. record { holds = copied (kept_metadata c metadata) _ h.holds }))
                  λ _.
                    bind _ _
                      (weaken _ (injected_rule (At c finished) after_rename) (λ a s h. h)
                        (λ s h. record { holds = replaced _ h.holds }))
                      λ _.
                        weaken _ (fsync_directory-Triple finished (parent_path target)) (λ a s h. h)
                          (λ s h. record { holds = replaced _ h.holds })

    pub clean :
        (s : Process World) → In (At c Outcome) s → In (At c Outcome) (remove_quietly c temporary s)
    clean s h = record {
      holds = record {
        elsewhere =
            λ q n m. remove_quietly_elsewhere c lawful temporary q s m ∙ h.holds.elsewhere q n m;
        old_or_new =
            subst Choice
              (sym (remove_quietly_elsewhere c lawful temporary target s (λ e. apart (sym e))))
              h.holds.old_or_new;
      };
    }
      where
        Choice : Option Node → Type 0
        Choice x =
            (x ≡ v target)
            ⊎ ((n : Node) × (v backup ≡ some n) × (x ≡ some (copy_of (chosen n) n.content)))

    abbrev pub Unchanged : View → Type 0
    Unchanged u = u ≡ v

    no_change : (s : Process World) → In (At c Unchanged) s → In (At c Outcome) s
    no_change s h = record { holds = unharmed _ (unchanged h.holds) }

  module _ (v : View) (backup target temporary : FilePath) (apart : temporary ≢ target) where
    abbrev own : Node → Metadata
    own n = kept_metadata c n.metadata

    -- When `atomic_restore_file` returns, neither the backup nor the target was anything but a
    -- regular file, and the target is now a copy of the backup: the content, the owner and of the
    -- permissions what chown(2) leaves, which may clear the set-ID bits. When it
    -- throws, whatever the call that failed, the target is still the old file or already a copy
    -- of the backup, never a part of one. In both cases no file but the target and the temporary
    -- one has changed. The temporary name must not be the target's.
    pub atomic_restore_file-Triple :
        (description target_description : Text)
        → Triple
            (In (At c (λ u. u ≡ v)))
            (λ _. In (
              At c (λ u.
                Replaced v backup target temporary (λ n. kept_metadata c n.metadata) u
                × (unsafe_target (stat_of (v backup)) ≡ false)
                × (unsafe_target (stat_of (v target)) ≡ false))))
            (In (At c (Atomic v backup target temporary (λ n. kept_metadata c n.metadata))))
            (atomic_restore_file c backup target temporary description target_description)
    unfolding atomic_restore_file
    atomic_restore_file-Triple description target_description =
        let unmoved = no_change v backup target temporary own apart in
        bind _ _
          (weaken _ (lstat_existing-Triple v backup (text "cannot inspect " ++ description))
            (λ a s h. h) unmoved)
          λ metadata. assume_rule (At c (λ u. u ≡ v)) (some metadata ≡ stat_of (v backup)) _ λ seen.
            guard_rule (is_unsafe metadata) _ _ unmoved λ safe.
              bind _ _
                (weaken _ (lstat-Triple v target (text "cannot inspect " ++ target_description))
                  (λ a s h. h) unmoved)
                λ found. assume_rule (At c (λ u. u ≡ v)) (found ≡ stat_of (v target)) _ λ there.
                  guard_rule (unsafe_target found) _ _ unmoved λ target_safe.
                    handled (remove_quietly c temporary)
                      (replace_by_copy c backup target temporary metadata description)
                      (weaken _
                        (replace_by_copy-Triple v backup target temporary own apart metadata
                          description
                          (λ n h. ap (kept_metadata c) (some-own metadata n (seen ∙ ap stat_of h))))
                        (λ a s h. record {
                          holds = (
                            h.holds,
                            ap unsafe_target (sym seen) ∙ safe,
                            ap unsafe_target (sym there) ∙ target_safe,
                          );
                        })
                        (λ s h. h))
                      (clean v backup target temporary own apart)
      where
        some-own : (m : Metadata) (n : Node) → some m ≡ some n.metadata → m ≡ n.metadata
        some-own m n h = cc
