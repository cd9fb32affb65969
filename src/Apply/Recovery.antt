-- ===== src/Apply/Recovery.antt =====
-- The catch block of `ApplyService::apply`.
use limine_manager.Prelude.{
  ◌≡◌, refl, ◌∙◌, sym, ap, ◌≢◌, ◌⊎◌, inl, inr, Option, none, some, [], Result, ok, err, Error,
}
use limine_manager.FilePath.{FilePath}
use limine_manager.Exec.{throw, ignoring}
use limine_manager.Exec.Triples.{Post, Ended, Ruled, binding, catching}
use limine_manager.Changes.{ChangePlan}
use limine_manager.Posix.{Posix, IsLawful, View, Node, Metadata, put, stat_of}
use limine_manager.Files.{Process, fsync_directory, remove_quietly}
use limine_manager.Files.Steps.{In, At, weaken}
use limine_manager.Files.Copy.{
  copy_of, kept_metadata, put_elsewhere, put_same, remove_quietly_elsewhere, remove_quietly_same,
}
use limine_manager.Files.CopyFile.{Unharmed, elsewhere-Unharmed}
use limine_manager.Files.Restore.{
  Replaced, Atomic, replaced, renamed_target, fsync_directory-Triple,
}
use limine_manager.Apply.{
  Names, Ids, wanted, directory_of, handle_failure, restore_target, restore_from_backup,
}
use limine_manager.Apply.Staging.{Either}
use limine_manager.Apply.Rollback.{
  Distinct, copy, generated, also_failed, Leftover, intact, restored, abandoned, uncleaned, Failure,
  restore_from_backup-Triple,
}

module _ (c : Posix) (lawful : IsLawful c) where
  open c use {World, node}

  -- fsync_directory in a catch block
  ignored_fsync :
      (directory : FilePath) (s : Process World)
      → node (ignoring (fsync_directory c directory) s).world ≡ node s.world
  ignored_fsync directory s =
      (both (fsync_directory c directory s).0 (fsync_directory c directory s).1 (
        (fsync_directory-Triple c lawful (λ u. u ≡ node s.world) directory).run s
          (record { holds = refl }))).holds
    where
      both :
          (r : Result (Unit {0})) (t : Process World)
          → Post (λ _. In (At c (λ u. u ≡ node s.world))) (In (At c (λ u. u ≡ node s.world))) (r, t)
          → In (At c (λ u. u ≡ node s.world)) t
      both (ok a) t h = h
      both (err e) t h = h

  module _ (plan : ChangePlan) (names : Names) (ids : Ids) (v : View)
      (distinct : Distinct plan names) where
    abbrev Failed : Error → Process World → Type 0
    Failed e = In (At c (Failure c plan names ids v e))

    abbrev EitherNow : View → View → Type 0
    EitherNow x = Either c lawful plan names x (wanted ids (stat_of (v plan.target)))

    target_temporary : plan.target ≢ names.temporary
    target_temporary e = distinct.temporary_target (sym e)

    -- there was no target
    pub recover_created :
        {A : Type 0} (Q : A → Process World → Type 0) (backup : FilePath) (e : Error)
        (s : Process World)
        → v plan.target ≡ none
        → EitherNow v (node s.world)
        → Ended Q Failed (handle_failure c plan names none backup e s)
    unfolding handle_failure restore_target
    recover_created Q backup e s absent h =
        let s1 = remove_quietly c names.temporary s in
        let s2 = remove_quietly c plan.target s1 in
        let flushed = ignored_fsync (directory_of plan.target) s2 in
        let before =
          remove_quietly_elsewhere c lawful names.temporary plan.target s target_temporary in
        record {
          holds = record {
            target = elim (remove_quietly_same c lawful plan.target s1) [
              | inl gone ↦ intact (ap (λ u. u plan.target) flushed ∙ gone ∙ sym absent)
              | inr stays ↦ elim h.old_or_new [
                | inl old ↦ intact (ap (λ u. u plan.target) flushed ∙ stays ∙ before ∙ old)
                | inr new ↦
                    uncleaned absent (ap (λ u. u plan.target) flushed ∙ stays ∙ before ∙ new)
              ]
            ];
            elsewhere = λ q a b d r.
                ap (λ u. u q) flushed
                ∙ remove_quietly_elsewhere c lawful plan.target q s1 a
                ∙ remove_quietly_elsewhere c lawful names.temporary q s b
                ∙ h.elsewhere q a b;
          };
        }

    -- the backup was not made: the target has not been touched
    pub recover_unbacked :
        {A : Type 0} (Q : A → Process World → Type 0) (m : Metadata) (e : Error) (s : Process World)
        → Unharmed v names.backup_candidate (node s.world)
        → Ended Q Failed (handle_failure c plan names (some m) [] e s)
    unfolding handle_failure restore_target
    recover_unbacked Q m e s h =
        let kept = elsewhere-Unharmed v names.backup_candidate (node s.world) h in
        record {
          holds = record {
            target = intact (
                remove_quietly_elsewhere c lawful names.temporary plan.target s target_temporary
                ∙ kept plan.target (λ z. distinct.candidate_target (sym z)));
            elsewhere =
                λ q a b d r. remove_quietly_elsewhere c lawful names.temporary q s b ∙ kept q d;
          };
        }

    -- what is known when the backup is restored
    record Backed (n : Node) (y : View) : Type 0 where
      pub old : v plan.target ≡ some n
      pub backup : y names.backup_candidate ≡ copy c n
      pub target : (y plan.target ≡ v plan.target) ⊎ (y plan.target ≡ generated c plan names ids v)
      pub elsewhere :
          (q : FilePath)
          → q ≢ plan.target
          → q ≢ names.temporary
          → q ≢ names.backup_candidate
          → y q ≡ v q

    pub content_of :
        {x : Option Node} (a b : Node) → x ≡ some a → x ≡ some b → a.content ≡ b.content
    content_of a b h k = cc

    came_back :
        (n : Node) (y u : View)
        → Backed n y
        → Replaced y names.backup_candidate plan.target names.rollback
            (λ b. kept_metadata c n.metadata)
            u
        → u plan.target ≡ copy c n
    came_back n y u h k =
        let whole = some (copy_of (kept_metadata c n.metadata) k.original.content) in
        ap (λ x. x plan.target) k.now
        ∙ renamed_target (put y names.rollback whole) names.rollback plan.target
        ∙ put_same y names.rollback whole
        ∙ ap (λ t. some (copy_of (kept_metadata c n.metadata) t))
            (content_of k.original _ k.was_backup h.backup)

    did_not :
        (n : Node) (y u : View)
        → Backed n y
        → Atomic y names.backup_candidate plan.target names.rollback
            (λ b. kept_metadata c n.metadata)
            u
        → Leftover c plan names ids v (also_failed c plan names ids v) u
    did_not n y u h k = elim k.old_or_new [
      | inl same ↦ elim h.target [
        | inl old ↦ intact (same ∙ old)
        | inr new ↦
            abandoned n h.old (same ∙ new)
              (k.elsewhere names.backup_candidate distinct.candidate_target
                  distinct.candidate_rollback
                ∙ h.backup)
              refl
      ]
      | inr moved ↦ restored n h.old (
          moved.2
          ∙ ap (λ t. some (copy_of (kept_metadata c n.metadata) t))
              (content_of moved.0 _ moved.1 h.backup))
    ]

    afterwards :
        (n : Node) (y u : View)
        → Backed n y
        → Atomic y names.backup_candidate plan.target names.rollback
            (λ b. kept_metadata c n.metadata)
            u
        → (q : FilePath) → q ≢ plan.target
        → q ≢ names.temporary
        → q ≢ names.backup_candidate
        → q ≢ names.rollback
        → u q ≡ v q
    afterwards n y u h k q a b d r = k.elsewhere q a r ∙ h.elsewhere q a b d

    restore_known :
        (n : Node) (y : View)
        → Backed n y
        → Ruled
            (In (At c (λ u. u ≡ y)))
            (λ a. In (At c (λ u. (e : Error) → Failure c plan names ids v e u)))
            Failed
            (restore_target c plan names (some n.metadata) names.backup_candidate)
    unfolding restore_target
    restore_known n y h =
        let back =
          restore_from_backup-Triple c lawful y names.backup_candidate plan.target names.rollback
            n.metadata distinct.rollback_target in
        let atomic =
          replaced c lawful y names.backup_candidate plan.target names.rollback
            (λ b. kept_metadata c n.metadata) distinct.rollback_target in
        rw distinct.candidate_given (
          catching
            (restore_from_backup c names.backup_candidate plan.target names.rollback n.metadata)
            (λ e. throw (also_failed c plan names ids v))
            (weaken _ back
              (λ a s k. record {
                holds = λ e. record {
                  target = restored n h.old (came_back n y _ h k.holds);
                  elsewhere = afterwards n y _ h (atomic _ k.holds);
                };
              })
              (λ s k. k))
            (λ e. record {
              run = λ s k. record {
                holds = record {
                  target = did_not n y _ h k.holds;
                  elsewhere = afterwards n y _ h k.holds;
                };
              };
            }))

    -- the backup was made, from which the target comes back
    pub recover_backed :
        {A : Type 0} (Q : A → Process World → Type 0) (n : Node) (x : View) (e : Error)
        (s : Process World)
        → v plan.target ≡ some n
        → x ≡ put v names.backup_candidate (copy c n)
        → EitherNow x (node s.world)
        → Ended Q Failed (handle_failure c plan names (some n.metadata) names.backup_candidate e s)
    unfolding handle_failure
    recover_backed Q n x e s old backed h =
        let s1 = remove_quietly c names.temporary s in
        let y = node s1.world in
        let known : Backed n y = record {
          old = old;
          backup =
              remove_quietly_elsewhere c lawful names.temporary names.backup_candidate s
                distinct.candidate_temporary
              ∙ h.elsewhere names.backup_candidate distinct.candidate_target
                  distinct.candidate_temporary
              ∙ ap (λ u. u names.backup_candidate) backed
              ∙ put_same v names.backup_candidate (copy c n);
          target = elim h.old_or_new [
            | inl same ↦ inl (
                remove_quietly_elsewhere c lawful names.temporary plan.target s target_temporary
                ∙ same
                ∙ ap (λ u. u plan.target) backed
                ∙ put_elsewhere v names.backup_candidate plan.target (copy c n)
                    (λ z. distinct.candidate_target (sym z)))
            | inr new ↦ inr (
                remove_quietly_elsewhere c lawful names.temporary plan.target s target_temporary
                ∙ new)
          ];
          elsewhere = λ q a b d.
              remove_quietly_elsewhere c lawful names.temporary q s b
              ∙ h.elsewhere q a b
              ∙ ap (λ u. u q) backed
              ∙ put_elsewhere v names.backup_candidate q (copy c n) d;
        } in
        (binding (restore_target c plan names (some n.metadata) names.backup_candidate)
            (λ a. throw e) (restore_known n y known)
            (λ a. record { run = λ t k. record { holds = k.holds e } })).run
          s1 (record { holds = refl })
