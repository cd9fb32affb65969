-- ===== src/Apply/Replacing.antt =====
-- The try block and the catch block of `ApplyService::apply` together.
use limine_manager.Prelude.{
  ◌≡◌, refl, ◌∙◌, sym, ap, subst, ◌≢◌, true, Option, none, some, [], text, Error,
}
use limine_manager.FilePath.{FilePath}
use limine_manager.Exec.{catch_all}
use limine_manager.Exec.Triples.{Triple, bind, Ended, Ruled, binding, catching}
use limine_manager.Changes.{ChangePlan}
use limine_manager.Posix.{Posix, IsLawful, View, Node, Metadata, put, stat_of}
use limine_manager.Files.{Process}
use limine_manager.Files.Steps.{In, At, weaken}
use limine_manager.Files.Copy.{Apart, copy_of, kept_metadata, put_elsewhere, put_same}
use limine_manager.Files.CopyFile.{Copied, Unharmed, left_over, copy_file_secure-Triple}
use limine_manager.Files.Restore.{renamed_target, fsync_directory-Triple}
use limine_manager.Apply.{
  Names, Ids, ApplyResult, wanted, directory_of, make_backup, replace_target, handle_failure,
  replace_safely,
}
use limine_manager.Apply.Staging.{Either, Placed, placed, new_file, replace_target-Triple}
use limine_manager.Apply.Rollback.{Distinct, copy, Applied, Failure}
use limine_manager.Apply.Recovery.{recover_created, recover_unbacked, recover_backed, content_of}

same_copy :
    (c : Posix) {x : Option Node} (n m : Node) → x ≡ some n → x ≡ some m → copy c n ≡ copy c m
same_copy c n m h k = let same : n ≡ m = cc in ap (copy c) same

module _ (c : Posix) (lawful : IsLawful c) (plan : ChangePlan) (names : Names) (ids : Ids)
    (distinct : Distinct plan names) where
  open c use {World, node}

  module _ (v : View) where
    abbrev pub Failed : Error → Process World → Type 0
    Failed e = In (At c (Failure c plan names ids v e))

    abbrev pub Done : ApplyResult → Process World → Type 0
    Done r = In (At c (Applied c plan names ids v r))

    abbrev metadata : Metadata
    metadata = wanted ids (stat_of (v plan.target))

    make_backup-Triple :
        (m : Metadata)
        → Triple
            (In (At c (λ u. u ≡ v)))
            (λ b. In (λ w.
              Copied v plan.target names.backup_candidate (kept_metadata c m) (node w)
              × (b ≡ names.backup_candidate)))
            (In (At c (Unharmed v names.backup_candidate)))
            (make_backup c plan names (some m))
    unfolding make_backup
    make_backup-Triple m =
        bind _ _
          (copy_file_secure-Triple c lawful v plan.target names.backup_candidate m (text "source")
            (text "backup"))
          λ _.
            bind _ _
              (weaken _
                (fsync_directory-Triple c lawful
                  (Copied v plan.target names.backup_candidate (kept_metadata c m))
                  (directory_of plan.target))
                (λ a s h. h)
                (λ s h. record { holds = left_over h.holds.was_free (spread _ h.holds) }))
              λ _. record { run = λ s h. record { holds = (h.holds, refl) } }
      where
        spread :
            (u : View)
            → Copied v plan.target names.backup_candidate (kept_metadata c m) u
            → Apart v names.backup_candidate u
        spread u h = record {
          elsewhere = λ q e.
              ap (λ y. y q) h.now
              ∙ put_elsewhere v names.backup_candidate q
                  (some (copy_of (kept_metadata c m) h.original.content)) e;
        }

    finished :
        (x : View) (backup : FilePath) (found : Option Metadata)
        → found ≡ stat_of (v plan.target)
        → ((q : FilePath) → q ≢ names.backup_candidate → x q ≡ v q)
        → ((n : Node)
            → v plan.target ≡ some n
            → (backup ≡ names.backup_candidate) × (x names.backup_candidate ≡ copy c n))
        → Triple
            (In (At c (λ u. u ≡ x)))
            Done
            (In (At c (Either c lawful plan names x metadata)))
            (replace_target c plan names (wanted ids found) backup)
    finished x backup found there same backed =
        subst
          (λ f.
            Triple (In (At c (λ u. u ≡ x))) Done (In (At c (Either c lawful plan names x metadata)))
              (replace_target c plan names (wanted ids f) backup))
          (sym there)
          (weaken _
            (replace_target-Triple c lawful plan names x metadata distinct.temporary_target backup)
            (λ r s h. record { holds = done r _ h.holds.0 h.holds.1 }) (λ s h. h))
      where
        done :
            (r : ApplyResult) (u : View)
            → Placed c lawful plan names x metadata u
            → r ≡ record { changed = true; target = plan.target; backup = backup }
            → Applied c plan names ids v r u
        done r u h e =
            let whole = some (new_file c metadata plan.generated) in
            let either = placed c lawful plan names x metadata distinct.temporary_target u h in
            record {
              now =
                  ap (λ y. y plan.target) h.0
                  ∙ renamed_target (put x names.temporary whole) names.temporary plan.target
                  ∙ put_same x names.temporary whole;
              result =
                  e
                  ∙ ap (λ b. record { changed = true; target = plan.target; backup = b })
                      (sym (ap (λ z. z.backup) e));
              backed = λ n k.
                  let (named, held) = backed n k in
                  (
                    ap (λ z. z.backup) e ∙ named,
                    either.elsewhere names.backup_candidate distinct.candidate_target
                          distinct.candidate_temporary
                        ∙ held,
                  );
              elsewhere = λ q a b d. either.elsewhere q a b ∙ same q d;
            }

    replace_created :
        v plan.target ≡ none
        → Ruled (In (At c (λ u. u ≡ v))) Done Failed (replace_safely c plan names ids none)
    unfolding replace_safely make_backup
    replace_created absent =
        catching _ _ (finished v [] none (sym (ap stat_of absent)) (λ q e. refl) (λ n h. clash n h))
          (λ e. record {
            run = λ s h.
                recover_created c lawful plan names ids v distinct Done [] e s absent h.holds;
          })
      where
        clash :
            (n : Node)
            → v plan.target ≡ some n
            → ([] ≡ names.backup_candidate) × (v names.backup_candidate ≡ copy c n)
        clash n h = cc

    replace_existing :
        (n : Node)
        → v plan.target ≡ some n
        → Ruled
            (In (At c (λ u. u ≡ v)))
            Done
            Failed
            (replace_safely c plan names ids (some n.metadata))
    unfolding replace_safely
    replace_existing n old =
        binding _ _
          (catching _ _ (make_backup-Triple n.metadata) (λ e. record {
            run =
                λ s h. recover_unbacked c lawful plan names ids v distinct _ n.metadata e s h.holds;
          }))
          λ backup. record { run = λ s h. from_backup backup h.holds.1 s h.holds.0 }
      where
        from_backup :
            (backup : FilePath)
            → backup ≡ names.backup_candidate
            → (s : Process World)
            → Copied v plan.target names.backup_candidate
                (kept_metadata c n.metadata)
                (node s.world)
            → Ended Done Failed (
                catch_all
                  (replace_target c plan names (wanted ids (some n.metadata)) backup)
                  (handle_failure c plan names (some n.metadata) backup)
                  s)
        from_backup backup named s h =
            let x = node s.world in
            let view : x ≡ put v names.backup_candidate (copy c n) =
              h.now
              ∙ ap
                  (λ t.
                    put v names.backup_candidate (some (copy_of (kept_metadata c n.metadata) t)))
                  (content_of c lawful plan names ids v distinct h.original n h.was_source old) in
            let staged =
              finished x names.backup_candidate (some n.metadata) (sym (ap stat_of old))
                (λ q e. ap (λ y. y q) view ∙ put_elsewhere v names.backup_candidate q (copy c n) e)
                (λ m k. (
                  refl,
                  ap (λ y. y names.backup_candidate) view
                      ∙ put_same v names.backup_candidate (copy c n)
                      ∙ same_copy c n m old k,
                )) in
            subst
              (λ b. Ended Done Failed (
                catch_all (replace_target c plan names (wanted ids (some n.metadata)) b)
                  (handle_failure c plan names (some n.metadata) b) s))
              (sym named)
              ((catching
                  (replace_target c plan names (wanted ids (some n.metadata))
                    names.backup_candidate)
                  (handle_failure c plan names (some n.metadata) names.backup_candidate) staged
                  (λ e. record {
                    run = λ t k.
                        recover_backed c lawful plan names ids v distinct Done n x e t old view
                          k.holds;
                  })).run
                s (record { holds = refl }))

    pub replace_safely-Ruled :
        (found : Option Metadata)
        → found ≡ stat_of (v plan.target)
        → Ruled (In (At c (λ u. u ≡ v))) Done Failed (replace_safely c plan names ids found)
    replace_safely-Ruled found there = by_old (v plan.target) refl
      where
        by_old :
            (x : Option Node)
            → v plan.target ≡ x
            → Ruled (In (At c (λ u. u ≡ v))) Done Failed (replace_safely c plan names ids found)
        by_old none e =
            subst
              (λ f. Ruled (In (At c (λ u. u ≡ v))) Done Failed (replace_safely c plan names ids f))
              (sym (there ∙ ap stat_of e)) (replace_created e)
        by_old (some n) e =
            subst
              (λ f. Ruled (In (At c (λ u. u ≡ v))) Done Failed (replace_safely c plan names ids f))
              (sym (there ∙ ap stat_of e)) (replace_existing n e)
