-- ===== src/Apply/Staging.antt =====
-- The part of the try block of `ApplyService::apply` that writes the temporary file and puts it in
-- the target's place.
use mathlib.Core.Path.{fun_ext}
use limine_manager.Prelude.{
  if◌then◌else◌, false, ℕ, ◌≡◌, refl, ◌∙◌, sym, ap, ◌≢◌, ◌⊎◌, inl, inr, Bool, true, Bool-cases, not,
  ◌&&◌, Option, none, some, ◌==◌, Text, text, text_eq, arith,
}
use limine_manager.FilePath.{FilePath}
use limine_manager.Exec.Triples.{Triple, bind}
use limine_manager.Changes.{ChangePlan}
use limine_manager.Posix.{
  Posix, IsLawful, View, Node, Metadata, regular, put, renamed, stat_of, is_folder, fresh_node,
  appended, with_mode, with_owner,
}
use limine_manager.Files.{Process, throw_errno, call}
use limine_manager.Files.Steps.{
  In, At, call_rule, keep_rule, rename_rule, assume_rule, exists_rule, starting, steady_rule,
  tested_rule, throw_errno-eq-ok, weaken,
}
use limine_manager.Files.Copy.{
  put_elsewhere, put_same, Holding, Holding-Apart, Failed, edit_rule, write_rule, still,
  read_all-Triple, Loaded,
}
use limine_manager.Files.CopyFile.{
  create_rule, Unharmed, unchanged, left_over, elsewhere-Unharmed, open_source, SourceRead,
}
use limine_manager.Files.Restore.{renamed_target, renamed_elsewhere, fsync_directory-Triple}
use limine_manager.Apply.{
  Names, directory_of, write_temporary, same_owner, set_owner, verify_target, replace_target,
}

-- the mode of the new target: a file of which the owner is set keeps what chown(2) leaves
abbrev pub new_mode : Posix → Metadata → ℕ
new_mode c metadata = if same_owner c.owner metadata then metadata.mode else c.chowned metadata.mode

abbrev pub new_file : Posix → Metadata → Text → Node
new_file c metadata content = record {
  metadata = record metadata { kind = regular; mode = new_mode c metadata };
  content = content;
}

and_true : {a b : Bool} → a && b ≡ true → (a ≡ true) × (b ≡ true)
and_true {a} {b} h = (grind (arith, h), grind (arith, h))

same_number : (a b : ℕ) → (a == b) ≡ true → a ≡ b
same_number a b h = grind (arith, h)

module _ (c : Posix) (lawful : IsLawful c) (plan : ChangePlan) (names : Names) (x : View) where
  open c use {World, Input, Output, node, name_of}

  abbrev p : FilePath
  p = names.temporary

  abbrev Same : View → Type 0
  Same u = u ≡ x

  fstat_rule :
      (o : Output) (n : Node)
      → name_of o ≡ p
      → Triple
          (In (At c (Holding c lawful x p n)))
          (λ m. In (λ w. Holding c lawful x p n (node w) × (m ≡ n.metadata)))
          (In (Failed c lawful x p))
          (call (throw_errno (text "cannot inspect temporary file") p (c.fstat o)))
  fstat_rule o n named =
      let looking = throw_errno (text "cannot inspect temporary file") p (c.fstat o) in
      call_rule (At c (Holding c lawful x p n))
        (λ m w. Holding c lawful x p n (node w) × (m ≡ n.metadata)) (Failed c lawful x p) looking
        (λ w m h e.
          let seen =
            lawful.fstat-sees o w
              (throw_errno-eq-ok (text "cannot inspect temporary file") p (c.fstat o) w m e) in
          (
            fun_ext (lawful.fstat-Keeps o w) ∙ h,
            known m (
                seen
                ∙ ap (λ u. stat_of (u (name_of o))) h
                ∙ ap (λ q. stat_of (put x p (some n) q)) named
                ∙ ap stat_of (put_same x p (some n))),
          ))
        (λ w z h e. Holding-Apart c lawful x p n _ (fun_ext (lawful.fstat-Keeps o w) ∙ h))
    where
      known : (m : Metadata) → some m ≡ some n.metadata → m ≡ n.metadata
      known m e = cc

  owned :
      (n : Node) (metadata : Metadata)
      → n.metadata.kind ≡ regular
      → same_owner c.owner metadata ≡ false
      → with_owner c.chowned metadata.uid metadata.gid (with_mode metadata.mode n)
        ≡ new_file c metadata n.content
  owned n metadata k other = rw other (
      ap
        (λ kind. record {
          metadata = record {
            kind = kind;
            mode = c.chowned metadata.mode;
            uid = metadata.uid;
            gid = metadata.gid;
          };
          content = n.content;
        })
        k)

  same_owner_eq :
      (n : Node) (metadata : Metadata)
      → n.metadata.kind ≡ regular
      → same_owner n.metadata metadata ≡ true
      → same_owner c.owner metadata ≡ true
      → with_mode metadata.mode n ≡ new_file c metadata n.content
  same_owner_eq n metadata k h own =
      let (user, group) = and_true h in
      rw own (
        ap
          (λ r. record {
            metadata = record n.metadata { mode = metadata.mode; uid = r };
            content = n.content;
          })
          (same_number n.metadata.uid metadata.uid user)
        ∙ ap
            (λ r. record {
              metadata = record n.metadata { mode = metadata.mode; uid = metadata.uid; gid = r };
              content = n.content;
            })
            (same_number n.metadata.gid metadata.gid group)
        ∙ ap
            (λ kind. record {
              metadata = record {
                kind = kind;
                mode = metadata.mode;
                uid = metadata.uid;
                gid = metadata.gid;
              };
              content = n.content;
            })
            k)

  set_owner-Triple :
      (o : Output) (n : Node) (metadata seen : Metadata)
      → name_of o ≡ p
      → n.metadata.kind ≡ regular
      → same_owner n.metadata metadata ≡ same_owner c.owner metadata
      → seen ≡ (with_mode metadata.mode n).metadata
      → Triple
          (In (At c (Holding c lawful x p (with_mode metadata.mode n))))
          (λ _. In (At c (Holding c lawful x p (new_file c metadata n.content))))
          (In (Failed c lawful x p))
          (set_owner c o names metadata seen)
  unfolding set_owner
  set_owner-Triple o n metadata seen named kind own e =
      elim (Bool-cases (same_owner seen metadata)) [
        | inl h ↦ rw h (record {
          run = λ s k. record {
            holds =
                k.holds
                ∙ ap (λ z. put x p (some z))
                    (same_owner_eq n metadata kind (read e ∙ h) (sym own ∙ read e ∙ h));
          };
        })
        | inr h ↦ rw h (
            weaken _
              (edit_rule c lawful x p o (with_mode metadata.mode n)
                (with_owner c.chowned metadata.uid metadata.gid) (text "cannot set ownership")
                (c.fchown o metadata.uid metadata.gid) named
                (lawful.fchown-Changes o metadata.uid metadata.gid))
              (λ a s k. record {
                holds =
                    k.holds
                    ∙ ap (λ z. put x p (some z)) (owned n metadata kind (sym own ∙ read e ∙ h));
              })
              (λ s k. k))
      ]
    where
      read :
          seen ≡ (with_mode metadata.mode n).metadata
          → same_owner n.metadata metadata ≡ same_owner seen metadata
      read e = sym (ap (λ m. same_owner m metadata) e)

  verify_target-Triple :
      (v : View)
      → Triple
          (In (At c (λ u. u ≡ v)))
          (λ _. In (At c (λ u. u ≡ v)))
          (In (At c (λ u. u ≡ v)))
          (verify_target c plan)
  unfolding verify_target
  verify_target-Triple v =
      bind _ _ (open_source c lawful v plan.target (text "cannot reopen target")) λ i.
        exists_rule (SourceRead c lawful v plan.target i) _ λ n.
          assume_rule (Loaded c lawful v i n.content) (v plan.target ≡ some n) _ λ held.
            bind _ _ (read_all-Triple c lawful v i n.content plan.target) λ content.
              starting _ (λ s h. record { holds = h.holds.0 })
                (tested_rule (In (At c (λ u. u ≡ v))) (not (text_eq content plan.generated)) _)

  -- the temporary file is whole
  abbrev Written : Metadata → View → Type 0
  Written metadata u = (u ≡ put x p (some (new_file c metadata plan.generated))) × (x p ≡ none)

  write_temporary-Triple :
      (metadata : Metadata)
      → Triple
          (In (At c Same))
          (λ _. In (At c (Written metadata)))
          (In (At c (Unharmed x p)))
          (write_temporary c plan names metadata)
  unfolding write_temporary
  write_temporary-Triple metadata =
      let n0 = fresh_node (c.masked metadata.mode) c.owner in
      let n1 = appended plan.generated n0 in
      let n2 = with_mode metadata.mode n1 in
      let n3 = new_file c metadata plan.generated in
      bind _ _
        (weaken _
          (starting _ (λ s h. record { holds = (h.holds, tt) })
            (create_rule c lawful x p metadata.mode (text "cannot create temporary file")
              (λ w. Unit {0}) (λ w h. h)))
          (λ a s h. h) (λ s h. record { holds = unchanged h.holds }))
        λ o.
          assume_rule (λ w. Holding c lawful x p n0 (node w) × Unit {0})
            ((name_of o ≡ p) × (x p ≡ none)) _
            λ facts.
              let lost : (s : Process World)
                  → In (Failed c lawful x p) s
                  → In (At c (Unharmed x p)) s =
                λ s h. record { holds = left_over facts.1 h.holds } in
              starting _ (λ s h. record { holds = h.holds.0 })
                (bind _ _
                  (weaken _ (write_rule c lawful x p o n0 plan.generated p facts.0) (λ a s h. h)
                    lost)
                  λ _.
                    bind _ _
                      (weaken _
                        (edit_rule c lawful x p o n1 (with_mode metadata.mode)
                          (text "cannot set mode") (c.fchmod o metadata.mode) facts.0
                          (lawful.fchmod-Changes o metadata.mode))
                        (λ a s h. h) lost)
                      λ _. bind _ _ (weaken _ (fstat_rule o n2 facts.0) (λ a s h. h) lost) λ seen.
                        assume_rule (At c (Holding c lawful x p n2)) (seen ≡ n2.metadata) _ λ same.
                          bind _ _
                            (weaken _ (set_owner-Triple o n1 metadata seen facts.0 refl refl same)
                              (λ a s h. h) lost)
                            λ _.
                              weaken _
                                (still c lawful x p n3 _ (
                                  keep_rule c (Holding c lawful x p n3)
                                    (throw_errno (text "cannot fsync") p (c.fsync o))
                                    (lawful.fsync-Keeps o)))
                                (λ a s h. record { holds = (h.holds, facts.1) }) lost)

  -- the target is the new file, and the temporary one is gone
  abbrev pub Placed : Metadata → View → Type 0
  Placed metadata u =
      (u ≡ renamed (put x p (some (new_file c metadata plan.generated))) p plan.target)
      × (x p ≡ none)

  -- the target is the old file or the new one
  pub record Either (metadata : Metadata) (u : View) : Type 0 where
    pub elsewhere : (q : FilePath) → q ≢ plan.target → q ≢ p → u q ≡ x q
    pub old_or_new :
        (u plan.target ≡ x plan.target)
        ⊎ (u plan.target ≡ some (new_file c metadata plan.generated))

  module _ (metadata : Metadata) (apart : p ≢ plan.target) where
    abbrev new : Option Node
    new = some (new_file c metadata plan.generated)

    unharmed : (u : View) → Unharmed x p u → Either metadata u
    unharmed u h = record {
      elsewhere = λ q n m. elsewhere-Unharmed x p u h q m;
      old_or_new = inl (elsewhere-Unharmed x p u h plan.target (λ e. apart (sym e)));
    }

    written : (u : View) → Written metadata u → Either metadata u
    written u h = record {
      elsewhere = λ q n m. ap (λ v. v q) h.0 ∙ put_elsewhere x p q new m;
      old_or_new =
          inl
            (ap (λ v. v plan.target) h.0 ∙ put_elsewhere x p plan.target new (λ e. apart (sym e)));
    }

    pub placed : (u : View) → Placed metadata u → Either metadata u
    placed u h = record {
      elsewhere = λ q n m.
          ap (λ v. v q) h.0
          ∙ renamed_elsewhere (put x p new) p plan.target q m n
          ∙ put_elsewhere x p q new m;
      old_or_new = inr (
          ap (λ v. v plan.target) h.0
          ∙ renamed_target (put x p new) p plan.target
          ∙ put_same x p new);
    }

    pub replace_target-Triple :
        (backup : FilePath)
        → Triple
            (In (At c Same))
            (λ r. In (λ w.
              Placed metadata (node w)
              × (r ≡ record { changed = true; target = plan.target; backup = backup })))
            (In (At c (Either metadata)))
            (replace_target c plan names metadata backup)
    unfolding replace_target
    replace_target-Triple backup =
        bind _ _
          (weaken _ (write_temporary-Triple metadata) (λ a s h. h)
            (λ s h. record { holds = unharmed _ h.holds }))
          λ _.
            bind _ _
              (weaken _
                (rename_rule c lawful (Written metadata) (Placed metadata) p plan.target
                  (text "cannot atomically replace target")
                  (λ u h. ap (λ v. is_folder (v p)) h.0 ∙ ap is_folder (put_same x p new))
                  (λ u h. (ap (λ v. renamed v p plan.target) h.0, h.1)))
                (λ a s h. h) (λ s h. record { holds = written _ h.holds }))
              λ _.
                bind _ _
                  (weaken _
                    (fsync_directory-Triple c lawful (Placed metadata) (directory_of plan.target))
                    (λ a s h. h) (λ s h. record { holds = placed _ h.holds }))
                  λ _.
                    bind _ _
                      (weaken _
                        (steady_rule c (Placed metadata) (verify_target c plan)
                          (λ v. verify_target-Triple v))
                        (λ a s h. h) (λ s h. record { holds = placed _ h.holds }))
                      λ _. record { run = λ s h. record { holds = (h.holds, refl) } }
