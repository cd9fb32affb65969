-- ===== src/Files/Copy.antt =====
-- The try block of `copy_file_secure`: the new file is a whole copy, or no other file has changed.
use mathlib.Core.Path.{fun_ext}
use limine_manager.Prelude.{
  ◌≡◌, refl, ◌∙◌, ap, subst, ◌≢◌, ◌⊎◌, inl, inr, Bool-cases, Option, none, some, Text, text,
  text_eq, text_eq_iff, text_eq-of_ne, Result, ok, err, Error, arith,
}
use limine_manager.FilePath.{FilePath}
use limine_manager.Exec.{Exec}
use limine_manager.Exec.Triples.{Triple, bind}
use limine_manager.Posix.{
  Posix, IsLawful, Changes, View, Node, Metadata, regular, put, edited, map_node, appended,
  with_mode, with_owner, fresh_node, settled,
}
use limine_manager.Files.{
  Process, after_temporary_create, before_file_fsync, throw_errno, call, fail_if_injected, read_all,
  write_all, permissions, copy_content, remove_quietly,
}
use limine_manager.Files.Steps.{
  In, At, call_rule, keep_rule, assume_rule, throw_errno-Changes, change_rule, injected_rule,
  weaken,
}
use limine_manager.Files.Transfer.{Wrote, Wrote-write_all, Read, Read-read_all}

-- every other file is as it was
pub record Apart (v : View) (p : FilePath) (u : View) : Type 0 where
  pub elsewhere : (q : FilePath) → q ≢ p → u q ≡ v q

abbrev pub copy_of : Metadata → Text → Node
copy_of metadata content = record { metadata = metadata; content = content }

-- the metadata of a copy: the owner, and what fchown leaves of the permissions
abbrev pub kept_metadata : Posix → Metadata → Metadata
kept_metadata c metadata = record metadata {
  kind = regular;
  mode = c.chowned (permissions metadata.mode);
}

pub put_elsewhere : (v : View) (p q : FilePath) (n : Option Node) → q ≢ p → put v p n q ≡ v q
put_elsewhere v p q n h = ground (arith, text_eq-of_ne q p h)

pub put_same : (v : View) (p : FilePath) (n : Option Node) → put v p n p ≡ n
put_same v p n = ground (arith, text_eq_iff p p)

edited-put :
    (v : View) (p : FilePath) (n : Node) (f : Node → Node)
    → edited (put v p (some n)) p f ≡ put v p (some (f n))
edited-put v p n f = fun_ext (λ q. elim (Bool-cases (text_eq q p)) [
  | inl e ↦ rw e (ap (map_node f) (put_same v p (some n)))
  | inr e ↦ rw e refl
])

module _ (c : Posix) (lawful : IsLawful c) where
  open c use {World, Input, Output, node, remaining, name_of}

  -- a clean-up that may fail itself
  pub remove_quietly_elsewhere :
      (p q : FilePath) (s : Process World)
      → q ≢ p
      → node (remove_quietly c p s).world q ≡ node s.world q
  remove_quietly_elsewhere p q s n =
      lawful.unlink-Changes p s.world q ∙ by_result (c.unlink p s.world).0
    where
      by_result :
          (r : Result (Unit {0}))
          → settled r (node s.world) (put (node s.world) p none) q ≡ node s.world q
      by_result (ok a) = put_elsewhere (node s.world) p q none n
      by_result (err x) = refl

  pub remove_quietly_same :
      (p : FilePath) (s : Process World)
      → (node (remove_quietly c p s).world p ≡ none)
        ⊎ (node (remove_quietly c p s).world p ≡ node s.world p)
  remove_quietly_same p s = by_result (c.unlink p s.world).0 (lawful.unlink-Changes p s.world p)
    where
      by_result :
          (r : Result (Unit {0}))
          → node (c.unlink p s.world).1 p ≡ settled r (node s.world) (put (node s.world) p none) p
          → (node (c.unlink p s.world).1 p ≡ none)
            ⊎ (node (c.unlink p s.world).1 p ≡ node s.world p)
      by_result (ok a) h = inl (h ∙ put_same (node s.world) p none)
      by_result (err x) h = inr h

  abbrev pub Failed : View → FilePath → World → Type 0
  Failed v p = At c (Apart v p)

  abbrev pub Holding : View → FilePath → Node → View → Type 0
  Holding v p n u = u ≡ put v p (some n)

  pub Holding-Apart :
      (v : View) (p : FilePath) (n : Node) (u : View) → Holding v p n u → Apart v p u
  Holding-Apart v p n u h = record {
    elsewhere = λ q e. ap (λ x. x q) h ∙ put_elsewhere v p q (some n) e;
  }

  -- an open input still holds the content
  abbrev pub Loaded : View → Input → Text → World → Type 0
  Loaded x i content w = (node w ≡ x) × (remaining w i ≡ content)

  pub read_all-Triple :
      (x : View) (i : Input) (content : Text) (path : FilePath)
      → Triple
          (In (Loaded x i content))
          (λ t. In (λ w. (node w ≡ x) × (t ≡ content)))
          (In (At c (λ u. u ≡ x)))
          (call (read_all c i path))
  read_all-Triple x i content path =
      let reading = read_all c i path in
      call_rule (Loaded x i content) (λ t w. (node w ≡ x) × (t ≡ content)) (At c (λ u. u ≡ x))
        reading
        (λ w t h e. got w t h (
          subst (λ r. Read c lawful (node w) (remaining w i) (r, (reading w).1)) e
            (Read-read_all c lawful i path w)))
        (λ w z h e.
          subst (λ r. Read c lawful (node w) (remaining w i) (r, (reading w).1)) e
            (Read-read_all c lawful i path w)
          ∙ h.0)
    where
      got :
          (w : World) (t : Text)
          → Loaded x i content w
          → Read c lawful (node w) (remaining w i) (ok t, (read_all c i path w).1)
          → (node (read_all c i path w).1 ≡ x) × (t ≡ content)
      got w t h k = (k.1 ∙ h.0, k.0 ∙ h.1)

  module _ (v : View) (p : FilePath) where
    -- a call on the new file
    pub edit_rule :
        (o : Output) (n : Node) (f : Node → Node) (operation : Text) (m : Exec World (Unit {0}))
        → name_of o ≡ p
        → Changes c m (λ u. edited u (name_of o) f)
        → Triple
            (In (At c (Holding v p n)))
            (λ _. In (At c (Holding v p (f n))))
            (In (Failed v p))
            (call (throw_errno operation p m))
    edit_rule o n f operation m named law =
        weaken (call (throw_errno operation p m))
          (change_rule c (Holding v p n) (Holding v p (f n)) (throw_errno operation p m)
            (λ u. edited u (name_of o) f)
            (throw_errno-Changes c operation p m (λ u. edited u (name_of o) f) law)
            (λ u h.
              ap (λ x. edited x (name_of o) f) h
              ∙ ap (λ r. edited (put v p (some n)) r f) named
              ∙ edited-put v p n f))
          (λ a s h. h) (λ s h. record { holds = Holding-Apart v p n _ h.holds })

    pub still :
        {A : Type 0} (n : Node) (m : Exec (Process World) A)
        → Triple
            (In (At c (Holding v p n)))
            (λ _. In (At c (Holding v p n)))
            (In (At c (Holding v p n)))
            m
        → Triple (In (At c (Holding v p n))) (λ _. In (At c (Holding v p n))) (In (Failed v p)) m
    still n m t = weaken m t (λ a s h. h) (λ s h. record { holds = Holding-Apart v p n _ h.holds })

    abbrev pub Opened : Input → Text → Node → World → Type 0
    Opened i content n = Loaded (put v p (some n)) i content

    read_rule :
        (i : Input) (content : Text) (n : Node) (path : FilePath)
        → Triple
            (In (Opened i content n))
            (λ t. In (λ w. Holding v p n (node w) × (t ≡ content)))
            (In (Failed v p))
            (call (read_all c i path))
    read_rule i content n path =
        weaken (call (read_all c i path)) (read_all-Triple (put v p (some n)) i content path)
          (λ a s h. h) (λ s h. record { holds = Holding-Apart v p n _ h.holds })

    pub write_rule :
        (o : Output) (n : Node) (t : Text) (path : FilePath)
        → name_of o ≡ p
        → Triple
            (In (At c (Holding v p n)))
            (λ _. In (At c (Holding v p (appended t n))))
            (In (Failed v p))
            (call (write_all c o t path))
    write_rule o n t path named =
        call_rule (At c (Holding v p n)) (λ _. At c (Holding v p (appended t n))) (Failed v p)
          (write_all c o t path)
          (λ w a h e. whole w h (
            subst (λ r. Wrote c lawful (node w) (name_of o) t (r, (write_all c o t path w).1)) e
              (Wrote-write_all c lawful o t path w)))
          (λ w x h e. part w x h (
            subst (λ r. Wrote c lawful (node w) (name_of o) t (r, (write_all c o t path w).1)) e
              (Wrote-write_all c lawful o t path w)))
      where
        whole :
            (w : World)
            → Holding v p n (node w)
            → Wrote c lawful (node w) (name_of o) t (ok tt, (write_all c o t path w).1)
            → Holding v p (appended t n) (node (write_all c o t path w).1)
        whole w h k =
            k
            ∙ ap (λ x. edited x (name_of o) (appended t)) h
            ∙ ap (λ r. edited (put v p (some n)) r (appended t)) named
            ∙ edited-put v p n (appended t)

        part :
            (w : World) (x : Error)
            → Holding v p n (node w)
            → Wrote c lawful (node w) (name_of o) t (err x, (write_all c o t path w).1)
            → Apart v p (node (write_all c o t path w).1)
        part w x h k = record {
          elsewhere =
              λ q e. k q (λ z. e (z ∙ named)) ∙ ap (λ u. u q) h ∙ put_elsewhere v p q (some n) e;
        }

    -- the try block, from an empty new file
    pub copy_content-Triple :
        (i : Input) (o : Output) (source : FilePath) (metadata : Metadata) (content : Text)
        → name_of o ≡ p
        → Triple
            (In (Opened i content (fresh_node (c.masked (permissions metadata.mode)) c.owner)))
            (λ _. In (At c (Holding v p (copy_of (kept_metadata c metadata) content))))
            (In (Failed v p))
            (copy_content c i o source p metadata)
    unfolding copy_content
    copy_content-Triple i o source metadata content named =
        let n0 = fresh_node (c.masked (permissions metadata.mode)) c.owner in
        let n1 = appended content n0 in
        let n2 = with_mode (permissions metadata.mode) n1 in
        let n3 = copy_of (kept_metadata c metadata) content in
        bind _ _
          (weaken (fail_if_injected after_temporary_create)
            (injected_rule (Opened i content n0) after_temporary_create) (λ a s h. h)
            (λ s h. record { holds = Holding-Apart v p n0 _ h.holds.0 }))
          λ _. bind _ _ (read_rule i content n0 source) λ t.
            assume_rule (At c (Holding v p n0)) (t ≡ content) _ λ same.
              bind _ _
                (weaken (call (write_all c o t p)) (write_rule o n0 t p named)
                  (λ a s h. record {
                    holds = h.holds ∙ ap (λ x. put v p (some (appended x n0))) same;
                  })
                  (λ s h. h))
                λ _.
                  bind _ _
                    (edit_rule o n1 (with_mode (permissions metadata.mode))
                      (text "cannot preserve mode") (c.fchmod o (permissions metadata.mode)) named
                      (lawful.fchmod-Changes o (permissions metadata.mode)))
                    λ _.
                      bind _ _
                        (edit_rule o n2 (with_owner c.chowned metadata.uid metadata.gid)
                          (text "cannot preserve ownership") (c.fchown o metadata.uid metadata.gid)
                          named (lawful.fchown-Changes o metadata.uid metadata.gid))
                        λ _.
                          bind _ _
                            (still n3 (fail_if_injected before_file_fsync)
                              (injected_rule (At c (Holding v p n3)) before_file_fsync))
                            λ _. still n3 (call (throw_errno (text "cannot fsync") p (c.fsync o))) (
                              keep_rule c (Holding v p n3)
                                (throw_errno (text "cannot fsync") p (c.fsync o))
                                (lawful.fsync-Keeps o))
