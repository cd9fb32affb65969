-- ===== src/Files/Transfer.antt =====
-- The two loops over ::read and ::write: whatever the kernel cuts short or interrupts, a loop
-- that returns has brought the whole content over.
use mathlib.Core.Path.{fun_ext}
use limine_manager.Prelude.{
  ℕ, zero, suc, ◌+◌, ◌≤◌, ◌≡◌, refl, ◌∙◌, sym, ap, subst, ◌≢◌, inl, inr, Bool-cases, Option, none,
  some, [], ◌∷◌, ◌++◌, append-nil, append_assoc, length, take, drop, Text, text, text_eq,
  text_eq_iff, text_eq-of_ne, Result, ok, err, arith,
}
use limine_manager.FilePath.{FilePath}
use limine_manager.Exec.{pure, ◌>>=◌}
use limine_manager.Posix.{
  Posix, IsLawful, View, Node, ReadAnswer, end, bytes, read_interrupted, WriteAnswer, wrote,
  write_interrupted, edited, map_node, appended,
}
use limine_manager.Files.{throw_errno, write_from, write_all, read_from, read_all}

pub edited_elsewhere : (v : View) (p q : FilePath) (f : Node → Node) → q ≢ p → edited v p f q ≡ v q
edited_elsewhere v p q f h = ground (arith, text_eq-of_ne q p h)

map_node_id : (f : Node → Node) → ((n : Node) → f n ≡ n) → (m : Option Node) → map_node f m ≡ m
map_node_id f h none = refl
map_node_id f h (some n) = ap some (h n)

edited_id : (v : View) (p : FilePath) (f : Node → Node) → ((n : Node) → f n ≡ n) → edited v p f ≡ v
edited_id v p f h = fun_ext (λ q. elim (Bool-cases (text_eq q p)) [
  | inl e ↦ rw e (map_node_id f h (v p) ∙ ap v (sym ((text_eq_iff q p).0 e)))
  | inr e ↦ rw e refl
])

map_node-appended :
    (s t u : Text)
    → s ++ t ≡ u
    → (m : Option Node) → map_node (appended t) (map_node (appended s) m) ≡ map_node (appended u) m
map_node-appended s t u h none = refl
map_node-appended s t u h (some n) =
    ap (λ x. some (record n { content = x }))
      (append_assoc n.content s t ∙ ap (λ x. n.content ++ x) h)

edited-appended :
    (v : View) (p : FilePath) (s t u : Text)
    → s ++ t ≡ u
    → edited (edited v p (appended s)) p (appended t) ≡ edited v p (appended u)
edited-appended v p s t u h = fun_ext (λ q. elim (Bool-cases (text_eq q p)) [
  | inl e ↦ rw e (ap (map_node (appended t)) (own p) ∙ map_node-appended s t u h (v p))
  | inr e ↦ rw e refl
])
  where
    own : (r : FilePath) → edited v r (appended s) r ≡ map_node (appended s) (v r)
    own r = ground (arith, text_eq_iff r r)

take-drop : (n : ℕ) (t : Text) → take n t ++ drop n t ≡ t
take-drop zero t = refl
take-drop (suc n) [] = refl
take-drop (suc n) (x ∷ xs) = ap (λ r. x ∷ r) (take-drop n xs)

pub length-drop : (n : ℕ) (t : Text) → n ≤ length t → length (drop n t) + n ≡ length t
length-drop zero t h = omega arith
length-drop (suc n) [] h = absurd (omega arith)
length-drop (suc n) (x ∷ xs) h = omega (arith, length-drop n xs)

module _ (c : Posix) (lawful : IsLawful c) where
  open c use {World, Input, Output, node, remaining, interrupts, name_of}

  -- what `write_all` leaves: the whole text behind the content, or another content when it throws
  abbrev pub Wrote : View → FilePath → Text → Result (Unit {0}) × World → Type 0
  Wrote v p t (ok u, w) = node w ≡ edited v p (appended t)
  Wrote v p t (err e, w) = (q : FilePath) → q ≢ p → node w q ≡ v q

  Wrote-again :
      (v u : View) (p : FilePath) (s t whole : Text) (x : Result (Unit {0}) × World)
      → u ≡ edited v p (appended s)
      → s ++ t ≡ whole
      → Wrote u p t x
      → Wrote v p whole x
  Wrote-again v u p s t whole (ok a, w) h e k =
      k ∙ ap (λ z. edited z p (appended t)) h ∙ edited-appended v p s t whole e
  Wrote-again v u p s t whole (err z, w) h e k =
      λ q n. k q n ∙ ap (λ y. y q) h ∙ edited_elsewhere v p q (appended s) n

  Wrote-nothing : (v : View) (p : FilePath) → v ≡ edited v p (appended [])
  Wrote-nothing v p =
      sym (
        edited_id v p (appended [])
          (λ n. ap (λ x. record n { content = x }) (append-nil n.content)))

  -- one round, by the answer of ::write
  Wrote-round :
      (fuel : ℕ) (o : Output) (t : Text) (path : FilePath) (w : World) (r : Result WriteAnswer)
      → ((u : Text) (w' : World) → Wrote (node w') (name_of o) u (write_from c fuel o u path w'))
      → (c.write o t w).0 ≡ r
      → Wrote (node w) (name_of o) t (
          (throw_errno (text "cannot write") path (λ _. (r, (c.write o t w).1)) >>= λ answer.
          elim answer [
            | wrote n ↦ write_from c fuel o (drop n t) path
            | write_interrupted ↦ write_from c fuel o t path
          ])
            w)
  Wrote-round fuel o t path w (ok (wrote n)) again e =
      let (view, bounded) = lawful.write-wrote o t w e in
      Wrote-again (node w) (node (c.write o t w).1) (name_of o) (take n t) (drop n t) t
        (write_from c fuel o (drop n t) path (c.write o t w).1) (fun_ext view) (take-drop n t)
        (again (drop n t) (c.write o t w).1)
  Wrote-round fuel o t path w (ok write_interrupted) again e =
      subst (λ v. Wrote v (name_of o) t (write_from c fuel o t path (c.write o t w).1))
        (fun_ext (lawful.write-interrupted o t w e)) (again t (c.write o t w).1)
  Wrote-round fuel o t path w (err z) again e = λ q n. lawful.write-threw o t w e q

  Wrote-write_from :
      (fuel : ℕ) (o : Output) (t : Text) (path : FilePath) (w : World)
      → Wrote (node w) (name_of o) t (write_from c fuel o t path w)
  unfolding write_from
  Wrote-write_from zero o [] path w = Wrote-nothing (node w) (name_of o)
  Wrote-write_from zero o (x ∷ xs) path w = λ q n. refl
  Wrote-write_from (suc fuel) o [] path w = Wrote-nothing (node w) (name_of o)
  Wrote-write_from (suc fuel) o (x ∷ xs) path w =
      Wrote-round fuel o (x ∷ xs) path w (c.write o (x ∷ xs) w).0
        (λ u w'. Wrote-write_from fuel o u path w') refl

  pub Wrote-write_all :
      (o : Output) (t : Text) (path : FilePath) (w : World)
      → Wrote (node w) (name_of o) t (write_all c o t path w)
  unfolding write_all
  Wrote-write_all o t path w = Wrote-write_from (length t + interrupts w) o t path w

  -- what `read_all` leaves: all that remained of the file, and no file changed
  abbrev pub Read : View → Text → Result Text × World → Type 0
  Read v t (ok u, w) = (u ≡ t) × (node w ≡ v)
  Read v t (err e, w) = node w ≡ v

  Read-round :
      (fuel : ℕ) (i : Input) (got : Text) (path : FilePath) (w : World) (r : Result ReadAnswer)
      → ((u : Text) (w' : World)
          → Read (node w') (u ++ remaining w' i) (read_from c fuel i u path w'))
      → (c.read i w).0 ≡ r
      → Read (node w) (got ++ remaining w i) (
          (throw_errno (text "cannot read") path (λ _. (r, (c.read i w).1)) >>= λ answer.
          elim answer [
            | end ↦ pure got
            | bytes t ↦ read_from c fuel i (got ++ t) path
            | read_interrupted ↦ read_from c fuel i got path
          ])
            w)
  Read-round fuel i got path w (ok end) again e = (
    sym (ap (λ z. got ++ z) (lawful.read-end i w e) ∙ append-nil got),
    fun_ext (lawful.read-Keeps i w),
  )
  Read-round fuel i got path w (ok (bytes t)) again e =
      let (whole, some_read) = lawful.read-bytes i w e in
      let w1 = (c.read i w).1 in
      let same : (got ++ t) ++ remaining w1 i ≡ got ++ remaining w i =
        append_assoc got t (remaining w1 i) ∙ ap (λ z. got ++ z) (sym whole) in
      subst (λ v. Read v (got ++ remaining w i) (read_from c fuel i (got ++ t) path w1))
        (fun_ext (lawful.read-Keeps i w))
        (subst (λ z. Read (node w1) z (read_from c fuel i (got ++ t) path w1)) same
          (again (got ++ t) w1))
  Read-round fuel i got path w (ok read_interrupted) again e =
      let w1 = (c.read i w).1 in
      subst (λ v. Read v (got ++ remaining w i) (read_from c fuel i got path w1))
        (fun_ext (lawful.read-Keeps i w))
        (subst (λ z. Read (node w1) (got ++ z) (read_from c fuel i got path w1))
          (lawful.read-interrupted i w e) (again got w1))
  Read-round fuel i got path w (err z) again e = fun_ext (lawful.read-Keeps i w)

  Read-read_from :
      (fuel : ℕ) (i : Input) (got : Text) (path : FilePath) (w : World)
      → Read (node w) (got ++ remaining w i) (read_from c fuel i got path w)
  unfolding read_from
  Read-read_from zero i got path w = refl
  Read-read_from (suc fuel) i got path w =
      Read-round fuel i got path w (c.read i w).0 (λ u w'. Read-read_from fuel i u path w') refl

  pub Read-read_all :
      (i : Input) (path : FilePath) (w : World)
      → Read (node w) (remaining w i) (read_all c i path w)
  unfolding read_all
  Read-read_all i path w = Read-read_from (suc (length (remaining w i) + interrupts w)) i [] path w
