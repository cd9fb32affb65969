-- ===== src/Files/Steps.antt =====
-- Triples for the calls of src/infrastructure/secure_file_ops.cpp.
use mathlib.Core.Path.{fun_ext}
use limine_manager.Prelude.{
  ◌≡◌, refl, ◌∙◌, sym, ap, subst, inl, inr, Bool-cases, Bool, true, false, Text, Result, ok, err,
  Error,
}
use limine_manager.FilePath.{FilePath}
use limine_manager.Exec.{Exec, on_error, throw_if, ◌>>=◌}
use limine_manager.Exec.Triples.{Post, Triple}
use limine_manager.Posix.{Posix, IsLawful, View, Keeps, Changes, settled, renamed, is_folder}
use limine_manager.Files.{
  Process, SecureFileFailurePoint, throw_errno, call, is_point, fail_if_injected,
}

-- an assertion on the world of a process
pub record In {World : Type 0} (P : World → Type 0) (s : Process World) : Type 0 where
  pub holds : P s.world

module _ {World : Type 0} where
  pub call_rule :
      {A : Type 0} (P : World → Type 0) (Q : A → World → Type 0) (E : World → Type 0)
      (m : Exec World A)
      → ((w : World) (a : A) → P w → (m w).0 ≡ ok a → Q a (m w).1)
      → ((w : World) (e : Error) → P w → (m w).0 ≡ err e → E (m w).1)
      → Triple (In P) (λ a. In (Q a)) (In E) (call m)
  call_rule {A} P Q E m returned threw = record { run = λ s h. decide (m s.world).0 s h refl }
    where
      decide :
          (r : Result A) (s : Process World)
          → In P s
          → (m s.world).0 ≡ r
          → Post (λ a. In (Q a)) (In E) (r, record s { world = (m s.world).1 })
      decide (ok a) s h e = record { holds = returned s.world a h.holds e }
      decide (err x) s h e = record { holds = threw s.world x h.holds e }

  pub weaken :
      {A : Type 0} {P : Process World → Type 0} {Q R : A → Process World → Type 0}
      {E F : Process World → Type 0} (m : Exec (Process World) A)
      → Triple P Q E m
      → ((a : A) (s : Process World) → Q a s → R a s)
      → ((s : Process World) → E s → F s)
      → Triple P R F m
  weaken {A} {Q = Q} {R = R} {E = E} {F = F} m t q e = record {
    run = λ s h. pass (m s).0 (m s).1 (t.run s h);
  }
    where
      pass : (r : Result A) (s : Process World) → Post Q E (r, s) → Post R F (r, s)
      pass (ok a) s h = q a s h
      pass (err x) s h = e s h

  pub starting :
      {A : Type 0} {P R : Process World → Type 0} {Q : A → Process World → Type 0}
      {E : Process World → Type 0} (m : Exec (Process World) A)
      → ((s : Process World) → P s → R s)
      → Triple R Q E m
      → Triple P Q E m
  starting m first t = record { run = λ s h. t.run s (first s h) }

  -- a handler that runs when the code throws, before the error goes on
  pub handled :
      {A : Type 0} {P : Process World → Type 0} {Q : A → Process World → Type 0}
      {E F : Process World → Type 0} (handler : Process World → Process World)
      (m : Exec (Process World) A)
      → Triple P Q E m
      → ((s : Process World) → E s → F (handler s))
      → Triple P Q F (on_error handler m)
  handled {A} {Q = Q} {E = E} {F = F} handler m t e = record {
    run = λ s h. pass (m s).0 (m s).1 (t.run s h);
  }
    where
      pass :
          (r : Result A) (s : Process World)
          → Post Q E (r, s)
          → Post Q F (on_error handler (λ _. (r, s)) s)
      pass (ok a) s h = h
      pass (err x) s h = e s h

  pub injected_rule :
      (P : World → Type 0) (point : SecureFileFailurePoint)
      → Triple (In P) (λ _. In P) (In P) (fail_if_injected point)
  unfolding fail_if_injected
  injected_rule P point = record {
    run = λ s h. elim (Bool-cases (is_point s.injected point)) [
      | inl e ↦ rw e (record { holds = h.holds })
      | inr e ↦ rw e h
    ];
  }

  -- a test that throws, and what follows it
  pub guard_rule :
      {A : Type 0} {P E : Process World → Type 0} {Q : A → Process World → Type 0} (test : Bool)
      (e : Error) (f : Unit {0} → Exec (Process World) A)
      → ((s : Process World) → P s → E s)
      → (test ≡ false → Triple P Q E (f tt))
      → Triple P Q E (throw_if test e >>= f)
  guard_rule true e f thrown later = record { run = λ s h. thrown s h }
  guard_rule false e f thrown later = record { run = λ s h. (later refl).run s h }

  pub tested_rule :
      (P : Process World → Type 0) (test : Bool) (e : Error) → Triple P (λ _. P) P (throw_if test e)
  tested_rule P true e = record { run = λ s h. h }
  tested_rule P false e = record { run = λ s h. h }

  -- a fact about a result, used as a hypothesis
  pub assume_rule :
      {A : Type 0} (P : World → Type 0) (F : Type 0) {Q : A → Process World → Type 0}
      {E : Process World → Type 0} (m : Exec (Process World) A)
      → (F → Triple (In P) Q E m)
      → Triple (In (λ w. P w × F)) Q E m
  assume_rule P F m t = record { run = λ s h. (t h.holds.1).run s (record { holds = h.holds.0 }) }

  -- a value that the state only promises to exist
  pub exists_rule :
      {A B : Type 0} (P : B → World → Type 0) {Q : A → Process World → Type 0}
      {E : Process World → Type 0} (m : Exec (Process World) A)
      → ((b : B) → Triple (In (P b)) Q E m)
      → Triple (In (λ w. (b : B) × P b w)) Q E m
  exists_rule P m t = record { run = λ s h. (t h.holds.0).run s (record { holds = h.holds.1 }) }

  pub throw_errno-eq-ok :
      {A : Type 0} (operation : Text) (path : FilePath) (m : Exec World A) (w : World) (a : A)
      → (throw_errno operation path m w).0 ≡ ok a
      → (m w).0 ≡ ok a
  throw_errno-eq-ok {A} operation path m w a h = decide (m w).0 h
    where
      decide : (r : Result A) → (throw_errno operation path (λ _. (r, w)) w).0 ≡ ok a → r ≡ ok a
      decide (ok b) e = e
      decide (err x) e = cc

module _ (c : Posix) where
  open c use {World, node}

  pub throw_errno-Changes :
      {A : Type 0} (operation : Text) (path : FilePath) (m : Exec World A) (change : View → View)
      → Changes c m change
      → Changes c (throw_errno operation path m) change
  throw_errno-Changes {A} operation path m change law w q = law w q ∙ same (m w).0
    where
      same :
          (r : Result A)
          → settled r (node w) (change (node w)) q
            ≡ settled (throw_errno operation path (λ _. (r, w)) w).0 (node w) (change (node w)) q
      same (ok b) = refl
      same (err x) = refl

  -- an assertion on the files
  abbrev pub At : (View → Type 0) → World → Type 0
  At P w = P (node w)

  pub keep_rule :
      {A : Type 0} (P : View → Type 0) (m : Exec World A)
      → Keeps c m
      → Triple (In (At P)) (λ _. In (At P)) (In (At P)) (call m)
  keep_rule P m same =
      call_rule (At P) (λ _. At P) (At P) m (λ w a h e. subst P (sym (fun_ext (same w))) h)
        (λ w x h e. subst P (sym (fun_ext (same w))) h)

  pub change_rule :
      {A : Type 0} (P Q : View → Type 0) (m : Exec World A) (change : View → View)
      → Changes c m change
      → ((v : View) → P v → Q (change v))
      → Triple (In (At P)) (λ _. In (At Q)) (In (At P)) (call m)
  change_rule P Q m change law step =
      call_rule (At P) (λ _. At Q) (At P) m
        (λ w a h e.
          subst Q
            (sym (fun_ext (λ q. law w q ∙ ap (λ r. settled r (node w) (change (node w)) q) e)))
            (step (node w) h))
        (λ w x h e.
          subst P
            (sym (fun_ext (λ q. law w q ∙ ap (λ r. settled r (node w) (change (node w)) q) e))) h)

  -- the rename of a file
  pub rename_rule :
      (lawful : IsLawful c) (P Q : View → Type 0) (x y : FilePath) (operation : Text)
      → ((v : View) → P v → is_folder (v x) ≡ false)
      → ((v : View) → P v → Q (renamed v x y))
      → Triple
          (In (At P))
          (λ _. In (At Q))
          (In (At P))
          (call (throw_errno operation y (c.rename x y)))
  rename_rule lawful P Q x y operation file step =
      let m = throw_errno operation y (c.rename x y) in
      call_rule (At P) (λ _. At Q) (At P) m
        (λ w a h e. subst Q (sym (fun_ext (seen w (ok a) h e))) (step (node w) h))
        (λ w z h e. subst P (sym (fun_ext (seen w (err z) h e))) h)
    where
      same :
          (r : Result (Unit {0})) (w : World) (q : FilePath)
          → settled r (node w) (renamed (node w) x y) q
            ≡ settled (throw_errno operation y (λ _. (r, w)) w).0 (node w) (renamed (node w) x y) q
      same (ok a) w q = refl
      same (err z) w q = refl

      seen :
          (w : World) (r : Result (Unit {0}))
          → P (node w)
          → (throw_errno operation y (c.rename x y) w).0 ≡ r
          → (q : FilePath)
          → node (throw_errno operation y (c.rename x y) w).1 q
            ≡ settled r (node w) (renamed (node w) x y) q
      seen w r h e q =
          lawful.rename-Changes x y w (file (node w) h) q
          ∙ same (c.rename x y w).0 w q
          ∙ ap (λ k. settled k (node w) (renamed (node w) x y) q) e

  -- code that changes no file keeps every assertion on them
  pub steady_rule :
      {A : Type 0} (P : View → Type 0) (m : Exec (Process World) A)
      → ((v : View)
          → Triple (In (At (λ u. u ≡ v))) (λ _. In (At (λ u. u ≡ v))) (In (At (λ u. u ≡ v))) m)
      → Triple (In (At P)) (λ _. In (At P)) (In (At P)) m
  steady_rule P m same = record {
    run = λ s h.
        (weaken m (same (node s.world)) (λ a t k. record { holds = subst P (sym k.holds) h.holds })
            (λ t k. record { holds = subst P (sym k.holds) h.holds })).run
          s (record { holds = refl });
  }
