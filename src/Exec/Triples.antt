-- ===== src/Exec/Triples.antt =====
-- Triples: from a state with `P`, the code returns with `Q` or throws with `E`.
use limine_manager.Prelude.{◌≡◌, refl, Bool, true, false, if◌then◌else◌, Result, ok, err, Error}
use limine_manager.Exec.{Exec, continue, ◌>>=◌, catch_all}

-- what holds on both branches
pub branch {ℓ κ} :
    {A : Type ℓ} (P : A → Type κ) (test : Bool) (x y : A)
    → (test ≡ true → P x)
    → (test ≡ false → P y)
    → P (if test then x else y)
branch P true x y h k = h refl
branch P false x y h k = k refl

abbrev pub Post {ℓ κ} :
    {S : Type ℓ} {A : Type κ} (Q : A → S → Type 0) (E : S → Type 0) → Result A × S → Type 0
Post Q E (err thrown, after) = E after
Post Q E (ok value, after) = Q value after

pub record Triple {ℓ κ} {S : Type ℓ} {A : Type κ} (P : S → Type 0) (Q : A → S → Type 0)
    (E : S → Type 0) (m : Exec S A) : Type ℓ where
  pub run : (s : S) → P s → Post Q E (m s)

module _ {ℓ κ μ} {S : Type ℓ} {A : Type κ} {B : Type μ} where
  continue-Post :
      (Q : A → S → Type 0) (R : B → S → Type 0) (E : S → Type 0) (r : Result A) (s : S)
      (f : A → Exec S B)
      → Post Q E (r, s)
      → ((a : A) → Triple (Q a) R E (f a))
      → Post R E (continue r f s)
  continue-Post Q R E (err thrown) s f held later = held
  continue-Post Q R E (ok value) s f held later = (later value).run s held

  pub bind :
      {P : S → Type 0} {Q : A → S → Type 0} {R : B → S → Type 0} {E : S → Type 0} (m : Exec S A)
      (f : A → Exec S B)
      → Triple P Q E m
      → ((a : A) → Triple (Q a) R E (f a))
      → Triple P R E (m >>= f)
  bind {Q = Q} {R = R} {E = E} m f hm hf = record {
    run = λ s p. let (r, s') = m s in continue-Post Q R E r s' f (hm.run s p) hf;
  }

-- as `Post` and `Triple`, where what a throw leaves depends on the error
abbrev pub Ended {ℓ κ} :
    {S : Type ℓ} {A : Type κ} (Q : A → S → Type 0) (E : Error → S → Type 0) → Result A × S → Type 0
Ended Q E (err thrown, after) = E thrown after
Ended Q E (ok value, after) = Q value after

pub record Ruled {ℓ κ} {S : Type ℓ} {A : Type κ} (P : S → Type 0) (Q : A → S → Type 0)
    (E : Error → S → Type 0) (m : Exec S A) : Type ℓ where
  pub run : (s : S) → P s → Ended Q E (m s)

module _ {ℓ κ} {S : Type ℓ} {A : Type κ} where
  module _ {P : S → Type 0} {Q : A → S → Type 0} {F : Error → S → Type 0} where
    pub raising :
        {E : S → Type 0} (m : Exec S A)
        → Triple P Q E m
        → ((e : Error) (s : S) → E s → F e s)
        → Ruled P Q F m
    raising {E = E} m t later = record { run = λ s p. pass (m s).0 (m s).1 (t.run s p) }
      where
        pass : (r : Result A) (s : S) → Post Q E (r, s) → Ended Q F (r, s)
        pass (err thrown) s held = later thrown s held
        pass (ok value) s held = held

    pub catching :
        {E : S → Type 0} (m : Exec S A) (handler : Error → Exec S A)
        → Triple P Q E m
        → ((e : Error) → Ruled E Q F (handler e))
        → Ruled P Q F (catch_all m handler)
    catching {E = E} m handler t caught = record { run = λ s p. pass (m s).0 (m s).1 (t.run s p) }
      where
        pass :
            (r : Result A) (s : S) → Post Q E (r, s) → Ended Q F (catch_all (λ _. (r, s)) handler s)
        pass (err thrown) s held = (caught thrown).run s held
        pass (ok value) s held = held

  pub weakening :
      {P : S → Type 0} {Q R : A → S → Type 0} {E F : Error → S → Type 0} (m : Exec S A)
      → Ruled P Q E m
      → ((a : A) (s : S) → Q a s → R a s)
      → ((e : Error) (s : S) → E e s → F e s)
      → Ruled P R F m
  weakening {Q = Q} {R = R} {E = E} {F = F} m t q e = record {
    run = λ s p. pass (m s).0 (m s).1 (t.run s p);
  }
    where
      pass : (r : Result A) (s : S) → Ended Q E (r, s) → Ended R F (r, s)
      pass (err thrown) s held = e thrown s held
      pass (ok value) s held = q value s held

  pub binding {μ} :
      {B : Type μ} {P : S → Type 0} {Q : A → S → Type 0} {R : B → S → Type 0}
      {F : Error → S → Type 0} (m : Exec S A) (f : A → Exec S B)
      → Ruled P Q F m
      → ((a : A) → Ruled (Q a) R F (f a))
      → Ruled P R F (m >>= f)
  binding {B = B} {Q = Q} {R = R} {F = F} m f hm hf = record {
    run = λ s p. pass (m s).0 (m s).1 (hm.run s p);
  }
    where
      pass : (r : Result A) (s : S) → Ended Q F (r, s) → Ended R F (continue r f s)
      pass (err thrown) s held = held
      pass (ok value) s held = (hf value).run s held
