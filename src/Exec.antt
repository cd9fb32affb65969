-- ===== src/Exec.antt =====
-- Code that changes a state and may throw: what was changed before a throw stays changed.
pub mod Triples
use limine_manager.Prelude.{◌≡◌, refl, Bool, true, false, Result, ok, err, Error}

abbrev pub Exec {ℓ κ} : Type ℓ → Type κ → Type (ℓ ⊔ κ)
Exec S A = S → Result A × S

abbrev pub pure {ℓ κ} : {S : Type ℓ} {A : Type κ} → A → Exec S A
pure a s = (ok a, s)

abbrev pub throw {ℓ κ} : {S : Type ℓ} {A : Type κ} → Error → Exec S A
throw e s = (err e, s)

-- `if (test) throw e;`
abbrev pub throw_if {ℓ} : {S : Type ℓ} → Bool → Error → Exec S (Unit {0})
throw_if true e s = (err e, s)
throw_if false e s = (ok tt, s)

abbrev pub gets {ℓ κ} : {S : Type ℓ} {A : Type κ} → (S → A) → Exec S A
gets f s = (ok (f s), s)

abbrev pub modify {ℓ} : {S : Type ℓ} → (S → S) → Exec S (Unit {0})
modify f s = (ok tt, f s)

abbrev pub continue {ℓ κ μ} :
    {S : Type ℓ} {A : Type κ} {B : Type μ} → Result A → (A → Exec S B) → Exec S B
continue (ok a) f s = f a s
continue (err e) f s = (err e, s)

infixl 5 ◌>>=◌ ◌>>◌
abbrev pub ◌>>=◌ {ℓ κ μ} :
    {S : Type ℓ} {A : Type κ} {B : Type μ} → Exec S A → (A → Exec S B) → Exec S B
◌>>=◌ m f s = let (r, s') = m s in continue r f s'

abbrev pub ◌>>◌ {ℓ κ μ} : {S : Type ℓ} {A : Type κ} {B : Type μ} → Exec S A → Exec S B → Exec S B
m >> k = m >>= λ _. k

-- `try { m } catch (...) { handler; throw; }`
abbrev pub on_error {ℓ κ} : {S : Type ℓ} {A : Type κ} → (S → S) → Exec S A → Exec S A
on_error handler m s =
    let (r, s') = m s in elim r [ ok a ↦ (ok a, s') | err e ↦ (err e, handler s') ]

-- `try { m } catch (...) { }`
abbrev pub ignoring {ℓ κ} : {S : Type ℓ} {A : Type κ} → Exec S A → S → S
ignoring m s = (m s).1

-- `try { m } catch (...) { handler }`
abbrev pub catch_all {ℓ κ} : {S : Type ℓ} {A : Type κ} → Exec S A → (Error → Exec S A) → Exec S A
catch_all m handler s = let (r, s') = m s in elim r [ ok a ↦ (ok a, s') | err e ↦ handler e s' ]
