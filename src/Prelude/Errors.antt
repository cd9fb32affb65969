-- ===== src/Prelude/Errors.antt =====
-- Exceptions as values: the class that the source throws, with its message.
use mathlib.Core.Path.{◌≡◌, refl, ap, ◌∙◌}
use mathlib.Core.Bool.{Bool, true, false}
use limine_manager.Prelude.Bytes.{Text}
use limine_manager.Prelude.Tests.{if◌then◌else◌}

pub data Error : Type 0 where
  runtime_error invalid_argument logic_error out_of_range : Text → Error

pub data Result {ℓ} (A : Type ℓ) : Type ℓ where
  ok : A → Result A
  err : Error → Result A

module _ {ℓ κ} {A : Type ℓ} {B : Type κ} where
  infixl 5 ◌>>=◌
  -- what follows in the source a call that may throw
  abbrev pub ◌>>=◌ : Result A → (A → Result B) → Result B
  err thrown >>= next = err thrown
  ok value >>= next = next value

  pub >>=-eq-ok :
      (first : Result A) (next : A → Result B) {last : B}
      → (first >>= next) ≡ ok last
      → (value : A) × (first ≡ ok value) × (next value ≡ ok last)
  >>=-eq-ok (err thrown) next same = cc
  >>=-eq-ok (ok value) next same = (value, refl, same)

  pub >>=-ok :
      {first : Result A} (next : A → Result B) {value : A} {last : B}
      → first ≡ ok value
      → next value ≡ ok last
      → (first >>= next) ≡ ok last
  >>=-ok next e f = ap (λ m. m >>= next) e ∙ f

abbrev pub is_ok {ℓ} : {A : Type ℓ} → Result A → Bool
is_ok (err thrown) = false
is_ok (ok value) = true

pub is_ok->>= {ℓ κ} :
    {A : Type ℓ} {B : Type κ} (first : Result A) (next : A → Result B)
    → is_ok first ≡ true
    → ((value : A) → is_ok (next value) ≡ true)
    → is_ok (first >>= next) ≡ true
is_ok->>= (err thrown) next h k = cc
is_ok->>= (ok value) next h k = k value

infixl 5 ◌>>◌
abbrev pub ◌>>◌ {κ} : {B : Type κ} → Result (Unit {0}) → Result B → Result B
err thrown >> next = err thrown
ok u >> next = next

-- `if (!test) throw error;`
abbrev pub require : Bool → Error → Result (Unit {0})
require test thrown = if test then ok tt else err thrown

pub require-eq-ok :
    (test : Bool) (thrown : Error) {u : Unit {0}} → require test thrown ≡ ok u → test ≡ true
require-eq-ok false thrown same = cc
require-eq-ok true thrown same = refl

pub ok-injective {ℓ} : {A : Type ℓ} {a b : A} → ok a ≡ ok b → a ≡ b
ok-injective h = cc
