-- ===== src/SecureBoot/Transaction/Closing.antt =====
-- A Secure Boot transaction from its construction on: every state that the operations reach.
use limine_manager.Prelude.{
  ◌≡◌, refl, ◌∙◌, sym, ap, subst, Bool, true, false, not, ◌||◌, Option, List, Text, Result, ok, err,
  Error, is_ok, if◌then◌else◌,
}
use limine_manager.FilePath.{FilePath}
use limine_manager.Exec.{throw_if, modify, ◌>>◌}
use limine_manager.Exec.Triples.{Ended}
use limine_manager.Posix.{Posix}
use limine_manager.Files.{Process}
use limine_manager.Apply.{ApplyResult}
use limine_manager.SecureBoot.EfiImage.{Efi, close_image}
use limine_manager.SecureBoot.Transaction.{
  SecureBootApplyFailurePoint, Transaction, has_result, started, rollback_pending, record_apply,
  commit, rollback, destroy,
}
use limine_manager.SecureBoot.Transaction.States.{
  IsConsistent, is_open, is_committed, Kept, record_apply-IsConsistent, commit-IsCommitted,
  false_true,
}
use limine_manager.SecureBoot.Transaction.Undoing.{rollback-IsConsistent}

if_true {ℓ} : {A : Type ℓ} {test : Bool} (x y : A) → test ≡ true → (if test then x else y) ≡ x
if_true x y h = ap (λ b. if b then x else y) h

or_true : (a b : Bool) → b ≡ false → a || not b ≡ true
or_true true b h = refl
or_true false b h = ap not h

last : (a b : Bool) → a || b ≡ false → b ≡ false
last true b k = cc
last false b k = k

refused_when :
    {World : Type 0} (a b : Bool) (e f : Error) (g : Transaction World → Transaction World)
    (t : Transaction World)
    → a ≡ true
    → is_ok ((throw_if a e >> (throw_if b f >> modify g)) t).0 ≡ false
refused_when a b e f g t h =
    subst (λ z. is_ok ((throw_if z e >> (throw_if b f >> modify g)) t).0 ≡ false) (sym h) refl

module _ (c : Posix) (image backup temporary config_temporary : FilePath) where
  open c use {World}

  -- the states that the public operations reach, throws included
  pub data Reached : Transaction World → Type 0 where
    begun :
        (s : Process World) (reports : List Text) (injected : Option SecureBootApplyFailurePoint)
        → Reached (started s reports injected)
    recorded : (r : ApplyResult) (t : Transaction World) → Reached t → Reached (record_apply r t).1
    concluded :
        (t : Transaction World)
        → Reached t
        → Reached (commit c image backup temporary config_temporary t).1
    rolled_back :
        (t : Transaction World)
        → Reached t
        → Reached (rollback c image backup temporary config_temporary t).1

  any_end :
      {A : Type 0} (Q : A → Transaction World → Type 0) (r : Result A) (t : Transaction World)
      → ((a : A) → Q a t → IsConsistent t)
      → Ended Q Kept (r, t)
      → IsConsistent t
  any_end Q (ok a) t h k = h a k
  any_end Q (err e) t h k = k

  -- In every state that `record_apply`, `commit` and `rollback` can reach, whatever they threw, the
  -- image is to be rolled back exactly when its own transaction is active, a configuration that is
  -- to be rolled back has its recorded result, and a committed transaction has nothing to roll back.
  pub Reached-IsConsistent : (t : Transaction World) → Reached t → IsConsistent t
  Reached-IsConsistent t (begun s reports injected) =
      is_open
        (record { image_held = refl; config_recorded = λ e. false_true refl e; open_still = refl })
  Reached-IsConsistent t (recorded r u h) =
      let after = record_apply r u in
      any_end _ after.0 after.1 (λ a k. is_open k.0)
        ((record_apply-IsConsistent r).run u (Reached-IsConsistent u h))
  Reached-IsConsistent t (concluded u h) =
      let after = commit c image backup temporary config_temporary u in
      any_end _ after.0 after.1 (λ a k. is_committed k)
        ((commit-IsCommitted c image backup temporary config_temporary).run u
          (Reached-IsConsistent u h))
  Reached-IsConsistent t (rolled_back u h) =
      let after = rollback c image backup temporary config_temporary u in
      any_end _ after.0 after.1 (λ a k. k.0)
        ((rollback-IsConsistent c image backup temporary config_temporary).run u
          (Reached-IsConsistent u h))

  released :
      (t : Transaction World) → IsConsistent t → rollback_pending t ≡ false → t.efi.active ≡ false
  unfolding rollback_pending
  released t (is_committed h) e = h.image_released
  released t (is_open h) e =
      sym h.image_held ∙ last t.config_rollback_pending t.efi_rollback_pending e

  rollback_idle :
      (t : Transaction World)
      → rollback_pending t ≡ false
      → rollback c image backup temporary config_temporary t ≡ (ok tt, t)
  unfolding rollback
  rollback_idle t idle = if_true _ _ (or_true t.committed (rollback_pending t) idle)

  close_idle : (e : Efi World) → e.active ≡ false → close_image c image backup temporary e ≡ e
  unfolding close_image
  close_idle e h = if_true _ _ (ap not h)

  destroy_idle :
      (t : Transaction World)
      → t.efi.active ≡ false
      → rollback_pending t ≡ false
      → destroy c image backup temporary config_temporary t ≡ t
  unfolding destroy
  destroy_idle t inactive idle =
      ap {A = Transaction World}
        (λ u. record u { efi = close_image c image backup temporary u.efi })
        (if_true _ _ (or_true t.committed (rollback_pending t) idle))
      ∙ ap (λ e. record t { efi = e }) (close_idle t.efi inactive)

  record_refused :
      (t : Transaction World) (r : ApplyResult)
      → IsConsistent t
      → rollback_pending t ≡ false
      → is_ok (record_apply r t).0 ≡ false
  unfolding record_apply rollback_pending
  record_refused t r consistent idle =
      refused_when (t.committed || not t.efi_rollback_pending) (has_result t.apply_result) _ _ _ t (
        or_true t.committed t.efi_rollback_pending
          (last t.config_rollback_pending t.efi_rollback_pending idle))

  -- Once a reachable transaction has nothing to roll back, its rollback and its destructor change
  -- nothing, neither files nor reports, and it takes no result of another apply.
  pub rollback-destroy_idle :
      (t : Transaction World) (r : ApplyResult)
      → Reached t
      → rollback_pending t ≡ false
      → (rollback c image backup temporary config_temporary t ≡ (ok tt, t))
        × (destroy c image backup temporary config_temporary t ≡ t)
        × (is_ok (record_apply r t).0 ≡ false)
  rollback-destroy_idle t r reached idle =
      let consistent = Reached-IsConsistent t reached in
      let inactive = released t consistent idle in
      (rollback_idle t idle, destroy_idle t inactive idle, record_refused t r consistent idle)
