-- ===== src/SecureBoot/Transaction/Leaving.antt =====
-- What `rollback` of a Secure Boot transaction leaves to do when it throws.
use limine_manager.Prelude.{
  ◌≡◌, refl, ◌∙◌, Bool, true, false, not, ◌||◌, ◌++◌, is_empty, Text, text, Result, is_ok, ok, err,
  runtime_error,
}
use limine_manager.FilePath.{FilePath}
use limine_manager.Exec.{modify, throw_if, ◌>>=◌}
use limine_manager.Exec.Triples.{Ended, branch}
use limine_manager.Posix.{Posix}
use limine_manager.Files.{Process}
use limine_manager.SecureBoot.EfiImage.{Efi, rollback_image}
use limine_manager.SecureBoot.EfiImage.Flags.{refuted}
use limine_manager.SecureBoot.Transaction.{
  Transaction, message_of, joined, in_efi, on_process, rollback_pending, undo_config,
  rollback_config, rollback_efi, collect_errors, rollback,
}
use limine_manager.SecureBoot.Transaction.States.{IsConsistent, Kept, asserted}
use limine_manager.SecureBoot.Transaction.Undoing.{rollback-IsConsistent}

module _ (c : Posix) (image backup temporary config_temporary : FilePath) where
  open c use {World}

  -- each part is still to be rolled back exactly when its undoing threw, and one of them is
  pub record LeftToDo (t u : Transaction World) : Type 0 where
    pub config :
        u.config_rollback_pending
        ≡ not (is_ok (rollback_config c image backup temporary config_temporary t).0)
    pub efi :
        u.efi_rollback_pending
        ≡ not (
            is_ok
              (rollback_efi c image backup temporary config_temporary
                (rollback_config c image backup temporary config_temporary t).1).0)
    pub pending : rollback_pending u ≡ true

  abbrev Config : Result (Unit {0}) × Transaction World → Type 0
  Config x = x.1.config_rollback_pending ≡ not (is_ok x.0)

  first_part :
      (t : Transaction World) → Config (rollback_config c image backup temporary config_temporary t)
  unfolding rollback_config
  first_part t =
      branch Config (not t.config_rollback_pending) (ok tt, t)
        ((on_process (undo_config c image backup temporary config_temporary t.apply_result) >>= λ _.
            modify (λ u. record u { config_rollback_pending = false }))
          t)
        (λ k. refuted t.config_rollback_pending k)
        (λ k.
          by_result
            (undo_config c image backup temporary config_temporary t.apply_result t.efi.process).0
            (undo_config c image backup temporary config_temporary t.apply_result t.efi.process).1
            (asserted t.config_rollback_pending k))
    where
      by_result :
          (r : Result (Unit {0})) (s : Process World)
          → t.config_rollback_pending ≡ true
          → Config (
              (on_process (λ _. (r, s)) >>= λ _.
              modify (λ u. record u { config_rollback_pending = false }))
                t)
      by_result (ok a) s k = refl
      by_result (err e) s k = k

  abbrev Image : Transaction World → Result (Unit {0}) × Transaction World → Type 0
  Image u x =
      (x.1.efi_rollback_pending ≡ not (is_ok x.0))
      × (x.1.config_rollback_pending ≡ u.config_rollback_pending)

  second_part :
      (u : Transaction World) → Image u (rollback_efi c image backup temporary config_temporary u)
  unfolding rollback_efi
  second_part u =
      branch (Image u) (not u.efi_rollback_pending) (ok tt, u)
        ((in_efi (rollback_image c image backup temporary) >>= λ _.
            modify (λ v. record v { efi_rollback_pending = false }))
          u)
        (λ k. (refuted u.efi_rollback_pending k, refl))
        (λ k.
          by_result (rollback_image c image backup temporary u.efi).0
            (rollback_image c image backup temporary u.efi).1 (asserted u.efi_rollback_pending k))
    where
      by_result :
          (r : Result (Unit {0})) (e : Efi World)
          → u.efi_rollback_pending ≡ true
          → Image u (
              (in_efi (λ _. (r, e)) >>= λ _.
              modify (λ v. record v { efi_rollback_pending = false }))
                u)
      by_result (ok a) e k = (refl, refl)
      by_result (err x) e k = (k, refl)

  one_threw :
      (a b : Bool) (r s : Result (Unit {0}))
      → a ≡ not (is_ok r)
      → b ≡ not (is_ok s)
      → is_empty (joined (message_of r) s) ≡ false
      → a || b ≡ true
  one_threw a b (err x) s h k e = rw h refl
  one_threw a b (ok y) (err x) h k e = rw (h, k) refl
  one_threw a b (ok y) (ok z) h k e = cc

  -- what is left when the errors are not empty
  both_parts :
      (t : Transaction World)
      → Ended
          (λ errors u. is_empty errors ≡ false → LeftToDo t u)
          (λ x u. LeftToDo t u)
          (collect_errors c image backup temporary config_temporary t)
  unfolding collect_errors rollback_pending
  both_parts t =
      let first = rollback_config c image backup temporary config_temporary t in
      let second = rollback_efi c image backup temporary config_temporary first.1 in
      let config = (second_part first.1).1 ∙ first_part t in
      λ e. record {
        config = config;
        efi = (second_part first.1).0;
        pending = one_threw _ _ first.0 second.0 config (second_part first.1).0 e;
      }

  left_when_thrown :
      (t : Transaction World)
      → Ended
          (λ a u. Unit {0})
          (λ x u. LeftToDo t u)
          (rollback c image backup temporary config_temporary t)
  unfolding rollback
  left_when_thrown t =
      branch (Ended (λ a u. Unit {0}) (λ x u. LeftToDo t u))
        (t.committed || not (rollback_pending t)) (ok tt, t)
        ((collect_errors c image backup temporary config_temporary >>= λ errors.
            throw_if (not (is_empty errors))
              (runtime_error (text "Secure Boot rollback failed: " ++ errors)))
          t)
        (λ k. tt)
        (λ k.
          let after = collect_errors c image backup temporary config_temporary t in
          conclude after.0 after.1 (both_parts t))
    where
      conclude :
          (r : Result Text) (u : Transaction World)
          → Ended (λ errors v. is_empty errors ≡ false → LeftToDo t v) (λ x v. LeftToDo t v) (r, u)
          → Ended
              (λ a v. Unit {0})
              (λ x v. LeftToDo t v)
              (((λ _. (r, u)) >>= λ errors.
                  throw_if
                    (not (is_empty errors))
                    (runtime_error (text "Secure Boot rollback failed: " ++ errors)))
                u)
      conclude (err e) u h = h
      conclude (ok errors) u h = by_test (is_empty errors) h
        where
          by_test :
              (b : Bool)
              → (b ≡ false → LeftToDo t u)
              → Ended
                  (λ a v. Unit {0})
                  (λ x v. LeftToDo t v)
                  (throw_if
                    (not b)
                    (runtime_error (text "Secure Boot rollback failed: " ++ errors))
                    u)
          by_test true k = tt
          by_test false k = k refl

  -- When `rollback` returns, the transaction has nothing left to roll back, whether it was
  -- committed before, already rolled back, or rolled back now. When it throws, at least one part is
  -- still to be rolled back, and of the configuration and the image, each is exactly when its own
  -- undoing threw. The flags must be those of a transaction that the operations can reach, and are
  -- afterwards.
  pub rollback-LeftToDo :
      (t : Transaction World)
      → IsConsistent t
      → Ended
          (λ a u. IsConsistent u × (rollback_pending u ≡ false))
          (λ x u. IsConsistent u × LeftToDo t u)
          (rollback c image backup temporary config_temporary t)
  rollback-LeftToDo t h =
      let after = rollback c image backup temporary config_temporary t in
      both after.0 after.1
        ((rollback-IsConsistent c image backup temporary config_temporary).run t h)
        (left_when_thrown t)
    where
      both :
          (r : Result (Unit {0})) (u : Transaction World)
          → Ended (λ a v. IsConsistent v × (rollback_pending v ≡ false)) Kept (r, u)
          → Ended (λ a v. Unit {0}) (λ x v. LeftToDo t v) (r, u)
          → Ended
              (λ a v. IsConsistent v × (rollback_pending v ≡ false))
              (λ x v. IsConsistent v × LeftToDo t v)
              (r, u)
      both (ok a) u k l = k
      both (err x) u k l = (k, l)
