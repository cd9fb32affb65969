-- ===== src/SecureBoot/Transaction/Undoing.antt =====
-- `rollback` of a Secure Boot transaction: when it returns, nothing is left to roll back.
use limine_manager.Prelude.{
  [], ◌∷◌, ◌≡◌, refl, ◌∙◌, sym, ap, subst, Bool, true, false, not, ◌||◌, if◌then◌else◌, Text, text,
  Result, ok, err, runtime_error, is_empty, ◌++◌,
}
use limine_manager.FilePath.{FilePath}
use limine_manager.Exec.{modify, throw_if, ◌>>=◌}
use limine_manager.Exec.Triples.{Ended, Ruled, branch}
use limine_manager.Rollback.Planner.{what}
use limine_manager.Posix.{Posix}
use limine_manager.Files.Messages.{
  Speaks, atomic_restore_file-Speaks, remove_regular_file_secure-Speaks,
}
use limine_manager.SecureBoot.EfiImage.{rollback_image}
use limine_manager.SecureBoot.EfiImage.Flags.{refuted, rollback_image-Flag}
use limine_manager.SecureBoot.Transaction.States.{
  IsOpen, IsConsistent, is_open, is_committed, Heard, Kept, efi_step, process_step, open_of,
  asserted, or_false, false_true,
}
use limine_manager.SecureBoot.Transaction.{
  Transaction, message_of, joined, in_efi, on_process, rollback_pending, undo_config,
  rollback_config, rollback_efi, collect_errors, rollback,
}

append-is_empty : (a b : Text) → is_empty a ≡ false → is_empty (a ++ b) ≡ false
append-is_empty [] b h = cc
append-is_empty (x ∷ xs) b h = refl

or_nothing : (b : Bool) → b || false ≡ b
or_nothing true = refl
or_nothing false = refl

module _ (c : Posix) (image backup temporary config_temporary : FilePath) where
  open c use {World}

  undo_config-Speaks :
      (t : Transaction World)
      → IsOpen t
      → t.config_rollback_pending ≡ true
      → Speaks (undo_config c image backup temporary config_temporary t.apply_result)
  unfolding undo_config
  undo_config-Speaks t h pending =
      let (r, same, changed) = h.config_recorded pending in
      subst (λ o. Speaks (undo_config c image backup temporary config_temporary o)) (sym same)
        (rw changed (
          branch Speaks (not (is_empty r.backup)) _ _
            (λ k.
              atomic_restore_file-Speaks c r.backup r.target config_temporary
                (text "configuration backup") (text "configuration rollback target"))
            (λ k.
              remove_regular_file_secure-Speaks c r.target (text "newly created configuration"))))

  pub rollback_config-Open :
      Ruled IsOpen
        (λ a u. IsOpen u × (u.config_rollback_pending ≡ false))
        Heard
        (rollback_config c image backup temporary config_temporary)
  unfolding rollback_config
  rollback_config-Open = record {
    run = λ t h.
        branch (Ended (λ a u. IsOpen u × (u.config_rollback_pending ≡ false)) Heard)
          (not t.config_rollback_pending) (ok tt, t)
          ((on_process (undo_config c image backup temporary config_temporary t.apply_result)
              >>= λ _. modify (λ u. record u { config_rollback_pending = false }))
            t)
          (λ k. (h, refuted t.config_rollback_pending k))
          (λ k.
            process_step (λ u. IsOpen u × (u.config_rollback_pending ≡ false)) t
              (undo_config c image backup temporary config_temporary t.apply_result)
              (λ u. record u { config_rollback_pending = false })
              (undo_config-Speaks t h (asserted t.config_rollback_pending k)) h
              (λ s. (
                record {
                  image_held = h.image_held;
                  config_recorded = λ e. false_true refl e;
                  open_still = h.open_still;
                },
                refl,
              )));
  }

  rollback_efi-Open :
      (b : Bool)
      → Ruled
          (λ u. IsOpen u × (u.config_rollback_pending ≡ b))
          (λ a u. IsOpen u × (rollback_pending u ≡ b))
          Heard
          (rollback_efi c image backup temporary config_temporary)
  unfolding rollback_efi rollback_pending
  rollback_efi-Open b = record {
    run = λ t h.
        branch (Ended (λ a u. IsOpen u × (rollback_pending u ≡ b)) Heard)
          (not t.efi_rollback_pending) (ok tt, t)
          ((in_efi (rollback_image c image backup temporary) >>= λ _.
              modify (λ u. record u { efi_rollback_pending = false }))
            t)
          (λ k. (
            h.0,
            ap (λ z. t.config_rollback_pending || z) (refuted t.efi_rollback_pending k)
                ∙ or_nothing t.config_rollback_pending
                ∙ h.1,
          ))
          (λ k.
            efi_step (λ u. IsOpen u × (rollback_pending u ≡ b)) t
              (rollback_image c image backup temporary)
              (λ u. record u { efi_rollback_pending = false })
              (rollback_image-Flag c image backup temporary) h.0
              (λ e a. (
                record {
                  image_held = sym a;
                  config_recorded = h.0.config_recorded;
                  open_still = h.0.open_still;
                },
                or_nothing t.config_rollback_pending ∙ h.1,
              )));
  }

  -- an empty text of errors says that nothing is pending
  abbrev Settled : Text → Transaction World → Type 0
  Settled errors u = IsOpen u × ((is_empty errors ≡ true) → rollback_pending u ≡ false)

  after_config :
      (r : Result (Unit {0})) (u : Transaction World)
      → Ended (λ a v. IsOpen v × (v.config_rollback_pending ≡ false)) Heard (r, u)
      → Settled
          (joined (message_of r) (rollback_efi c image backup temporary config_temporary u).0)
          (rollback_efi c image backup temporary config_temporary u).1
  after_config (ok a) u k =
      let after = rollback_efi c image backup temporary config_temporary u in
      both after.0 after.1 ((rollback_efi-Open false).run u k)
    where
      both :
          (r : Result (Unit {0})) (v : Transaction World)
          → Ended (λ a w. IsOpen w × (rollback_pending w ≡ false)) Heard (r, v)
          → Settled (joined [] r) v
      both (ok b) v h = (h.0, λ e. h.1)
      both (err x) v h = (h.0, λ e. false_true h.1 e)
  after_config (err x) u k =
      let after = rollback_efi c image backup temporary config_temporary u in
      both after.0 after.1 ((rollback_efi-Open u.config_rollback_pending).run u (k.0, refl))
    where
      both :
          (r : Result (Unit {0})) (v : Transaction World)
          → Ended (λ a w. IsOpen w × (rollback_pending w ≡ u.config_rollback_pending)) Heard (r, v)
          → Settled (joined (what x) r) v
      both (ok b) v h = (h.0, λ e. false_true k.1 e)
      both (err y) v h = (
        h.0,
        λ e.
            false_true
              (subst (λ z. is_empty (if z then what y else what x ++ (text "; " ++ what y)) ≡ false)
                (sym k.1) (append-is_empty (what x) _ k.1))
              e,
      )

  collect_errors-Settled :
      (t : Transaction World)
      → IsOpen t
      → Ended Settled Kept (collect_errors c image backup temporary config_temporary t)
  unfolding collect_errors
  collect_errors-Settled t h =
      let after = rollback_config c image backup temporary config_temporary t in
      after_config after.0 after.1 (rollback_config-Open.run t h)

  at_rest :
      (t : Transaction World)
      → IsConsistent t
      → t.committed || not (rollback_pending t) ≡ true
      → rollback_pending t ≡ false
  unfolding rollback_pending
  at_rest t (is_committed h) e = ap (λ z. z || t.efi_rollback_pending) h.config_done ∙ h.image_done
  at_rest t (is_open h) e = refuted (t.config_rollback_pending || t.efi_rollback_pending) (
      subst (λ z. z || not (t.config_rollback_pending || t.efi_rollback_pending) ≡ true)
        h.open_still e)

  pub rollback-IsConsistent :
      Ruled IsConsistent
        (λ a u. IsConsistent u × (rollback_pending u ≡ false))
        Kept
        (rollback c image backup temporary config_temporary)
  unfolding rollback
  rollback-IsConsistent = record {
    run = λ t h.
        branch (Ended (λ a u. IsConsistent u × (rollback_pending u ≡ false)) Kept)
          (t.committed || not (rollback_pending t)) (ok tt, t)
          ((collect_errors c image backup temporary config_temporary >>= λ errors.
              throw_if (not (is_empty errors))
                (runtime_error (text "Secure Boot rollback failed: " ++ errors)))
            t)
          (λ k. (h, at_rest t h k))
          (λ k.
            let after = collect_errors c image backup temporary config_temporary t in
            conclude after.0 after.1
              (collect_errors-Settled t (open_of t h (or_false t.committed _ k).0)));
  }
    where
      conclude :
          (r : Result Text) (u : Transaction World)
          → Ended Settled Kept (r, u)
          → Ended
              (λ a v. IsConsistent v × (rollback_pending v ≡ false))
              Kept
              (((λ _. (r, u)) >>= λ errors.
                  throw_if
                    (not (is_empty errors))
                    (runtime_error (text "Secure Boot rollback failed: " ++ errors)))
                u)
      conclude (err e) u h = h
      conclude (ok errors) u h = by_test (is_empty errors) refl
        where
          by_test :
              (b : Bool)
              → is_empty errors ≡ b
              → Ended
                  (λ a v. IsConsistent v × (rollback_pending v ≡ false))
                  Kept
                  (throw_if
                    (not b)
                    (runtime_error (text "Secure Boot rollback failed: " ++ errors))
                    u)
          by_test true e = (is_open h.0, h.1 e)
          by_test false e = is_open h.0
