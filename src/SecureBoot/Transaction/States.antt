-- ===== src/SecureBoot/Transaction/States.antt =====
-- What the flags of a Secure Boot transaction mean, and that every operation keeps it.
use limine_manager.Prelude.{
  ◌≡◌, refl, ◌∙◌, sym, Bool, true, false, not, ◌||◌, some, text, Result, ok, err, Error,
  logic_error,
}
use limine_manager.FilePath.{FilePath}
use limine_manager.Exec.{Exec, modify, throw_if, ◌>>=◌, ◌>>◌}
use limine_manager.Exec.Triples.{Ended, Ruled, branch}
use limine_manager.Posix.{Posix}
use limine_manager.Files.{Process}
use limine_manager.Files.Messages.{Spoken, Speaks}
use limine_manager.Apply.{ApplyResult}
use limine_manager.SecureBoot.EfiImage.{Efi, commit_image}
use limine_manager.SecureBoot.EfiImage.Flags.{Flag, Told, commit_image-Flag}
use limine_manager.SecureBoot.Transaction.{
  Transaction, has_result, in_efi, on_process, rollback_pending, record_apply, conclude_commit,
  commit,
}

-- the flags of a transaction that is not committed
pub record IsOpen {World : Type 0} (t : Transaction World) : Type 0 where
  pub image_held : t.efi_rollback_pending ≡ t.efi.active
  pub config_recorded :
      t.config_rollback_pending ≡ true
      → (r : ApplyResult) × (t.apply_result ≡ some r) × (r.changed ≡ true)
  pub open_still : t.committed ≡ false

-- the flags of a transaction that is committed: there is nothing to roll back
pub record IsCommitted {World : Type 0} (t : Transaction World) : Type 0 where
  pub image_released : t.efi.active ≡ false
  pub image_done : t.efi_rollback_pending ≡ false
  pub config_done : t.config_rollback_pending ≡ false
  pub closed : t.committed ≡ true

pub data IsConsistent {World : Type 0} (t : Transaction World) : Type 0 where
  is_open : IsOpen t → IsConsistent t
  is_committed : IsCommitted t → IsConsistent t

pub false_true : {A : Type 0} {b : Bool} → b ≡ false → b ≡ true → A
false_true h k = cc

pub asserted : (b : Bool) → not b ≡ false → b ≡ true
asserted true h = refl
asserted false h = cc

pub or_false : (a b : Bool) → a || b ≡ false → (a ≡ false) × (b ≡ false)
or_false true b h = cc
or_false false b h = (refl, h)

module _ {World : Type 0} where
  abbrev pub Heard : Error → Transaction World → Type 0
  Heard x u = IsOpen u × Spoken x

  -- a call on the EFI image, and what is set when it returns
  pub efi_step :
      (X : Transaction World → Type 0) (t : Transaction World) (m : Exec (Efi World) (Unit {0}))
      (g : Transaction World → Transaction World)
      → ((b : Bool) → Ruled (Flag b) (λ a. Flag false) (Told b) m)
      → IsOpen t
      → ((e : Efi World) → e.active ≡ false → X (g (record t { efi = e })))
      → Ended (λ a. X) Heard ((in_efi m >>= λ _. modify g) t)
  efi_step X t m g flags h done =
      pass (m t.efi).0 (m t.efi).1 ((flags t.efi.active).run t.efi (record { set = refl }))
    where
      pass :
          (r : Result (Unit {0})) (e : Efi World)
          → Ended (λ a. Flag false) (Told t.efi.active) (r, e)
          → Ended (λ a. X) Heard ((in_efi (λ _. (r, e)) >>= λ _. modify g) t)
      pass (ok a) e k = done e k.set
      pass (err x) e k = (
        record {
          image_held = h.image_held ∙ sym k.0.set;
          config_recorded = h.config_recorded;
          open_still = h.open_still;
        },
        k.1,
      )

  pub process_step :
      (X : Transaction World → Type 0) (t : Transaction World) (m : Exec (Process World) (Unit {0}))
      (g : Transaction World → Transaction World)
      → Speaks m
      → IsOpen t
      → ((s : Process World) → X (g (record t { efi = record t.efi { process = s } })))
      → Ended (λ a. X) Heard ((on_process m >>= λ _. modify g) t)
  process_step X t m g spoken h done =
      pass (m t.efi.process).0 (m t.efi.process).1 (spoken.run t.efi.process tt)
    where
      pass :
          (r : Result (Unit {0})) (s : Process World)
          → Ended (λ a u. Unit {0}) (λ x u. Spoken x) (r, s)
          → Ended (λ a. X) Heard ((on_process (λ _. (r, s)) >>= λ _. modify g) t)
      pass (ok a) s k = done s
      pass (err x) s k = (
        record {
          image_held = h.image_held;
          config_recorded = h.config_recorded;
          open_still = h.open_still;
        },
        k,
      )

  abbrev pub Kept : Error → Transaction World → Type 0
  Kept x = IsConsistent

  two_tests :
      (X : Transaction World → Type 0) (a b : Bool) (e f : Error)
      (g : Transaction World → Transaction World) (t : Transaction World)
      → IsConsistent t
      → (a ≡ false → b ≡ false → X (g t))
      → Ended (λ u. X) Kept ((throw_if a e >> (throw_if b f >> modify g)) t)
  two_tests X true b e f g t h k = h
  two_tests X false true e f g t h k = h
  two_tests X false false e f g t h k = k refl refl

  loosen :
      (X : Transaction World → Type 0) (r : Result (Unit {0})) (u : Transaction World)
      → Ended (λ a. X) Heard (r, u)
      → Ended (λ a. X) Kept (r, u)
  loosen X (ok a) u k = k
  loosen X (err e) u k = is_open k.0

  pub committed_of : (t : Transaction World) → IsConsistent t → t.committed ≡ true → IsCommitted t
  committed_of t (is_open h) e = false_true h.open_still e
  committed_of t (is_committed h) e = h

  pub open_of : (t : Transaction World) → IsConsistent t → t.committed ≡ false → IsOpen t
  open_of t (is_open h) e = h
  open_of t (is_committed h) e = false_true e h.closed

  pub record_apply-IsConsistent :
      (r : ApplyResult)
      → Ruled IsConsistent (λ a t. IsOpen t × (t.apply_result ≡ some r)) Kept (record_apply r)
  unfolding record_apply
  record_apply-IsConsistent r = record {
    run = λ t h.
        two_tests (λ u. IsOpen u × (u.apply_result ≡ some r))
          (t.committed || not t.efi_rollback_pending) (has_result t.apply_result)
          (logic_error (text "cannot record apply result on inactive Secure Boot transaction"))
          (logic_error (text "apply result already recorded for Secure Boot transaction"))
          (λ u. record u { config_rollback_pending = r.changed; apply_result = some r }) t h
          (λ a b.
            let o = open_of t h ((or_false t.committed (not t.efi_rollback_pending) a).0) in
            (
              record {
                image_held = o.image_held;
                config_recorded = λ k. (r, refl, k);
                open_still = o.open_still;
              },
              refl,
            ));
  }

module _ (c : Posix) (image backup temporary config_temporary : FilePath) where
  open c use {World}

  abbrev closed_state : Transaction World → Transaction World
  closed_state t = record t {
    efi_rollback_pending = false;
    config_rollback_pending = false;
    committed = true;
  }

  open_commit :
      (t : Transaction World) (test : Bool) (e : Error)
      → IsOpen t
      → Ended
          (λ a. IsCommitted)
          Kept
          ((throw_if test e >> conclude_commit c image backup temporary config_temporary) t)
  unfolding conclude_commit
  open_commit t true e h = is_open h
  open_commit t false e h =
      let done =
        efi_step IsCommitted t (commit_image c image backup temporary) closed_state
          (commit_image-Flag c image backup temporary) h
          (λ x k. record {
            image_released = k;
            image_done = refl;
            config_done = refl;
            closed = refl;
          }) in
      let after = conclude_commit c image backup temporary config_temporary t in
      loosen IsCommitted after.0 after.1 done

  pub commit-IsCommitted :
      Ruled IsConsistent (λ a. IsCommitted) Kept (commit c image backup temporary config_temporary)
  unfolding commit
  commit-IsCommitted = record {
    run = λ t h.
        branch (Ended (λ a. IsCommitted) Kept) t.committed (ok tt, t)
          ((throw_if (not (rollback_pending t))
                (logic_error (text "cannot commit a rolled back Secure Boot transaction"))
              >> conclude_commit c image backup temporary config_temporary)
            t)
          (λ k. committed_of t h k)
          (λ k.
            open_commit t (not (rollback_pending t))
              (logic_error (text "cannot commit a rolled back Secure Boot transaction"))
              (open_of t h k));
  }
