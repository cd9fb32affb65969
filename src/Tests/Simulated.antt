-- ===== src/Tests/Simulated.antt =====
-- A Btrfs client in memory: every call is made, but a move onto a taken name or of a missing
-- subvolume is refused, and `list_subvolumes` reports the names that the world is given.
use limine_manager.Prelude.{
  ℕ, ◌≡◌, refl, Bool, true, false, Option, none, some, List, text, ok, err, runtime_error,
}
use limine_manager.FilePath.{FilePath}
use limine_manager.Exec.{Exec}
use limine_manager.Model.{BtrfsSubvolume}
use limine_manager.Rollback.Client.{BtrfsClient, IsLawful, moved, copied, outcome}
use limine_manager.Rollback.Service.{Paths}
use limine_manager.Rollback.Service.Restoring.{MovesFree, RefusesOccupied}

pub record Tree : Type 0 where
  pub at : FilePath → Option ℕ
  pub names : List BtrfsSubvolume

abbrev fine : Exec Tree (Unit {0})
fine w = (ok tt, w)

abbrev place : Bool → (FilePath → Option ℕ) → Exec Tree (Unit {0})
place true view w = (ok tt, record w { at = view })
place false view w = (err (runtime_error (text "rename")), w)

abbrev free : Option ℕ → Bool
free none = true
free (some n) = false

abbrev movable : Option ℕ → Option ℕ → Bool
movable none destination = false
movable (some n) destination = free destination

abbrev pub simulated : BtrfsClient
simulated = record {
  World = Tree;
  at = λ w. w.at;
  mount_top_level = λ source m. fine;
  unmount = λ m. fine;
  create_writable_snapshot = λ x y w. place (free (w.at y)) (copied w.at x y) w;
  move_subvolume = λ x y w. place (movable (w.at x) (w.at y)) (moved w.at x y) w;
  sync_filesystem = λ m. fine;
  list_subvolumes = λ m w. (ok w.names, w);
}

place-outcome :
    (b : Bool) (view : FilePath → Option ℕ) (w : Tree) (q : FilePath)
    → (place b view w).1.at q ≡ outcome w.at view (place b view w).0 q
place-outcome true view w q = refl
place-outcome false view w q = refl

pub simulated-IsLawful : IsLawful simulated
simulated-IsLawful = record {
  at-mount = λ source m p w. refl;
  at-unmount = λ m p w. refl;
  at-sync = λ m p w. refl;
  at-list = λ m p w. refl;
  at-snapshot = λ x y p w h o. place-outcome (free (w.at y)) (copied w.at x y) w p;
  at-move = λ x y p w ox oy. place-outcome (movable (w.at x) (w.at y)) (moved w.at x y) w p;
}

pub simulated-MovesFree : (p : Paths) → MovesFree simulated p
simulated-MovesFree p = record {
  away_ok = λ w present empty.
      made (w.at p.target) (w.at p.failed) w (moved w.at p.target p.failed) present empty;
  back_ok = λ w present empty.
      made (w.at p.preserved) (w.at p.target) w (moved w.at p.preserved p.target) present empty;
}
  where
    made :
        (a b : Option ℕ) (w : Tree) (view : FilePath → Option ℕ)
        → (a ≡ none → ⊥)
        → b ≡ none
        → (place (movable a b) view w).0 ≡ ok tt
    made none b w view h e = absurd (h refl)
    made (some n) none w view h e = refl
    made (some n) (some m) w view h e = cc

pub simulated-RefusesOccupied : RefusesOccupied simulated
simulated-RefusesOccupied = record {
  refusal = λ x y w. runtime_error (text "rename");
  move_refused = λ x y w taken. refused (w.at x) (w.at y) w (moved w.at x y) taken;
}
  where
    refused :
        (a b : Option ℕ) (w : Tree) (view : FilePath → Option ℕ)
        → (b ≡ none → ⊥)
        → (place (movable a b) view w).0 ≡ err (runtime_error (text "rename"))
    refused none b w view h = refl
    refused (some n) none w view h = absurd (h refl)
    refused (some n) (some m) w view h = refl
