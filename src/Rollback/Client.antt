-- ===== src/Rollback/Client.antt =====
-- `BtrfsClient` of include/limine_manager/infrastructure/btrfs_client.hpp as an interface. The
-- implementation calls mount(8), umount(8), btrfs(8) and rename(2), which are outside the program:
-- its behaviour is a parameter with the documented laws of those calls.
use limine_manager.Prelude.{
  ℕ, ◌≡◌, Bool, false, Option, none, List, [], ◌∷◌, ◌++◌, if◌then◌else◌, Text, text_eq, starts_with,
  Result, ok, err,
}
use limine_manager.FilePath.{FilePath}
use limine_manager.Exec.{Exec}
use limine_manager.Model.{BtrfsSubvolume}

-- `at w p` is the tree that the subvolume or directory at `p` holds, when the top level is mounted.
-- A rename takes all that is below its source along, so its law is for the paths that are not
-- inside either end.
pub record BtrfsClient : Type 1 where
  pub World : Type 0
  pub at : World → FilePath → Option ℕ
  pub mount_top_level : Text → FilePath → Exec World (Unit {0})
  pub unmount : FilePath → Exec World (Unit {0})
  pub create_writable_snapshot : FilePath → FilePath → Exec World (Unit {0})
  pub move_subvolume : FilePath → FilePath → Exec World (Unit {0})
  pub sync_filesystem : FilePath → Exec World (Unit {0})
  pub list_subvolumes : FilePath → Exec World (List BtrfsSubvolume)

abbrev pub moved : (FilePath → Option ℕ) → FilePath → FilePath → FilePath → Option ℕ
moved view source destination p =
    if text_eq p destination then view source else if text_eq p source then none else view p

abbrev pub copied : (FilePath → Option ℕ) → FilePath → FilePath → FilePath → Option ℕ
copied view source destination p = if text_eq p destination then view source else view p

-- What a call that returned did, and what a call that threw left as it was. A call that throws
-- changes no subvolume.
abbrev pub outcome :
    (FilePath → Option ℕ) → (FilePath → Option ℕ) → Result (Unit {0}) → FilePath → Option ℕ
outcome before after (ok u) = after
outcome before after (err e) = before

-- a path below a directory: it moves along with the directory
unfoldable pub inside : FilePath → FilePath → Bool
inside p directory = starts_with p (directory ++ (b'/' ∷ []))

pub record IsLawful (c : BtrfsClient) : Type 0 where
  pub at-mount :
      (source : Text) (m p : FilePath) (w : c.World)
      → c.at (c.mount_top_level source m w).1 p ≡ c.at w p
  pub at-unmount : (m p : FilePath) (w : c.World) → c.at (c.unmount m w).1 p ≡ c.at w p
  pub at-sync : (m p : FilePath) (w : c.World) → c.at (c.sync_filesystem m w).1 p ≡ c.at w p
  pub at-list : (m p : FilePath) (w : c.World) → c.at (c.list_subvolumes m w).1 p ≡ c.at w p
  pub at-snapshot :
      (source destination p : FilePath) (w : c.World)
      → c.at w destination ≡ none
      → inside p destination ≡ false
      → c.at (c.create_writable_snapshot source destination w).1 p
        ≡ outcome
            (c.at w)
            (copied (c.at w) source destination)
            (c.create_writable_snapshot source destination w).0
            p
  pub at-move :
      (source destination p : FilePath) (w : c.World)
      → inside p source ≡ false
      → inside p destination ≡ false
      → c.at (c.move_subvolume source destination w).1 p
        ≡ outcome
            (c.at w)
            (moved (c.at w) source destination)
            (c.move_subvolume source destination w).0
            p
