-- ===== src/Rollback/Naming.antt =====
-- The texts of src/application/rollback_planner.cpp: subvolume names and the snapshot number in
-- them; and `normalize_btrfs_source` of src/infrastructure/btrfs_client.cpp.
use limine_manager.Prelude.{
  ℕ, ◌+◌, ◌-◌, ◌%◌, Bool, not, ◌&&◌, ◌||◌, Option, none, some, [], ◌∷◌, ◌++◌, ◌==◌, if◌then◌else◌,
  length, is_empty, take, drop, all_of, any_of, Text, text, text_eq, starts_with, ends_with,
  has_char, before_char, drop_while, drop_last_while, Result, ok, ◌>>=◌, List,
}
use limine_manager.Decimal.{is_digit, stoul, ulong_limit}
use limine_manager.Domain.KernelCmdline.{KernelCommandLine, value}
use limine_manager.Model.{BtrfsSubvolume}

unfoldable pub normalize_btrfs_source : Text → Text
normalize_btrfs_source source =
    if has_char b'[' source && ends_with source (b']' ∷ []) then before_char b'[' source else source

unfoldable pub contains_subvolume : List BtrfsSubvolume → Text → Bool
contains_subvolume subvolumes path = any_of (λ item. text_eq item.path path) subvolumes

abbrev is_slash : ℕ → Bool
is_slash c = c == b'/'

unfoldable pub snapshot_prefix : Text → Text
unfolding drop_while drop_last_while
snapshot_prefix value = drop_last_while is_slash (drop_while is_slash value)

-- a - b as std::size_t
unfoldable pub sub_size : ℕ → ℕ → ℕ
sub_size a b = (a + ulong_limit - b) % ulong_limit

abbrev pub snapshot_suffix : Text
snapshot_suffix = text "/snapshot"

-- The digits between the prefix and the suffix; the length given to `substr` wraps where the two
-- overlap.
unfoldable pub number_text : Text → Text → Text
unfolding sub_size
number_text current prefix =
    take (sub_size (sub_size (length current) (length prefix)) (length snapshot_suffix))
      (drop (length prefix) current)

unfoldable pub parse_snapshot_number : Text → Text → Result (Option ℕ)
unfolding number_text snapshot_prefix
parse_snapshot_number current snapshots_subvolume =
    let prefix = snapshot_prefix snapshots_subvolume ++ (b'/' ∷ []) in
    let value = number_text current prefix in
    if not (starts_with current prefix) || not (ends_with current snapshot_suffix)
    then ok none
    else if is_empty value || not (all_of is_digit value)
    then ok none
    else (do n ← stoul value; ok (some n))

strip_subvol : Option Text → Text
unfolding drop_while
strip_subvol none = []
strip_subvol (some rootflags) =
    if not (starts_with rootflags (text "subvol="))
    then []
    else drop_while is_slash (drop (length (text "subvol=")) rootflags)

unfoldable pub rootflags_subvolume : KernelCommandLine → Text
unfolding strip_subvol
rootflags_subvolume cmdline = strip_subvol (value cmdline (text "rootflags"))
