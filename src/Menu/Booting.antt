-- ===== src/Menu/Booting.antt =====
-- The menu's snapshot entries against the rollback planner: booting one is recognised.
use limine_manager.Prelude.{
  All, ℕ, ◌+◌, ◌-◌, ◌<◌, ◌≡◌, refl, ◌∙◌, sym, ap, true, some, [], ◌∷◌, ◌++◌, length, take, drop,
  append_assoc, length-append, drop-append, take-append, Text, text, text_eq_refl, ends_with,
  starts_with-append, ok, arith,
}
use limine_manager.Decimal.{
  to_string, ulong_limit, stoul-to_string, all_of-to_string, is_empty-to_string,
}
use limine_manager.Domain.KernelCmdline.{KernelCommandLine, parse, value, set}
use limine_manager.Domain.KernelCmdline.RoundTrip.{IsPrintable, parse-render}
use limine_manager.Domain.KernelCmdline.Lookup.{value-set}
use limine_manager.Rollback.Naming.{
  snapshot_prefix, sub_size, number_text, snapshot_suffix, parse_snapshot_number,
}
use limine_manager.Menu.Preview.{rootflags_for, snapshot_arguments, snapshot_cmdline}

-- the subvolume of a snapshot below the snapshots' own
abbrev pub snapshot_subvolume : Text → ℕ → Text
snapshot_subvolume snapshots_subvolume number =
    snapshots_subvolume ++ (b'/' ∷ (to_string number ++ text "/snapshot"))

sub_size_parts : (p d s : ℕ) → p + (d + s) < ulong_limit → sub_size (sub_size (p + (d + s)) p) s ≡ d
unfolding sub_size
sub_size_parts p d s h = omega arith

number_text-append :
    (prefix digits : Text)
    → length (prefix ++ (digits ++ snapshot_suffix)) < ulong_limit
    → number_text (prefix ++ (digits ++ snapshot_suffix)) prefix ≡ digits
unfolding number_text
number_text-append prefix digits h =
    let size : length (prefix ++ (digits ++ snapshot_suffix))
        ≡ length prefix + (length digits + length snapshot_suffix) =
      length-append prefix (digits ++ snapshot_suffix)
      ∙ ap (λ k. length prefix + k) (length-append digits snapshot_suffix) in
    let count =
      ap (λ k. sub_size (sub_size k (length prefix)) (length snapshot_suffix)) size
      ∙ sub_size_parts (length prefix) (length digits) (length snapshot_suffix)
          (omega (arith, size, h)) in
    ap
      (λ t.
        take
          (sub_size (sub_size (length (prefix ++ (digits ++ snapshot_suffix))) (length prefix))
            (length snapshot_suffix))
          t)
      (drop-append prefix (digits ++ snapshot_suffix))
    ∙ ap (λ k. take k (digits ++ snapshot_suffix)) count
    ∙ take-append digits snapshot_suffix

ends_with-append : (t suffix : Text) → ends_with (t ++ suffix) suffix ≡ true
unfolding ends_with
ends_with-append t suffix =
    let size = length-append t suffix in
    let cut : length (t ++ suffix) - length suffix ≡ length t = omega (arith, size) in
    let rest : drop (length (t ++ suffix) - length suffix) (t ++ suffix) ≡ suffix =
      ap (λ k. drop k (t ++ suffix)) cut ∙ drop-append t suffix in
    ground (arith, size, rest, text_eq_refl suffix)

parse_snapshot_number-append :
    (prefix : Text) (number : ℕ)
    → length (prefix ++ (to_string number ++ snapshot_suffix)) < ulong_limit
    → number < ulong_limit
    → (snapshots_subvolume : Text) → snapshot_prefix snapshots_subvolume ++ (b'/' ∷ []) ≡ prefix
    → parse_snapshot_number (prefix ++ (to_string number ++ snapshot_suffix)) snapshots_subvolume
      ≡ ok (some number)
unfolding parse_snapshot_number
parse_snapshot_number-append prefix number bound small snapshots_subvolume e =
    let current = prefix ++ (to_string number ++ snapshot_suffix) in
    let digits = number_text-append prefix (to_string number) bound in
    let ended =
      ap (λ t. ends_with t snapshot_suffix)
        (sym (append_assoc prefix (to_string number) snapshot_suffix))
      ∙ ends_with-append (prefix ++ to_string number) snapshot_suffix in
    let begun = starts_with-append prefix (to_string number ++ snapshot_suffix) in
    rw e (
      rw digits (
        rw begun (
          rw ended (
            rw (is_empty-to_string number, all_of-to_string number, stoul-to_string number small)
              refl))))

-- The command line that the menu renders for a snapshot is read back by `parse`, its `rootflags` name
-- a subvolume, and the rollback planner recognises that subvolume as the snapshot: for arguments
-- that `render` writes so that `parse` reads them, a snapshots' subvolume with no slash at its ends,
-- a number of 64 bits and a subvolume name whose length is one.
pub parse_snapshot_number-snapshot_cmdline :
    (cmdline : KernelCommandLine) (snapshots_subvolume : Text) (number : ℕ)
    → snapshot_prefix snapshots_subvolume ≡ snapshots_subvolume
    → length (snapshot_subvolume snapshots_subvolume number) < ulong_limit
    → number < ulong_limit
    → All IsPrintable (snapshot_arguments cmdline snapshots_subvolume number).arguments
    → (read : KernelCommandLine) × (parse (snapshot_cmdline cmdline snapshots_subvolume number)
        ≡ ok read)
      × (value read (text "rootflags")
          ≡ some (text "subvol=" ++ snapshot_subvolume snapshots_subvolume number))
      × (parse_snapshot_number (snapshot_subvolume snapshots_subvolume number) snapshots_subvolume
          ≡ ok (some number))
unfolding snapshot_cmdline snapshot_arguments
parse_snapshot_number-snapshot_cmdline cmdline snapshots_subvolume number bare bound small
      printable =
    let tail = to_string number ++ snapshot_suffix in
    let shape : snapshot_subvolume snapshots_subvolume number
        ≡ (snapshots_subvolume ++ (b'/' ∷ [])) ++ tail =
      sym (append_assoc snapshots_subvolume (b'/' ∷ []) tail) in
    (
      set cmdline (text "rootflags") (rootflags_for snapshots_subvolume number),
      parse-render (set cmdline (text "rootflags") (rootflags_for snapshots_subvolume number))
          printable,
      value_rootflags cmdline (rootflags_for snapshots_subvolume number)
          ∙ unfold rootflags_for in refl,
      ap (λ t. parse_snapshot_number t snapshots_subvolume) shape
          ∙ parse_snapshot_number-append (snapshots_subvolume ++ (b'/' ∷ [])) number
              (omega (arith, ap length shape, bound)) small snapshots_subvolume
              (ap (λ t. t ++ (b'/' ∷ [])) bare),
    )
  where
    value_rootflags :
        (c : KernelCommandLine) (flags : Text)
        → value (set c (text "rootflags") flags) (text "rootflags") ≡ some flags
    value_rootflags c flags =
        value-set c (text "rootflags") (text "rootflags") flags (unfold text in refl)
          (unfold text in refl)
        ∙ rw (text_eq_refl (text "rootflags")) refl
