-- ===== src/Menu/Selection.antt =====
-- include/limine_manager/application/snapshot_selector.hpp.
use limine_manager.Prelude.{
  true, all_of, ℕ, zero, suc, ◌≤◌, ◌+◌, ◌≡◌, refl, Bool, not, ◌&&◌, ◌||◌, List, [], ◌∷◌, leb, ◌==◌,
  if◌then◌else◌, keep_if, take, arith,
}
use limine_manager.Model.{SnapshotInfo, AppConfig}

-- std::sort by falling number, as insertion
insert_snapshot : SnapshotInfo → List SnapshotInfo → List SnapshotInfo
insert_snapshot s [] = s ∷ []
insert_snapshot s (t ∷ ts) =
    let later = insert_snapshot s ts in if leb t.number s.number then s ∷ t ∷ ts else t ∷ later

pub sort_snapshots : List SnapshotInfo → List SnapshotInfo
unfolding insert_snapshot
sort_snapshots [] = []
sort_snapshots (s ∷ ss) = insert_snapshot s (sort_snapshots ss)

abbrev pub is_offered : AppConfig → SnapshotInfo → Bool
is_offered config snapshot = snapshot.read_only || config.include_read_write_snapshots

-- the loop of `select_menu_snapshots`, with the number of those selected
select_from : AppConfig → ℕ → List SnapshotInfo → List SnapshotInfo
select_from config selected [] = []
select_from config selected (snapshot ∷ rest) =
    let skipped = select_from config selected rest in
    let more = select_from config (suc selected) rest in
    if not snapshot.read_only && not config.include_read_write_snapshots
    then skipped
    else if not (config.max_snapshots == 0) && leb config.max_snapshots selected
    then []
    else snapshot ∷ more

unfoldable pub select_menu_snapshots : List SnapshotInfo → AppConfig → List SnapshotInfo
unfolding select_from sort_snapshots
select_menu_snapshots snapshots config = select_from config 0 (sort_snapshots snapshots)

select_from_full :
    (config : AppConfig) (selected : ℕ) (snapshots : List SnapshotInfo)
    → config.max_snapshots ≤ selected
    → (config.max_snapshots ≡ 0 → ⊥)
    → select_from config selected snapshots ≡ []
unfolding select_from
select_from_full config selected [] h n = refl
select_from_full config selected (s ∷ ss) h n =
    ground (arith, select_from_full config selected ss h n)

select_from-take :
    (config : AppConfig) (selected left : ℕ) (snapshots : List SnapshotInfo)
    → config.max_snapshots ≡ selected + left
    → (config.max_snapshots ≡ 0 → ⊥)
    → select_from config selected snapshots ≡ take left (keep_if (is_offered config) snapshots)
unfolding select_from
select_from-take config selected zero snapshots h n =
    select_from_full config selected snapshots (omega arith) n
select_from-take config selected (suc left) [] h n = refl
select_from-take config selected (suc left) (s ∷ ss) h n = ground (
  arith,
  select_from-take config selected (suc left) ss h n,
  select_from-take config (suc selected) left ss,
)

select_from_unbounded :
    (config : AppConfig) (selected : ℕ) (snapshots : List SnapshotInfo)
    → config.max_snapshots ≡ 0
    → select_from config selected snapshots ≡ keep_if (is_offered config) snapshots
unfolding select_from
select_from_unbounded config selected [] h = refl
select_from_unbounded config selected (s ∷ ss) h = ground (
  arith,
  select_from_unbounded config selected ss h,
  select_from_unbounded config (suc selected) ss h,
)

-- The selected snapshots are those that may be offered, in the order of `sort_snapshots`: all of
-- them where the bound is 0, and otherwise the first ones, as many as the bound.
pub select_menu_snapshots-take :
    (snapshots : List SnapshotInfo) (config : AppConfig)
    → select_menu_snapshots snapshots config ≡ (
        if config.max_snapshots == 0
        then keep_if (is_offered config) (sort_snapshots snapshots)
        else take config.max_snapshots (keep_if (is_offered config) (sort_snapshots snapshots)))
unfolding select_menu_snapshots
select_menu_snapshots-take snapshots config = ground (
  arith,
  select_from_unbounded config 0 (sort_snapshots snapshots),
  select_from-take config 0 config.max_snapshots (sort_snapshots snapshots),
)

abbrev pub is_older : SnapshotInfo → SnapshotInfo → Bool
is_older s t = leb t.number s.number

-- every snapshot is followed by none with a higher number
abbrev pub newest_first : List SnapshotInfo → Bool
newest_first [] = true
newest_first (s ∷ ss) = all_of (is_older s) ss && newest_first ss

all_of-select_from :
    (p : SnapshotInfo → Bool) (config : AppConfig) (n : ℕ) (ss : List SnapshotInfo)
    → all_of p ss ≡ true
    → all_of p (select_from config n ss) ≡ true
unfolding select_from
all_of-select_from p config n [] h = refl
all_of-select_from p config n (s ∷ ss) h =
    ground (arith, all_of-select_from p config n ss, all_of-select_from p config (suc n) ss)

newest_first-select_from :
    (config : AppConfig) (n : ℕ) (ss : List SnapshotInfo)
    → newest_first ss ≡ true
    → newest_first (select_from config n ss) ≡ true
unfolding select_from
newest_first-select_from config n [] h = refl
newest_first-select_from config n (s ∷ ss) h = ground (
  arith,
  newest_first-select_from config n ss,
  newest_first-select_from config (suc n) ss,
  all_of-select_from (is_older s) config (suc n) ss,
)

all_of-insert_snapshot :
    (p : SnapshotInfo → Bool) (s : SnapshotInfo) (ss : List SnapshotInfo)
    → p s ≡ true
    → all_of p ss ≡ true
    → all_of p (insert_snapshot s ss) ≡ true
unfolding insert_snapshot
all_of-insert_snapshot p s [] h k = ground arith
all_of-insert_snapshot p s (t ∷ ts) h k = ground (arith, all_of-insert_snapshot p s ts h)

all_of-is_older :
    (s t : SnapshotInfo) (ss : List SnapshotInfo)
    → is_older s t ≡ true
    → all_of (is_older t) ss ≡ true
    → all_of (is_older s) ss ≡ true
all_of-is_older s t [] h k = refl
all_of-is_older s t (u ∷ us) h k = ground (arith, all_of-is_older s t us h)

newest_first-insert_snapshot :
    (s : SnapshotInfo) (ss : List SnapshotInfo)
    → newest_first ss ≡ true
    → newest_first (insert_snapshot s ss) ≡ true
unfolding insert_snapshot
newest_first-insert_snapshot s [] h = refl
newest_first-insert_snapshot s (t ∷ ts) h = ground (
  arith,
  newest_first-insert_snapshot s ts,
  all_of-insert_snapshot (is_older t) s ts,
  all_of-is_older s t ts,
)

newest_first-sort_snapshots : (ss : List SnapshotInfo) → newest_first (sort_snapshots ss) ≡ true
unfolding sort_snapshots
newest_first-sort_snapshots [] = refl
newest_first-sort_snapshots (s ∷ ss) =
    newest_first-insert_snapshot s (sort_snapshots ss) (newest_first-sort_snapshots ss)

-- Whatever order Snapper reports the snapshots in, the menu has them by falling number.
pub newest_first-select_menu_snapshots :
    (snapshots : List SnapshotInfo) (config : AppConfig)
    → newest_first (select_menu_snapshots snapshots config) ≡ true
unfolding select_menu_snapshots
newest_first-select_menu_snapshots snapshots config =
    newest_first-select_from config 0 (sort_snapshots snapshots)
      (newest_first-sort_snapshots snapshots)
