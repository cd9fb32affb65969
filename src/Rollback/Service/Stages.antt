-- ===== src/Rollback/Service/Stages.antt =====
-- The subvolumes after each step of `execute`: how far the try block came, and what is then there.
use limine_manager.Prelude.{
  ℕ, ◌≡◌, refl, ◌∙◌, Bool, true, false, Option, none, Result, ok, err, Error, arith,
}
use limine_manager.FilePath.{FilePath}
use limine_manager.Exec.{Exec, modify, throw_if}
use limine_manager.Exec.Triples.{Post, Triple, bind}
use limine_manager.Domain.Rollback.{RollbackPlan}
use limine_manager.Rollback.Client.{BtrfsClient, IsLawful, inside, moved, copied, outcome}
use limine_manager.Rollback.Service.{RollbackResult, Paths, Run, call, finish, switch}

abbrev View : Type 0
View = FilePath → Option ℕ

pub data Stage : Type 0 where
  begun is_mounted created preserved switched : Stage

-- a path that is not inside one of the four that `execute` moves
pub record Outside (p : Paths) (q : FilePath) : Type 0 where
  pub of_target : inside q p.target ≡ false
  pub of_preserved : inside q p.preserved ≡ false
  pub of_replacement : inside q p.replacement ≡ false
  pub of_failed : inside q p.failed ≡ false

-- no subvolume of a plan is inside another that is moved
pub record IsUnnested (p : Paths) : Type 0 where
  pub source : Outside p p.source
  pub target : Outside p p.target
  pub preserved : Outside p p.preserved
  pub replacement : Outside p p.replacement
  pub failed : Outside p p.failed

-- What the subvolumes are at each stage, from what they were.
abbrev pub view_at : Paths → View → Stage → View
view_at p v begun = v
view_at p v is_mounted = v
view_at p v created = copied v p.source p.replacement
view_at p v preserved = moved (copied v p.source p.replacement) p.target p.preserved
view_at p v switched =
    moved (moved (copied v p.source p.replacement) p.target p.preserved) p.replacement p.target

-- The four flags at each stage.
abbrev pub flags_at : Stage → Bool × Bool × Bool × Bool
flags_at begun = (false, false, false, false)
flags_at is_mounted = (true, false, false, false)
flags_at created = (true, true, false, false)
flags_at preserved = (true, true, true, false)
flags_at switched = (true, true, true, true)

module _ (c : BtrfsClient) (lawful : IsLawful c) (plan : RollbackPlan) (p : Paths) (v : View) where
  open c use {World, at}

  -- The run sees the subvolumes of `g` with the flags of `f`.
  pub record Sees (g f : Stage) (s : Run World) : Type 0 where
    pub view : (q : FilePath) → Outside p q → at s.world q ≡ view_at p v g q
    pub mounted : s.mounted ≡ (flags_at f).0
    pub created : s.replacement_created ≡ (flags_at f).1
    pub preserved : s.target_preserved ≡ (flags_at f).2
    pub switched : s.target_switched ≡ (flags_at f).3

  -- Where a throw leaves the run: at one of the stages.
  pub record Stopped (s : Run World) : Type 0 where
    pub stage : Stage
    pub seen : Sees stage stage s

  -- The end of the try block.
  pub record Finished (r : RollbackResult) (s : Run World) : Type 0 where
    pub view : (q : FilePath) → Outside p q → at s.world q ≡ view_at p v switched q
    pub unmounted : s.mounted ≡ false
    pub preserved_is : r.preserved_subvolume ≡ plan.preserved_subvolume
    pub active_is : r.active_subvolume ≡ plan.target_subvolume

  -- A call that changes no subvolume.
  call_keeps :
      {A : Type 0} (g : Stage) (m : Exec World A)
      → ((q : FilePath) (w : World) → at (m w).1 q ≡ at w q)
      → Triple (Sees g g) (λ _. Sees g g) Stopped (call c m)
  call_keeps {A} g m same = record { run = λ s h. keep (m s.world).0 s h }
    where
      seen : (s : Run World) → Sees g g s → Sees g g (record s { world = (m s.world).1 })
      seen s h = record {
        view = λ q o. same q s.world ∙ h.view q o;
        mounted = h.mounted;
        created = h.created;
        preserved = h.preserved;
        switched = h.switched;
      }

      keep :
          (r : Result A) (s : Run World)
          → Sees g g s
          → Post (λ _. Sees g g) Stopped (r, record s { world = (m s.world).1 })
      keep (ok a) s h = seen s h
      keep (err e) s h = record { stage = g; seen = seen s h }

  -- A call that takes the subvolumes from `g` to `g'`, or throws and changes none.
  call_step :
      (g g' : Stage) (m : Exec World (Unit {0}))
      → ((w : World)
          → ((q : FilePath) → Outside p q → at w q ≡ view_at p v g q)
          → (q : FilePath) → Outside p q
          → at (m w).1 q ≡ outcome (view_at p v g) (view_at p v g') (m w).0 q)
      → Triple (Sees g g) (λ _. Sees g' g) Stopped (call c m)
  call_step g g' m moves = record { run = λ s h. step (m s.world).0 s h (moves s.world h.view) }
    where
      step :
          (r : Result (Unit {0})) (s : Run World)
          → Sees g g s
          → ((q : FilePath)
              → Outside p q
              → at (m s.world).1 q ≡ outcome (view_at p v g) (view_at p v g') r q)
          → Post (λ _. Sees g' g) Stopped (r, record s { world = (m s.world).1 })
      step (ok u) s h e = record {
        view = e;
        mounted = h.mounted;
        created = h.created;
        preserved = h.preserved;
        switched = h.switched;
      }
      step (err x) s h e = record {
        stage = g;
        seen = record {
          view = e;
          mounted = h.mounted;
          created = h.created;
          preserved = h.preserved;
          switched = h.switched;
        };
      }

  outcome_cong :
      (a b a' b' : View) (r : Result (Unit {0})) (q : FilePath)
      → a q ≡ a' q
      → b q ≡ b' q
      → outcome a b r q ≡ outcome a' b' r q
  outcome_cong a b a' b' (ok u) q h k = k
  outcome_cong a b a' b' (err e) q h k = h

  moved_cong :
      (a a' : View) (x y q : FilePath) → a x ≡ a' x → a q ≡ a' q → moved a x y q ≡ moved a' x y q
  moved_cong a a' x y q h k = ground (arith, h, k)

  copied_cong :
      (a a' : View) (x y q : FilePath) → a x ≡ a' x → a q ≡ a' q → copied a x y q ≡ copied a' x y q
  copied_cong a a' x y q h k = ground (arith, h, k)

  move_step :
      (g g' : Stage) (x y : FilePath)
      → Outside p x
      → ((q : FilePath) → Outside p q → (inside q x ≡ false) × (inside q y ≡ false))
      → ((q : FilePath) → moved (view_at p v g) x y q ≡ view_at p v g' q)
      → Triple (Sees g g) (λ _. Sees g' g) Stopped (call c (c.move_subvolume x y))
  move_step g g' x y start apart e = call_step g g' (c.move_subvolume x y) (λ w h q o.
      lawful.at-move x y q w (apart q o).0 (apart q o).1
      ∙ outcome_cong (at w) (moved (at w) x y) (view_at p v g) (view_at p v g') _ q (h q o)
          (moved_cong (at w) (view_at p v g) x y q (h x start) (h q o) ∙ e q))

  snapshot_step :
      IsUnnested p
      → v p.replacement ≡ none
      → Triple
          (Sees is_mounted is_mounted)
          (λ _. Sees created is_mounted)
          Stopped
          (call c (c.create_writable_snapshot p.source p.replacement))
  snapshot_step unnested free =
      call_step is_mounted created (c.create_writable_snapshot p.source p.replacement) (λ w h q o.
        lawful.at-snapshot p.source p.replacement q w (h p.replacement unnested.replacement ∙ free)
          o.of_replacement
        ∙ outcome_cong (at w) (copied (at w) p.source p.replacement) v
            (copied v p.source p.replacement) _ q (h q o)
            (copied_cong (at w) v p.source p.replacement q (h p.source unnested.source) (h q o)))

  -- Setting the flag of a step that was made.
  flag_step :
      (g f g' : Stage) (set : Run World → Run World)
      → ((s : Run World) → Sees g f s → Sees g' g' (set s))
      → Triple (Sees g f) (λ _. Sees g' g') Stopped (modify set)
  flag_step g f g' set h = record { run = h }

  throw_if_keeps :
      (g : Stage) (b : Bool) (e : Error) → Triple (Sees g g) (λ _. Sees g g) Stopped (throw_if b e)
  throw_if_keeps g true e = record { run = λ s h. record { stage = g; seen = h } }
  throw_if_keeps g false e = record { run = λ s h. h }

  finish-Triple : Triple (Sees switched switched) Finished Stopped (finish c plan p)
  unfolding finish
  finish-Triple =
      bind _ _
        (call_keeps switched (c.list_subvolumes p.mount_point)
          (λ q w. lawful.at-list p.mount_point q w))
        λ subvolumes. bind _ _ (throw_if_keeps switched _ _) λ _.
          bind _ _
            (call_keeps switched (c.sync_filesystem p.mount_point)
              (λ q w. lawful.at-sync p.mount_point q w))
            λ _.
              bind _ _
                (call_keeps switched (c.unmount p.mount_point)
                  (λ q w. lawful.at-unmount p.mount_point q w))
                λ _. record {
                  run = λ s h. record {
                    view = h.view;
                    unmounted = refl;
                    preserved_is = refl;
                    active_is = refl;
                  };
                }

  pub switch-Triple :
      IsUnnested p
      → v p.replacement ≡ none
      → Triple (Sees begun begun) Finished Stopped (switch c plan p)
  unfolding switch
  switch-Triple unnested free =
      bind _ _
        (call_keeps begun (c.mount_top_level plan.btrfs_source p.mount_point)
          (λ q w. lawful.at-mount plan.btrfs_source p.mount_point q w))
        λ _.
          bind _ _
            (flag_step begun begun is_mounted _ (λ s h. record {
              view = h.view;
              mounted = refl;
              created = h.created;
              preserved = h.preserved;
              switched = h.switched;
            }))
            λ _. bind _ _ (snapshot_step unnested free) λ _.
              bind _ _
                (flag_step created is_mounted created _ (λ s h. record {
                  view = h.view;
                  mounted = h.mounted;
                  created = refl;
                  preserved = h.preserved;
                  switched = h.switched;
                }))
                λ _.
                  bind _ _
                    (move_step created preserved p.target p.preserved unnested.target
                      (λ q o. (o.of_target, o.of_preserved)) (λ q. refl))
                    λ _.
                      bind _ _
                        (flag_step preserved created preserved _ (λ s h. record {
                          view = h.view;
                          mounted = h.mounted;
                          created = h.created;
                          preserved = refl;
                          switched = h.switched;
                        }))
                        λ _.
                          bind _ _
                            (move_step preserved switched p.replacement p.target
                              unnested.replacement (λ q o. (o.of_replacement, o.of_target))
                              (λ q. refl))
                            λ _.
                              bind _ _
                                (flag_step switched preserved switched _ (λ s h. record {
                                  view = h.view;
                                  mounted = h.mounted;
                                  created = h.created;
                                  preserved = h.preserved;
                                  switched = refl;
                                }))
                                λ _. finish-Triple
