-- ===== src/Rollback/Service/Outcomes.antt =====
-- `RollbackService::execute` as a whole: what it returns, and what it leaves when it throws.
use limine_manager.Prelude.{
  ℕ, ◌≡◌, refl, ◌≢◌, ◌∙◌, sym, ap, ◌⊎◌, inl, inr, Option, none, text, Bool-cases, Result, ok, err,
  Error, runtime_error,
}
use limine_manager.FilePath.{FilePath}
use limine_manager.Exec.{continue, on_error}
use limine_manager.Exec.Triples.{Post}
use limine_manager.Domain.Rollback.{RollbackPlan}
use limine_manager.Rollback.Client.{BtrfsClient, IsLawful, copied}
use limine_manager.Rollback.Service.{
  RollbackResult, Paths, paths_of, Run, switch, recover, fresh, attempt, execute, is_complete,
}
use limine_manager.Rollback.Service.Stages.{
  Outside, IsUnnested, preserved, switched, view_at, Stopped, Finished, switch-Triple,
}
use limine_manager.Rollback.Service.Recovery.{
  IsDistinct, Kept, Kept-on_error, moved_elsewhere, copied_elsewhere, moved_end, copied_end,
  moved_start, view_preserved_switched, ne_sym,
}

module _ (c : BtrfsClient) (lawful : IsLawful c) (runtime : FilePath) (plan : RollbackPlan) where
  open c use {World, at}

  -- A call is refused with the world unchanged, or it is the attempt.
  pub execute_cases :
      (lock : Result (Unit {0})) (w : World)
      → ((e : Error) × (execute c runtime lock plan w ≡ (err e, w)))
        ⊎ (execute c runtime lock plan w ≡ attempt c runtime plan w)
  unfolding execute
  execute_cases lock w = elim (Bool-cases plan.eligible) [
    | inr e ↦ inl (runtime_error (text "rollback plan is not eligible"), simp e)
    | inl e ↦ elim (Bool-cases (is_complete plan)) [
      | inr f ↦ inl (runtime_error (text "rollback plan is incomplete"), simp (e, f))
      | inl f ↦ simp (e, f) (locked lock)
    ]
  ]
    where
      locked :
          (l : Result (Unit {0}))
          → ((e : Error) × (continue l (λ _. attempt c runtime plan) w ≡ (err e, w)))
            ⊎ (continue l (λ _. attempt c runtime plan) w ≡ attempt c runtime plan w)
      locked (ok u) = inr refl
      locked (err e) = inl (e, refl)

  module _ (w : World) (unnested : IsUnnested (paths_of runtime plan))
      (free : at w (paths_of runtime plan).replacement ≡ none) where
    abbrev p : Paths
    p = paths_of runtime plan

    -- The end of the try block, as its triple says.
    pub switch-Post :
        Post
          (Finished c lawful plan p (at w))
          (Stopped c lawful plan p (at w))
          (switch c plan p (fresh c w))
    switch-Post = (switch-Triple c lawful plan p (at w) unnested free).run (fresh c w) (record {
      view = λ q o. refl;
      mounted = refl;
      created = refl;
      preserved = refl;
      switched = refl;
    })

    attempt-Kept :
        (distinct : IsDistinct p)
        → Kept c lawful plan p distinct (at w) (attempt c runtime plan w).1
    unfolding attempt
    attempt-Kept distinct =
        let (r, s) = switch c plan p (fresh c w) in
        Kept-on_error c lawful plan p distinct (at w) r s switch-Post

    attempt-Finished :
        (r : RollbackResult)
        → (attempt c runtime plan w).0 ≡ ok r
        → (q : FilePath) → Outside p q
        → at (attempt c runtime plan w).1 q ≡ view_at p (at w) switched q
    unfolding attempt
    attempt-Finished r h q o =
        let (r', s) = switch c plan p (fresh c w) in finished r' s switch-Post h
      where
        finished :
            (r' : Result RollbackResult) (s : Run World)
            → Post (Finished c lawful plan p (at w)) (Stopped c lawful plan p (at w)) (r', s)
            → (on_error (recover c p) (λ _. (r', s)) s).0 ≡ ok r
            → at (on_error (recover c p) (λ _. (r', s)) s).1.world q ≡ view_at p (at w) switched q
        finished (ok a) s f e = f.view q o
        finished (err x) s f e = cc

-- Whatever call of the client fails and wherever `execute` stops, the main root's tree is at the
-- target or at the preserved name, and the snapshot is as it was, for five different paths of
-- which none is inside another and the replacement was free.
pub execute-Kept :
    (c : BtrfsClient) (lawful : IsLawful c) (runtime : FilePath) (lock : Result (Unit {0}))
    (plan : RollbackPlan) (w : c.World)
    → IsDistinct (paths_of runtime plan)
    → c.at w (paths_of runtime plan).replacement ≡ none
    → ((c.at (execute c runtime lock plan w).1 (paths_of runtime plan).target
          ≡ c.at w (paths_of runtime plan).target)
        ⊎ (c.at (execute c runtime lock plan w).1 (paths_of runtime plan).preserved
            ≡ c.at w (paths_of runtime plan).target))
      × (c.at (execute c runtime lock plan w).1 (paths_of runtime plan).source
          ≡ c.at w (paths_of runtime plan).source)
execute-Kept c lawful runtime lock plan w distinct free =
    elim (execute_cases c lawful runtime plan lock w) [
      | inl (e, refused) ↦ rw refused (inl refl, refl)
      | inr made ↦
          let k = attempt-Kept c lawful runtime plan w distinct.unnested free distinct in
          rw made (k.root_kept, k.source_kept)
    ]

module _ (p : Paths) (distinct : IsDistinct p) (v : FilePath → Option ℕ) where
  open distinct use {target_preserved, target_replacement, preserved_replacement}

  pub replacement_preserved : view_at p v preserved p.replacement ≡ v p.source
  replacement_preserved =
      moved_elsewhere (copied v p.source p.replacement) p.target p.preserved p.replacement
        (ne_sym target_replacement) (ne_sym preserved_replacement)
      ∙ copied_end v p.source p.replacement

  pub target_switched : view_at p v switched p.target ≡ v p.source
  target_switched = moved_end (view_at p v preserved) p.replacement p.target ∙ replacement_preserved

  replacement_switched : view_at p v switched p.replacement ≡ none
  replacement_switched =
      moved_start (view_at p v preserved) p.replacement p.target (ne_sym target_replacement)

  pub elsewhere_switched :
      (q : FilePath)
      → q ≢ p.target
      → q ≢ p.preserved
      → q ≢ p.replacement
      → view_at p v switched q ≡ v q
  elsewhere_switched q t s r =
      moved_elsewhere (view_at p v preserved) p.replacement p.target q r t
      ∙ moved_elsewhere (copied v p.source p.replacement) p.target p.preserved q t s
      ∙ copied_elsewhere v p.source p.replacement q r

abbrev pub Undisturbed : Paths → (FilePath → Option ℕ) → (FilePath → Option ℕ) → Type 0
Undisturbed p before after =
    (q : FilePath)
    → Outside p q
    → q ≢ p.target
    → q ≢ p.preserved
    → q ≢ p.replacement
    → after q ≡ before q

-- When `execute` returns, for five different paths of which none is inside another and the
-- replacement was free, the target holds a copy of the snapshot, the preserved name holds the old
-- root, the replacement name is free again, and every other path is as it was that is not inside
-- the target or one of the three new names.
pub execute_switches :
    (c : BtrfsClient) (lawful : IsLawful c) (runtime : FilePath) (lock : Result (Unit {0}))
    (plan : RollbackPlan) (w : c.World) (r : RollbackResult)
    → IsDistinct (paths_of runtime plan)
    → c.at w (paths_of runtime plan).replacement ≡ none
    → (execute c runtime lock plan w).0 ≡ ok r
    → (c.at (execute c runtime lock plan w).1 (paths_of runtime plan).target
        ≡ c.at w (paths_of runtime plan).source)
      × (c.at (execute c runtime lock plan w).1 (paths_of runtime plan).preserved
          ≡ c.at w (paths_of runtime plan).target)
      × (c.at (execute c runtime lock plan w).1 (paths_of runtime plan).replacement ≡ none)
      × Undisturbed (paths_of runtime plan) (c.at w) (c.at (execute c runtime lock plan w).1)
execute_switches c lawful runtime lock plan w r distinct free h =
    elim (execute_cases c lawful runtime plan lock w) [
      | inl (e, refused) ↦ absurd (refusal (sym (ap (λ x. x.0) refused) ∙ h))
      | inr made ↦ rw made (
          switched_view (
            attempt-Finished c lawful runtime plan w distinct.unnested free r
              (sym (ap (λ x. x.0) made) ∙ h)))
    ]
  where
    refusal : {e : Error} → ◌≡◌ {A = Result RollbackResult} (err e) (ok r) → ⊥
    refusal e = cc

    switched_view :
        ((q : FilePath)
          → Outside (paths_of runtime plan) q
          → c.at (attempt c runtime plan w).1 q
            ≡ view_at (paths_of runtime plan) (c.at w) switched q)
        → (c.at (attempt c runtime plan w).1 (paths_of runtime plan).target
            ≡ c.at w (paths_of runtime plan).source)
          × (c.at (attempt c runtime plan w).1 (paths_of runtime plan).preserved
              ≡ c.at w (paths_of runtime plan).target)
          × (c.at (attempt c runtime plan w).1 (paths_of runtime plan).replacement ≡ none)
          × Undisturbed (paths_of runtime plan) (c.at w) (c.at (attempt c runtime plan w).1)
    switched_view e =
        let p = paths_of runtime plan in
        let v = c.at w in
        (
          e p.target distinct.unnested.target ∙ target_switched p distinct v,
          e p.preserved distinct.unnested.preserved ∙ view_preserved_switched p distinct v,
          e p.replacement distinct.unnested.replacement ∙ replacement_switched p distinct v,
          λ q o t s r'. e q o ∙ elsewhere_switched p distinct v q t s r',
        )
