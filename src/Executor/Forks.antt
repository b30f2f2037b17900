-- ===== src/Executor/Forks.antt =====
-- Forking the state of symex/src/general_assembly/executor.rs: how the present path and the
-- saved one share the assignments.
use symex.Common.{
  ℕ, ◌-◌, ◌≡◌, ◌<◌, ◌≢◌, ◌⊎◌, refl, List, [], ◌∷◌, some, ok, Returns, inl, inr, arith, ◌==◌,
  Bool-cases,
}
use symex.Errors.{GaError}
use symex.Smt.Boolector.{Boolector}
use symex.Smt.Expr.{DExpr, not_expr}
use symex.Smt.Means.{Means, Means-lt}
use symex.Smt.Resize.{not_expr-Means}
use symex.Smt.Solver.{Solver, asserted, push, assert_constraint}
use symex.Smt.Solver.Laws.{Satisfies}
use symex.State.{GaState}
use symex.PathSelection.{SavedPath, new_path, save_path, get_path, Waiting}
use symex.PathSelection.Laws.{assert_each, get_path-save_path}
use symex.Executor.Monad.{GaExecutor, ◌>>◌, fork, assert_on_path}

module _ ⦃b : Boolector⦄ where
  -- What a path that is taken starts with: the saved state, and its constraints asserted.
  pub record ResumesWith (w : Waiting) (s : GaState) (cs : List DExpr) : Type 0 where
    pub path : SavedPath
    pub rest : Waiting
    pub taken : get_path {E = GaError} w ≡ ok (some path, rest)
    pub same_state : path.state ≡ s
    pub constraints : asserted (assert_each path.constraints rest.solver) ≡ cs

  pub asserted-assert : (s : Solver) (c : DExpr) → asserted (assert_constraint s c) ≡ c ∷ asserted s
  unfolding assert_constraint
  asserted-assert s c = by_frames s.frames
    where
      by_frames :
          (fs : List (List DExpr))
          → asserted (assert_constraint (record s { frames = fs }) c)
            ≡ c ∷ asserted (record s { frames = fs })
      by_frames [] = refl
      by_frames (f ∷ fs) = refl

  -- The value of a condition, and of its negation.
  one_of : (c n : ℕ) → c < 2 → n ≡ 1 - c → (c ≡ 1) × (n ≢ 1) ⊎ (c ≢ 1) × (n ≡ 1)
  one_of c n h k = elim (Bool-cases (c == 1)) [
    | inl t ↦ inl (ground arith, ground arith)
    | inr f ↦ inr (ground arith, ground arith)
  ]

  pub negation :
      (c : DExpr) (e : b.Env)
      → b.width c ≡ 1
      → (b.value e c ≡ 1) × (b.value e (not_expr c) ≢ 1)
        ⊎ (b.value e c ≢ 1) × (b.value e (not_expr c) ≡ 1)
  negation c e w =
      let m : Means 1 (λ e. b.value e c) c = record { has_width = w; has_value = λ e. refl } in
      one_of _ _ (Means-lt m e) ((not_expr-Means m).has_value e)

  -- The fork of a path on a condition: the path goes on where the condition holds, and the saved
  -- path is resumed in the same state where it does not, whatever is asserted in between. Each
  -- assignment that satisfied the path before satisfies exactly one of the two.
  pub fork-splits :
      (c : DExpr) (x : GaExecutor) (e : b.Env)
      → b.width c ≡ 1
      → Satisfies e (asserted x.solver)
      → Returns ((fork (not_expr c) >> assert_on_path c) x) (λ r.
        let after = r.1 in
        (asserted after.solver ≡ c ∷ asserted x.solver)
        × ((cs : List DExpr)
            → ResumesWith
                (record { paths = after.paths; solver = assert_each cs after.solver })
                x.state
                (not_expr c ∷ asserted x.solver))
        × (Satisfies e (asserted after.solver) × ¬ Satisfies e (not_expr c ∷ asserted x.solver)
            ⊎ (¬ Satisfies e (asserted after.solver))
              × Satisfies e (not_expr c ∷ asserted x.solver)))
  unfolding fork new_path save_path push
  fork-splits c x e w holds =
      let waiting : Waiting = record { paths = x.paths; solver = x.solver } in
      let path = new_path x.state (some (not_expr c)) in
      let grown : asserted (assert_constraint (push x.solver) c) ≡ c ∷ asserted x.solver =
        asserted-assert (push x.solver) c in
      (
        _,
        refl,
        (
          grown,
          λ cs.
              let r : ResumesWith
                  (record {
                    paths = path ∷ x.paths;
                    solver = assert_each cs (assert_constraint (push x.solver) c);
                  })
                  x.state (not_expr c ∷ asserted x.solver) =
                record {
                  path = path;
                  rest = waiting;
                  taken = get_path-save_path path waiting (c ∷ cs);
                  same_state = refl;
                  constraints = asserted-assert x.solver (not_expr c);
                } in
              r,
          rw grown (elim (negation c e w) [
            | inl (one, none_else) ↦ inl ((one, holds), λ s. none_else s.0)
            | inr (none_else, one) ↦ inr ((λ s. none_else s.0), (one, holds))
          ]),
        ),
      )
