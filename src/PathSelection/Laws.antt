-- ===== src/PathSelection/Laws.antt =====
-- Saving and taking paths: the last saved path comes first, and the solver is as it was when the
-- path was saved, whatever was asserted since.
use symex.Common.{◌≡◌, refl, List, [], ◌∷◌, some, ok}
use symex.Smt.Boolector.{Boolector}
use symex.Smt.Expr.{DExpr}
use symex.Smt.Solver.{Solver, push, pop, assert_constraint}
use symex.PathSelection.{SavedPath, Waiting, save_path, get_path}

module _ ⦃b : Boolector⦄ where
  -- The constraints asserted on the solver one after the other.
  abbrev pub assert_each : List DExpr → Solver → Solver
  assert_each [] s = s
  assert_each (c ∷ cs) s = assert_each cs (assert_constraint s c)

  -- The level that `push` opened holds them, and `pop` drops it.
  pop-assert_each :
      {E : Type 0} (cs f : List DExpr) (s : Solver)
      → pop {E = E} (assert_each cs (record s { frames = f ∷ s.frames })) ≡ ok s
  unfolding pop assert_constraint
  pop-assert_each [] f s = refl
  pop-assert_each (c ∷ cs) f s = pop-assert_each cs (c ∷ f) s

  -- What is asserted after a path was saved is gone when the path is taken: the path, the other
  -- paths and the solver are those from before.
  pub get_path-save_path :
      {E : Type 0} (path : SavedPath) (w : Waiting) (cs : List DExpr)
      → get_path {E = E}
          (let saved = save_path path w in record saved { solver = assert_each cs saved.solver })
        ≡ ok (some path, w)
  unfolding get_path save_path push
  get_path-save_path path w cs = rw (pop-assert_each cs [] w.solver) refl
