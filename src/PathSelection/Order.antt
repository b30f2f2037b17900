-- ===== src/PathSelection/Order.antt =====
-- The order in which symex/src/general_assembly/path_selection.rs hands out the paths that were saved.
use symex.Common.{ℕ, zero, suc, ◌≡◌, refl, List, [], ◌∷◌, length, Outcome, ok, unwrap, ◌>>=◌}
use symex.Smt.Boolector.{Boolector}
use symex.Smt.Expr.{DExpr}
use symex.PathSelection.{SavedPath, Waiting, save_path, get_path}
use symex.PathSelection.Laws.{assert_each, get_path-save_path}

module _ ⦃b : Boolector⦄ where
  -- A path that was saved, and what was asserted after it: the last one first.
  abbrev pub Saved : Type 0
  Saved = List (SavedPath × List DExpr)

  abbrev pub saved_paths : Saved → List SavedPath
  saved_paths [] = []
  saved_paths ((path, cs) ∷ older) = path ∷ saved_paths older

  unfoldable pub save_all : Saved → Waiting → Waiting
  save_all [] w = w
  save_all ((path, cs) ∷ older) w =
      let saved = save_path path (save_all older w) in
      record saved { solver = assert_each cs saved.solver }

  -- So many paths are taken, one after the other.
  unfoldable pub take_all : {E : Type 0} → ℕ → Waiting → Outcome E (List SavedPath × Waiting)
  take_all zero w = ok ([], w)
  take_all (suc n) w = do
    (next, w) ← get_path w
    path ← unwrap next
    (paths, w) ← take_all n w
    ok (path ∷ paths, w)

  -- Whatever was saved, and asserted in between, every path is handed out after as many calls as
  -- paths were saved, the last one first, and the paths and the solver from before are left.
  pub take_all-save_all :
      {E : Type 0} (saved : Saved) (w : Waiting)
      → take_all {E = E} (length saved) (save_all saved w) ≡ ok (saved_paths saved, w)
  unfolding take_all save_all
  take_all-save_all [] w = refl
  take_all-save_all {E} ((path, cs) ∷ older) w =
      rw (get_path-save_path {E = E} path (save_all older w) cs, take_all-save_all {E = E} older w)
        refl
