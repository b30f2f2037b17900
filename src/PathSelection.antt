-- ===== src/PathSelection.antt =====
-- symex/src/general_assembly/path_selection.rs: depth-first path selection. The source's vector
-- of paths is a list here, its last element first.
pub mod Laws
pub mod Order
use symex.Common.{ℕ, List, [], ◌∷◌, length, Option, none, some, Outcome, ok, ◌>>=◌}
use symex.Smt.Boolector.{Boolector}
use symex.Smt.Expr.{DExpr}
use symex.Smt.Solver.{Solver, push, pop}
use symex.State.{GaState}

module _ ⦃b : Boolector⦄ where
  pub record SavedPath : Type 0 where
    pub state : GaState
    pub constraints : List DExpr

  -- `Path::new`.
  unfoldable pub new_path : GaState → Option DExpr → SavedPath
  new_path state constraint = record {
    state = state;
    constraints = elim constraint [ some c ↦ c ∷ [] | none ↦ [] ];
  }

  -- The waiting paths, with the solver that their states share.
  pub record Waiting : Type 0 where
    pub paths : List SavedPath
    pub solver : Solver

  unfoldable pub save_path : SavedPath → Waiting → Waiting
  save_path path w = record { paths = path ∷ w.paths; solver = push w.solver }

  take_path : {E : Type 0} → List SavedPath → Solver → Outcome E (Option SavedPath × Waiting)
  take_path [] s = ok (none, record { paths = []; solver = s })
  take_path (path ∷ paths) s = do s' ← pop s; ok (some path, record { paths = paths; solver = s' })

  unfoldable pub get_path : {E : Type 0} → Waiting → Outcome E (Option SavedPath × Waiting)
  unfolding take_path
  get_path w = take_path w.paths w.solver

  unfoldable pub waiting_paths : Waiting → ℕ
  waiting_paths w = length w.paths
