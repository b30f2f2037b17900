-- ===== src/Executor/Addresses.antt =====
-- A symbolic address in symex/src/general_assembly/executor.rs: the forks of `resolve_address`
-- over its possible values, against the assignments of the path.
use symex.Common.{ℕ, ◌≡◌, ◌⊎◌, List, ◌∷◌, ◌++◌, Any, Option, some, unwrap}
use symex.Smt.Boolector.{Boolector}
use symex.Smt.Expr
use symex.Smt.Expr.{DExpr, get_constant}
use symex.Smt.Means.{Means}
use symex.Smt.Solver.{asserted, push}
use symex.Smt.Solver.Laws.{Satisfies}
use symex.Ga.Operation.{Operation}
use symex.State.{Instruction, ContinueInsideInstruction}
use symex.PathSelection.{SavedPath, new_path}
use symex.Project.{Project}
use symex.Executor.Monad.{GaExecutor, Exec, ◌>>=◌, ◌>>◌, call}
use symex.Executor.Operands.{Locals}

module _ ⦃b : Boolector⦄ (p : Project) (address : DExpr) (locals : Locals) (i : Instruction)
    (o : Operation) (operations : List Operation)
    (some_operations : i.operations ≡ o ∷ operations) where
  -- The address has one of the values.
  abbrev pub OneOf : b.Env → List DExpr → Type 0
  OneOf e ds = Any (λ d. b.value e d ≡ b.value e address) ds

  -- New paths were saved, one for each value.
  pub record Forked (ds : List DExpr) (x x' : GaExecutor) : Type 0 where
    pub saved : List SavedPath
    pub paths : x'.paths ≡ saved ++ x.paths
    pub same_path : asserted x'.solver ≡ asserted x.solver
    pub covered : (e : b.Env) → OneOf e ds → Any (λ path. Satisfies e path.constraints) saved
    pub instruction : x'.state.current_instruction ≡ some i

  one_fork : (k : Option ContinueInsideInstruction) (c : DExpr) (x : GaExecutor) → GaExecutor
  one_fork k c x =
      let s = record x.state { continue_in_instruction = k } in
      record x { state = s; paths = new_path s (some c) ∷ x.paths; solver = push x.solver }

  -- The path that goes on at the concrete address `a`, with the paths saved for the other values.
  pub record Chosen (a : ℕ) (ds : List DExpr) (x x' : GaExecutor) : Type 0 where
    pub saved : List SavedPath
    pub paths : x'.paths ≡ saved ++ x.paths
    pub only : (e : b.Env) → Satisfies e (asserted x'.solver) → OneOf e ds → b.value e address ≡ a
    pub covered :
        (e : b.Env)
        → Satisfies e (asserted x.solver)
        → OneOf e ds
        → (b.value e address ≡ a) × Satisfies e (asserted x'.solver)
          ⊎ Any (λ path. Satisfies e path.constraints) saved

  read_constant : DExpr → Exec ℕ
  read_constant d = do c ← call (get_constant d); call (unwrap c)
