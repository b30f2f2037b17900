-- ===== src/Executor/Monad.antt =====
-- `GAExecutor` of symex/src/general_assembly/executor.rs: the state under execution, the waiting
-- paths of its VM, and the code that works on them.
use symex.Common.{ℕ, Outcome, ok, err, panic, List, some}
use symex.Errors.{GaError}
use symex.Smt.Boolector.{Boolector}
use symex.Smt.Expr.{DExpr}
use symex.Smt.Solver.{Solver, assert_constraint}
use symex.State.{GaState, Action}
use symex.PathSelection.{SavedPath, save_path, new_path}

module _ ⦃b : Boolector⦄ where
  pub record GaExecutor : Type 0 where
    pub paths : List SavedPath
    pub state : GaState
    pub solver : Solver
    pub current_operation_index : ℕ

  abbrev pub Exec {ℓ} : Type ℓ → Type ℓ
  Exec A = GaExecutor → Outcome GaError (A × GaExecutor)

  infixl 5 ◌>>=◌ ◌>>◌
  abbrev pub ◌>>=◌ {ℓ κ} : {A : Type ℓ} {B : Type κ} → Exec A → (A → Exec B) → Exec B
  ◌>>=◌ m f x = elim (m x) [ ok (a, x') ↦ f a x' | err e ↦ err e | panic ↦ panic ]

  abbrev pub ◌>>◌ {ℓ} : {B : Type ℓ} → Exec (Unit {0}) → Exec B → Exec B
  m >> k = m >>= λ _. k

  abbrev pub return {ℓ} : {A : Type ℓ} → A → Exec A
  return a x = ok (a, x)

  -- A call that does not touch the executor.
  abbrev pub call {ℓ} : {A : Type ℓ} → Outcome GaError A → Exec A
  call (ok a) x = ok (a, x)
  call (err e) x = err e
  call panic x = panic

  -- A method of the state.
  abbrev pub on_machine {ℓ} : {A : Type ℓ} → Action A → Exec A
  on_machine f x = elim (f (record { state = x.state; solver = x.solver })) [
    | ok (a, m) ↦ ok (a, record x { state = m.state; solver = m.solver })
    | err e ↦ err e
    | panic ↦ panic
  ]

  abbrev pub get_state : Exec GaState
  get_state x = ok (x.state, x)

  abbrev pub update_state : (GaState → GaState) → Exec (Unit {0})
  update_state f x = ok (tt, record x { state = f x.state })

  -- A question to the solver.
  abbrev pub ask {ℓ} : {A : Type ℓ} → (Solver → Outcome GaError A) → Exec A
  ask f x = call (f x.solver) x

  -- `self.state.constraints.assert`.
  abbrev pub assert_on_path : DExpr → Exec (Unit {0})
  assert_on_path c x = ok (tt, record x { solver = assert_constraint x.solver c })

  -- `fork`: the present state is kept as a path, with one constraint.
  unfoldable pub fork : DExpr → Exec (Unit {0})
  unfolding save_path new_path
  fork c x =
      let w =
        save_path (new_path x.state (some c)) (record { paths = x.paths; solver = x.solver }) in
      ok (tt, record x { paths = w.paths; solver = w.solver })
