-- ===== src/Executor/Instructions/Conditions.antt =====
-- `should_run`, the part of `execute_instruction` in symex/src/general_assembly/executor.rs that
-- decides whether an instruction of an IT block runs: against the assignments of the path.
use symex.Common.{
  ◌≡◌, ◌≢◌, ◌⊎◌, refl, Bool, true, false, List, ◌∷◌, none, some, Option-cases, Bool-cases, Outcome,
  ok, Returns, inl, inr, arith, ◌==◌, if◌then◌else◌,
}
use symex.Errors.{GaError}
use symex.Smt.Boolector.{Boolector}
use symex.Smt.Expr.{DExpr, get_constant_bool, not_expr}
use symex.Smt.Means.{Means}
use symex.Smt.Solver.{asserted}
use symex.Smt.Solver.Laws.{Decides, Satisfies, assumed_cases}
use symex.State.{GaState, Machine}
use symex.PathSelection.{SavedPath}
use symex.Project.{Project}
use symex.Executor.Monad.{
  GaExecutor, Exec, ◌>>=◌, ◌>>◌, return, call, on_machine, fork, assert_on_path,
}
use symex.Executor.Operations.{possible}

module _ ⦃b : Boolector⦄ where
  -- A step of a `do` block that returns, and what comes after it.
  pub step {ℓ κ ν} :
      {A : Type ℓ} {B : Type κ} {Q : B × GaExecutor → Type ν} (m : Exec A) (f : A → Exec B)
      {x x' : GaExecutor} {a : A}
      → m x ≡ ok (a, x')
      → Returns (f a x') Q
      → Returns ((m >>= f) x) Q
  step m f h k = rw (◌>>=◌, h) k

  pub called :
      {A : Type 0} {o : Outcome GaError A} {a : A} {x : GaExecutor}
      → o ≡ ok a
      → call o x ≡ ok (a, x)
  called h = rw h refl

  -- A method of the state that returns.
  pub on_machine-ok :
      {A : Type 0} (f : Machine → Outcome GaError (A × Machine)) (x : GaExecutor) (a : A)
      (m : Machine)
      → f (record { state = x.state; solver = x.solver }) ≡ ok (a, m)
      → on_machine f x ≡ ok (a, record x { state = m.state; solver = m.solver })
  on_machine-ok f x a m h = rw (on_machine, h) refl

  module _ (decides : Decides) (p : Project) where
    -- What an answer of the solver about a constraint says.
    pub possible-cases :
        (c : DExpr) (x : GaExecutor)
        → ((possible p c x ≡ ok (true, x))
            × (e : b.Env) × (b.value e c ≡ 1)
            × Satisfies e (asserted x.solver))
          ⊎ (possible p c x ≡ ok (false, x))
            × ((e : b.Env) → Satisfies e (asserted x.solver) → b.value e c ≢ 1)
    unfolding possible
    possible-cases c x = elim (assumed_cases decides x.solver c) [
      | inl (r, e, one, holds) ↦ inl (rw (possible, r) refl, e, one, holds)
      | inr (r, n) ↦ inr (rw (possible, r) refl, n)
    ]

    -- A condition that is a constant, or is not.
    pub get_constant_bool-cases :
        (c : DExpr)
        → b.width c ≡ 1
        → (get_constant_bool {E = GaError} c ≡ ok none)
          ⊎ (get_constant_bool {E = GaError} c ≡ ok (some true)) × ((e : b.Env) → b.value e c ≢ 0)
          ⊎ (get_constant_bool {E = GaError} c ≡ ok (some false)) × ((e : b.Env) → b.value e c ≡ 0)
    unfolding get_constant_bool
    get_constant_bool-cases c w = elim (Option-cases (b.constant c)) [
      | inl open_term ↦ inl (rw (get_constant_bool, w, open_term) refl)
      | inr (v, closed) ↦
          let value = b.constant-value c v closed in
          elim (Bool-cases (v == 0)) [
            | inl zero_value ↦ inr (
                inr (
                  rw (get_constant_bool, w, closed, zero_value) refl,
                  λ e. ground (arith, value e),
                ))
            | inr other ↦ inr (
                inl (rw (get_constant_bool, w, closed, other) refl, λ e h. ground (arith, value e)))
          ]
    ]

    -- A path that was saved since, with constraints that the assignment satisfies.
    abbrev pub Saved : b.Env → GaState → List SavedPath → List SavedPath → Type 0
    Saved e s before after =
        (path : SavedPath) × (after ≡ path ∷ before)
        × (path.state ≡ s)
        × Satisfies e path.constraints

    -- What becomes of the assignments of a path in `x` at a condition `c`: an instruction that
    -- runs keeps those that satisfy `c`, and the others are those of a saved path; one that does
    -- not run has none that satisfies `c`.
    pub record Decided (c : DExpr) (s : GaState) (x x' : GaExecutor) (run : Bool) : Type 0 where
      pub kept :
          run ≡ true
          → (e : b.Env) → Satisfies e (asserted x.solver)
          → b.value e c ≡ 1
          → Satisfies e (asserted x'.solver)
      pub only :
          run ≡ true
          → (e : b.Env) → Satisfies e (asserted x'.solver)
          → (b.value e c ≡ 1) × Satisfies e (asserted x.solver)
      pub saved :
          run ≡ true
          → (e : b.Env) → Satisfies e (asserted x.solver)
          → b.value e c ≢ 1
          → Saved e s x.paths x'.paths
      pub skipped :
          run ≡ false
          → ((e : b.Env) → Satisfies e (asserted x.solver) → b.value e c ≢ 1)
            × (x'.solver ≡ x.solver)
      pub state : x'.state ≡ s

    -- What `should_run` does about a condition that is not a constant.
    abbrev asked : DExpr → Exec Bool
    asked c = do
      true_possible ← possible p c
      false_possible ← possible p (not_expr c)
      if true_possible
          then (if false_possible
              then (do fork (not_expr c); assert_on_path c; return true)
              else return true)
          else return false
