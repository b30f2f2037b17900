-- ===== src/Smt/Solver.antt =====
-- symex/src/smt/smt_boolector/solver.rs: the incremental solver. The source shares one solver
-- among all states; here it is a value that is passed on.
pub mod Laws
use symex.Common.{
  ℕ, zero, suc, Bool, true, false, not, List, [], ◌∷◌, ◌++◌, Option, none, some, Outcome, ok, err,
  panic, ◌>>=◌, if◌then◌else◌,
}
use symex.Errors.{SolverError, too_many_solutions}
use symex.Smt.Boolector.{Boolector, SolverResult, sat, unsat, unknown}
use symex.Smt.Expr.{DExpr, ne, eq, get_constant}

pub data Solutions ⦃b : Boolector⦄ : Type 0 where
  exactly : List DExpr → Solutions
  at_least : List DExpr → Solutions

-- What is asserted: outside every `push`, and since each `push`, the last one first.
pub record Solver ⦃b : Boolector⦄ : Type 0 where
  pub base : List DExpr
  pub frames : List (List DExpr)

module _ ⦃b : Boolector⦄ where
  abbrev pub flat : List (List DExpr) → List DExpr → List DExpr
  flat [] base = base
  flat (f ∷ fs) base = f ++ flat fs base

  -- Everything that holds at present.
  abbrev pub asserted : Solver → List DExpr
  asserted s = flat s.frames s.base

  unfoldable pub push : Solver → Solver
  push s = record s { frames = [] ∷ s.frames }

  pop_frames : {E : Type 0} → Solver → List (List DExpr) → Outcome E Solver
  pop_frames s [] = panic
  pop_frames s (f ∷ fs) = ok (record s { frames = fs })

  -- Boolector aborts on a `pop` without a `push`.
  unfoldable pub pop : {E : Type 0} → Solver → Outcome E Solver
  unfolding pop_frames
  pop s = pop_frames s s.frames

  assert_frames : DExpr → Solver → List (List DExpr) → Solver
  assert_frames c s [] = record s { base = c ∷ s.base }
  assert_frames c s (f ∷ fs) = record s { frames = (c ∷ f) ∷ fs }

  -- `assert`: the constraint lasts until the `pop` of the present level.
  unfoldable pub assert_constraint : Solver → DExpr → Solver
  unfolding assert_frames
  assert_constraint s c = assert_frames c s s.frames

  unfoldable pub check_sat_result : SolverResult → Outcome SolverError Bool
  check_sat_result sat = ok true
  check_sat_result unsat = ok false
  check_sat_result unknown = err SolverError.unknown

  unfoldable pub is_sat : Solver → Outcome SolverError Bool
  unfolding check_sat_result
  is_sat s = check_sat_result (b.check (asserted s))

  -- The assumption is forgotten after the check.
  unfoldable pub is_sat_with_constraint : Solver → DExpr → Outcome SolverError Bool
  unfolding check_sat_result
  is_sat_with_constraint s c = check_sat_result (b.check (c ∷ asserted s))

  -- `get_a_solution`, read back as a constant.
  abbrev pub solution_of : Solver → DExpr → DExpr
  solution_of s expr = b.from_binary_str (b.solution (asserted s) expr)

  unfoldable pub get_value : Solver → DExpr → Outcome SolverError DExpr
  unfolding get_constant is_sat
  get_value s expr = do
    constant ← get_constant expr
    elim constant [
      | some v ↦ ok expr
      | none ↦ do
        possible ← is_sat s
        if possible then ok (solution_of s expr) else err SolverError.unsat
    ]

  -- The `while` loop of `get_solutions`, with `left` solutions wanted at most, and what follows it.
  unfoldable pub get_solutions :
      Solver → DExpr → ℕ → List DExpr → Outcome SolverError (Solutions × Solver)
  get_solutions s expr zero solutions = do
    exists_more_solutions ← is_sat s
    ok (if exists_more_solutions then at_least solutions else exactly solutions, s)
  get_solutions s expr (suc left) solutions = do
    let rest =
        λ (solution : DExpr) (s' : Solver). get_solutions s' expr left (solutions ++ solution ∷ [])
    more ← is_sat s
    elim more [
      | true ↦ do
        let solution = solution_of s expr
        other ← ne expr solution
        rest solution (assert_constraint s other)
      | false ↦ do
        exists_more_solutions ← is_sat s
        ok (if exists_more_solutions then at_least solutions else exactly solutions, s)
    ]

  unfoldable pub get_values : Solver → DExpr → ℕ → Outcome SolverError (Solutions × Solver)
  get_values s expr upper_bound = do
    constant ← get_constant expr
    elim constant [
      | some v ↦ ok (exactly (expr ∷ []), s)
      | none ↦ do
        (result, s') ← get_solutions (push s) expr upper_bound []
        s' ← pop s'
        ok (result, s')
    ]

  unfoldable pub must_be_equal : Solver → DExpr → DExpr → Outcome SolverError Bool
  must_be_equal s lhs rhs = do
    constraint ← ne lhs rhs
    result ← is_sat_with_constraint s constraint
    ok (not result)

  unfoldable pub can_equal : Solver → DExpr → DExpr → Outcome SolverError Bool
  can_equal s lhs rhs = do constraint ← eq lhs rhs; is_sat_with_constraint s constraint

  unfoldable pub get_solutions2 : Solver → DExpr → ℕ → Outcome SolverError (List DExpr × Solver)
  get_solutions2 s expr upper_bound = do
    (result, s') ← get_values s expr upper_bound
    elim result [ exactly solutions ↦ ok (solutions, s') | at_least _ ↦ err too_many_solutions ]
