-- ===== src/Tests/Solver.antt =====
-- The solver, forks and the waiting paths.
use symex.Common.{
  ◌≡◌, ◌≢◌, ◌⊎◌, refl, Bool, true, false, List, [], ◌∷◌, arith, ok, none, some, Returns,
}
use symex.Errors.{GaError}
use symex.Smt.Sample.{two_worlds, value}
use symex.Smt.Solver.{asserted, get_values, must_be_equal}
use symex.Smt.Solver.Laws.{Satisfies, Enumerates, get_values-Enumerates, must_be_equal-decides}
use symex.Smt.Expr.{not_expr}
use symex.PathSelection.{Waiting, new_path}
use symex.PathSelection.Laws.{assert_each}
use symex.PathSelection.Order.{Saved, save_all, take_all, take_all-save_all}
use symex.Executor.Monad.{GaExecutor, fork, assert_on_path, ◌>>◌}
use symex.Executor.Forks.{ResumesWith, fork-splits}
use symex.Ga.Operation.{Condition}
use symex.State.{GaState}
use symex.Tests.Samples.{two_worlds_decides, byte, carry, same, empty_solver, state}

get_values-Enumerates_example :
    Returns
      (get_values empty_solver byte 255)
      (λ r. Enumerates empty_solver byte r.0 × (r.1 ≡ empty_solver))
get_values-Enumerates_example =
    get_values-Enumerates empty_solver byte two_worlds_decides 255 true tt (omega arith)

must_be_equal-decides_example : Returns (must_be_equal empty_solver byte (same 5)) (λ t.
    (t ≡ true) × ((e : Bool) → Satisfies e [] → value e byte ≡ value e (same 5))
    ⊎ (t ≡ false) × (e : Bool) × Satisfies e [] × (value e byte ≢ value e (same 5)))
must_be_equal-decides_example =
    must_be_equal-decides two_worlds_decides empty_solver byte (same 5) refl

abbrev no_paths : Waiting
no_paths = record { paths = []; solver = empty_solver }

-- Two paths, and something asserted after each.
abbrev saved : Saved
saved =
    (new_path (record state { last_pc = 4 }) none, carry ∷ [])
    ∷ (new_path state (some carry), not_expr carry ∷ carry ∷ [])
    ∷ []

take_all-save_all_example :
    take_all {E = GaError} 2 (save_all saved no_paths)
    ≡ ok (new_path (record state { last_pc = 4 }) none ∷ new_path state (some carry) ∷ [], no_paths)
take_all-save_all_example = take_all-save_all saved no_paths

abbrev executor : GaExecutor
executor = record { paths = []; state = state; solver = empty_solver; current_operation_index = 0 }

fork-splits_example : Returns ((fork (not_expr carry) >> assert_on_path carry) executor) (λ r.
    let after = r.1 in
    (asserted after.solver ≡ carry ∷ [])
    × ((cs : List _)
        → ResumesWith
            (record { paths = after.paths; solver = assert_each cs after.solver })
            state
            (not_expr carry ∷ []))
    × (Satisfies true (asserted after.solver) × ¬ Satisfies true (not_expr carry ∷ [])
        ⊎ (¬ Satisfies true (asserted after.solver)) × Satisfies true (not_expr carry ∷ [])))
fork-splits_example = fork-splits carry executor true refl tt

-- A state in an IT block of one instruction, on the carry.
abbrev in_block : GaState
in_block = record state { instruction_conditions = Condition.cs ∷ [] }

abbrev conditional : GaExecutor
conditional = record executor { state = in_block }
