-- ===== src/Executor/Fuel.antt =====
-- The loop of `resume_execution` in symex/src/general_assembly/executor.rs: rounds that suffice for
-- a result go on to suffice.
use symex.Common.{ℕ, Option, some, Outcome}
use symex.Errors.{GaError}
use symex.Smt.Boolector.{Boolector}
use symex.State.{Arch}
use symex.Project.{Project}
use symex.Executor.Monad.{GaExecutor, Exec, return, ◌>>=◌}
use symex.Executor.Instructions.{PathResult, Round, finished, go_on, rounds}

module _ ⦃b : Boolector⦄ (p : Project) (a : Arch) where
  -- What the rounds come to after a first one that came to `o`.
  abbrev after : ℕ → Outcome GaError (Round p × GaExecutor) → Exec (Option PathResult)
  after n o =
      (λ _. o) >>= λ r. elim r [ finished result ↦ return (some result) | go_on ↦ rounds p a n ]
