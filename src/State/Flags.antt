-- ===== src/State/Flags.antt =====
-- The flags and condition codes of symex/src/general_assembly/state.rs.
pub mod Laws
use Prim.Native.String.{String}
use symex.Common.{
  ℕ, true, false, List, [], ◌∷◌, ◌++◌, Option, none, some, lookup, insert, Outcome, ok, panic,
  ◌>>=◌, unwrap,
}
use symex.Errors.{GaError}
use symex.Smt.Boolector.{Boolector}
use symex.Smt.Expr
use symex.Smt.Expr.{DExpr, simplify, not_expr, and, or, xor, from_bool}
use symex.Ga.Operation.{Condition}
use symex.State.{GaState}

module _ ⦃b : Boolector⦄ where
  unfoldable pub set_flag : String → DExpr → GaState → GaState
  set_flag flag expr s = record s { flags = insert flag (simplify (simplify expr)) s.flags }

  -- A flag that is not there is a `todo!`, so `get_flag(..).unwrap()` always has a value.
  unfoldable pub get_flag : String → GaState → Outcome GaError DExpr
  get_flag flag s = unwrap (lookup flag s.flags)

  unfoldable pub get_expr : Condition → GaState → Outcome GaError DExpr
  get_expr Condition.eq s = get_flag "Z" s
  get_expr Condition.ne s = do z ← get_flag "Z" s; ok (not_expr z)
  get_expr Condition.cs s = get_flag "C" s
  get_expr Condition.cc_clear s = do c ← get_flag "C" s; ok (not_expr c)
  get_expr Condition.mi s = get_flag "N" s
  get_expr Condition.pl s = do n ← get_flag "N" s; ok (not_expr n)
  get_expr Condition.vs s = get_flag "V" s
  get_expr Condition.vc s = do v ← get_flag "V" s; ok (not_expr v)
  get_expr Condition.hi s = do c ← get_flag "C" s; z ← get_flag "Z" s; ok (and c (not_expr z))
  get_expr Condition.ls s = do c ← get_flag "C" s; z ← get_flag "Z" s; ok (or (not_expr c) z)
  get_expr Condition.ge s = do n ← get_flag "N" s; v ← get_flag "V" s; ok (not_expr (xor n v))
  get_expr Condition.lt s = do n ← get_flag "N" s; v ← get_flag "V" s; Expr.ne n v
  get_expr Condition.gt s = do
    z ← get_flag "Z" s
    n ← get_flag "N" s
    v ← get_flag "V" s
    same ← Expr.eq n v
    ok (and (not_expr z) same)
  get_expr Condition.le s = do
    z ← get_flag "Z" s
    n ← get_flag "N" s
    v ← get_flag "V" s
    different ← Expr.ne n v
    ok (and z different)
  get_expr Condition.always s = ok (from_bool true)

  -- The conditions of an IT block wait in a queue.
  unfoldable pub add_instruction_conditions : List Condition → GaState → GaState
  add_instruction_conditions conditions s = record s {
    instruction_conditions = s.instruction_conditions ++ conditions;
  }

  next_condition : List Condition → GaState → Outcome GaError (Option DExpr × GaState)
  next_condition [] s = ok (none, s)
  next_condition (c ∷ cs) s = do
    let s' = record s { instruction_conditions = cs }
    expr ← elim (get_expr c s') [ Outcome.ok e ↦ ok e | _ ↦ panic ]
    ok (some expr, s')

  unfoldable pub get_next_instruction_condition_expression :
      GaState → Outcome GaError (Option DExpr × GaState)
  unfolding next_condition
  get_next_instruction_condition_expression s = next_condition s.instruction_conditions s
