-- ===== src/Smt/Orders.antt =====
-- symex/src/smt/smt_boolector/expr.rs: the order tests, the remainder and the overflow tests of
-- products, which the executor of general assembly does not call.
use symex.Common.{Outcome}
use symex.Smt.Boolector.{Boolector}
use symex.Smt.Expr.{DExpr, same_len}

module _ ⦃b : Boolector⦄ where
  unfoldable pub ugt : {E : Type 0} → DExpr → DExpr → Outcome E DExpr
  unfolding same_len
  ugt = same_len b.ugt

  unfoldable pub ugte : {E : Type 0} → DExpr → DExpr → Outcome E DExpr
  unfolding same_len
  ugte = same_len b.ugte

  unfoldable pub ulte : {E : Type 0} → DExpr → DExpr → Outcome E DExpr
  unfolding same_len
  ulte = same_len b.ulte

  unfoldable pub sgt : {E : Type 0} → DExpr → DExpr → Outcome E DExpr
  unfolding same_len
  sgt = same_len b.sgt

  unfoldable pub sgte : {E : Type 0} → DExpr → DExpr → Outcome E DExpr
  unfolding same_len
  sgte = same_len b.sgte

  unfoldable pub slt : {E : Type 0} → DExpr → DExpr → Outcome E DExpr
  unfolding same_len
  slt = same_len b.slt

  unfoldable pub slte : {E : Type 0} → DExpr → DExpr → Outcome E DExpr
  unfolding same_len
  slte = same_len b.slte

  unfoldable pub urem : {E : Type 0} → DExpr → DExpr → Outcome E DExpr
  unfolding same_len
  urem = same_len b.urem

  unfoldable pub umulo : {E : Type 0} → DExpr → DExpr → Outcome E DExpr
  unfolding same_len
  umulo = same_len b.umulo

  unfoldable pub smulo : {E : Type 0} → DExpr → DExpr → Outcome E DExpr
  unfolding same_len
  smulo = same_len b.smulo
