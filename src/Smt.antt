-- ===== src/Smt.antt =====
-- symex/src/smt: the SMT layer. `Boolector` is the foreign solver that the code calls, `Expr` and
-- `Context` its wrappers, `Means` the reading of an expression as a number under an assignment.
pub mod Words
pub mod Boolector
pub mod Digits
pub mod Expr
pub mod Orders
pub mod Strings
pub mod Means
pub mod Resize
pub mod Replace
pub mod Truth
pub mod Sample
pub mod Solver
pub mod Saturating
