-- ===== src/Lib.antt =====
-- A model of the general assembly executor of symex, a symbolic execution engine for embedded
-- binaries and LLVM IR, in definitions that follow the Rust code and theorems about them.
--
-- The program. `VM::run` takes a waiting path, asserts its constraints on the solver that all
-- paths share, and lets a `GAExecutor` resume it: `resume_execution` fetches instructions from
-- the image of the project, translated by an architecture into operations, until a hook on the
-- PC ends the path. The operations read and write registers, flags, locals and memory, whose
-- values are expressions of an SMT solver. A jump, a condition or an address that depends on
-- the path is a fork: the present state is saved as a path with a constraint.
--
-- The files and the code they follow, by the paths of the repository:
--   Smt.Boolector, Smt.Words     the solver library as a parameter, words as numbers
--   Smt.Expr, Orders, Strings,
--   Saturating, Digits           symex/src/smt/smt_boolector/expr.rs and mod.rs; binary digits
--   Smt.Means, Resize, Replace, Truth
--                                   the reading of an expression as a number under an assignment
--   Smt.Sample                   a small instance of the parameter, for the tests
--   Smt.Solver                   symex/src/smt/smt_boolector/solver.rs
--   Ga.Operand, Ga.Operation     symex/general_assembly/src
--   Memory.Array                 symex/src/memory/array_memory.rs (ArrayMemory)
--   Memory.Allocator             symex/src/memory/linear_allocator.rs (LinearAllocator)
--   State                        symex/src/general_assembly/state.rs and instruction.rs (GAState)
--   Project                      symex/src/general_assembly/project.rs and project/segments.rs
--   PathSelection                symex/src/general_assembly/path_selection.rs
--   Executor                     symex/src/general_assembly/executor.rs (GAExecutor)
--   Vm                           symex/src/general_assembly/vm.rs (VM)
--   Executor.Steps               what the arms of execute_operation do, for the proofs below
--   Memory.Objects               symex/src/memory/object_memory.rs (ObjectMemory)
--   Project.Config               symex/src/general_assembly/run_config.rs, the hooks of project.rs
--   Arm.Discover                 symex/src/general_assembly/arch/discover.rs, arch/arm.rs
--   Arm.Hooks                    add_hooks of arch/arm/v6.rs and arch/arm/v7.rs
--   Arm.V6.Decoder, Registers    symex/src/general_assembly/arch/arm/v6/decoder.rs (ArmV6M::expand)
--   Arm.V6.Timing                symex/src/general_assembly/arch/arm/v6/timing.rs
--   Arm.V6.Instructions          the instructions of the foreign parser, as data types
--   Arm.V6.Machine               the registers and flags of the Arm manual, and its instructions
--   Arm.V6.Refines, Correct, Executes
--                                the translation and the executor against the manual
--   Arm.V6.Scopes, Scoped        the locals of a translation
--   Arm.V6.Supported             what is translated at all
--   Common, Errors               shared helpers; the error types
--   Tests                        the theorems at concrete inputs
-- A function keeps its name (`get_expr` is `GAState::get_expr`); a struct is a record with its
-- fields, an enum a data type. The arms of `execute_operation` compute their values in
-- Executor.Values, one function for each group of arms. What never changes (the project, the
-- architecture, the word size) is an argument, and the solver is a value that is passed on.
--
-- What is assumed. Boolector is foreign: the record `Boolector` holds its terms, their values
-- under an assignment, and for each operation the semantics of SMT-LIB bit vectors for operands
-- of the right width, with no law for the signed division and remainders. `sat` comes with a
-- model, `unsat` means that there is none. The record `Arch` stands for the translators from
-- machine code, and hooks are functions of the project; a hook of an architecture looks into the
-- project of its state, which is the one without those hooks here, since they are not on the
-- registers that it reads and writes. Arithmetic on `u64` in the allocator
-- panics where it overflows, as in a build with overflow checks; that on addresses elsewhere is
-- on numbers without a bound.
--
-- Outcomes. `Outcome` is what a Rust function does: it returns, it returns an error, or it
-- panics (`assert!`, `unwrap`, `todo!`, an index out of range). `Returns o P` says that it
-- returns, with a value of which `P` holds, so a theorem of that form excludes errors and panics.
--
-- Bounds. The loop of `resume_execution` may run for ever, so `rounds` is given a number of
-- rounds and has no result where they do not suffice; more rounds than suffice give the same
-- result. Every other loop is recursion over what it goes through.
--
-- Not modelled: the decoder of Armv7-EM, its timing and the macro behind it; the loading of ELF
-- files and DWARF data, which foreign parsers do; the LLVM executor; the legacy LLVM engine; the
-- command line and reports; trace output.
pub mod Common
pub mod Errors
pub mod Smt
pub mod Ga
pub mod Memory
pub mod State
pub mod Project
pub mod PathSelection
pub mod Executor
pub mod Arm
pub mod Vm
pub mod Tests
