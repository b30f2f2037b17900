-- ===== src/Arm/Hooks/Symbolic.antt =====
-- The intrinsic that symex/src/general_assembly/arch/arm/v6.rs and v7.rs run in place of
-- `symbolic_size`.
use Prim.Native.String.{String, ◌++◌ as push_str}
use symex.Common.{ℕ, ◌*◌, ◌^◌, ◌≤◌, ◌<◌, ◌≡◌, ◌++◌, some, lookup, ok}
use symex.Errors.{GaError}
use symex.Smt.Boolector.{Boolector}
use symex.Smt.Expr.{DExpr, get_constant}
use symex.Smt.Means.{Means}
use symex.Memory.Array
use symex.Memory.Array.Loops.{ByteMemory}
use symex.State.{Machine}
use symex.Project.{Project}
use symex.Arm.Hooks.Laws.{Unhooked}

module _ ⦃b : Boolector⦄ where
  -- The machine at a call of `symbolic_size`: the address in R0, as many bytes in R1 as `num`, and
  -- the constant `c` in LR, in a memory of bytes that has room for them.
  pub record AtCall (p : Project) (w : ℕ) (a : b.Env → ℕ) (en : Array.Endianness) (num c : ℕ)
      (addr : DExpr) (m : Machine) : Type 0 where
    pub r0_free : Unhooked p "R0"
    pub r1_free : Unhooked p "R1"
    pub lr_free : Unhooked p "LR"
    pub pc_free : Unhooked p "PC"
    pub size : DExpr
    pub return_to : DExpr
    pub in_r0 : lookup "R0" m.state.registers ≡ some addr
    pub in_r1 : lookup "R1" m.state.registers ≡ some size
    pub in_lr : lookup "LR" m.state.registers ≡ some return_to
    pub is_address : Means w a addr
    pub is_size : get_constant {E = GaError} size ≡ ok (some num)
    pub is_return : get_constant {E = GaError} return_to ≡ ok (some c)
    pub in_bytes : ByteMemory w en m.state.memory
    pub some_bytes : 0 < num
    pub has_room : num ≤ 2 ^ w
    pub fits : num * 8 < 2 ^ 32
