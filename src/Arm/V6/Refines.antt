-- ===== src/Arm/V6/Refines.antt =====
-- A state of symex/src/general_assembly/state.rs that stands for machines of Armv6-M, one under
-- each assignment, and what writes of registers and flags make of it.
pub mod Flags
pub mod Results
pub mod Sums
pub mod Reversal
pub mod Carries
pub mod Moves
pub mod Logic
pub mod Differences
use Prim.Native.String.{String}
use symex.Common.{
  ℕ, ◌≡◌, refl, ◌∙◌, Bool, true, false, none, some, name_eq, name_eq_refl, lookup, insert,
  lookup-insert, if◌then◌else◌, bit, Bool-cases, inl, inr,
}
use symex.Smt.Boolector.{Boolector}
use symex.Smt.Expr.{DExpr}
use symex.Smt.Means.{Means}
use symex.Ga.Operand.{register}
use symex.State.{GaState}
use symex.Project.{Project, get_register_read_hook, get_register_write_hook, get_word_size}
use symex.Executor.Operands.{Locals}
use symex.Executor.Monad.{GaExecutor}
use symex.Executor.Steps.{Holds, Writable, put_state, stored, flagged}
use symex.Arm.V6.Instructions.{
  Register, r0, r1, r2, r3, r4, r5, r6, r7, r8, r9, r10, r11, r12, sp, lr, pc,
}
use symex.Arm.V6.Registers.{register_name, arm_register_to_ga_operand}
use symex.Arm.V6.Timing.{is_pc}
use symex.Arm.V6.Machine.{ArmState, read_reg, write_reg}

not_named_pc : (r : Register) → name_eq (register_name r) "PC" ≡ false
not_named_pc r0 = refl
not_named_pc r1 = refl
not_named_pc r2 = refl
not_named_pc r3 = refl
not_named_pc r4 = refl
not_named_pc r5 = refl
not_named_pc r6 = refl
not_named_pc r7 = refl
not_named_pc r8 = refl
not_named_pc r9 = refl
not_named_pc r10 = refl
not_named_pc r11 = refl
not_named_pc r12 = refl
not_named_pc sp = refl
not_named_pc lr = refl
not_named_pc pc = refl

module _ ⦃b : Boolector⦄ where
  -- An entry of a map has one bit, which says `t e` under each assignment.
  abbrev pub FlagIs : String → (b.Env → Bool) → GaState → Type 0
  FlagIs name t s = (v : DExpr) × (lookup name s.flags ≡ some v) × Means 1 (λ e. bit (t e)) v

  -- Every register but the PC has a value, and every flag.
  pub record Refines (m : b.Env → ArmState) (s : GaState) : Type 0 where
    pub registers :
        (r : Register)
        → is_pc r ≡ false
        → (v : DExpr) × (lookup (register_name r) s.registers ≡ some v)
          × Means 32 (λ e. read_reg r (m e)) v
    pub n_flag : FlagIs "N" (λ e. (m e).n) s
    pub z_flag : FlagIs "Z" (λ e. (m e).z) s
    pub c_flag : FlagIs "C" (λ e. (m e).c) s
    pub v_flag : FlagIs "V" (λ e. (m e).v) s

  pub Refines-write_reg :
      {m : b.Env → ArmState} {s : GaState} {f : b.Env → ℕ} {v : DExpr} (d : Register)
      → Refines m s
      → Means 32 f v
      → Refines (λ e. write_reg d (f e) (m e)) (put_state (arm_register_to_ga_operand d) v s)
  Refines-write_reg {m} {s} {f} {v} d old mv = record {
    registers = λ r plain.
        let found = lookup-insert (register_name d) (register_name r) v s.registers in
        elim (Bool-cases (name_eq (register_name d) (register_name r))) [
          | inl same ↦ rw same (v, found ∙ rw same refl, mv)
          | inr other ↦
              let (u, at, mu) = old.registers r plain in rw other (u, found ∙ rw other at, mu)
        ];
    n_flag = old.n_flag;
    z_flag = old.z_flag;
    c_flag = old.c_flag;
    v_flag = old.v_flag;
  }

  -- Written once more with the same value.
  pub Refines-rewrite_reg :
      (m : b.Env → ArmState) (f : b.Env → ℕ) {s : GaState} {v : DExpr} (d : Register)
      → Refines (λ e. write_reg d (f e) (m e)) s
      → Means 32 f v
      → Refines (λ e. write_reg d (f e) (m e)) (put_state (arm_register_to_ga_operand d) v s)
  Refines-rewrite_reg m f {s} {v} d old mv = record {
    registers = λ r plain.
        let found = lookup-insert (register_name d) (register_name r) v s.registers in
        elim (Bool-cases (name_eq (register_name d) (register_name r))) [
          | inl same ↦ rw same (v, found ∙ rw same refl, mv)
          | inr other ↦ let (u, at, mu) = old.registers r plain in (u, found ∙ rw other at, mu)
        ];
    n_flag = old.n_flag;
    z_flag = old.z_flag;
    c_flag = old.c_flag;
    v_flag = old.v_flag;
  }

  -- The flags N and Z are set, in this order.
  pub Refines-set_nz :
      {m : b.Env → ArmState} {s : GaState} {n z : b.Env → Bool} {vn vz : DExpr}
      → Refines m s
      → Means 1 (λ e. bit (n e)) vn
      → Means 1 (λ e. bit (z e)) vz
      → Refines
          (λ e. record (m e) { n = n e; z = z e })
          (record s { flags = insert "Z" vz (insert "N" vn s.flags) })
  Refines-set_nz {s} {vn} {vz} old mn mz =
      let skip = λ (name : String). lookup-insert "Z" name vz (insert "N" vn s.flags) in
      let first = λ (name : String). lookup-insert "N" name vn s.flags in
      record {
        registers = old.registers;
        n_flag = (vn, skip "N" ∙ first "N", mn);
        z_flag = (vz, skip "Z", mz);
        c_flag = (old.c_flag.0, skip "C" ∙ first "C" ∙ old.c_flag.1, old.c_flag.2);
        v_flag = (old.v_flag.0, skip "V" ∙ first "V" ∙ old.v_flag.1, old.v_flag.2);
      }

  -- And then C and V.
  pub Refines-set_cv :
      {m : b.Env → ArmState} {s : GaState} {c v : b.Env → Bool} {vc vv : DExpr}
      → Refines m s
      → Means 1 (λ e. bit (c e)) vc
      → Means 1 (λ e. bit (v e)) vv
      → Refines
          (λ e. record (m e) { c = c e; v = v e })
          (record s { flags = insert "V" vv (insert "C" vc s.flags) })
  Refines-set_cv {s} {vc} {vv} old mc mv =
      let skip = λ (name : String). lookup-insert "V" name vv (insert "C" vc s.flags) in
      let first = λ (name : String). lookup-insert "C" name vc s.flags in
      record {
        registers = old.registers;
        n_flag = (old.n_flag.0, skip "N" ∙ first "N" ∙ old.n_flag.1, old.n_flag.2);
        z_flag = (old.z_flag.0, skip "Z" ∙ first "Z" ∙ old.z_flag.1, old.z_flag.2);
        c_flag = (vc, skip "C" ∙ first "C", mc);
        v_flag = (vv, skip "V", mv);
      }

module _ ⦃b : Boolector⦄ (p : Project) where
  -- Only "PC+" has hooks among the operands that stand for registers, and words have 32 bits.
  pub record IsPlain : Type 0 where
    pub word_size : get_word_size p ≡ 32
    pub no_read_hook :
        (r : Register) → is_pc r ≡ false → get_register_read_hook p (register_name r) ≡ none
    pub no_write_hook :
        (r : Register) → is_pc r ≡ false → get_register_write_hook p (register_name r) ≡ none

  module _ (plain : IsPlain) where
    pub Refines-Holds :
        {m : b.Env → ArmState} {s : GaState} (r : Register) (l : Locals)
        → Refines m s
        → is_pc r ≡ false
        → Holds p 32 (λ e. read_reg r (m e)) (arm_register_to_ga_operand r) l s
    Refines-Holds r l rm not_pc = (plain.no_read_hook r not_pc, rm.registers r not_pc)

    pub register-Writable :
        (r : Register) → is_pc r ≡ false → Writable p (arm_register_to_ga_operand r)
    register-Writable r not_pc = (plain.no_write_hook r not_pc, not_named_pc r)

    -- A register that was just written.
    pub written-Holds :
        {f : b.Env → ℕ} {v : DExpr} (r : Register) (l : Locals) (s : GaState)
        → is_pc r ≡ false
        → Means 32 f v
        → Holds p 32 f
            (arm_register_to_ga_operand r)
            l
            (put_state (arm_register_to_ga_operand r) v s)
    written-Holds {v} r l s not_pc mv = (
      plain.no_read_hook r not_pc,
      (
        v,
        lookup-insert (register_name r) (register_name r) v s.registers
            ∙ rw (name_eq_refl (register_name r)) refl,
        mv,
      ),
    )

    -- Another register keeps its value.
    pub kept-Holds :
        {m : b.Env → ArmState} (v : DExpr) (d r : Register) (l : Locals) (s : GaState)
        → Refines m s
        → is_pc r ≡ false
        → name_eq (register_name d) (register_name r) ≡ false
        → Holds p 32
            (λ e. read_reg r (m e))
            (arm_register_to_ga_operand r)
            l
            (put_state (arm_register_to_ga_operand d) v s)
    kept-Holds v d r l s rm not_pc other =
        let (u, at, mu) = rm.registers r not_pc in
        (
          plain.no_read_hook r not_pc,
          (u, lookup-insert (register_name d) (register_name r) v s.registers ∙ rw other at, mu),
        )
