-- ===== src/Tests/Arm.antt =====
-- Armv6-M: the theorems on translated instructions, on a machine with different registers in the
-- two worlds.
use Prim.Native.String.{String}
use symex.Common.{
  ℕ, ◌+◌, ◌-◌, leb, ◌≡◌, refl, Bool, true, false, bit, List, [], ◌∷◌, some, Dict, name_eq, lookup,
  if◌then◌else◌, Returns, arith, ◌<◌, ◌^◌, ◌%◌, mod-eq_of_lt, ok, panic, ◌⊎◌,
}
use symex.Errors.{GaError}
use symex.Smt.Sample.{two_worlds, Term, term}
use symex.Smt.Means.{Means}
use symex.Executor.Monad.{GaExecutor}
use symex.Executor.Instructions.{execute_operations}
use symex.State.{GaState}
use symex.Project.{get_word_size, get_register_read_hook, get_register_write_hook}
use symex.Arm.V6.Instructions.{
  Register, r0, r1, r2, r3, r4, r5, r6, r7, r8, r9, r10, r11, r12, sp, lr, pc, ArmOperation, bit16,
}
use symex.Arm.V6.Registers.{register_name}
use symex.Arm.V6.Timing.{is_pc, cycle_count_m0plus_core}
use symex.Arm.V6.Decoder.{operations_of, expand}
use symex.Arm.V6.Decoder.Bytes.{rev}
use symex.Arm.V6.Decoder.Lists.{pop}
use symex.Arm.V6.Supported.{is_unsupported, bits_of, expand-Decided}
use symex.Arm.V6.Scopes.{is_scoped}
use symex.Arm.V6.Scoped.{operations_of-is_scoped}
use symex.Arm.V6.Refines.Reversal.{rev-clears}
use symex.Arm.V6.Decoder.Arithmetic.{adc_reg, sbc_reg}
use symex.Arm.V6.Machine.{ArmState, read_reg, write_reg, arm_step}
use symex.Arm.V6.Refines.{IsPlain, Refines}
use symex.Arm.V6.Refines.Results.{Becomes}
use symex.Arm.V6.Refines.Carries.{
  v_with_carry_out, but_for_v, adc_reg-Becomes, adc_reg-overwrites, sbc_reg-Becomes,
}
use symex.Arm.V6.Supported.{bits_of}
use symex.Tests.Samples.{state, empty_solver, program, c_found, n_found, v_found, z_found}

-- R1 differs, and every other register holds 7.
abbrev value_of : String → Bool → ℕ
value_of name e = if name_eq name "R1" then elim e [ true ↦ 5 | false ↦ 0xffffffff ] else 7

abbrev registers : Dict Term
registers =
    ("R0", term 32 (value_of "R0"))
    ∷ ("R1", term 32 (value_of "R1"))
    ∷ ("R2", term 32 (value_of "R2"))
    ∷ ("R3", term 32 (value_of "R3"))
    ∷ ("R4", term 32 (value_of "R4"))
    ∷ ("R5", term 32 (value_of "R5"))
    ∷ ("R6", term 32 (value_of "R6"))
    ∷ ("R7", term 32 (value_of "R7"))
    ∷ ("R8", term 32 (value_of "R8"))
    ∷ ("R9", term 32 (value_of "R9"))
    ∷ ("R10", term 32 (value_of "R10"))
    ∷ ("R11", term 32 (value_of "R11"))
    ∷ ("R12", term 32 (value_of "R12"))
    ∷ ("SP", term 32 (value_of "SP"))
    ∷ ("LR", term 32 (value_of "LR"))
    ∷ ("PC", term 32 (λ e. 100))
    ∷ []

abbrev arm_state : GaState
arm_state = record state { registers = registers }

abbrev arm_executor : GaExecutor
arm_executor = record {
  paths = [];
  state = arm_state;
  solver = empty_solver;
  current_operation_index = 0;
}

abbrev machines : Bool → ArmState
machines e = record { reg = λ name. value_of name e; n = e; z = false; c = e; v = true }

constant_term : (f : Bool → ℕ) → ((e : Bool) → f e < 2 ^ 32) → Means 32 f (term 32 f)
constant_term f h = record { has_width = refl; has_value = λ e. mod-eq_of_lt (h e) }

seven : (e : Bool) → 7 < 2 ^ 32
seven e = omega arith

differs : (e : Bool) → value_of "R1" e < 2 ^ 32
differs true = omega arith
differs false = omega arith

arm_registers :
    (r : Register)
    → is_pc r ≡ false
    → (v : Term) × (lookup (register_name r) registers ≡ some v)
      × Means 32 (λ e. read_reg r (machines e)) v
unfolding lookup is_pc
arm_registers r0 h = (_, refl, constant_term _ seven)
arm_registers r1 h = (_, refl, constant_term _ differs)
arm_registers r2 h = (_, refl, constant_term _ seven)
arm_registers r3 h = (_, refl, constant_term _ seven)
arm_registers r4 h = (_, refl, constant_term _ seven)
arm_registers r5 h = (_, refl, constant_term _ seven)
arm_registers r6 h = (_, refl, constant_term _ seven)
arm_registers r7 h = (_, refl, constant_term _ seven)
arm_registers r8 h = (_, refl, constant_term _ seven)
arm_registers r9 h = (_, refl, constant_term _ seven)
arm_registers r10 h = (_, refl, constant_term _ seven)
arm_registers r11 h = (_, refl, constant_term _ seven)
arm_registers r12 h = (_, refl, constant_term _ seven)
arm_registers sp h = (_, refl, constant_term _ seven)
arm_registers lr h = (_, refl, constant_term _ seven)
arm_registers pc h = cc

one_bit : (t : Bool → Bool) → Means 1 (λ e. bit (t e)) (term 1 (λ e. bit (t e)))
one_bit t = record { has_width = refl; has_value = λ e. below (t e) }
  where
    below : (s : Bool) → bit s % 2 ^ 1 ≡ bit s
    below true = refl
    below false = refl

arm_Refines : Refines machines arm_state
arm_Refines = record {
  registers = arm_registers;
  n_flag = (_, n_found, one_bit (λ e. e));
  z_flag = (_, z_found, one_bit (λ e. false));
  c_flag = (_, c_found, one_bit (λ e. e));
  v_flag = (_, v_found, one_bit (λ e. true));
}

program_IsPlain : IsPlain program
unfolding get_word_size get_register_read_hook get_register_write_hook lookup
program_IsPlain = record {
  word_size = refl;
  no_read_hook = λ r h. refl;
  no_write_hook = λ r h. refl;
}

no_pc0 : is_pc r0 ≡ false
unfolding is_pc
no_pc0 = refl

no_pc1 : is_pc r1 ≡ false
unfolding is_pc
no_pc1 = refl

no_pc2 : is_pc r2 ≡ false
unfolding is_pc
no_pc2 = refl

adc_reg-Becomes_example :
    Returns (execute_operations program (adc_reg r0 r1 r2) 0 [] arm_executor) (
      Becomes
        (λ e.
          but_for_v
            (arm_step (ArmOperation.adc_reg r0 r1 r2) (machines e))
            (v_with_carry_out (value_of "R1" e) 7 e))
        arm_executor)
adc_reg-Becomes_example =
    adc_reg-Becomes program program_IsPlain r0 r1 r2 no_pc0 no_pc1 no_pc2 refl refl machines
      arm_executor arm_Refines

-- ADCS R1, R1, R0.
adc_reg-overwrites_example :
    Returns (execute_operations program (adc_reg r0 r1 r1) 0 [] arm_executor) (
      Becomes
        (λ e.
          let sum = (value_of "R1" e + 7 + bit e) % 2 ^ 32 in
          record (arm_step (ArmOperation.adc_reg r0 r1 r1) (machines e)) {
            c = leb (2 ^ 32) (sum + 7 + bit e);
            v = v_with_carry_out sum 7 e;
          })
        arm_executor)
adc_reg-overwrites_example =
    adc_reg-overwrites program program_IsPlain r0 r1 no_pc0 no_pc1 refl machines arm_executor
      arm_Refines

sbc_reg-Becomes_example : Returns (execute_operations program (sbc_reg r0 r1) 0 [] arm_executor) (
    Becomes
      (λ e.
        but_for_v
          (arm_step (ArmOperation.sbc_reg r0 r1) (machines e))
          (v_with_carry_out (value_of "R1" e) (2 ^ 32 - 1 - 7) e))
      arm_executor)
sbc_reg-Becomes_example =
    sbc_reg-Becomes program program_IsPlain r0 r1 no_pc0 no_pc1 machines arm_executor arm_Refines

-- REV R1, R1.
rev-clears_example :
    Returns
      (execute_operations program (rev r1 r1) 0 [] arm_executor)
      (Becomes (λ e. write_reg r1 0 (machines e)) arm_executor)
rev-clears_example = rev-clears program program_IsPlain r1 machines arm_executor no_pc1 arm_Refines

-- POP {R0, PC}.
abbrev popped : List Register
popped = r0 ∷ pc ∷ []

pops : operations_of {E = GaError} (ArmOperation.pop popped) ≡ ok (pop popped)
unfolding operations_of
pops = refl

operations_of-is_scoped_example : is_scoped [] (pop popped) ≡ true
operations_of-is_scoped_example =
    operations_of-is_scoped (ArmOperation.pop popped) (pop popped) pops

-- WFI, in two bytes.
expand-Decided_example :
    ((is_unsupported ArmOperation.wfi ≡ true)
      × (expand {E = GaError} (record { operation = ArmOperation.wfi; width = bit16 }) ≡ panic))
    ⊎ ((is_unsupported ArmOperation.wfi ≡ false)
        × Returns {E = GaError}
            (expand (record { operation = ArmOperation.wfi; width = bit16 }))
            (λ i.
              (i.instruction_size ≡ bits_of bit16)
              × (operations_of {E = GaError} ArmOperation.wfi ≡ ok i.operations)
              × (cycle_count_m0plus_core {E = GaError} ArmOperation.wfi ≡ ok i.max_cycle)))
expand-Decided_example = expand-Decided ArmOperation.wfi bit16
