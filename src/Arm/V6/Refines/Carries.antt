-- ===== src/Arm/V6/Refines/Carries.antt =====
-- ADC and SBC of symex/src/general_assembly/arch/arm/v6/decoder.rs. The carry flag is set before the
-- overflow flag is computed, so that the latter goes by the carry that leaves the sum.
use symex.Common.{
  ℕ, ◌+◌, ◌-◌, ◌%◌, ◌^◌, ◌≡◌, refl, ap, ◌∙◌, [], ◌∷◌, Bool, true, false, bit, leb, insert,
  lookup-insert, name_eq, ok, Returns, Returns-bind, arith,
}
use symex.Errors.{GaError}
use symex.Smt.Words.{half, add_overflows}
use symex.Smt.Boolector.{Boolector}
use symex.Smt.Expr.{DExpr, not_expr}
use symex.Smt.Means.{Means, Means-congr}
use symex.Smt.Resize.{not_expr-Means}
use symex.Ga.Operand.{Operand, local}
use symex.Ga.Operation.{Operation}
use symex.State.{GaState}
use symex.State.Flags.{get_flag}
use symex.Project.{Project, get_word_size}
use symex.Executor.Monad.{GaExecutor, ◌>>=◌, call, get_state}
use symex.Executor.Operands.{Locals, get_operand_value, set_operand_value}
use symex.Executor.Adder.{low_bit, add_with_carry, IsSum, add_with_carry-IsSum}
use symex.Executor.Subtract.{adc_value-adds}
use symex.Executor.Values.{adc_value, c_flag_value, v_flag_value}
use symex.Executor.Operations.{execute_operation}
use symex.Executor.Instructions.{execute_operations}
use symex.Executor.Instructions.Conditions.{step, called}
use symex.Executor.Steps.{
  Holds, Writable, Holds-flags, at_index, stored, operations-cons, operations-nil, move-Returns,
  unary_operation-Returns, flag_operation2-Returns, get_operand_value-Holds,
  set_operand_value-Writable,
}
use symex.Arm.V6.Instructions.{Register, ArmOperation}
use symex.Arm.V6.Registers.{register_name, arm_register_to_ga_operand}
use symex.Arm.V6.Timing.{is_pc}
use symex.Arm.V6.Decoder.Arithmetic.{adc_reg, sbc_reg}
use symex.Arm.V6.Machine.{ArmState, read_reg, set_nz, arm_step}
use symex.Arm.V6.Refines.{
  IsPlain, FlagIs, Refines, Refines-Holds, Refines-write_reg, register-Writable, written-Holds,
  kept-Holds, Refines-set_nz, Refines-set_cv,
}
use symex.Arm.V6.Refines.Flags.{nz_flags-Returns}
use symex.Arm.V6.Refines.Results.{Becomes}

low_bit-bit : (t : Bool) → low_bit (bit t) ≡ bit t
low_bit-bit true = refl
low_bit-bit false = refl

-- What ADC and SBC come to: the manual's result and flags but for V.
abbrev pub but_for_v : ArmState → Bool → ArmState
but_for_v s v = record s { v = v }

-- What SetVFlag makes of the flags after SetCFlag: the carry that left the sum is added again.
abbrev pub v_with_carry_out : ℕ → ℕ → Bool → Bool
v_with_carry_out x y carry =
    add_overflows (half 32) x ((y + bit (leb (2 ^ 32) (x + y + bit carry))) % 2 ^ 32) 0

module _ ⦃b : Boolector⦄ where
  module _ {f g : b.Env → ℕ} (t : b.Env → Bool) (y z : DExpr) (my : Means 32 f y)
      (mz : Means 32 g z) (s : GaState) (flag : FlagIs "C" t s) where
    c_with_carry :
        Returns
          (c_flag_value 32 false true y z s)
          (Means 1 (λ e. bit (leb (2 ^ 32) (f e + g e + bit (t e)))))
    unfolding c_flag_value get_flag
    c_with_carry =
        let (vc, at, mc) = flag in
        let sums : Returns {E = GaError} (add_with_carry y z vc 32)
            (IsSum 32 f g (λ e. low_bit (bit (t e)))) =
          add_with_carry-IsSum (omega arith) my mz mc in
        rw at (
          Returns-bind _ sums λ r sum. (
            r.carry_out,
            refl,
            Means-congr sum.carry_means
                (λ e. ap (λ (k : ℕ). bit (leb (2 ^ 32) (f e + g e + k))) (low_bit-bit (t e))),
          ))

    v_with_carry :
        Returns
          (v_flag_value 32 false true y z s)
          (Means 1 (λ e. bit (add_overflows (half 32) (f e) ((g e + bit (t e)) % 2 ^ 32) 0)))
    unfolding v_flag_value get_flag
    v_with_carry =
        let (vc, at, mc) = flag in
        let sums : Returns {E = GaError} (add_with_carry y z vc 32)
            (IsSum 32 f g (λ e. low_bit (bit (t e)))) =
          add_with_carry-IsSum (omega arith) my mz mc in
        rw at (
          Returns-bind _ sums λ r sum. (
            r.overflow,
            refl,
            Means-congr sum.overflow_means (λ e.
                ap (λ (k : ℕ). bit (add_overflows (half 32) (f e) ((g e + k) % 2 ^ 32) 0))
                  (low_bit-bit (t e))),
          ))

module _ ⦃b : Boolector⦄ (p : Project) (plain : IsPlain p) (n : ℕ) (l : Locals) (x : GaExecutor)
    (m : b.Env → ArmState) (old : Refines m x.state) where
  -- The four flags of ADC and SBC, of a result and of operands that may not be those it came from.
  ends_with_adc :
      (h f g : b.Env → ℕ) (o o1 o2 : Operand)
      → Holds p 32 h o l x.state
      → Holds p 32 f o1 l x.state
      → Holds p 32 g o2 l x.state
      → Returns
          (execute_operations p
            (Operation.set_n_flag o
              ∷ Operation.set_z_flag o
              ∷ Operation.set_c_flag o1 o2 false true
              ∷ Operation.set_v_flag o1 o2 false true
              ∷ [])
            n
            l
            x)
          (Becomes
            (λ e. record (set_nz (h e) (m e)) {
              c = leb (2 ^ 32) (f e + g e + bit (m e).c);
              v = v_with_carry_out (f e) (g e) (m e).c;
            })
            x)
  unfolding execute_operation
  ends_with_adc h f g o o1 o2 h0 h1 h2 =
      let out = λ (e : b.Env). leb (2 ^ 32) (f e + g e + bit (m e).c) in
      let c_means : (s : GaState)
          → FlagIs "C" (λ e. (m e).c) s
          → (y z : DExpr) → Means 32 f y
          → Means 32 g z
          → Returns (c_flag_value (get_word_size p) false true y z s)
              (Means 1 (λ e. bit (leb (2 ^ 32) (f e + g e + bit (m e).c)))) =
        λ s flag y z my mz. rw plain.word_size (c_with_carry (λ e. (m e).c) y z my mz s flag) in
      let v_means : (s : GaState)
          → FlagIs "C" out s
          → (y z : DExpr) → Means 32 f y
          → Means 32 g z
          → Returns (v_flag_value (get_word_size p) false true y z s)
              (Means 1 (λ e. bit (v_with_carry_out (f e) (g e) (m e).c))) =
        λ s flag y z my mz. rw plain.word_size (v_with_carry out y z my mz s flag) in
      nz_flags-Returns p plain n l x h o _ h0 λ vn vz mn mz.
        let nz = Refines-set_nz old mn mz in
        operations-cons p _ _ (n + 1 + 1) l _ (
          flag_operation2-Returns p l _ "C" _ o1 o2 (c_means _ nz.c_flag)
            (Holds-flags p 32 f o1 l x.state _ h1) (Holds-flags p 32 g o2 l x.state _ h2)
            λ vc mc. operations-cons p _ _ (n + 1 + 1 + 1) l _ (
              flag_operation2-Returns p l _ "V" _ o1 o2
                (v_means _ (vc, lookup-insert "C" "C" vc _, mc))
                (Holds-flags p 32 f o1 l x.state _ h1) (Holds-flags p 32 g o2 l x.state _ h2)
                λ vv mv.
                  operations-nil p (n + 1 + 1 + 1 + 1) l _
                    (Refines-set_cv nz mc mv, (refl, refl, refl, refl))))

module _ {ℓ} ⦃b : Boolector⦄ (p : Project) (plain : IsPlain p) {P : Locals × GaExecutor → Type ℓ}
    (l : Locals) (x : GaExecutor) where
  adc-Returns :
      (f g : b.Env → ℕ) (t : b.Env → Bool) (d o1 o2 : Operand)
      → Holds p 32 f o1 l x.state
      → Holds p 32 g o2 l x.state
      → FlagIs "C" t x.state
      → Writable p d
      → ((r : DExpr) → Means 32 (λ e. (f e + g e + bit (t e)) % 2 ^ 32) r → P (stored l x d r))
      → Returns (execute_operation p (Operation.adc d o1 o2) l x) P
  unfolding execute_operation
  adc-Returns f g t d o1 o2 h1 h2 (vc, at, mc) writable k =
      let (y, p1, my) = get_operand_value-Holds p o1 l x h1 in
      let (z, p2, mz) = get_operand_value-Holds p o2 l x h2 in
      let sum : Returns (adc_value (get_word_size p) y z x.state)
          (Means 32 (λ e. (f e + g e + bit (t e)) % 2 ^ 32)) =
        rw plain.word_size (adc_value-adds (omega arith) my mz x.state at mc) in
      let (r, p3, mr) = sum in
      let store = λ (r : DExpr). set_operand_value p d r l in
      let second =
        λ (y z : DExpr). get_state >>= λ s. call (adc_value (get_word_size p) y z s) >>= store in
      step (get_operand_value p o1 l) (λ y. get_operand_value p o2 l >>= second y) {x = x} p1
        (step (get_operand_value p o2 l) (second y) {x = x} p2 (
          step (call (adc_value (get_word_size p) y z x.state)) store {x = x} (called p3)
            (_, set_operand_value-Writable p d r l x writable, k r mr)))

module _ ⦃b : Boolector⦄ (p : Project) (plain : IsPlain p) where
  -- ADC with a destination of its own.
  pub adc_reg-Becomes :
      (m n d : Register)
      → is_pc m ≡ false
      → is_pc n ≡ false
      → is_pc d ≡ false
      → name_eq (register_name d) (register_name m) ≡ false
      → name_eq (register_name d) (register_name n) ≡ false
      → (s : b.Env → ArmState) (x : GaExecutor) → Refines s x.state
      → Returns (execute_operations p (adc_reg m n d) 0 [] x) (
          Becomes
            (λ e.
              but_for_v
                (arm_step (ArmOperation.adc_reg m n d) (s e))
                (v_with_carry_out (read_reg n (s e)) (read_reg m (s e)) (s e).c))
            x)
  unfolding adc_reg
  adc_reg-Becomes m n d hm hn hd dm dn s x old = operations-cons p _ _ 0 [] x (
      adc-Returns p plain [] (at_index 0 x) _ _ (λ e. (s e).c) (arm_register_to_ga_operand d)
        (arm_register_to_ga_operand n) (arm_register_to_ga_operand m)
        (Refines-Holds p plain n [] old hn) (Refines-Holds p plain m [] old hm) old.c_flag
        (register-Writable p plain d hd)
        λ r mr.
          ends_with_adc p plain 1 [] _ _ (Refines-write_reg d old mr) _ _ _
            (arm_register_to_ga_operand d) (arm_register_to_ga_operand n)
            (arm_register_to_ga_operand m) (written-Holds p plain d [] x.state hd mr)
            (kept-Holds p plain r d n [] x.state old hn dn)
            (kept-Holds p plain r d m [] x.state old hm dm))

  -- ADC with the first operand as the destination: C and V go by the sum in place of the operand.
  pub adc_reg-overwrites :
      (m d : Register)
      → is_pc m ≡ false
      → is_pc d ≡ false
      → name_eq (register_name d) (register_name m) ≡ false
      → (s : b.Env → ArmState) (x : GaExecutor) → Refines s x.state
      → Returns (execute_operations p (adc_reg m d d) 0 [] x) (
          Becomes
            (λ e.
              let y = read_reg m (s e) in
              let sum = (read_reg d (s e) + y + bit (s e).c) % 2 ^ 32 in
              record (arm_step (ArmOperation.adc_reg m d d) (s e)) {
                c = leb (2 ^ 32) (sum + y + bit (s e).c);
                v = v_with_carry_out sum y (s e).c;
              })
            x)
  unfolding adc_reg
  adc_reg-overwrites m d hm hd dm s x old = operations-cons p _ _ 0 [] x (
      adc-Returns p plain [] (at_index 0 x) _ _ (λ e. (s e).c) (arm_register_to_ga_operand d)
        (arm_register_to_ga_operand d) (arm_register_to_ga_operand m)
        (Refines-Holds p plain d [] old hd) (Refines-Holds p plain m [] old hm) old.c_flag
        (register-Writable p plain d hd)
        λ r mr.
          ends_with_adc p plain 1 [] _ _ (Refines-write_reg d old mr) _ _ _
            (arm_register_to_ga_operand d) (arm_register_to_ga_operand d)
            (arm_register_to_ga_operand m) (written-Holds p plain d [] x.state hd mr)
            (written-Holds p plain d [] x.state hd mr)
            (kept-Holds p plain r d m [] x.state old hm dm))

  pub sbc_reg-Becomes :
      (m dn : Register)
      → is_pc m ≡ false
      → is_pc dn ≡ false
      → (s : b.Env → ArmState) (x : GaExecutor) → Refines s x.state
      → Returns (execute_operations p (sbc_reg m dn) 0 [] x) (
          Becomes
            (λ e.
              but_for_v
                (arm_step (ArmOperation.sbc_reg m dn) (s e))
                (v_with_carry_out (read_reg dn (s e)) (2 ^ 32 - 1 - read_reg m (s e)) (s e).c))
            x)
  unfolding execute_operation sbc_reg
  sbc_reg-Becomes m dn hm hdn s x old =
      let dest = arm_register_to_ga_operand dn in
      operations-cons p _ _ 0 [] x (
        move-Returns p [] (at_index 0 x) (local "n") dest (Refines-Holds p plain dn [] old hdn) tt
          λ vn mn.
            let l = insert "n" vn [] in
            operations-cons p _ _ 1 l _ (
              unary_operation-Returns p l (at_index 1 x) (λ y. ok (not_expr y)) (local "not_m")
                (arm_register_to_ga_operand m) (λ y my. (_, refl, not_expr-Means my))
                (Refines-Holds p plain m l old hm) tt
                λ vm mm.
                  let l = insert "not_m" vm l in
                  let not_m = lookup-insert "not_m" "not_m" vm (insert "n" vn []) in
                  let n_at =
                    lookup-insert "not_m" "n" vm (insert "n" vn []) ∙ lookup-insert "n" "n" vn [] in
                  operations-cons p _ _ 2 l _ (
                    adc-Returns p plain l (at_index 2 x) _ _ (λ e. (s e).c) dest dest
                      (local "not_m") (Refines-Holds p plain dn l old hdn) (vm, not_m, mm)
                      old.c_flag (register-Writable p plain dn hdn)
                      λ r mr.
                        ends_with_adc p plain 3 l _ _ (Refines-write_reg dn old mr) _ _ _ dest
                          (local "n") (local "not_m") (written-Holds p plain dn l x.state hdn mr)
                          (vn, n_at, mn) (vm, not_m, mm))))
