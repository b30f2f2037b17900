-- ===== src/Ga/Operation.antt =====
-- symex/general_assembly/src/operation.rs, condition.rs and shift.rs.
use symex.Common.{ℕ, Bool, List}
use symex.Ga.Operand.{Operand}

-- The condition codes; `always` is the source's `None`.
pub data Condition : Type 0 where
  eq ne cs cc_clear mi pl vs vc hi ls ge lt gt le always : Condition

pub data Shift : Type 0 where
  lsl lsr asr rrx ror : Shift

-- The fields stand in the order of the source.
mutual
  pub data Operation : Type 0 where
    nop : Operation
    move : Operand → Operand → Operation
    add : Operand → Operand → Operand → Operation
    adc : Operand → Operand → Operand → Operation
    sub : Operand → Operand → Operand → Operation
    mul : Operand → Operand → Operand → Operation
    sdiv : Operand → Operand → Operand → Operation
    udiv : Operand → Operand → Operand → Operation
    and : Operand → Operand → Operand → Operation
    or : Operand → Operand → Operand → Operation
    xor : Operand → Operand → Operand → Operation
    not_op : Operand → Operand → Operation
    shift : Operand → Operand → Operand → Shift → Operation
    sl : Operand → Operand → Operand → Operation
    srl : Operand → Operand → Operand → Operation
    sra : Operand → Operand → Operand → Operation
    sror : Operand → Operand → Operand → Operation
    zero_extend : Operand → Operand → ℕ → ℕ → Operation
    bit_field_extract : Operand → Operand → ℕ → ℕ → Operation
    count_ones : Operand → Operand → Operation
    count_zeroes : Operand → Operand → Operation
    count_leading_ones : Operand → Operand → Operation
    count_leading_zeroes : Operand → Operand → Operation
    sign_extend : Operand → Operand → ℕ → Operation
    resize : Operand → Operand → ℕ → Operation
    conditional_jump : Operand → Condition → Operation
    set_n_flag : Operand → Operation
    set_z_flag : Operand → Operation
    set_c_flag : Operand → Operand → Bool → Bool → Operation
    set_c_flag_shift_left : Operand → Operand → Operation
    set_c_flag_srl : Operand → Operand → Operation
    set_c_flag_sra : Operand → Operand → Operation
    set_c_flag_ror : Operand → Operation
    set_v_flag : Operand → Operand → Bool → Bool → Operation
    for_each : List Operand → Operations → Operation
    conditional_execution : List Condition → Operation

  -- The `Vec<Operation>` inside `ForEach`.
  pub data Operations : Type 0 where
    nil : Operations
    cons : Operation → Operations → Operations
