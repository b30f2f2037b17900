-- ===== src/Arm/V6/Decoder/Lists.antt =====
-- Loads and stores of a list of registers of symex/src/general_assembly/arch/arm/v6/decoder.rs.
use symex.Common.{
  ℕ, ◌*◌, ◌%◌, ◌^◌, Bool, false, ◌||◌, List, [], ◌∷◌, ◌++◌, length, name_eq, if◌then◌else◌,
}
use symex.Ga.Operand.{register, local, address_in_local}
use symex.Ga.Operation.{Operation}
use symex.Arm.V6.Instructions.{Register}
use symex.Arm.V6.Registers.{register_name, arm_register_to_ga_operand, word}

-- `reg_list.contains(n)`: two registers are equal where their names are.
unfoldable pub contains : List Register → Register → Bool
contains [] n = false
contains (reg ∷ reg_list) n = name_eq (register_name reg) (register_name n) || contains reg_list n

-- `(4 * reg_list.len()) as u32`.
unfoldable pub list_size : List Register → ℕ
list_size reg_list = 4 * length reg_list % 2 ^ 32

-- The loop of LDM, which moves each register to the address, although it is to load them.
unfoldable pub ldm_loop : List Register → List Operation
ldm_loop [] = []
ldm_loop (reg ∷ reg_list) =
    Operation.move (address_in_local "Address" 32) (arm_register_to_ga_operand reg)
    ∷ Operation.add (local "Address") (local "Address") (word 4)
    ∷ ldm_loop reg_list

-- The base is written back where it stands in the list.
unfoldable pub ldm : Register → List Register → List Operation
unfolding contains ldm_loop
ldm n reg_list =
    Operation.move (local "Address") (arm_register_to_ga_operand n)
    ∷ (ldm_loop reg_list
        ++ (if contains reg_list n
            then Operation.move (arm_register_to_ga_operand n) (local "Address") ∷ []
            else []))

unfoldable pub pop_loop : List Register → List Operation
pop_loop [] = []
pop_loop (reg ∷ reg_list) =
    Operation.move (arm_register_to_ga_operand reg) (address_in_local "Address" 32)
    ∷ Operation.add (local "Address") (local "Address") (word 4)
    ∷ pop_loop reg_list

unfoldable pub pop : List Register → List Operation
unfolding pop_loop list_size
pop reg_list =
    Operation.move (local "Address") (register "SP")
    ∷ (pop_loop reg_list
        ++ (Operation.add (register "SP") (register "SP") (word (list_size reg_list)) ∷ []))

unfoldable pub push_loop : List Register → List Operation
push_loop [] = []
push_loop (reg ∷ reg_list) =
    Operation.move (address_in_local "Address" 32) (arm_register_to_ga_operand reg)
    ∷ Operation.add (local "Address") (local "Address") (word 4)
    ∷ push_loop reg_list

unfoldable pub push : List Register → List Operation
unfolding push_loop list_size
push reg_list =
    Operation.sub (local "Address") (register "SP") (word (list_size reg_list))
    ∷ (push_loop reg_list
        ++ (Operation.sub (register "SP") (register "SP") (word (list_size reg_list)) ∷ []))

unfoldable pub stm_loop : List Register → List Operation
stm_loop [] = []
stm_loop (reg ∷ reg_list) =
    let addr = local "addr" in
    let to_addr = address_in_local "addr" 32 in
    let four = word 4 in
    Operation.move to_addr (arm_register_to_ga_operand reg)
    ∷ Operation.add addr addr four
    ∷ stm_loop reg_list

unfoldable pub stm : Register → List Register → List Operation
unfolding stm_loop
stm n reg_list =
    let n = arm_register_to_ga_operand n in
    let addr = local "addr" in
    Operation.move addr n ∷ (stm_loop reg_list ++ (Operation.move n addr ∷ []))
