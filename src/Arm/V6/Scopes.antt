-- ===== src/Arm/V6/Scopes.antt =====
-- The locals of the operations that symex/src/general_assembly/arch/arm/v6/decoder.rs makes of an
-- instruction. The executor unwraps a local that is read, so that one that was never written is a
-- panic, and so is a write to an immediate.
use Prim.Native.String.{String}
use symex.Common.{
  ◌≡◌, refl, Bool, true, false, ◌&&◌, ◌||◌, List, [], ◌∷◌, ◌++◌, Option, none, some, name_eq,
}
use symex.Ga.Operand.{Operand, immediate, address_in_local, address_with_offset, local}
use symex.Ga.Operation.{Operation}
use symex.Arm.V6.Instructions.{Register}
use symex.Arm.V6.Decoder.Lists

unfoldable pub is_bound : String → List String → Bool
is_bound k [] = false
is_bound k (j ∷ names) = name_eq j k || is_bound k names

unfoldable can_read : List String → Operand → Bool
can_read names (local k) = is_bound k names
can_read names (address_in_local k width) = is_bound k names
can_read names (address_with_offset a r width) = false
can_read names _ = true

unfoldable can_write : List String → Operand → Bool
can_write names (address_in_local k width) = is_bound k names
can_write names (immediate v) = false
can_write names (address_with_offset a r width) = false
can_write names _ = true

unfoldable bind : Operand → List String → List String
bind (local k) names = k ∷ names
bind _ names = names

-- The operand that is written, and those that are read.
unfoldable target : Operation → Option Operand
target (Operation.move d o) = some d
target (Operation.add d o1 o2) = some d
target (Operation.adc d o1 o2) = some d
target (Operation.sub d o1 o2) = some d
target (Operation.mul d o1 o2) = some d
target (Operation.and d o1 o2) = some d
target (Operation.or d o1 o2) = some d
target (Operation.xor d o1 o2) = some d
target (Operation.not_op d o) = some d
target (Operation.sl d o n) = some d
target (Operation.srl d o n) = some d
target (Operation.sra d o n) = some d
target (Operation.sror d o n) = some d
target (Operation.zero_extend d o bits target_bits) = some d
target (Operation.sign_extend d o bits) = some d
target _ = none

unfoldable sources : Operation → List Operand
sources (Operation.move d o) = o ∷ []
sources (Operation.add d o1 o2) = o1 ∷ o2 ∷ []
sources (Operation.adc d o1 o2) = o1 ∷ o2 ∷ []
sources (Operation.sub d o1 o2) = o1 ∷ o2 ∷ []
sources (Operation.mul d o1 o2) = o1 ∷ o2 ∷ []
sources (Operation.and d o1 o2) = o1 ∷ o2 ∷ []
sources (Operation.or d o1 o2) = o1 ∷ o2 ∷ []
sources (Operation.xor d o1 o2) = o1 ∷ o2 ∷ []
sources (Operation.not_op d o) = o ∷ []
sources (Operation.sl d o n) = o ∷ n ∷ []
sources (Operation.srl d o n) = o ∷ n ∷ []
sources (Operation.sra d o n) = o ∷ n ∷ []
sources (Operation.sror d o n) = o ∷ n ∷ []
sources (Operation.zero_extend d o bits target_bits) = o ∷ []
sources (Operation.sign_extend d o bits) = o ∷ []
sources (Operation.conditional_jump d condition) = d ∷ []
sources (Operation.set_n_flag o) = o ∷ []
sources (Operation.set_z_flag o) = o ∷ []
sources (Operation.set_c_flag o1 o2 sub carry) = o1 ∷ o2 ∷ []
sources (Operation.set_v_flag o1 o2 sub carry) = o1 ∷ o2 ∷ []
sources (Operation.set_c_flag_shift_left o n) = o ∷ n ∷ []
sources (Operation.set_c_flag_srl o n) = o ∷ n ∷ []
sources (Operation.set_c_flag_sra o n) = o ∷ n ∷ []
sources (Operation.set_c_flag_ror o) = o ∷ []
sources _ = []

-- The operations that the translation uses.
unfoldable is_known : Operation → Bool
unfolding target sources
is_known Operation.nop = true
is_known o = elim (target o) [ some d ↦ true | none ↦ elim (sources o) [ [] ↦ false | _ ↦ true ] ]

unfoldable all_readable : List String → List Operand → Bool
unfolding can_read
all_readable names [] = true
all_readable names (o ∷ os) = can_read names o && all_readable names os

unfoldable writes : Option Operand → List String → Bool
unfolding can_write
writes none names = true
writes (some d) names = can_write names d

unfoldable bound_after : Option Operand → List String → List String
unfolding bind
bound_after none names = names
bound_after (some d) names = bind d names

-- Every local is written before it is read, when the locals of `names` are.
unfoldable pub is_scoped : List String → List Operation → Bool
unfolding is_known all_readable writes bound_after target sources
is_scoped names [] = true
is_scoped names (o ∷ os) =
    is_known o
    && all_readable names (sources o)
    && writes (target o) names
    && is_scoped (bound_after (target o) names) os

-- A loop over registers goes on with its address bound.
module _ (rest : List Operation) where
  pub ldm_loop-is_scoped :
      (reg_list : List Register) (names : List String)
      → is_bound "Address" names ≡ true
      → ((names : List String) → is_bound "Address" names ≡ true → is_scoped names rest ≡ true)
      → is_scoped names (Lists.ldm_loop reg_list ++ rest) ≡ true
  unfolding is_scoped is_bound Lists.ldm_loop
  ldm_loop-is_scoped [] names h k = k names h
  ldm_loop-is_scoped (reg ∷ reg_list) names h k =
      rw h (ldm_loop-is_scoped reg_list ("Address" ∷ names) refl k)

  pub pop_loop-is_scoped :
      (reg_list : List Register) (names : List String)
      → is_bound "Address" names ≡ true
      → ((names : List String) → is_bound "Address" names ≡ true → is_scoped names rest ≡ true)
      → is_scoped names (Lists.pop_loop reg_list ++ rest) ≡ true
  unfolding is_scoped is_bound Lists.pop_loop
  pop_loop-is_scoped [] names h k = k names h
  pop_loop-is_scoped (reg ∷ reg_list) names h k =
      rw h (pop_loop-is_scoped reg_list ("Address" ∷ names) refl k)

  pub push_loop-is_scoped :
      (reg_list : List Register) (names : List String)
      → is_bound "Address" names ≡ true
      → ((names : List String) → is_bound "Address" names ≡ true → is_scoped names rest ≡ true)
      → is_scoped names (Lists.push_loop reg_list ++ rest) ≡ true
  unfolding is_scoped is_bound Lists.push_loop
  push_loop-is_scoped [] names h k = k names h
  push_loop-is_scoped (reg ∷ reg_list) names h k =
      rw h (push_loop-is_scoped reg_list ("Address" ∷ names) refl k)

  pub stm_loop-is_scoped :
      (reg_list : List Register) (names : List String)
      → is_bound "addr" names ≡ true
      → ((names : List String) → is_bound "addr" names ≡ true → is_scoped names rest ≡ true)
      → is_scoped names (Lists.stm_loop reg_list ++ rest) ≡ true
  unfolding is_scoped is_bound Lists.stm_loop
  stm_loop-is_scoped [] names h k = k names h
  stm_loop-is_scoped (reg ∷ reg_list) names h k =
      rw h (stm_loop-is_scoped reg_list ("addr" ∷ names) refl k)
