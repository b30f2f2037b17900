-- ===== src/State/Registers/Laws.antt =====
-- Reading and writing registers and flags, as symex/src/general_assembly/state.rs does.
use Prim.Native.String.{String}
use symex.Common.{
  ℕ, insert, ◌≡◌, refl, ◌∙◌, none, some, name_eq_refl, lookup, lookup-insert, ok, Returns,
  Option-cases, inl, inr,
}
use symex.Smt.Boolector.{Boolector}
use symex.Errors.{GaError}
use symex.Smt.Expr.{DExpr, get_constant}
use symex.State.{Machine}
use symex.State.Registers.{set_register, get_register, fresh_register, set_pc, with_state}
use symex.Project.{Project, get_register_read_hook, get_register_write_hook}

module _ ⦃b : Boolector⦄ (p : Project) where
  pub get_register-found :
      (register : String) (v : DExpr) (m : Machine)
      → get_register_read_hook p register ≡ none
      → lookup register m.state.registers ≡ some v
      → get_register p register m ≡ ok (v, m)
  unfolding get_register
  get_register-found register v m no_hook found = rw (get_register, no_hook, found) refl

  get_register-unset :
      (register : String) (m : Machine)
      → get_register_read_hook p register ≡ none
      → lookup register m.state.registers ≡ none
      → get_register p register m ≡ fresh_register p register m
  unfolding get_register
  get_register-unset register m no_hook unset = rw (get_register, no_hook, unset) refl

  -- A jump to a constant.
  pub set_register-pc :
      (dest : DExpr) (v : ℕ) (m : Machine)
      → get_register_write_hook p "PC" ≡ none
      → get_constant {E = GaError} dest ≡ ok (some v)
      → set_register p "PC" dest m
        ≡ ok (
          tt,
          with_state m
              (record m.state { pc_register = v; registers = insert "PC" dest m.state.registers }),
        )
  unfolding set_register set_pc
  set_register-pc dest v m no_hook constant = rw (set_register, set_pc, constant, no_hook) refl

  -- Reading a register that has no read hook, twice, gives the same value, and the second time changes nothing: a
  -- register that was never written gets its fresh value once.
  pub get_register-get_register :
      (register : String) (m : Machine)
      → get_register_read_hook p register ≡ none
      → Returns (get_register p register m) (λ r. get_register p register r.1 ≡ ok r)
  unfolding fresh_register
  get_register-get_register register m no_hook =
      elim (Option-cases (lookup register m.state.registers)) [
        | inl fresh ↦ (
          _,
          get_register-unset register m no_hook fresh,
          get_register-found register _ _ no_hook (
              lookup-insert register register _ m.state.registers
              ∙ rw (name_eq_refl register) refl),
        )
        | inr (v, found) ↦ (
          _,
          get_register-found register v m no_hook found,
          get_register-found register v m no_hook found,
        )
      ]
