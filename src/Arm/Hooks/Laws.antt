-- ===== src/Arm/Hooks/Laws.antt =====
-- What the hooks of symex/src/general_assembly/arch/arm/v6.rs and v7.rs do in a project that has them.
use Prim.Native.String.{String}
use symex.Common.{◌≡◌, none, insert}
use symex.Smt.Boolector.{Boolector}
use symex.Smt.Expr.{DExpr}
use symex.Smt.Means.{Means}
use symex.State.{Machine}
use symex.State.Registers.{with_state}
use symex.Project.{Project, get_register_read_hook, get_register_write_hook}
use symex.Project.Config.{RunConfig, set_hooks}
use symex.Arm.Hooks.{add_hooks_v6, add_hooks_v7}

module _ ⦃b : Boolector⦄ where
  -- No hook on a register, neither for reading nor for writing.
  pub record Unhooked (p : Project) (register : String) : Type 0 where
    pub read : get_register_read_hook p register ≡ none
    pub write : get_register_write_hook p register ≡ none

  module _ (p : Project) (cfg : RunConfig) where
    -- The project with the hooks of the architecture behind those of the user.
    abbrev pub armv6m : Project
    armv6m = set_hooks (add_hooks_v6 p cfg) p

    abbrev pub armv7em : Project
    armv7em = set_hooks (add_hooks_v7 p cfg) p

    -- The machine with SP written.
    abbrev with_sp : DExpr → Machine → Machine
    with_sp x m = with_state m (record m.state { registers = insert "SP" x m.state.registers })
