-- ===== src/Tests/Samples.antt =====
-- Concrete inputs, over the small Boolector of Smt.Sample.
use symex.Common.{
  ℕ, ◌≡◌, refl, ◌∙◌, true, false, bit, [], ◌∷◌, none, some, lookup, lookup-here, lookup-there,
}
use symex.Smt.Sample.{two_worlds, Term, term, value, Cells}
use symex.Smt.Means.{Means}
use symex.Smt.Solver.{Solver}
use symex.Smt.Solver.Laws.{Decides}
use symex.Common.{arith}
use symex.Memory.Array.{ArrayMemory, little}
use symex.State.{GaState, Machine}
use symex.Project.{Project, bit32, end_success}

-- A byte with the value 5 in one world and 200 in the other.
abbrev pub byte : Term
byte = term 8 (λ e. elim e [ true ↦ 5 | false ↦ 200 ])

abbrev pub carry : Term
carry = term 1 (λ e. bit e)

-- A number of eight bits that is the same in both worlds.
abbrev pub same : ℕ → Term
same v = term 8 (λ e. v)

pub byte-Means : Means 8 (λ e. value e byte) byte
byte-Means = record { has_width = refl; has_value = λ e. refl }

pub carry-Means : Means 1 (λ e. value e carry) carry
carry-Means = record { has_width = refl; has_value = λ e. refl }

pub same-Means : (v : ℕ) → Means 8 (λ e. value e (same v)) (same v)
same-Means v = record { has_width = refl; has_value = λ e. refl }

abbrev pub empty_solver : Solver
empty_solver = record { base = []; frames = [] }

abbrev pub cells : Cells
cells = record { element = 8; cell = λ e i. 0 }

abbrev pub memory : ArrayMemory
memory = record { ptr_size = 8; memory = cells; endianness = little }

abbrev pub state : GaState
state = record {
  marked_symbolic = [];
  memory = memory;
  count_cycles = true;
  cycle_count = 0;
  cycle_laps = [];
  last_instruction = none;
  last_pc = 0;
  registers = [];
  continue_in_instruction = none;
  current_instruction = none;
  inital_sp = 0;
  pc_register = 0;
  flags = ("N", carry) ∷ ("Z", term 1 (λ e. 0)) ∷ ("C", carry) ∷ ("V", term 1 (λ e. 1)) ∷ [];
  instruction_counter = 0;
  has_jumped = false;
  instruction_conditions = [];
}

abbrev pub machine : Machine
machine = record { state = state; solver = empty_solver }

pub n_found : lookup "N" state.flags ≡ some carry
n_found = lookup-here _ _ _

pub z_found : lookup "Z" state.flags ≡ some (term 1 (λ e. 0))
z_found = lookup-there "Z" _ _ "N" refl ∙ lookup-here _ _ _

pub c_found : lookup "C" state.flags ≡ some carry
c_found = lookup-there "C" _ _ "N" refl ∙ lookup-there "C" _ _ "Z" refl ∙ lookup-here _ _ _

pub v_found : lookup "V" state.flags ≡ some (term 1 (λ e. 1))
v_found =
    lookup-there "V" _ _ "N" refl
    ∙ lookup-there "V" _ _ "Z" refl
    ∙ lookup-there "V" _ _ "C" refl
    ∙ lookup-here _ _ _

-- A program that ends where it starts.
abbrev pub program : Project
program = record {
  segments = [];
  word_size = bit32;
  endianness = little;
  symtab = [];
  pc_hooks = (0, end_success) ∷ [];
  reg_read_hooks = [];
  reg_write_hooks = [];
  single_memory_read_hooks = [];
  range_memory_read_hooks = [];
  single_memory_write_hooks = [];
  range_memory_write_hooks = [];
}

pub two_worlds_decides : Decides
two_worlds_decides cs h = ground arith
