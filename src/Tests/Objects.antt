-- ===== src/Tests/Objects.antt =====
-- The object memory and hooks at concrete inputs.
use Prim.Native.String.{String, ◌++◌ as push_str}
use symex.Common.{
  ℕ, ◌-◌, ◌*◌, ◌/◌, ◌%◌, ◌^◌, ◌≡◌, ◌≢◌, refl, true, false, List, [], ◌∷◌, ◌++◌, some, arith,
  Returns,
}
use symex.Smt.Sample.{two_worlds, Term, term, value}
use symex.Smt.Means.{Means}
use symex.Smt.Expr.{get_constant}
use symex.Memory.Array
use symex.Memory.Objects.{MemoryObject, ObjectMemory, closest, read, write}
use symex.Memory.Objects.Laws.{Laid, IsLaid}
use symex.Memory.Objects.RoundTrip.{IsAddress, read-write_object, read-write_elsewhere}
use symex.Memory.Objects.Parts.{read-write_part}
use symex.State.{Machine}
use symex.Project.{hook_at}
use symex.Project.Config.{MemoryHookAddress, single, range, construct_memory_hooks}
use symex.Project.Config
use symex.Project.Config.Laws.{or_else, last_single, first_holding, hook_at-construct_memory_hooks}
use symex.Tests.Samples.{empty_solver, state}

-- The same number in both worlds.
abbrev number : ℕ → ℕ → Term
number w v = term w (λ e. v)

abbrev low : MemoryObject
low = record { address = 256; size = 16; bv = number 16 0 }

abbrev high : MemoryObject
high = record { address = 300; size = 8; bv = number 8 7 }

abbrev objects : ObjectMemory
objects = record {
  allocator = record { cursor = 301 };
  objects = (300, high) ∷ (256, low) ∷ [];
  ptr_size = 32;
  alloc_id = 2;
}

objects_IsLaid : IsLaid objects
unfolding Laid
objects_IsLaid =
    ((refl, refl, omega arith, omega arith, (refl, refl, omega arith, omega arith, tt)))

start-IsAddress : IsAddress objects (number 32 256) 256
unfolding get_constant
start-IsAddress = record { has_width = refl; constant = refl }

inside-IsAddress : IsAddress objects (number 32 257) 257
unfolding get_constant
inside-IsAddress = record { has_width = refl; constant = refl }

other-IsAddress : IsAddress objects (number 32 300) 300
unfolding get_constant
other-IsAddress = record { has_width = refl; constant = refl }

finds_low : closest 256 objects.objects ≡ some (256, low)
unfolding closest
finds_low = refl

finds_high : closest 300 objects.objects ≡ some (300, high)
unfolding closest
finds_high = refl

-- 1234 in one world and 4321 in the other.
abbrev differing : Term
differing = term 16 (λ e. elim e [ true ↦ 1234 | false ↦ 4321 ])

differing-Means : Means 16 (λ e. value e differing) differing
differing-Means = record { has_width = refl; has_value = λ e. refl }

-- The second byte of a word.
read-write_object_example : Returns (write objects (number 32 256) differing) (λ m.
    IsLaid m
    × Returns
        (read m (number 32 257) 8)
        (Means 8 (λ e. value e differing / 2 ^ ((257 - 256) * 8) % 2 ^ 8)))
read-write_object_example =
    read-write_object objects (number 32 256) differing (number 32 257) low (λ e. value e differing)
      256 257 8 objects_IsLaid start-IsAddress finds_low (omega arith) differing-Means
      inside-IsAddress (omega arith) (omega arith) (omega arith)

finds_inside : closest 257 objects.objects ≡ some (256, low)
unfolding closest
finds_inside = refl

-- The second byte of a word is written.
read-write_part_example :
    Returns
      (write objects (number 32 257) (number 8 9))
      (λ m. IsLaid m × Returns (read m (number 32 257) 8) (Means 8 (λ e. 9)))
read-write_part_example =
    read-write_part objects (number 32 257) (number 8 9) low (λ e. 9) 256 257 8 objects_IsLaid
      inside-IsAddress finds_inside (omega arith)
      (record { has_width = refl; has_value = λ e. refl }) (omega arith) (omega arith)

apart : high.address ≢ low.address
apart h = omega arith

read-write_elsewhere_example :
    Returns
      (write objects (number 32 256) differing)
      (λ m. read m (number 32 300) 8 ≡ read objects (number 32 300) 8)
read-write_elsewhere_example =
    read-write_elsewhere objects (number 32 256) differing (number 32 300) low high 256 300 300 8
      objects_IsLaid start-IsAddress finds_low (omega arith) refl other-IsAddress finds_high apart

-- Hooks, by their numbers.
abbrev hooks : List (MemoryHookAddress × ℕ)
hooks = (range 0 100, 1) ∷ (single 50, 2) ∷ (range 40 60, 3) ∷ (single 50, 4) ∷ []

hook_at-construct_memory_hooks_example :
    hook_at 50 (construct_memory_hooks hooks).0 (construct_memory_hooks hooks).1
    ≡ or_else (last_single 50 hooks) (first_holding 50 hooks)
hook_at-construct_memory_hooks_example = hook_at-construct_memory_hooks 50 hooks

-- A machine that is about to call `symbolic_size`, for two bytes at 16.
abbrev calling : Machine
calling = record {
  state = record state {
    registers =
        ("R0", number 8 16)
        ∷ ("R1", number 8 2)
        ∷ ("LR", number 32 4096)
        ∷ ("SP", number 32 8)
        ∷ [];
  };
  solver = empty_solver;
}
