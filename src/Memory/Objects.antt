-- ===== src/Memory/Objects.antt =====
-- symex/src/memory/object_memory.rs: memory as the objects that were allocated.
pub mod Laws
pub mod RoundTrip
pub mod Parts
use Prim.Native.String.{String, ◌++◌ as push_str}
use symex.Common.{
  ℕ, ◌+◌, ◌-◌, ◌*◌, ◌%◌, ◌^◌, List, [], ◌∷◌, Option, none, some, leb, ltb, ◌==◌, if◌then◌else◌,
  to_string, Outcome, ok, err, panic, ◌>>=◌, ◌>>◌, assert, map_err, unwrap,
}
use symex.Errors.{MemoryError, solver}
use symex.Smt.Boolector.{Boolector}
use symex.Smt.Expr.{DExpr, len, slice, replace_part, get_constant, unconstrained}
use symex.Smt.Solver.{Solver, Solutions, exactly, at_least, get_values}
use symex.Memory.Allocator.{LinearAllocator, get_address}
use symex.Memory.Allocator

module _ ⦃b : Boolector⦄ where
  pub record MemoryObject : Type 0 where
    pub address : ℕ
    pub size : ℕ
    pub bv : DExpr

  unfoldable pub bit_size : MemoryObject → ℕ
  bit_size object = object.size

  -- `BTreeMap<u64, MemoryObject>`: the greatest key first.
  abbrev pub Objects : Type 0
  Objects = List (ℕ × MemoryObject)

  -- The solver, which all states share, is an argument.
  pub record ObjectMemory : Type 0 where
    pub allocator : LinearAllocator
    pub objects : Objects
    pub ptr_size : ℕ
    pub alloc_id : ℕ

  unfoldable pub new : ℕ → ObjectMemory
  new ptr_size = record {
    allocator = Allocator.new;
    objects = [];
    ptr_size = ptr_size;
    alloc_id = 0;
  }

  -- `BTreeMap::get`.
  unfoldable find_object : ℕ → Objects → Option MemoryObject
  find_object address [] = none
  find_object address ((key, object) ∷ objects) =
      if key == address then some object else find_object address objects

  unfoldable pub get_object : ObjectMemory → ℕ → Option MemoryObject
  unfolding find_object
  get_object m address = find_object address m.objects

  -- `BTreeMap::insert`.
  unfoldable pub insert_object : ℕ → MemoryObject → Objects → Objects
  insert_object key new [] = (key, new) ∷ []
  insert_object key new ((other, object) ∷ objects) =
      let rest = insert_object key new objects in
      if ltb other key
      then (key, new) ∷ (other, object) ∷ objects
      else if other == key
      then (key, new) ∷ objects
      else (other, object) ∷ rest

  -- `range(0..=address).rev().take(1).next()`: the object that stands closest below.
  unfoldable pub closest : ℕ → Objects → Option (ℕ × MemoryObject)
  closest address [] = none
  closest address ((key, object) ∷ objects) =
      if leb key address then some (key, object) else closest address objects

  -- `random` is the number that `rand::random` gave.
  unfoldable pub allocate : ℕ → ℕ → ℕ → ObjectMemory → Outcome MemoryError (ℕ × ObjectMemory)
  unfolding insert_object
  allocate random bits align m = do
    ((addr, bytes), allocator) ← get_address m.allocator bits align
    let name = push_str (push_str (push_str "alloc" (to_string m.alloc_id)) "-") (to_string random)
    let object : MemoryObject = record {
      address = addr;
      size = bits;
      bv = unconstrained (bits % 2 ^ 32) name;
    }
    ok (
      addr,
      record m {
        allocator = allocator;
        alloc_id = m.alloc_id + 1;
        objects = insert_object addr object m.objects;
      },
    )

  -- Both `resolve_address` and `resolve_address_mut`.
  unfoldable pub resolve_address : ObjectMemory → DExpr → Outcome MemoryError (ℕ × ℕ × MemoryObject)
  unfolding closest
  resolve_address m address = do
    constant ← get_constant address
    address ← unwrap constant
    (key, object) ← unwrap (closest address m.objects)
    ok (address, key, object)

  -- `x - y` on `u64`.
  unfoldable pub checked_sub : ℕ → ℕ → Outcome MemoryError ℕ
  checked_sub x y = if ltb x y then panic else ok (x - y)

  -- A result below `2 ^ w`.
  unfoldable pub checked : ℕ → ℕ → Outcome MemoryError ℕ
  checked w x = if ltb x (2 ^ w) then ok x else panic

  unfoldable pub read : ObjectMemory → DExpr → ℕ → Outcome MemoryError DExpr
  unfolding resolve_address checked_sub checked
  read m addr bits = do
    assert (len addr == m.ptr_size)
    (addr, _, value) ← resolve_address m addr
    distance ← checked_sub addr value.address
    offset ← checked 32 (distance % 2 ^ 32 * 8)
    end ← checked 32 (offset + bits)
    last ← checked_sub end 1
    slice value.bv offset last

  -- A value as large as the object replaces it, wherever in the object the address is.
  unfoldable pub write : ObjectMemory → DExpr → DExpr → Outcome MemoryError ObjectMemory
  unfolding resolve_address checked_sub checked insert_object
  write m addr value = do
    assert (len addr == m.ptr_size)
    (addr, key, val) ← resolve_address m addr
    distance ← checked_sub addr val.address
    offset ← checked 64 (distance * 8)
    bv ←
        if len value == val.size % 2 ^ 32
        then ok value
        else replace_part val.bv (offset % 2 ^ 32) value
    ok (record m { objects = insert_object key (record val { bv = bv }) m.objects })

  unfoldable pub resolve_addresses : Solver → DExpr → ℕ → Outcome MemoryError (List DExpr × Solver)
  resolve_addresses s address upper_bound = do
    constant ← get_constant address
    elim constant [
      | some v ↦ ok (address ∷ [], s)
      | none ↦ do
        (addresses, s) ← map_err solver (get_values s address upper_bound)
        elim addresses [ exactly found ↦ ok (found, s) | at_least found ↦ ok (found, s) ]
    ]
