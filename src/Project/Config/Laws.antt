-- ===== src/Project/Config/Laws.antt =====
-- Which of the hooks of a configuration symex/src/general_assembly/project.rs runs.
use Prim.Native.String.{String}
use symex.Common.{
  ℕ, ◌≡◌, refl, sym, ◌∙◌, Bool, true, false, ◌&&◌, List, [], ◌∷◌, ◌++◌, Option, none, some,
  Option-cases, Bool-cases, inl, inr, Dict, name_eq, lookup, insert, lookup-insert, lookup_address,
  ltb, leb, ◌==◌, if◌then◌else◌, arith,
}
use symex.Project.{first_range, hook_at}
use symex.Project.Config.{
  MemoryHookAddress, single, range, insert_address, insert_hooks, construct_register_hooks,
  insert_memory_hooks, construct_memory_hooks,
}

module _ {ℓ} {H : Type ℓ} where
  unfoldable pub or_else : Option H → Option H → Option H
  or_else (some hook) other = some hook
  or_else none other = other

  or_else_assoc : (a b c : Option H) → or_else (or_else a b) c ≡ or_else a (or_else b c)
  unfolding or_else
  or_else_assoc (some hook) b c = refl
  or_else_assoc none b c = refl

  or_else-none : (a : Option H) → or_else a none ≡ a
  unfolding or_else
  or_else-none (some hook) = refl
  or_else-none none = refl

  or_else-if :
      (t : Bool) (hook : H) (other : Option H)
      → or_else (if t then some hook else none) other ≡ (if t then some hook else other)
  unfolding or_else
  or_else-if true hook other = refl
  or_else-if false hook other = refl

  -- What a configuration says of a register: the last hook that names it.
  unfoldable pub last_hook : String → List (String × H) → Option H
  unfolding or_else
  last_hook register [] = none
  last_hook register ((name, hook) ∷ hooks) =
      or_else (last_hook register hooks) (if name_eq name register then some hook else none)

  lookup-insert_hooks :
      (register : String) (ret : Dict H) (hooks : List (String × H))
      → lookup register (insert_hooks ret hooks)
        ≡ or_else (last_hook register hooks) (lookup register ret)
  unfolding insert_hooks last_hook or_else
  lookup-insert_hooks register ret [] = refl
  lookup-insert_hooks register ret ((name, hook) ∷ hooks) =
      let same = or_else-if (name_eq name register) hook (lookup register ret) in
      rw
        (
          lookup-insert_hooks register (insert name hook ret) hooks,
          lookup-insert name register hook ret,
          or_else_assoc (last_hook register hooks)
              (if name_eq name register then some hook else none) (lookup register ret),
          same,
        )
        refl

  -- The hook of a register is the last that the configuration has for it.
  pub lookup-construct_register_hooks :
      (register : String) (hooks : List (String × H))
      → lookup register (construct_register_hooks hooks) ≡ last_hook register hooks
  unfolding construct_register_hooks lookup
  lookup-construct_register_hooks register hooks =
      lookup-insert_hooks register [] hooks ∙ or_else-none (last_hook register hooks)

  -- The last hook on just this address, and the first on a range that holds it.
  unfoldable pub last_single : ℕ → List (MemoryHookAddress × H) → Option H
  unfolding or_else
  last_single address [] = none
  last_single address ((single addr, hook) ∷ hooks) =
      or_else (last_single address hooks) (if addr == address then some hook else none)
  last_single address ((range start end, hook) ∷ hooks) = last_single address hooks

  unfoldable pub first_holding : ℕ → List (MemoryHookAddress × H) → Option H
  first_holding address [] = none
  first_holding address ((single addr, hook) ∷ hooks) = first_holding address hooks
  first_holding address ((range start end, hook) ∷ hooks) =
      if leb start address && ltb address end then some hook else first_holding address hooks

  lookup_address-insert_address :
      (address asked : ℕ) (new : H) (dict : List (ℕ × H))
      → lookup_address asked (insert_address address new dict)
        ≡ (if address == asked then some new else lookup_address asked dict)
  unfolding lookup_address insert_address
  lookup_address-insert_address address asked new [] = refl
  lookup_address-insert_address address asked new ((key, old) ∷ dict) =
      let rest = lookup_address-insert_address address asked new dict in ground (arith, rest)

  lookup_address-insert_memory_hooks :
      (address : ℕ) (singles : List (ℕ × H)) (ranges : List ((ℕ × ℕ) × H))
      (hooks : List (MemoryHookAddress × H))
      → lookup_address address (insert_memory_hooks singles ranges hooks).0
        ≡ or_else (last_single address hooks) (lookup_address address singles)
  unfolding insert_memory_hooks last_single or_else
  lookup_address-insert_memory_hooks address singles ranges [] = refl
  lookup_address-insert_memory_hooks address singles ranges ((single addr, hook) ∷ hooks) =
      let same = or_else-if (addr == address) hook (lookup_address address singles) in
      rw
        (
          lookup_address-insert_memory_hooks address (insert_address addr hook singles) ranges
              hooks,
          lookup_address-insert_address addr address hook singles,
          or_else_assoc (last_single address hooks) (if addr == address then some hook else none)
              (lookup_address address singles),
          same,
        )
        refl
  lookup_address-insert_memory_hooks address singles ranges ((range start end, hook) ∷ hooks) =
      lookup_address-insert_memory_hooks address singles (ranges ++ ((start, end), hook) ∷ []) hooks

  first_range-append :
      (address : ℕ) (xs ys : List ((ℕ × ℕ) × H))
      → first_range address (xs ++ ys) ≡ or_else (first_range address xs) (first_range address ys)
  unfolding first_range or_else
  first_range-append address [] ys = refl
  first_range-append address (((start, end), hook) ∷ xs) ys =
      let rest = first_range-append address xs ys in
      elim (Bool-cases (leb start address && ltb address end)) [
        | inl h ↦ rw h refl
        | inr h ↦ rw (h, rest) refl
      ]

  first_range-insert_memory_hooks :
      (address : ℕ) (singles : List (ℕ × H)) (ranges : List ((ℕ × ℕ) × H))
      (hooks : List (MemoryHookAddress × H))
      → first_range address (insert_memory_hooks singles ranges hooks).1
        ≡ or_else (first_range address ranges) (first_holding address hooks)
  unfolding insert_memory_hooks first_holding first_range
  first_range-insert_memory_hooks address singles ranges [] =
      sym (or_else-none (first_range address ranges))
  first_range-insert_memory_hooks address singles ranges ((single addr, hook) ∷ hooks) =
      first_range-insert_memory_hooks address (insert_address addr hook singles) ranges hooks
  first_range-insert_memory_hooks address singles ranges ((range start end, hook) ∷ hooks) =
      let here = leb start address && ltb address end in
      rw
        (
          first_range-insert_memory_hooks address singles (ranges ++ ((start, end), hook) ∷ [])
              hooks,
          first_range-append address ranges (((start, end), hook) ∷ []),
          or_else_assoc (first_range address ranges) (if here then some hook else none)
              (first_holding address hooks),
          or_else-if here hook (first_holding address hooks),
        )
        refl

  -- The hook that runs at an address: the last that the configuration has for just this address,
  -- and otherwise the first on a range that holds it.
  pub hook_at-construct_memory_hooks :
      (address : ℕ) (hooks : List (MemoryHookAddress × H))
      → hook_at address (construct_memory_hooks hooks).0 (construct_memory_hooks hooks).1
        ≡ or_else (last_single address hooks) (first_holding address hooks)
  unfolding hook_at construct_memory_hooks or_else lookup_address first_range
  hook_at-construct_memory_hooks address hooks =
      let singles = lookup_address-insert_memory_hooks address [] [] hooks in
      let ranges = first_range-insert_memory_hooks address [] [] hooks in
      elim (Option-cases (last_single address hooks)) [
        | inl q ↦ rw (hook_at, singles, q, ranges) refl
        | inr (later, q) ↦ rw (hook_at, singles, q) refl
      ]
