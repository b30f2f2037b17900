-- ===== src/Executor/Steps.antt =====
-- One operation of symex/src/general_assembly/executor.rs after the other, where its operands are
-- registers without hooks, locals and immediates: what `execute_operation` makes of the state.
use Prim.Native.String.{String}
use symex.Common.{
  ℕ, ◌+◌, ◌≡◌, refl, false, List, [], ◌∷◌, none, some, name_eq, lookup, insert, Outcome, ok,
  Returns, Dict,
}
use symex.Errors.{GaError}
use symex.Smt.Boolector.{Boolector}
use symex.Smt.Expr.{DExpr, simplify}
use symex.Smt.Means.{Means}
use symex.Ga.Operand.{
  Operand, register, immediate, local, address, address_in_local, address_with_offset, flag,
}
use symex.Ga.Operation.{Operation}
use symex.State.{GaState, Machine, Action}
use symex.State.Flags.{set_flag}
use symex.State.Registers.{dexpr_of_dataword, set_register, set_pc, get_register}
use symex.State.Registers.Laws.{get_register-found}
use symex.Project.{Project, get_register_read_hook, get_register_write_hook}
use symex.Executor.Monad.{
  GaExecutor, Exec, ◌>>=◌, ◌>>◌, on_machine, call, update_state, get_state, return,
}
use symex.Executor.Operands.{Locals, get_operand_value, set_operand_value, get_local}
use symex.Executor.Operations.{
  execute_operation, binary_operation, unary_operation, flag_operation, flag_operation2,
}
use symex.Executor.Instructions.{execute_operations}
use symex.Executor.Instructions.Conditions.{step, called}

module _ ⦃b : Boolector⦄ where
  -- The state after a value was stored, and the locals.
  abbrev pub put_state : Operand → DExpr → GaState → GaState
  put_state (register name) v s = record s { registers = insert name v s.registers }
  put_state _ v s = s

  abbrev pub put_local : Operand → DExpr → Locals → Locals
  put_local (local k) v l = insert k v l
  put_local _ v l = l

  on_machine-ok :
      {A : Type 0} (f : Action A) (x : GaExecutor) {a : A} {m : Machine}
      → f (record { state = x.state; solver = x.solver }) ≡ ok (a, m)
      → on_machine f x ≡ ok (a, record x { state = m.state; solver = m.solver })
  on_machine-ok f x e = rw (on_machine, e) refl

  abbrev pub with_state : GaExecutor → GaState → GaExecutor
  with_state x s = record x { state = s }

  -- The executor at the operation with index `n`.
  abbrev pub at_index : ℕ → GaExecutor → GaExecutor
  at_index n x = record x { current_operation_index = n }

  -- The executor after `v` was stored in `d`.
  abbrev pub stored : Locals → GaExecutor → Operand → DExpr → Locals × GaExecutor
  stored l x d v = (put_local d v l, with_state x (put_state d v x.state))

  -- A flag that was set.
  abbrev pub flagged : Locals → GaExecutor → String → DExpr → Locals × GaExecutor
  flagged l x name v = (l, with_state x (record x.state { flags = insert name v x.state.flags }))

module _ ⦃b : Boolector⦄ (p : Project) where
  -- The operand can be read, and has the value `f e` under each assignment `e`.
  abbrev pub Holds : ℕ → (b.Env → ℕ) → Operand → Locals → GaState → Type 0
  Holds w f (register name) l s =
      (get_register_read_hook p name ≡ none)
      × ((v : DExpr) × (lookup name s.registers ≡ some v) × Means w f v)
  Holds w f (local k) l s = (v : DExpr) × (lookup k l ≡ some v) × Means w f v
  Holds w f (immediate v) l s = Means w f (dexpr_of_dataword v)
  Holds w f _ l s = ⊥

  -- The operand can be written.
  abbrev pub Writable : Operand → Type 0
  Writable (register name) = (get_register_write_hook p name ≡ none) × (name_eq name "PC" ≡ false)
  Writable (local k) = Unit
  Writable _ = ⊥

  pub get_operand_value-Holds :
      {w : ℕ} {f : b.Env → ℕ} (o : Operand) (l : Locals) (x : GaExecutor)
      → Holds w f o l x.state
      → (v : DExpr) × (get_operand_value p o l x ≡ ok (v, x)) × Means w f v
  unfolding get_operand_value get_local
  get_operand_value-Holds (register name) l x (no_hook, (v, found, m)) =
      (v, on_machine-ok (get_register p name) x (get_register-found p name v _ no_hook found), m)
  get_operand_value-Holds (local k) l x (v, found, m) = (v, rw found refl, m)
  get_operand_value-Holds (immediate v) l x m = (_, refl, m)
  get_operand_value-Holds (address a n) l x h = absurd h
  get_operand_value-Holds (address_in_local a n) l x h = absurd h
  get_operand_value-Holds (address_with_offset a r n) l x h = absurd h
  get_operand_value-Holds (flag n) l x h = absurd h

  set_register-Writable :
      (name : String) (v : DExpr) (m : Machine)
      → get_register_write_hook p name ≡ none
      → name_eq name "PC" ≡ false
      → set_register p name v m ≡ ok (tt, record m { state = put_state (register name) v m.state })
  unfolding set_register set_pc
  set_register-Writable name v m no_hook not_pc = rw (not_pc, no_hook) refl

  pub set_operand_value-Writable :
      (o : Operand) (v : DExpr) (l : Locals) (x : GaExecutor)
      → Writable o
      → set_operand_value p o v l x ≡ ok (put_local o v l, with_state x (put_state o v x.state))
  unfolding set_operand_value set_register set_pc
  set_operand_value-Writable (register name) v l x (no_hook, not_pc) =
      let stores =
        on_machine-ok (set_register p name v) x (set_register-Writable name v _ no_hook not_pc) in
      rw (◌>>=◌, stores) refl
  set_operand_value-Writable (local k) v l x h = refl
  set_operand_value-Writable (immediate c) v l x h = absurd h
  set_operand_value-Writable (address a n) v l x h = absurd h
  set_operand_value-Writable (address_in_local a n) v l x h = absurd h
  set_operand_value-Writable (address_with_offset a r n) v l x h = absurd h
  set_operand_value-Writable (flag n) v l x h = absurd h

  module _ {ℓ} {Q : Locals × GaExecutor → Type ℓ} where
    pub operations-nil :
        (n : ℕ) (l : Locals) (x : GaExecutor) → Q (l, x) → Returns (execute_operations p [] n l x) Q
    unfolding execute_operations
    operations-nil n l x q = (_, refl, q)

    -- The first operation, and then the others.
    pub operations-cons :
        (o : Operation) (os : List Operation) (n : ℕ) (l : Locals) (x : GaExecutor)
        → Returns
            (execute_operation p o l (at_index n x))
            (λ r. Returns (execute_operations p os (n + 1) r.0 r.1) Q)
        → Returns (execute_operations p (o ∷ os) n l x) Q
    unfolding execute_operations
    operations-cons o os n l x (r, e, h) =
        step (execute_operation p o l) (execute_operations p os (n + 1)) {x = at_index n x} e h

  module _ {ℓ} {P : Locals × GaExecutor → Type ℓ} (l : Locals) (x : GaExecutor) where
    pub binary_operation-Returns :
        {w u v : ℕ} {f g h : b.Env → ℕ} (F : DExpr → DExpr → Outcome GaError DExpr)
        (d o1 o2 : Operand)
        → ((y z : DExpr) → Means w f y → Means u g z → Returns (F y z) (Means v h))
        → Holds w f o1 l x.state
        → Holds u g o2 l x.state
        → Writable d
        → ((r : DExpr) → Means v h r → P (stored l x d r))
        → Returns (binary_operation p F d o1 o2 l x) P
    unfolding binary_operation
    binary_operation-Returns F d o1 o2 sem h1 h2 writable k =
        let (y, p1, my) = get_operand_value-Holds o1 l x h1 in
        let (z, p2, mz) = get_operand_value-Holds o2 l x h2 in
        let (r, p3, mr) = sem y z my mz in
        let store = λ (r : DExpr). set_operand_value p d r l in
        let second = λ (y z : DExpr). call (F y z) >>= store in
        step (get_operand_value p o1 l) (λ y. get_operand_value p o2 l >>= second y) {x = x} p1
          (step (get_operand_value p o2 l) (second y) {x = x} p2 (
            step (call (F y z)) store {x = x} (called p3)
              (_, set_operand_value-Writable d r l x writable, k r mr)))

    pub unary_operation-Returns :
        {w v : ℕ} {f h : b.Env → ℕ} (F : DExpr → Outcome GaError DExpr) (d o : Operand)
        → ((y : DExpr) → Means w f y → Returns (F y) (Means v h))
        → Holds w f o l x.state
        → Writable d
        → ((r : DExpr) → Means v h r → P (stored l x d r))
        → Returns (unary_operation p F d o l x) P
    unfolding unary_operation
    unary_operation-Returns F d o sem h1 writable k =
        let (y, p1, my) = get_operand_value-Holds o l x h1 in
        let (r, p2, mr) = sem y my in
        let store = λ (r : DExpr). set_operand_value p d r l in
        step (get_operand_value p o l) (λ y. call (F y) >>= store) {x = x} p1
          (step (call (F y)) store {x = x} (called p2)
            (_, set_operand_value-Writable d r l x writable, k r mr))

    pub move-Returns :
        {w : ℕ} {f : b.Env → ℕ} (d o : Operand)
        → Holds w f o l x.state
        → Writable d
        → ((r : DExpr) → Means w f r → P (stored l x d r))
        → Returns (execute_operation p (Operation.move d o) l x) P
    unfolding execute_operation simplify
    move-Returns d o h1 writable k =
        let (y, p1, my) = get_operand_value-Holds o l x h1 in
        step (get_operand_value p o l) (λ y. set_operand_value p d y l) {x = x} p1
          (_, set_operand_value-Writable d y l x writable, k y my)

    pub flag_operation-Returns :
        {w : ℕ} {f h : b.Env → ℕ} (name : String) (F : DExpr → Outcome GaError DExpr) (o : Operand)
        → ((y : DExpr) → Means w f y → Returns (F y) (Means 1 h))
        → Holds w f o l x.state
        → ((r : DExpr) → Means 1 h r → P (flagged l x name r))
        → Returns (flag_operation p name F o l x) P
    unfolding flag_operation set_flag simplify
    flag_operation-Returns name F o sem h1 k =
        let (y, p1, my) = get_operand_value-Holds o l x h1 in
        let (r, p2, mr) = sem y my in
        let store : DExpr → Exec Locals = λ r. update_state (set_flag name r) >> return l in
        step (get_operand_value p o l) (λ y. call (F y) >>= store) {x = x} p1
          (step (call (F y)) store {x = x} (called p2) (_, refl, k r mr))

    pub flag_operation2-Returns :
        {w u : ℕ} {f g h : b.Env → ℕ} (name : String)
        (F : DExpr → DExpr → GaState → Outcome GaError DExpr) (o1 o2 : Operand)
        → ((y z : DExpr) → Means w f y → Means u g z → Returns (F y z x.state) (Means 1 h))
        → Holds w f o1 l x.state
        → Holds u g o2 l x.state
        → ((r : DExpr) → Means 1 h r → P (flagged l x name r))
        → Returns (flag_operation2 p name F o1 o2 l x) P
    unfolding flag_operation2 set_flag simplify
    flag_operation2-Returns name F o1 o2 sem h1 h2 k =
        let (y, p1, my) = get_operand_value-Holds o1 l x h1 in
        let (z, p2, mz) = get_operand_value-Holds o2 l x h2 in
        let (r, p3, mr) = sem y z my mz in
        let store : DExpr → Exec Locals = λ r. update_state (set_flag name r) >> return l in
        let second : DExpr → DExpr → Exec Locals =
          λ y z. get_state >>= λ s. call (F y z s) >>= store in
        step (get_operand_value p o1 l) (λ y. get_operand_value p o2 l >>= second y) {x = x} p1
          (step (get_operand_value p o2 l) (second y) {x = x} p2
            (step (call (F y z x.state)) store {x = x} (called p3) (_, refl, k r mr)))

  -- Flags are no operands of this kind.
  pub Holds-flags :
      (w : ℕ) (f : b.Env → ℕ) (o : Operand) (l : Locals) (s : GaState) (flags : Dict DExpr)
      → Holds w f o l s
      → Holds w f o l (record s { flags = flags })
  Holds-flags w f (register name) l s flags h = h
  Holds-flags w f (local k) l s flags h = h
  Holds-flags w f (immediate v) l s flags h = h
  Holds-flags w f (address a n) l s flags h = absurd h
  Holds-flags w f (address_in_local a n) l s flags h = absurd h
  Holds-flags w f (address_with_offset a r n) l s flags h = absurd h
  Holds-flags w f (flag n) l s flags h = absurd h
