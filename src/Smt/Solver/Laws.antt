-- ===== src/Smt/Solver/Laws.antt =====
-- What the answers of symex/src/smt/smt_boolector/solver.rs say about the assignments that satisfy
-- what is asserted.
use symex.Common.{
  ℕ, zero, suc, ◌^◌, ◌≤◌, ◌<◌, ◌≡◌, ◌≢◌, refl, sym, ◌∙◌, true, false, not, bit, List, [], ◌∷◌, ◌++◌,
  All, Any, All-snoc, All-front, none, some, Option-cases, ok, Returns, Returns-bind, inl, inr, ◌⊎◌,
  arith, lt→ltb, ◌==◌, Bool-cases,
}
use symex.Errors.{SolverError}
use symex.Smt.Boolector.{Boolector, SolverResult, sat, unsat, unknown, binary}
use symex.Smt.Expr.{DExpr, get_constant}
use symex.Smt.Resize.{below_of_le}
use symex.Smt.Means.{Means, Means-self, ne-Means, eq-Means}
use symex.Smt.Solver.{
  Solver, Solutions, exactly, at_least, asserted, push, pop, assert_constraint, is_sat,
  is_sat_with_constraint, get_solutions, get_values, must_be_equal, can_equal,
}

module _ ⦃b : Boolector⦄ where
  -- The assignment satisfies the constraints.
  abbrev pub Satisfies : b.Env → List DExpr → Type 0
  Satisfies e cs = All (λ c. b.value e c ≡ 1) cs

  -- The check never gives up.
  abbrev pub Decides : Type 0
  Decides = (cs : List DExpr) → b.check cs ≢ unknown

  module _ (decides : Decides) (cs : List DExpr) where
    -- The check answers `sat` with an assignment, or `unsat` where there is none.
    pub check_cases :
        ((b.check cs ≡ sat)
          × (e : b.Env) × Satisfies e cs
          × ((x : DExpr) → binary (b.solution cs x) ≡ b.value e x))
        ⊎ ((b.check cs ≡ unsat) × ((e : b.Env) → ¬ Satisfies e cs))
    check_cases = by_result (b.check cs) refl
      where
        by_result :
            (r : SolverResult)
            → b.check cs ≡ r
            → ((b.check cs ≡ sat)
                × (e : b.Env) × Satisfies e cs
                × ((x : DExpr) → binary (b.solution cs x) ≡ b.value e x))
              ⊎ ((b.check cs ≡ unsat) × ((e : b.Env) → ¬ Satisfies e cs))
        by_result sat h = let (e, m, v) = b.check_sat cs h in inl (h, e, m, v)
        by_result unsat h = inr (h, b.check_unsat cs h)
        by_result unknown h = absurd (decides cs h)

    -- `is_sat` on what is asserted.
    is_sat_cases :
        (s : Solver)
        → asserted s ≡ cs
        → ((is_sat s ≡ ok true)
            × (e : b.Env) × Satisfies e cs
            × ((x : DExpr) → binary (b.solution cs x) ≡ b.value e x))
          ⊎ ((is_sat s ≡ ok false) × ((e : b.Env) → ¬ Satisfies e cs))
    unfolding is_sat
    is_sat_cases s h = elim check_cases [
      | inl (c, e, m, v) ↦ inl (rw (h, c) refl, e, m, v)
      | inr (c, n) ↦ inr (rw (h, c) refl, n)
    ]

  module _ (s : Solver) (expr : DExpr) where
    -- The value of `x` is one that `expr` can have.
    pub record Attained (x : DExpr) : Type 0 where
      pub world : b.Env
      pub satisfied : Satisfies world (asserted s)
      pub equal : b.value world x ≡ b.value world expr

    -- Under no assignment is another value left, or some assignment has one.
    abbrev pub Enumerates : Solutions → Type 0
    Enumerates (exactly xs) =
        All Attained xs
        × ((e : b.Env) → Satisfies e (asserted s) → Any (λ x. b.value e x ≡ b.value e expr) xs)
    Enumerates (at_least xs) =
        All Attained xs
        × (e : b.Env) × Satisfies e (asserted s)
        × All (λ x. b.value e x ≢ b.value e expr) xs

    -- The solver inside the level that `get_values` opens.
    abbrev inside : List DExpr → Solver
    inside f = record s { frames = f ∷ s.frames }

    -- The level excludes the values found so far, and nothing else.
    record Excludes (f xs : List DExpr) : Type 0 where
      pub down :
          (e : b.Env)
          → Satisfies e (f ++ asserted s)
          → Satisfies e (asserted s) × All (λ x. b.value e x ≢ b.value e expr) xs
      pub up :
          (e : b.Env)
          → Satisfies e (asserted s)
          → All (λ x. b.value e x ≢ b.value e expr) xs
          → Satisfies e (f ++ asserted s)

    found :
        (e : b.Env) (xs : List DExpr)
        → ¬ All (λ x. b.value e x ≢ b.value e expr) xs
        → Any (λ x. b.value e x ≡ b.value e expr) xs
    found e [] h = h tt
    found e (x ∷ xs) h = elim (Bool-cases (b.value e x == b.value e expr)) [
      | inl same ↦ inl (ground arith)
      | inr other ↦ inr (found e xs (λ all. h (ground arith, all)))
    ]

    differs : (a c d : ℕ) → bit (not (a == c)) ≡ 1 → d ≡ c → d ≢ a
    differs a c d h k = ground arith

    differs_back : (a c d : ℕ) → d ≢ a → d ≡ c → bit (not (a == c)) ≡ 1
    differs_back a c d h k = ground arith

    -- The solution found, as an expression, under every assignment.
    solution-Means :
        (cs : List DExpr)
        → Means
            (b.width expr)
            (λ e. binary (b.solution cs expr))
            (b.from_binary_str (b.solution cs expr))
    solution-Means cs =
        let (p, q) = b.from_binary_str_means (b.solution cs expr) in
        record { has_width = p ∙ b.solution-length cs expr; has_value = q }

    exclude :
        (f xs : List DExpr) (x other : DExpr) (v : ℕ)
        → Excludes f xs
        → Means (b.width expr) (λ e. v) x
        → Means 1 (λ e. bit (not (b.value e expr == v))) other
        → Excludes (other ∷ f) (xs ++ x ∷ [])
    exclude f xs x other v h mx mo = record {
      down = λ e holds.
          let (s', all) = h.down e holds.1 in
          (
            s',
            All-snoc _ xs all (
                differs (b.value e expr) v (b.value e x) (sym (mo.has_value e) ∙ holds.0)
                  (mx.has_value e)),
          );
      up = λ e holds all.
          let (front, last) = All-front _ xs all in
          (
            mo.has_value e ∙ differs_back (b.value e expr) v (b.value e x) last (mx.has_value e),
            h.up e holds front,
          );
    }

    -- What the loop returns, and the level it leaves.
    abbrev LoopResult : Solutions × Solver → Type 0
    LoopResult r = Enumerates r.0 × (f : List DExpr) × (r.1 ≡ inside f)

    nothing_excluded : Excludes [] []
    nothing_excluded = record { down = λ e h. (h, tt); up = λ e h all. h }

    module _ (decides : Decides) where
      get_solutions-LoopResult :
          (left : ℕ) (f xs : List DExpr)
          → Excludes f xs
          → All Attained xs
          → Returns (get_solutions (inside f) expr left xs) LoopResult
      unfolding get_solutions assert_constraint
      get_solutions-LoopResult zero f xs h all = elim (is_sat_cases decides _ (inside f) refl) [
        | inl (c, e, m, v) ↦
            let (holds, others) = h.down e m in rw c (_, refl, ((all, e, holds, others), f, refl))
        | inr (c, n) ↦
            rw c (
              _,
              refl,
              ((all, λ e holds. found e xs (λ others. n e (h.up e holds others))), f, refl),
            )
      ]
      get_solutions-LoopResult (suc left) f xs h all =
          elim (is_sat_cases decides _ (inside f) refl) [
            | inl (c, e, m, v) ↦
                let mx = solution-Means (f ++ asserted s) in
                let new : Attained (b.from_binary_str (b.solution (f ++ asserted s) expr)) =
                  record {
                    world = e;
                    satisfied = (h.down e m).0;
                    equal = mx.has_value e ∙ v expr;
                  } in
                rw c (
                  Returns-bind _ (ne-Means (Means-self expr) mx) λ other mo.
                    get_solutions-LoopResult left (other ∷ f) _ (exclude f xs _ other _ h mx mo)
                      (All-snoc _ xs all new))
            | inr (c, n) ↦ rw c (
                rw c (
                  _,
                  refl,
                  ((all, λ e holds. found e xs (λ others. n e (h.up e holds others))), f, refl),
                ))
          ]

      popped :
          (r : Solutions × Solver)
          → LoopResult r
          → Returns {E = SolverError} (pop r.1) (λ s'. s' ≡ s)
      unfolding pop
      popped r (values, f, e) = rw e (_, refl, refl)

      constant_or_not :
          (x : DExpr) (world : b.Env)
          → b.width x ≤ 64
          → Returns {E = SolverError}
              (get_constant x)
              (λ c. (c ≡ none) ⊎ ((v : ℕ) × (c ≡ some v) × ((e : b.Env) → b.value e x ≡ v)))
      unfolding get_constant
      constant_or_not x world size = elim (Option-cases (b.constant x)) [
        | inl open_term ↦ rw (get_constant, open_term) (_, refl, inl refl)
        | inr (v, closed) ↦
            let fits : v < 2 ^ 64 =
              rw (b.constant-value x v closed world) at
                (below_of_le (b.value world x) (b.width x) 64 (b.value-lt world x) size) in
            rw (get_constant, closed, lt→ltb v (2 ^ 64) fits)
              (_, refl, inr (v, refl, b.constant-value x v closed))
      ]

      -- `get_values` returns with the solver as it was: either exactly the values that the
      -- expression can have, or values that it can have where some assignment has another.
      pub get_values-Enumerates :
          (n : ℕ) (world : b.Env)
          → Satisfies world (asserted s)
          → b.width expr ≤ 64
          → Returns (get_values s expr n) (λ r. Enumerates r.0 × (r.1 ≡ s))
      unfolding get_values push
      get_values-Enumerates n world holds size =
          Returns-bind _ (constant_or_not expr world size) λ c cases. elim cases [
            | inl open_term ↦ rw open_term (
                Returns-bind _ (get_solutions-LoopResult n [] [] nothing_excluded tt)
                  λ r h. Returns-bind _ (popped r h) λ s' e. (_, refl, (h.0, e)))
            | inr (v, closed, value) ↦ rw closed (
              _,
              refl,
              (
                ((record { world = world; satisfied = holds; equal = refl }, tt), λ e h. inl refl),
                refl,
              ),
            )
          ]

  module _ (decides : Decides) (s : Solver) where
    pub assumed_cases :
        (c : DExpr)
        → ((is_sat_with_constraint s c ≡ ok true)
            × (e : b.Env) × (b.value e c ≡ 1)
            × Satisfies e (asserted s))
          ⊎ ((is_sat_with_constraint s c ≡ ok false)
              × ((e : b.Env) → Satisfies e (asserted s) → b.value e c ≢ 1))
    unfolding is_sat_with_constraint
    assumed_cases c = elim (check_cases decides (c ∷ asserted s)) [
      | inl (r, e, m, v) ↦ inl (rw r refl, e, m.0, m.1)
      | inr (r, n) ↦ inr (rw r refl, λ e m one. n e (one, m))
    ]

    module _ (x y : DExpr) (same : b.width x ≡ b.width y) where
      my : Means (b.width x) (λ e. b.value e y) y
      my = record { has_width = sym same; has_value = λ e. refl }

      -- `must_be_equal` answers true where every assignment makes the two equal, and false where
      -- one does not.
      pub must_be_equal-decides : Returns (must_be_equal s x y) (λ t.
          (t ≡ true) × ((e : b.Env) → Satisfies e (asserted s) → b.value e x ≡ b.value e y)
          ⊎ (t ≡ false) × (e : b.Env) × Satisfies e (asserted s) × (b.value e x ≢ b.value e y))
      unfolding must_be_equal
      must_be_equal-decides = Returns-bind _ (ne-Means (Means-self x) my) λ c m.
          elim (assumed_cases c) [
            | inl (r, e, one, holds) ↦
                rw r (_, refl, inr (refl, e, holds, ground (arith, m.has_value e)))
            | inr (r, n) ↦
                rw r (_, refl, inl (refl, λ e holds. ground (arith, m.has_value e, n e holds)))
          ]

      -- `can_equal` answers true where some assignment makes the two equal, and false where none
      -- does.
      pub can_equal-decides : Returns (can_equal s x y) (λ t.
          ((t ≡ true) × (e : b.Env) × Satisfies e (asserted s) × (b.value e x ≡ b.value e y))
          ⊎ (t ≡ false) × ((e : b.Env) → Satisfies e (asserted s) → b.value e x ≢ b.value e y))
      unfolding can_equal
      can_equal-decides = Returns-bind _ (eq-Means (Means-self x) my) λ c m.
          elim (assumed_cases c) [
            | inl (r, e, one, holds) ↦
                rw r (_, refl, inl (refl, e, holds, ground (arith, m.has_value e)))
            | inr (r, n) ↦
                rw r (_, refl, inr (refl, λ e holds. ground (arith, m.has_value e, n e holds)))
          ]
