-- ===== src/State/Flags/Laws.antt =====
-- The expressions of the condition codes against the table of
-- symex/general_assembly/src/condition.rs.
use mathlib.Core.Bool.{xor}
use Prim.Native.String.{String}
use symex.Common.{
  ◌≡◌, ◌≢◌, refl, ◌∙◌, Bool, true, false, not, ◌&&◌, ◌||◌, bit, some, lookup, Returns, Returns-bind,
}
use symex.Smt.Boolector.{Boolector}
use symex.Smt.Expr.{DExpr}
use symex.Smt.Truth.{Says, not_expr-Says, and-Says, or-Says, xor-Says, eq-Says, ne-Says}
use symex.Smt.Resize.{from_bool-Means}
use symex.Ga.Operation.{Condition}
use symex.State.{GaState}
use symex.State.Flags.{get_flag, get_expr}

-- The table of the condition codes.
abbrev pub holds : Condition → Bool → Bool → Bool → Bool → Bool
holds Condition.eq n z c v = z
holds Condition.ne n z c v = not z
holds Condition.cs n z c v = c
holds Condition.cc_clear n z c v = not c
holds Condition.mi n z c v = n
holds Condition.pl n z c v = not n
holds Condition.vs n z c v = v
holds Condition.vc n z c v = not v
holds Condition.hi n z c v = c && not z
holds Condition.ls n z c v = not c || z
holds Condition.ge n z c v = not (xor n v)
holds Condition.lt n z c v = xor n v
holds Condition.gt n z c v = not z && not (xor n v)
holds Condition.le n z c v = z || xor n v
holds Condition.always n z c v = true

-- The flag `name` of the state says `t`.
pub record FlagSays ⦃b : Boolector⦄ (s : GaState) (name : String) (t : b.Env → Bool) : Type 0 where
  pub expr : DExpr
  pub found : lookup name s.flags ≡ some expr
  pub says : Says t expr

module _ ⦃b : Boolector⦄ {s : GaState} where
  get_flag-Says :
      {name : String} {t : b.Env → Bool} → FlagSays s name t → Returns (get_flag name s) (Says t)
  unfolding get_flag
  get_flag-Says f = rw f.found (f.expr, refl, f.says)

  module _ {n z c v : b.Env → Bool} (fn : FlagSays s "N" n) (fz : FlagSays s "Z" z)
      (fc : FlagSays s "C" c) (fv : FlagSays s "V" v) where
    -- Every condition but `LE` is the expression of its row of the table.
    pub get_expr-holds :
        (cond : Condition)
        → cond ≢ Condition.le
        → Returns (get_expr cond s) (Says (λ e. holds cond (n e) (z e) (c e) (v e)))
    unfolding get_expr
    get_expr-holds Condition.eq h = get_flag-Says fz
    get_expr-holds Condition.ne h =
        Returns-bind _ (get_flag-Says fz) λ z mz. (_, refl, not_expr-Says mz)
    get_expr-holds Condition.cs h = get_flag-Says fc
    get_expr-holds Condition.cc_clear h =
        Returns-bind _ (get_flag-Says fc) λ c mc. (_, refl, not_expr-Says mc)
    get_expr-holds Condition.mi h = get_flag-Says fn
    get_expr-holds Condition.pl h =
        Returns-bind _ (get_flag-Says fn) λ n mn. (_, refl, not_expr-Says mn)
    get_expr-holds Condition.vs h = get_flag-Says fv
    get_expr-holds Condition.vc h =
        Returns-bind _ (get_flag-Says fv) λ v mv. (_, refl, not_expr-Says mv)
    get_expr-holds Condition.hi h =
        Returns-bind _ (get_flag-Says fc) λ c mc.
          Returns-bind _ (get_flag-Says fz) λ z mz. (_, refl, and-Says mc (not_expr-Says mz))
    get_expr-holds Condition.ls h =
        Returns-bind _ (get_flag-Says fc)
          λ c mc. Returns-bind _ (get_flag-Says fz) λ z mz. (_, refl, or-Says (not_expr-Says mc) mz)
    get_expr-holds Condition.ge h =
        Returns-bind _ (get_flag-Says fn) λ n mn.
          Returns-bind _ (get_flag-Says fv) λ v mv. (_, refl, not_expr-Says (xor-Says mn mv))
    get_expr-holds Condition.lt h =
        Returns-bind _ (get_flag-Says fn)
          λ n mn. Returns-bind _ (get_flag-Says fv) λ v mv. ne-Says mn mv
    get_expr-holds Condition.gt h = Returns-bind _ (get_flag-Says fz) λ z mz.
        Returns-bind _ (get_flag-Says fn) λ n mn. Returns-bind _ (get_flag-Says fv) λ v mv.
          Returns-bind _ (eq-Says mn mv) λ same ms. (_, refl, and-Says (not_expr-Says mz) ms)
    get_expr-holds Condition.le h = absurd (h refl)
    get_expr-holds Condition.always h = (_, refl, record { means = from_bool-Means true })

    get_expr-le-Says : Returns (get_expr Condition.le s) (Says (λ e. z e && xor (n e) (v e)))
    unfolding get_expr
    get_expr-le-Says = Returns-bind _ (get_flag-Says fz) λ z mz.
        Returns-bind _ (get_flag-Says fn) λ n mn.
          Returns-bind _ (get_flag-Says fv)
            λ v mv. Returns-bind _ (ne-Says mn mv) λ other mo. (_, refl, and-Says mz mo)

    -- `LE` is false where the table says true: whenever just one of `Z` and `N ≠ V` holds.
    pub get_expr-le :
        (e : b.Env)
        → z e ≢ xor (n e) (v e)
        → Returns
            (get_expr Condition.le s)
            (λ r. (b.value e r ≡ 0) × (holds Condition.le (n e) (z e) (c e) (v e) ≡ true))
    get_expr-le e h =
        let (r, p, m) = get_expr-le-Says in
        (
          r,
          p,
          (m.means.has_value e ∙ both (z e) (xor (n e) (v e)) h, one (z e) (xor (n e) (v e)) h),
        )
      where
        both : (p q : Bool) → p ≢ q → bit (p && q) ≡ 0
        both true true h = absurd (h refl)
        both true false h = refl
        both false q h = refl

        one : (p q : Bool) → p ≢ q → (p || q) ≡ true
        one true q h = refl
        one false true h = refl
        one false false h = absurd (h refl)
