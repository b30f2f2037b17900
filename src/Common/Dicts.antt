-- ===== src/Common/Dicts.antt =====
-- `HashMap<String, V>` and `HashMap<u64, V>` as association lists.
use Prim.Native.String.{String}
use text.Mathlib.Text.{◌==◌ as str_eq}
use text.Mathlib.TextEquality.{eq_iff}
use mathlib.Core.Path.{◌≡◌, refl}
use mathlib.Core.Bool.{Bool, true, false}
use mathlib.Core.List.{List, [], ◌∷◌}
use mathlib.Core.Option.{Option, none, some}
use native.Mathlib.Omega.{arith}
use Prim.Native.Nat.{ℕ}
use symex.Common.Tests.{◌==◌, if◌then◌else◌}

-- A map from names.
abbrev pub Dict {ℓ} : Type ℓ → Type ℓ
Dict V = List (String × V)

-- The equality test of names.
abbrev pub name_eq : String → String → Bool
name_eq = str_eq

module _ {ℓ} {V : Type ℓ} where
  unfoldable pub lookup : String → Dict V → Option V
  lookup name [] = none
  lookup name ((key, found) ∷ dict) = if name_eq key name then some found else lookup name dict

  unfoldable pub insert : String → V → Dict V → Dict V
  insert name new [] = (name, new) ∷ []
  insert name new ((key, old) ∷ dict) =
      if name_eq key name then (name, new) ∷ dict else (key, old) ∷ insert name new dict

-- A map from addresses.
unfoldable pub lookup_address {ℓ} : {V : Type ℓ} → ℕ → List (ℕ × V) → Option V
lookup_address address [] = none
lookup_address address ((key, found) ∷ dict) =
    if key == address then some found else lookup_address address dict

pub name_eq_refl : (name : String) → name_eq name name ≡ true
name_eq_refl name = ground (arith, eq_iff name name)

module _ {ℓ} {V : Type ℓ} (name : String) (found : V) (dict : Dict V) where
  pub lookup-here : lookup name ((name, found) ∷ dict) ≡ some found
  unfolding lookup
  lookup-here = rw (name_eq_refl name) refl

  pub lookup-there :
      (key : String)
      → name_eq key name ≡ false
      → lookup name ((key, found) ∷ dict) ≡ lookup name dict
  unfolding lookup
  lookup-there key differ = rw differ refl

-- What a map says after a value was put in.
pub lookup-insert {ℓ} :
    {V : Type ℓ} (name asked : String) (new : V) (dict : Dict V)
    → lookup asked (insert name new dict)
      ≡ (if name_eq name asked then some new else lookup asked dict)
unfolding lookup insert
lookup-insert name asked new [] = refl
lookup-insert name asked new ((key, old) ∷ dict) =
    let rest = lookup-insert name asked new dict in
    ground (arith, eq_iff key name, eq_iff key asked, eq_iff name asked, rest)
