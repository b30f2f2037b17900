-- ===== src/Tests/State.antt =====
-- Flags, registers and the loop of the executor.
use mathlib.Core.Bool.{xor}
use symex.Common.{◌≡◌, ◌≢◌, refl, Bool, true, false, bit, [], ok, err, Returns, arith}
use symex.Errors.{parsing_error}
use symex.Smt.Sample.{two_worlds, term, value}
use symex.Smt.Truth.{Says}
use symex.Ga.Operation.{Condition}
use symex.State.{Arch}
use symex.State.Flags.{get_expr}
use symex.State.Flags.Laws.{holds, FlagSays, get_expr-holds, get_expr-le}
use symex.Executor.Monad.{GaExecutor}
use symex.Tests.Samples.{carry, empty_solver, state, n_found, z_found, c_found, v_found}

bit_value : (e : Bool) → value e carry ≡ bit e
bit_value true = refl
bit_value false = refl

n_says : FlagSays state "N" (λ e. e)
n_says = record {
  expr = carry;
  found = n_found;
  says = record { means = record { has_width = refl; has_value = bit_value } };
}

z_says : FlagSays state "Z" (λ e. false)
z_says = record {
  expr = term 1 (λ e. 0);
  found = z_found;
  says = record { means = record { has_width = refl; has_value = λ e. refl } };
}

c_says : FlagSays state "C" (λ e. e)
c_says = record {
  expr = carry;
  found = c_found;
  says = record { means = record { has_width = refl; has_value = bit_value } };
}

v_says : FlagSays state "V" (λ e. true)
v_says = record {
  expr = term 1 (λ e. 1);
  found = v_found;
  says = record { means = record { has_width = refl; has_value = λ e. refl } };
}

hi≢le : Condition.hi ≢ Condition.le
hi≢le h = ground arith

get_expr-holds_example :
    Returns (get_expr Condition.hi state) (Says (λ e. holds Condition.hi e false e true))
get_expr-holds_example = get_expr-holds n_says z_says c_says v_says Condition.hi hi≢le

false≢true : false ≢ true
false≢true h = ground arith

get_expr-le_example :
    Returns
      (get_expr Condition.le state)
      (λ r. (value false r ≡ 0) × (holds Condition.le false false false true ≡ true))
unfolding xor
get_expr-le_example = get_expr-le n_says z_says c_says v_says false false≢true

abbrev arch : Arch
arch = record { translate = λ code s. err parsing_error; cycles = λ f s. ok 0 }

abbrev executor : GaExecutor
executor = record { paths = []; state = state; solver = empty_solver; current_operation_index = 0 }
