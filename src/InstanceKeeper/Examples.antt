-- ===== src/InstanceKeeper/Examples.antt =====
-- crates/essenty-instance-keeper/src/keeper.rs on concrete keepers.
use essenty.Common.{ℕ, ◌+◌, ◌≡◌, refl, true, false, List, [], ◌∷◌, some}
use essenty.Common.Results.{ok, err}
use essenty.Common.Order.{bytes_ord}
use essenty.Common.Map.{get, insert}
use essenty.InstanceKeeper.Keeper.{
  Text, InstanceKeeperError, type_mismatch, destroyed, Rc, InstanceKeeper, Program, new,
  get_or_create, put,
}
use essenty.InstanceKeeper.Keeper
use essenty.InstanceKeeper.Retention.{remove-mismatch}
use essenty.InstanceKeeper.Calls.{
  Call, to_get_or_create, to_put, to_remove, to_destroy, to_destroy_all, call, calls,
}
use essenty.InstanceKeeper.Ending.{calls-Holds, ended-calls}

abbrev model : Text
model = 109 ∷ []

abbrev other : Text
other = 111 ∷ []

abbrev model_rc : Rc ℕ
model_rc = record { address = 0; type_id = 1; value = 5 }

-- A factory that counts its runs.
abbrev create : ℕ → ℕ × ℕ
create runs = (5, 1 + runs)

abbrev empty_program : Program ℕ ℕ
empty_program = record {
  keeper = record { instances = []; destroyed = false };
  world = 0;
  next = 0;
}

abbrev one_model : Program ℕ ℕ
one_model = record {
  keeper = record { instances = (model, model_rc) ∷ []; destroyed = false };
  world = 1;
  next = 1;
}

creates_model : get_or_create model 1 create empty_program ≡ (ok model_rc, one_model)
unfolding get_or_create get insert
creates_model = refl

creates_model_rc : (get_or_create model 1 create empty_program).0 ≡ ok model_rc
unfolding get_or_create get insert
creates_model_rc = refl

holds_model : get model one_model.keeper.instances ≡ some model_rc
unfolding get
holds_model = refl

remove-mismatch_example :
    Keeper.remove model 2 one_model.keeper ≡ (err (type_mismatch model), one_model.keeper)
remove-mismatch_example = remove-mismatch model 2 model_rc one_model.keeper tt holds_model refl

-- Calls that touch the key and spare what it holds.
abbrev busy : List (Call ℕ ℕ)
busy =
    to_get_or_create model 2 create
    ∷ to_put model 1 9
    ∷ to_remove model 2
    ∷ to_put other 1 9
    ∷ to_destroy other
    ∷ []

calls-Holds_example : get model (calls busy one_model).keeper.instances ≡ some model_rc
calls-Holds_example =
    calls-Holds model model_rc busy one_model (tt, λ e. absurd (cc))
      (refl, (refl, (refl, (refl, (refl, tt))))) holds_model

ended-calls_example :
    let q = calls busy (call to_destroy_all one_model) in
    (q.keeper.destroyed ≡ true)
    × (q.keeper.instances ≡ [])
    × (q.world ≡ 1)
    × (get_or_create model 1 create q ≡ (err destroyed, q))
    × (put model 1 9 q ≡ (err destroyed, q))
ended-calls_example = ended-calls busy one_model model 1 create 9 (tt, λ e. absurd (cc))
