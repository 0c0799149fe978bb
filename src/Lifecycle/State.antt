-- ===== src/Lifecycle/State.antt =====
-- crates/essenty-lifecycle/src/state.rs and error.rs: the lifecycle states, their order and the
-- errors of a transition.
use essenty.Common.{ℕ, Bool, true, false, ◌==◌, leb, ◌≡◌, arith, zero, suc}

pub data LifecycleState : Type 0 where
  initialized created started resumed destroyed : LifecycleState

pub LifecycleState-discrete : Discrete LifecycleState
LifecycleState-discrete = hlevel

unfoldable pub is_resumed : LifecycleState → Bool
is_resumed resumed = true
is_resumed _ = false

unfoldable pub is_started : LifecycleState → Bool
is_started started = true
is_started resumed = true
is_started _ = false

abbrev pub is_destroyed : LifecycleState → Bool
is_destroyed destroyed = true
is_destroyed _ = false

abbrev pub rank : LifecycleState → ℕ
rank initialized = 0
rank created = 1
rank started = 2
rank resumed = 3
rank destroyed = 4

abbrev pub from_rank : ℕ → LifecycleState
from_rank zero = initialized
from_rank (suc zero) = created
from_rank (suc (suc zero)) = started
from_rank (suc (suc (suc n))) = resumed

-- The derived `PartialEq` and `PartialOrd` compare the places in the declaration, which `rank`
-- numbers.
abbrev pub eq_state : LifecycleState → LifecycleState → Bool
eq_state a b = rank a == rank b

abbrev pub ge_state : LifecycleState → LifecycleState → Bool
ge_state a b = leb (rank b) (rank a)

pub eq_state-eq : (a b : LifecycleState) → eq_state a b ≡ true → a ≡ b
eq_state-eq a b h = ground arith

pub data LifecycleError : Type 0 where
  invalid_transition : (from to : LifecycleState) → LifecycleError
  already_destroyed : LifecycleError
