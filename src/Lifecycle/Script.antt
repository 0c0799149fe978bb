-- ===== src/Lifecycle/Script.antt =====
-- The observers of crates/essenty-lifecycle/src/registry.rs. A closure `Fn(LifecycleState)` is the
-- script of what it does: it reads and writes the memory that it captured, and calls the registry,
-- whose answers decide how it goes on.
use essenty.Common.{ℕ, Bool, Option}
use essenty.Common.Results.{Result}
use essenty.Lifecycle.State.{LifecycleState, LifecycleError}

-- The guard that `subscribe` returns; `none` when it was detached.
pub record Subscription : Type 0 where
  pub inner : Option ℕ

-- The calls that move the registry.
pub data Command : Type 0 where
  move_to : LifecycleState → Command
  create start resume pause stop destroy : Command

-- The helpers `do_on_…` but `do_on_destroy`, by the transition that each waits for.
pub record Transition : Type 0 where
  pub from : LifecycleState
  pub to : LifecycleState
  pub once : Bool

-- The three cells that a closure of `on_transition` captures.
pub record Tracker : Type 0 where
  pub previous : LifecycleState
  pub fired : Bool
  pub id_slot : Option ℕ

pub data Script (W : Type 0) : Type 0 where
  finish : Script W
  effect : (W → W) → Script W → Script W
  branch : (W → Script W) → Script W
  read_state : (LifecycleState → Script W) → Script W
  subscribe : (LifecycleState → Script W) → (Subscription → Script W) → Script W
  unsubscribe : ℕ → (Bool → Script W) → Script W
  command : Command → (Result LifecycleError (Unit {0}) → Script W) → Script W
  on_transition : Transition → Script W → (Subscription → Script W) → Script W
  do_on_destroy : Script W → (Subscription → Script W) → Script W
  read_tracker : ℕ → (Tracker → Script W) → Script W
  write_tracker : ℕ → Tracker → Script W → Script W

abbrev pub Observer : Type 0 → Type 0
Observer W = LifecycleState → Script W
