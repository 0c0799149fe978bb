-- ===== src/Tokio/Repeat.antt =====
-- crates/essenty-lifecycle-tokio/src/repeat.rs: `run_repeat`, which both `repeat_on_lifecycle` and
-- `repeat_on_lifecycle_local` call. Between two `await`s it is a function of its state.
use essenty.Common.{ℕ, Bool, ◌&&◌, not, Option, none, some, List, [], ◌∷◌, if◌then◌else◌}
use essenty.Common.Results.{Result, ok, err, ◌>>=◌}
use essenty.Lifecycle.State.{LifecycleState, initialized, is_destroyed, eq_state, ge_state}
use essenty.Lifecycle.Script.{Subscription, effect, finish}
use essenty.Lifecycle.Registry.{World, Exec}
use essenty.Lifecycle.Subscribe.{subscribe, remove_from}
use essenty.Tokio.Runtime.{Tokio}

pub data RepeatError : Type 0 where
  invalid_min_state : (min_state : LifecycleState) → RepeatError

unfoldable pub is_active : LifecycleState → LifecycleState → Bool
is_active state min_state = not (is_destroyed state) && ge_state state min_state

-- What `run_repeat` comes to before its loop: it returned, or it holds a subscription.
pub data Begun : Type 0 where
  returned : Result RepeatError (Unit {0}) → Begun
  listening : Subscription → Begun

-- The observer puts each state into the channel, which is a part of the memory.
module _ {W : Type 0} (exec : Exec W) (send : LifecycleState → W → W) where
  unfoldable pub begin : LifecycleState → World W → Option (Begun × World W)
  begin min_state w =
      if eq_state min_state initialized
      then some (returned (err (invalid_min_state min_state)), w)
      else if is_destroyed w.state
      then some (returned (ok tt), w)
      else (subscribe exec (λ state. effect (send state) finish) w >>= λ (guard, w'). some (
          if is_destroyed w'.state
          then (returned (ok tt), remove_from guard.inner w')
          else (listening guard, w')))

-- Where the code goes on when a child has stopped.
pub data After : Type 0 where
  go_on give_back : After

pub data Control : Type 0 where
  receiving : Control
  stopping : ℕ → After → Control
  finished : Result RepeatError (Unit {0}) → Control
  dropped : Control

abbrev pub resume : After → Control
resume go_on = receiving
resume give_back = finished (ok tt)

module _ (tokio : Tokio) where
  open tokio use {Runtime, alive, next, spawn, abort}

  -- `launched` and `seen` record the children and the states received; no operation reads them.
  pub record Repeat : Type 0 where
    pub control : Control
    pub child : Option ℕ
    pub runtime : Runtime
    pub launched : List ℕ
    pub seen : List LifecycleState

  unfoldable pub listen : Runtime → Repeat
  listen runtime = record {
    control = receiving;
    child = none;
    runtime = runtime;
    launched = [];
    seen = [];
  }

  -- `stop_child` up to the `await` of the handle.
  abbrev pub take_child : After → Option ℕ → Repeat → Repeat
  take_child after none s = record s { control = resume after }
  take_child after (some handle) s = record s {
    control = stopping handle after;
    child = none;
    runtime = abort handle s.runtime;
  }

  unfoldable pub stop_child : After → Repeat → Repeat
  stop_child after s = take_child after s.child s

  -- The rest of `stop_child`: `await` returns when the task has terminated.
  abbrev pub await : Control → Repeat → Repeat
  await (stopping handle after) s =
      if alive handle s.runtime then s else record s { control = resume after }
  await _ s = s

  unfoldable pub poll : Repeat → Repeat
  poll s = await s.control s

  abbrev pub start_child : Option ℕ → Repeat → Repeat
  start_child (some handle) s = s
  start_child none s = record s {
    child = some (next s.runtime);
    runtime = spawn s.runtime;
    launched = next s.runtime ∷ s.launched;
  }

  -- The body of the loop for the state that `recv` returned.
  unfoldable pub on_state : LifecycleState → LifecycleState → Repeat → Repeat
  on_state min_state state s =
      let noted = record s { seen = state ∷ s.seen } in
      if is_destroyed state
      then stop_child give_back noted
      else if is_active state min_state
      then start_child noted.child noted
      else stop_child go_on noted

  -- `recv` returned `None`: the channel is closed and empty.
  unfoldable pub on_closed : Repeat → Repeat
  on_closed s = stop_child give_back s

  -- The future is dropped, and with it the guard of the child.
  abbrev pub abort_child : Option ℕ → Runtime → Runtime
  abort_child none r = r
  abort_child (some handle) r = abort handle r

  unfoldable pub drop : Repeat → Repeat
  drop s = record s { control = dropped; child = none; runtime = abort_child s.child s.runtime }
