-- ===== src/Runtime/Dispatch.antt =====
-- crates/essenty/src/runtime.rs. The registry, the dispatcher and the keepers share the memory `W` of
-- the application, so the runtime holds it once; `trackers` and `entered` belong to the registry's
-- world. A result `none` means that the fuel, which bounds the calls that observers and callbacks
-- nest, ran out.
use essenty.Common.{ℕ, Bool, Option, none, some, if◌then◌else◌}
use essenty.Common.Results.{Result, ok, err, ◌>>=◌}
use essenty.Common.Map.{Map}
use essenty.Lifecycle.State.{LifecycleState, LifecycleError, is_destroyed}
use essenty.Lifecycle.Registry.{RegistryInner, World, Answer, move_to}
use essenty.Lifecycle.Registry
use essenty.Lifecycle.Subscribe.{exec}
use essenty.Back.Event.{BackError}
use essenty.Back.Dispatcher.{BackDispatcher, Scene, can_handle}
use essenty.Back.Dispatcher
use essenty.Back.Gestures
use essenty.StateKeeper.Keeper.{Text, Bytes, StateKeeperError, StateKeeper, save}
use essenty.StateKeeper.Keeper as States
use essenty.InstanceKeeper.Keeper.{InstanceKeeper, destroy_all}
use essenty.InstanceKeeper.Keeper as Instances

pub data PlatformEvent (F : Type 0) : Type 0 where
  lifecycle : LifecycleState → PlatformEvent F
  back_pressed : PlatformEvent F
  predictive_start : PlatformEvent F
  predictive_progress : F → PlatformEvent F
  predictive_cancel : PlatformEvent F
  predictive_commit : PlatformEvent F
  save_state : PlatformEvent F

pub record DispatchResult : Type 0 where
  pub back_handled : Option Bool
  pub saved_state : Option (Map Text Bytes)
  pub can_handle_back : Bool

pub data RuntimeError : Type 0 where
  lifecycle : LifecycleError → RuntimeError
  back : BackError → RuntimeError
  state : StateKeeperError → RuntimeError

pub record Runtime (F W V : Type 0) : Type 0 where
  pub lifecycle : World W
  pub state_keeper : StateKeeper W
  pub instance_keeper : InstanceKeeper V
  pub back_dispatcher : BackDispatcher F W

abbrev pub Outcome : Type 0 → Type 0 → Type 0 → Type 0
Outcome F W V = Option (Result RuntimeError DispatchResult × Runtime F W V)

module _ {F W V : Type 0} where
  unfoldable pub with_restored : Map Text Bytes → W → Runtime F W V
  with_restored restored memory = record {
    lifecycle = Registry.new memory;
    state_keeper = States.with_restored restored;
    instance_keeper = Instances.new;
    back_dispatcher = (Dispatcher.new memory).dispatcher;
  }

  abbrev pub scene : Runtime F W V → Scene F W
  scene r = record { dispatcher = r.back_dispatcher; memory = r.lifecycle.memory }

  abbrev pub put_scene : Scene F W → Runtime F W V → Runtime F W V
  put_scene s r = record r {
    lifecycle = record r.lifecycle { memory = s.memory };
    back_dispatcher = s.dispatcher;
  }

  -- The end of `dispatch`, with what the event found.
  abbrev pub report : Option Bool → Option (Map Text Bytes) → Runtime F W V → Outcome F W V
  report handled saved r = some (
    ok (record {
      back_handled = handled;
      saved_state = saved;
      can_handle_back = can_handle (scene r);
    }),
    r,
  )

  abbrev pub after_move : LifecycleState → Runtime F W V → Answer × World W → Outcome F W V
  after_move target r (err e, w) = some (err (RuntimeError.lifecycle e), record r { lifecycle = w })
  after_move target r (ok done, w) = report none none (record r {
    lifecycle = w;
    instance_keeper =
        if is_destroyed target then destroy_all r.instance_keeper else r.instance_keeper;
  })

  abbrev pub after_back : Runtime F W V → Bool × Scene F W → Outcome F W V
  after_back r (handled, s) = report (some handled) none (put_scene s r)

  abbrev pub after_gesture : Runtime F W V → Gestures.Answer × Scene F W → Outcome F W V
  after_gesture r (err e, s) = some (err (RuntimeError.back e), put_scene s r)
  after_gesture r (ok handled, s) = report (some handled) none (put_scene s r)

  abbrev pub after_save : Runtime F W V → Result StateKeeperError (Map Text Bytes) → Outcome F W V
  after_save r (err e) = some (err (RuntimeError.state e), r)
  after_save r (ok saved) = report none (some saved) r

  unfoldable pub dispatch : ℕ → PlatformEvent F → Runtime F W V → Outcome F W V
  dispatch fuel (PlatformEvent.lifecycle target) r =
      move_to (exec fuel) fuel target r.lifecycle >>= after_move target r
  dispatch fuel PlatformEvent.back_pressed r = Gestures.back fuel (scene r) >>= after_back r
  dispatch fuel PlatformEvent.predictive_start r =
      Gestures.predictive_start fuel (scene r) >>= after_back r
  dispatch fuel (PlatformEvent.predictive_progress progress) r =
      Gestures.predictive_progress fuel progress (scene r) >>= after_gesture r
  dispatch fuel PlatformEvent.predictive_cancel r =
      Gestures.predictive_cancel fuel (scene r) >>= after_gesture r
  dispatch fuel PlatformEvent.predictive_commit r =
      Gestures.predictive_invoke fuel (scene r) >>= after_gesture r
  dispatch fuel PlatformEvent.save_state r = after_save r (save r.state_keeper r.lifecycle.memory)
