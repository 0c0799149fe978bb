-- ===== src/Adapters/Activity.antt =====
-- crates/essenty-android/src/native_activity.rs: the events that `android-activity` polls, with the registry
-- that they move, and the input that it delivers, with the back key. The lists of events are those that the
-- library hands over in one call.
use essenty.Common.{ℕ, Bool, false, Option, none, some, List, [], ◌∷◌, if◌then◌else◌, leb}
use essenty.Common.Results.{◌>>=◌}
use essenty.Lifecycle.State.{LifecycleState, created, started, resumed, destroyed}
use essenty.Lifecycle.Registry.{World, Exec, new, move_to}
use essenty.Back.Dispatcher.{Scene, can_handle}
use essenty.Back.Gestures.{back}
use essenty.Adapters.Hosts.{ignore}
use essenty.Android.BackHandler.{LegacyInput, back_down, back_up}

pub data MainEvent : Type 0 where
  start resume pause stop destroy other_main : MainEvent

pub data PollEvent : Type 0 where
  main : MainEvent → PollEvent
  wake timeout : PollEvent

abbrev pub target : PollEvent → Option LifecycleState
target (main start) = some started
target (main pause) = some started
target (main resume) = some resumed
target (main stop) = some created
target (main destroy) = some destroyed
target _ = none

module _ {W : Type 0} (exec : Exec W) (rounds : ℕ) where
  abbrev pub asked : Option LifecycleState → World W → Option (World W)
  asked none w = some w
  asked (some t) w = ignore (move_to exec rounds t w)

  -- `NativeActivityLifecycle::new`.
  unfoldable pub new_activity : W → Option (World W)
  new_activity memory = asked (some created) (new memory)

  -- The closure that `poll_events` hands to the app: the registry moves, then the callback runs.
  unfoldable pub on_poll :
      (PollEvent → World W → Option (World W)) → PollEvent → World W → Option (World W)
  on_poll callback event w = asked (target event) w >>= callback event

  unfoldable pub poll_events :
      (PollEvent → World W → Option (World W)) → List PollEvent → World W → Option (World W)
  poll_events callback [] w = some w
  poll_events callback (event ∷ events) w = on_poll callback event w >>= poll_events callback events

pub data InputStatus : Type 0 where
  handled unhandled : InputStatus

abbrev pub unless_handled : (LegacyInput → InputStatus) → LegacyInput → Bool → InputStatus
unless_handled fallback event b = if b then handled else fallback event

-- Whether the device has the callbacks of the platform.
abbrev pub is_modern : ℕ → Bool
is_modern api = leb 33 api

module _ {F W : Type 0} (depth : ℕ) (fallback : LegacyInput → InputStatus) where
  -- The closure of `handle_input_events`, by whether the device has the callbacks of the platform.
  unfoldable pub on_input : Bool → LegacyInput → Scene F W → Option (InputStatus × Scene F W)
  on_input false back_down s = some (unless_handled fallback back_down (can_handle s), s)
  on_input false back_up s =
      back depth s >>= λ (b, s'). some (unless_handled fallback back_up b, s')
  on_input _ event s = some (fallback event, s)

  -- Drains the input that the app has, with the status of each event.
  unfoldable pub handle_input_events :
      ℕ → List LegacyInput → Scene F W → Option (List InputStatus × Scene F W)
  handle_input_events api [] s = some ([], s)
  handle_input_events api (event ∷ events) s = on_input (is_modern api) event s >>= λ (status, s').
      handle_input_events api events s' >>= λ (statuses, s''). some (status ∷ statuses, s'')
