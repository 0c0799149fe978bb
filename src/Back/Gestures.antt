-- ===== src/Back/Gestures.antt =====
-- crates/essenty-back-handler/src/dispatcher.rs: `dispatch_to`, which runs a callback and then its
-- commands, and the operations that dispatch. A command `unregister` may dispatch once more, so
-- `dispatch_to` has a depth; `none` means that the depth was not enough.
use essenty.Common.{
  ℕ, zero, suc, Bool, true, false, not, Option, none, some, List, [], ◌∷◌, if◌then◌else◌, is_some,
  ◌==◌,
}
use essenty.Common.Results.{Result, ok, err, ◌>>=◌}
use essenty.Common.Order.{ℕ_ord}
use essenty.Common.Map.{remove, contains_key}
use essenty.Back.Event.{
  BackEvent, BackError, GesturePosition, invoked_event, started_event, started_with,
  progressed_event, progressed_with, cancelled_event, no_gesture_in_progress,
}
use essenty.Back.Dispatcher.{
  BackCommand, Scene, Entry, winner, notify_enabled_changed, put_entry, set_entry_enabled,
  call_back,
}

abbrev pub same_id : Option ℕ → ℕ → Bool
same_id none id = false
same_id (some owner) id = owner == id

abbrev pub or_else : Option ℕ → Option ℕ → Option ℕ
or_else none other = other
or_else (some id) other = some id

abbrev pub Dispatch : Type 0 → Type 0 → Type 0
Dispatch F W = ℕ → BackEvent F → Bool → Scene F W → Option (Bool × Scene F W)

abbrev pub Answer : Type 0
Answer = Result BackError Bool

module _ {F W : Type 0} where
  abbrev pub put_active : Option ℕ → Scene F W → Scene F W
  put_active owner s = record s { dispatcher = record s.dispatcher { active_gesture = owner } }

  abbrev pub end_gesture : Scene F W → Scene F W
  end_gesture s = record s {
    dispatcher = record s.dispatcher {
      active_gesture = none;
      gesture_in_flight = false;
      gesture_start_event = none;
    };
  }

  abbrev pub without_entry : ℕ → Scene F W → Scene F W
  without_entry id s = record s {
    dispatcher = record s.dispatcher { entries = remove id s.entries };
  }

  -- The cancellation that `unregister` delivers to the owner of the gesture.
  unfoldable pub release : Dispatch F W → ℕ → Scene F W → Option (Scene F W)
  release dispatch id s =
      if same_id s.active_gesture id
      then (dispatch id cancelled_event true (put_active none s) >>= λ (handled, s'). some s')
      else some s

  unfoldable pub unregister_by : Dispatch F W → ℕ → Scene F W → Option (Bool × Scene F W)
  unregister_by dispatch id s =
      if not (contains_key id s.entries)
      then some (false, s)
      else (release dispatch id s >>= λ s'.
          some (true, notify_enabled_changed (without_entry id s')))

  unfoldable pub run_command : Dispatch F W → BackCommand F W → Scene F W → Option (Scene F W)
  run_command dispatch (BackCommand.register id priority enabled callback) s =
      let entry : Entry F W = record {
        priority = priority;
        enabled = enabled;
        callback = callback;
      } in
      some (put_entry id entry s)
  run_command dispatch (BackCommand.unregister id) s =
      unregister_by dispatch id s >>= λ (existed, s'). some s'
  run_command dispatch (BackCommand.set_enabled id enabled) s =
      some (set_entry_enabled id enabled s).1

  unfoldable pub run_commands :
      Dispatch F W → List (BackCommand F W) → Scene F W → Option (Scene F W)
  run_commands dispatch [] s = some s
  run_commands dispatch (c ∷ cs) s = run_command dispatch c s >>= run_commands dispatch cs

  unfoldable pub dispatch_to : ℕ → Dispatch F W
  dispatch_to zero id event force s = none
  dispatch_to (suc depth) id event force s =
      let (handled, s', pending) = call_back id event force s in
      run_commands (dispatch_to depth) pending s' >>= λ s''.
      some (handled, notify_enabled_changed s'')

  abbrev pub answer : Option (Bool × Scene F W) → Option (Answer × Scene F W)
  answer r = r >>= λ (handled, s). some (ok handled, s)

module _ {F W : Type 0} (depth : ℕ) where
  unfoldable pub unregister : ℕ → Scene F W → Option (Bool × Scene F W)
  unregister = unregister_by (dispatch_to depth)

  abbrev pub dispatch_if : Option ℕ → BackEvent F → Scene F W → Option (Bool × Scene F W)
  dispatch_if none event s = some (false, s)
  dispatch_if (some id) event s = dispatch_to depth id event true s

  unfoldable pub back : Scene F W → Option (Bool × Scene F W)
  back s = dispatch_if (or_else s.active_gesture (winner s)) invoked_event (end_gesture s)

  abbrev pub start_with_owner : Option ℕ → BackEvent F → Scene F W → Option (Bool × Scene F W)
  start_with_owner none event s = some (false, end_gesture s)
  start_with_owner (some id) event s = dispatch_to depth id event true (record s {
    dispatcher = record s.dispatcher {
      gesture_in_flight = true;
      active_gesture = some id;
      gesture_start_event = some event;
    };
  })

  unfoldable pub start_gesture : BackEvent F → Scene F W → Option (Bool × Scene F W)
  start_gesture event s = start_with_owner (winner s) event s

  unfoldable pub predictive_start : Scene F W → Option (Bool × Scene F W)
  predictive_start = start_gesture started_event

  unfoldable pub predictive_start_with : GesturePosition F → Scene F W → Option (Bool × Scene F W)
  predictive_start_with position = start_gesture (started_with position)

  -- A fallback owner first hears of the start.
  abbrev pub start_fallback : Option ℕ → Option (BackEvent F) → Scene F W → Option (Scene F W)
  start_fallback none start s = some s
  start_fallback (some id) none s = some s
  start_fallback (some id) (some start) s =
      dispatch_to depth id start true s >>= λ (handled, s'). some s'

  unfoldable pub claim : Scene F W → Option (Scene F W)
  claim s =
      if is_some s.active_gesture
      then some s
      else start_fallback (winner s) s.gesture_start_event (put_active (winner s) s)

  unfoldable pub progress_gesture : BackEvent F → Scene F W → Option (Answer × Scene F W)
  progress_gesture event s =
      if not s.gesture_in_flight
      then some (err no_gesture_in_progress, s)
      else (claim s >>= λ s'. answer (dispatch_if s'.active_gesture event s'))

  unfoldable pub predictive_progress : F → Scene F W → Option (Answer × Scene F W)
  predictive_progress progress = progress_gesture (progressed_event progress)

  unfoldable pub predictive_progress_with :
      F → GesturePosition F → Scene F W → Option (Answer × Scene F W)
  predictive_progress_with progress position = progress_gesture (progressed_with progress position)

  unfoldable pub predictive_cancel : Scene F W → Option (Answer × Scene F W)
  predictive_cancel s =
      if not s.gesture_in_flight
      then some (err no_gesture_in_progress, s)
      else answer (dispatch_if s.active_gesture cancelled_event (end_gesture s))

  unfoldable pub predictive_invoke : Scene F W → Option (Answer × Scene F W)
  predictive_invoke s =
      if not s.gesture_in_flight
      then some (err no_gesture_in_progress, s)
      else answer (dispatch_if (or_else s.active_gesture (winner s)) invoked_event (end_gesture s))
