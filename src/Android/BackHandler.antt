-- ===== src/Android/BackHandler.antt =====
-- crates/essenty-android/src/back_handler.rs and back_handler/platform.rs: `AndroidBackHandler` over the
-- dispatcher. What it posts to the Java main thread stands in `posted`, oldest first, and the events that
-- Java sent in `receiver`; JavaMain says what a posted job does.
use essenty.Common.{
  ℕ, ◌+◌, Bool, true, false, ◌&&◌, ◌||◌, not, Option, none, some, List, [], ◌∷◌, ◌++◌,
  if◌then◌else◌, length, leb, u64_mod, ◌-◌, ltb,
}
use essenty.Common.Results.{◌>>=◌}
use essenty.Back.Event.{GesturePosition}
use essenty.Back.Dispatcher.{Scene, can_handle, has_active_gesture, same_flag}
use essenty.Back.Gestures.{
  back, predictive_start_with, predictive_progress_with, predictive_cancel, predictive_invoke,
}

pub data AndroidBackStrategy : Type 0 where
  native_key invoked_callback predictive_callback : AndroidBackStrategy

unfoldable pub for_api_level : ℕ → AndroidBackStrategy
for_api_level api =
    if leb 34 api then predictive_callback else if leb 33 api then invoked_callback else native_key

abbrev pub is_native_key : AndroidBackStrategy → Bool
is_native_key native_key = true
is_native_key _ = false

pub data PlatformEvent (F : Type 0) : Type 0 where
  started progressed : GesturePosition F → F → PlatformEvent F
  cancelled invoked : PlatformEvent F

-- The jobs that `install` and `uninstall` post to the Java main thread.
pub data Job : Type 0 where
  install uninstall : Job

pub data AndroidBackError : Type 0 where
  register_failed unregister_failed gesture_owned not_completed : AndroidBackError

pub record AndroidBackHandler (F W : Type 0) : Type 0 where
  pub bridge : Scene F W
  pub receiver : List (PlatformEvent F)
  -- Which of the mutexes of registrations is its own.
  pub registration : ℕ
  pub error : Option AndroidBackError
  pub registered : Bool
  pub strategy : AndroidBackStrategy
  pub callback_count : ℕ
  pub closed : Bool
  pub posted : List Job

-- The keys of a legacy input event: the back key, by its action, or any other event.
pub data LegacyInput : Type 0 where
  back_down back_up back_other other_input : LegacyInput

-- The counter saturates.
abbrev pub saturating_next : ℕ → ℕ
saturating_next n = if ltb n (u64_mod - 1) then n + 1 else n

module _ {F W : Type 0} where
  unfoldable pub attach : ℕ → ℕ → Scene F W → AndroidBackHandler F W
  unfolding for_api_level
  attach registration api dispatcher =
      let strategy = for_api_level api in
      let installs = not (is_native_key strategy) && can_handle dispatcher in
      record {
        bridge = dispatcher;
        receiver = [];
        registration = registration;
        error = none;
        registered = installs;
        strategy = strategy;
        callback_count = 0;
        closed = false;
        posted = if installs then install ∷ [] else [];
      }

  -- A change of the registration, once it is due.
  abbrev pub reconcile : Bool → AndroidBackHandler F W → AndroidBackHandler F W
  reconcile enabled h = if same_flag enabled h.registered then h else record h {
    registered = enabled;
    posted = h.posted ++ (if enabled then install else uninstall) ∷ [];
  }

  unfoldable pub synchronize_enabled_state : AndroidBackHandler F W → AndroidBackHandler F W
  synchronize_enabled_state h =
      if h.closed || is_native_key h.strategy || has_active_gesture h.bridge
      then h
      else reconcile (can_handle h.bridge) h

  -- `let _ =` on the answer of the bridge.
  abbrev pub ignore : {A : Type 0} → Option (A × Scene F W) → Option (Scene F W)
  ignore r = r >>= λ (answer, s). some s

module _ {F W : Type 0} (depth : ℕ) where
  unfoldable pub deliver : PlatformEvent F → Scene F W → Option (Scene F W)
  deliver (started position progress) s =
      predictive_start_with depth position s >>= λ (handled, s').
      ignore (predictive_progress_with depth progress position s')
  deliver (progressed position progress) s =
      ignore (predictive_progress_with depth progress position s)
  deliver cancelled s = ignore (predictive_cancel depth s)
  deliver invoked s =
      if has_active_gesture s then ignore (predictive_invoke depth s) else ignore (back depth s)

  -- The loop of `drain_callbacks` over what was received.
  unfoldable pub drain :
      List (PlatformEvent F) → AndroidBackHandler F W → Option (AndroidBackHandler F W)
  drain [] h = some h
  drain (event ∷ events) h = deliver event h.bridge >>= λ s.
      drain events (record h { bridge = s; callback_count = saturating_next h.callback_count })

  unfoldable pub drain_callbacks : AndroidBackHandler F W → Option (ℕ × AndroidBackHandler F W)
  drain_callbacks h = drain h.receiver (record h { receiver = [] }) >>= λ h'.
      some (length h.receiver, synchronize_enabled_state h')

  -- Whether the input was handled; `none` stands for the status that the fallback gives.
  abbrev pub pressed : Option (Bool × Scene F W) → Option (Option Bool × Scene F W)
  pressed r = r >>= λ (handled, s). some (if handled then some true else none, s)

  unfoldable pub handle_legacy_back :
      AndroidBackStrategy → LegacyInput → Scene F W → Option (Option Bool × Scene F W)
  handle_legacy_back native_key back_down s = some (if can_handle s then some true else none, s)
  handle_legacy_back native_key back_up s = pressed (back depth s)
  handle_legacy_back _ _ s = some (none, s)
