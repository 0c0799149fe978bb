-- ===== src/Android/BackExamples.antt =====
-- crates/essenty-android/src/back_handler/platform.rs on a concrete handler.
use essenty.Common.{ℕ, true, false, ◌≡◌, refl, [], ◌∷◌, none, some, arith}
use essenty.Common.Results.{Ends}
use essenty.Common.Ints.{pos}
use essenty.Back.Event.{GesturePosition, left}
use essenty.Back.Dispatcher.{Callback, return, Scene, new, register_reentrant}
use essenty.Back.Dispatcher.{winner}
use essenty.Back.Gestures.{back}
use essenty.Back.Invariant.{Inv, register_reentrant-Inv}
use essenty.Back.Runs.{new-Inv}
use essenty.Android.BackHandler.{
  AndroidBackHandler, native_key, invoked_callback, predictive_callback, PlatformEvent,
  for_api_level, drain_callbacks, handle_legacy_back, back_up,
}
use essenty.Android.Draining.{Settled, drain_callbacks-Ends}

abbrev counts : Callback ℕ ℕ
counts event m = return m

abbrev pub scene : Scene ℕ ℕ
scene = (register_reentrant (pos 0) true counts (new 0)).1

scene-Inv : Inv scene
scene-Inv = register_reentrant-Inv (pos 0) true counts (new 0) (new-Inv 0)

abbrev pub edge : GesturePosition ℕ
edge = record { swipe_edge = left; touch_x = 1; touch_y = 2 }

-- A gesture that is completed, and a plain press after it.
abbrev handler : AndroidBackHandler ℕ ℕ
handler = record {
  bridge = scene;
  receiver =
      PlatformEvent.started edge 0
      ∷ PlatformEvent.progressed edge 1
      ∷ PlatformEvent.invoked
      ∷ PlatformEvent.invoked
      ∷ [];
  registration = 0;
  error = none;
  registered = false;
  strategy = predictive_callback;
  callback_count = 0;
  closed = false;
  posted = [];
}

levels :
    (for_api_level 32 ≡ native_key)
    × (for_api_level 33 ≡ invoked_callback)
    × (for_api_level 35 ≡ predictive_callback)
unfolding for_api_level
levels = (refl, refl, refl)

nothing_to_handle :
    handle_legacy_back {F = ℕ} {W = ℕ} 2 native_key back_up (new 0) ≡ some (none, new 0)
unfolding handle_legacy_back back new winner
nothing_to_handle = refl

drain_callbacks-Ends_example : Ends (Settled handler) (drain_callbacks 2 handler)
drain_callbacks-Ends_example = drain_callbacks-Ends 2 handler (omega arith) scene-Inv
