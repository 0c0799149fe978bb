-- ===== src/Back/Event.antt =====
-- crates/essenty-back-handler/src/event.rs and error.rs. `F` stands for `f32`, which the code only
-- stores and hands on.
use essenty.Common.{Option, none, some}

pub data BackPhase : Type 0 where
  started progressed cancelled invoked : BackPhase

pub data SwipeEdge : Type 0 where
  left right unknown : SwipeEdge

pub record GesturePosition (F : Type 0) : Type 0 where
  pub swipe_edge : SwipeEdge
  pub touch_x : F
  pub touch_y : F

pub record BackEvent (F : Type 0) : Type 0 where
  pub phase : BackPhase
  pub progress : Option F
  pub position : Option (GesturePosition F)

module _ {F : Type 0} where
  abbrev pub invoked_event : BackEvent F
  invoked_event = record { phase = invoked; progress = none; position = none }

  abbrev pub started_event : BackEvent F
  started_event = record { phase = started; progress = none; position = none }

  abbrev pub started_with : GesturePosition F → BackEvent F
  started_with position = record { phase = started; progress = none; position = some position }

  abbrev pub progressed_event : F → BackEvent F
  progressed_event progress = record {
    phase = progressed;
    progress = some progress;
    position = none;
  }

  abbrev pub progressed_with : F → GesturePosition F → BackEvent F
  progressed_with progress position = record {
    phase = progressed;
    progress = some progress;
    position = some position;
  }

  abbrev pub cancelled_event : BackEvent F
  cancelled_event = record { phase = cancelled; progress = none; position = none }

pub data BackError : Type 0 where
  no_gesture_in_progress : BackError
