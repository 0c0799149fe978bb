-- ===== src/Android/Proxy.antt =====
-- crates/essenty-android/src/back_handler/platform.rs: what the proxy of a handler does when Java calls it.
use essenty.Common.{Bool, true, false, ◌||◌, Option, none, some, [], ◌∷◌, ◌++◌, if◌then◌else◌, ◌==◌}
use essenty.Common.Ints.{ℤ, pos}
use essenty.Common.Text.{Chars, codes, same_text}
use essenty.Back.Event.{GesturePosition, SwipeEdge, left, right, unknown}
use essenty.Android.BackHandler.{
  PlatformEvent, started, progressed, cancelled, invoked, uninstall, AndroidBackHandler,
}

abbrev pub swipe_edge : ℤ → SwipeEdge
swipe_edge (pos n) = if n == 0 then left else if n == 1 then right else unknown
swipe_edge _ = unknown

-- The argument of a gesture callback, as its getters read it.
pub record BackEvent (F : Type 0) : Type 0 where
  pub progress : F
  pub edge : ℤ
  pub touch_x : F
  pub touch_y : F

abbrev pub position_of : {F : Type 0} → BackEvent F → GesturePosition F
position_of e = record { swipe_edge = swipe_edge e.edge; touch_x = e.touch_x; touch_y = e.touch_y }

abbrev pub with_position : {F : Type 0} → Bool → Option (BackEvent F) → Option (PlatformEvent F)
with_position starts none = none
with_position starts (some e) =
    if starts
    then some (started (position_of e) e.progress)
    else some (progressed (position_of e) e.progress)

-- The event of a method that Java calls; none where the method is not known or a getter fails.
unfoldable pub event_of : {F : Type 0} → Chars → Option (BackEvent F) → Option (PlatformEvent F)
unfolding same_text
event_of name arg =
    if same_text name (codes "onBackStarted") || same_text name (codes "onBackProgressed")
    then with_position (same_text name (codes "onBackStarted")) arg
    else if same_text name (codes "onBackCancelled")
    then some cancelled
    else if same_text name (codes "onBackInvoked")
    then some invoked
    else none

abbrev pub is_terminal : {F : Type 0} → PlatformEvent F → Bool
is_terminal cancelled = true
is_terminal invoked = true
is_terminal _ = false

module _ {F W : Type 0} where
  -- A send fails exactly if the receiver was dropped with its handler.
  abbrev pub send : Bool → PlatformEvent F → AndroidBackHandler F W → AndroidBackHandler F W
  send false event h = record h { receiver = h.receiver ++ event ∷ [] }
  send true event h =
      if is_terminal event then record h { posted = h.posted ++ uninstall ∷ [] } else h

  abbrev pub send_some :
      Bool → Option (PlatformEvent F) → AndroidBackHandler F W → AndroidBackHandler F W
  send_some dropped none h = h
  send_some dropped (some event) h = send dropped event h

  -- The closure of the proxy.
  unfoldable pub callback :
      Bool → Chars → Option (BackEvent F) → AndroidBackHandler F W → AndroidBackHandler F W
  unfolding event_of
  callback dropped name arg = send_some dropped (event_of name arg)
