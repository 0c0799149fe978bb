-- ===== src/Adapters/Macos.antt =====
-- crates/essenty-apple/src/macos_native.rs: the observer of the notifications of a macOS application.
use essenty.Common.{ℕ, Bool, Option, some, none, if◌then◌else◌}
use essenty.Lifecycle.State.{LifecycleState, created, started, resumed}
use essenty.Lifecycle.Registry.{World, Exec, move_to, destroy}
use essenty.Adapters.Hosts.{ignore}
use essenty.Adapters.Shared.{Attached, attach_on}

-- The notifications that the observer is registered for, by their selectors.
pub data Notification : Type 0 where
  did_finish_launching did_become_active did_resign_active did_hide did_unhide will_terminate :
      Notification

-- What `NSApplication` says of itself.
pub record Application : Type 0 where
  pub is_running : Bool
  pub is_active : Bool

-- The state of an application that runs already, if it does.
abbrev pub current : Application → Option LifecycleState
current app = if app.is_running then some (if app.is_active then resumed else started) else none

module _ {W : Type 0} (exec : Exec W) (rounds : ℕ) where
  unfoldable pub on_notification : Notification → World W → Option (World W)
  on_notification did_finish_launching w = ignore (move_to exec rounds created w)
  on_notification did_become_active w = ignore (move_to exec rounds resumed w)
  on_notification did_resign_active w = ignore (move_to exec rounds started w)
  on_notification did_hide w = ignore (move_to exec rounds created w)
  on_notification did_unhide w = ignore (move_to exec rounds started w)
  on_notification will_terminate w = ignore (destroy exec rounds w)

  abbrev pub catch_up : Option LifecycleState → World W → Option (World W)
  catch_up none w = some w
  catch_up (some target) w = ignore (move_to exec rounds target w)

  -- `on_main`: whether the call is made on the main thread.
  unfoldable pub attach : Bool → Application → W → Attached W
  attach on_main app memory = attach_on on_main memory (catch_up (current app))

  -- Dropping it removes the observer and leaves the registry as it is.
  unfoldable pub drop : World W → Option (World W)
  drop w = some w
