-- ===== src/Adapters/Uikit.antt =====
-- crates/essenty-apple/src/uikit_native.rs: the observer of the notifications of a UIKit application.
use essenty.Common.{ℕ, Bool, Option, some}
use essenty.Lifecycle.State.{LifecycleState, created, started, resumed}
use essenty.Lifecycle.Registry.{World, Exec, move_to, destroy}
use essenty.Adapters.Hosts.{ignore}
use essenty.Adapters.Shared.{Attached, attach_on}

-- The notifications that the observer is registered for, by their selectors.
pub data Notification : Type 0 where
  did_finish_launching will_enter_foreground did_become_active will_resign_active
        did_enter_background will_terminate :
      Notification

pub data ApplicationState : Type 0 where
  active inactive background : ApplicationState

abbrev pub current : ApplicationState → LifecycleState
current active = resumed
current inactive = started
current _ = created

module _ {W : Type 0} (exec : Exec W) (rounds : ℕ) where
  unfoldable pub on_notification : Notification → World W → Option (World W)
  on_notification did_finish_launching w = ignore (move_to exec rounds created w)
  on_notification will_enter_foreground w = ignore (move_to exec rounds started w)
  on_notification did_become_active w = ignore (move_to exec rounds resumed w)
  on_notification will_resign_active w = ignore (move_to exec rounds started w)
  on_notification did_enter_background w = ignore (move_to exec rounds created w)
  on_notification will_terminate w = ignore (destroy exec rounds w)

  -- `on_main`: whether the call is made on the main thread.
  unfoldable pub attach : Bool → ApplicationState → W → Attached W
  attach on_main app memory =
      attach_on on_main memory (λ w. ignore (move_to exec rounds (current app) w))

  -- Dropping it removes the observer and leaves the registry as it is.
  unfoldable pub drop : World W → Option (World W)
  drop w = some w
