-- ===== src/Adapters/Targets.antt =====
-- crates/essenty-apple/src: macos_native.rs, uikit_native.rs and watch_native.rs, the state that each
-- notification of an application asks for.
use essenty.Common.{
  ℕ, zero, suc, ◌<◌, Bool, true, false, ◌≡◌, refl, Option, none, some, List, arith,
}
use essenty.Common.Ints.{ℤ, pos, negsuc}
use essenty.Lifecycle.State.{LifecycleState, created, started, resumed, destroyed}
use essenty.Lifecycle.Registry.{World}
use essenty.Lifecycle.Subscribe.{exec}
use essenty.Lifecycle.Visit.{Handler, visit}
use essenty.Adapters.Macos as Macos
use essenty.Adapters.Uikit as Uikit
use essenty.Adapters.Watch as Watch
use essenty.Adapters.Driven.{Drives, Fits, ask-follows, destroy-follows, is_initialized, path}

-- What each notification asks for.
abbrev pub macos_target : Macos.Notification → Option LifecycleState
macos_target Macos.did_finish_launching = some created
macos_target Macos.did_become_active = some resumed
macos_target Macos.did_resign_active = some started
macos_target Macos.did_hide = some created
macos_target Macos.did_unhide = some started
macos_target Macos.will_terminate = some destroyed

abbrev pub uikit_target : Uikit.Notification → Option LifecycleState
uikit_target Uikit.did_finish_launching = some created
uikit_target Uikit.will_enter_foreground = some started
uikit_target Uikit.did_become_active = some resumed
uikit_target Uikit.will_resign_active = some started
uikit_target Uikit.did_enter_background = some created
uikit_target Uikit.will_terminate = some destroyed

abbrev pub watch_target : Watch.Notification → Option LifecycleState
watch_target Watch.did_finish_launching = some created
watch_target Watch.will_enter_foreground = some started
watch_target Watch.did_become_active = some resumed
watch_target Watch.will_resign_active = some started
watch_target Watch.did_enter_background = some created

-- The state that an application is in, as it says of itself: a running macOS application is Resumed if
-- it is active and Started if not; the states of UIKit and of watchOS (0, 1, and any other integer) are
-- Resumed for active, Started for inactive and Created in the background.
abbrev pub running_as : Bool → Bool → Option LifecycleState
running_as false active = none
running_as true true = some resumed
running_as true false = some started

abbrev pub kit_state : Uikit.ApplicationState → LifecycleState
kit_state Uikit.background = created
kit_state Uikit.inactive = started
kit_state Uikit.active = resumed

abbrev pub watch_state : ℤ → LifecycleState
watch_state (pos zero) = resumed
watch_state (pos (suc zero)) = started
watch_state _ = created

pub current-running_as :
    (app : Macos.Application) → Macos.current app ≡ running_as app.is_running app.is_active
current-running_as app = ground arith

pub current-kit_state : (app : Uikit.ApplicationState) → Uikit.current app ≡ kit_state app
current-kit_state app = ground arith

pub current-watch_state : (app : ℤ) → Watch.current app ≡ watch_state app
current-watch_state (pos zero) = refl
current-watch_state (pos (suc zero)) = refl
current-watch_state (pos (suc (suc n))) = ground arith
current-watch_state (negsuc n) = refl

pub current-macos : (app : Macos.Application) → is_initialized (Macos.current app) ≡ false
current-macos app = ground arith

pub current-uikit :
    (app : Uikit.ApplicationState) → is_initialized (some (Uikit.current app)) ≡ false
current-uikit app = ground arith

pub current-watch : (app : ℤ) → is_initialized (some (Watch.current app)) ≡ false
current-watch (pos n) = ground arith
current-watch (negsuc n) = refl

module _ {W : Type 0} (hs : List (ℕ × Handler W)) (fuel rounds : ℕ) (r : 3 < rounds) where
  pub macos-Drives : Drives hs (Macos.on_notification (exec (suc fuel)) rounds) macos_target
  unfolding Macos.on_notification
  macos-Drives = record { follows = follow; asks = λ n. ground arith }
    where
      follow :
          (n : Macos.Notification) (w : World W)
          → Fits hs w
          → Macos.on_notification (exec (suc fuel)) rounds n w
            ≡ some (visit hs (path w.state (macos_target n)) w)
      follow Macos.did_finish_launching w f = ask-follows hs fuel rounds r created w refl f
      follow Macos.did_become_active w f = ask-follows hs fuel rounds r resumed w refl f
      follow Macos.did_resign_active w f = ask-follows hs fuel rounds r started w refl f
      follow Macos.did_hide w f = ask-follows hs fuel rounds r created w refl f
      follow Macos.did_unhide w f = ask-follows hs fuel rounds r started w refl f
      follow Macos.will_terminate w f = destroy-follows hs fuel rounds r w f

  pub uikit-Drives : Drives hs (Uikit.on_notification (exec (suc fuel)) rounds) uikit_target
  unfolding Uikit.on_notification
  uikit-Drives = record { follows = follow; asks = λ n. ground arith }
    where
      follow :
          (n : Uikit.Notification) (w : World W)
          → Fits hs w
          → Uikit.on_notification (exec (suc fuel)) rounds n w
            ≡ some (visit hs (path w.state (uikit_target n)) w)
      follow Uikit.did_finish_launching w f = ask-follows hs fuel rounds r created w refl f
      follow Uikit.will_enter_foreground w f = ask-follows hs fuel rounds r started w refl f
      follow Uikit.did_become_active w f = ask-follows hs fuel rounds r resumed w refl f
      follow Uikit.will_resign_active w f = ask-follows hs fuel rounds r started w refl f
      follow Uikit.did_enter_background w f = ask-follows hs fuel rounds r created w refl f
      follow Uikit.will_terminate w f = destroy-follows hs fuel rounds r w f

  pub watch-Drives : Drives hs (Watch.on_notification (exec (suc fuel)) rounds) watch_target
  unfolding Watch.on_notification
  watch-Drives = record { follows = follow; asks = λ n. ground arith }
    where
      follow :
          (n : Watch.Notification) (w : World W)
          → Fits hs w
          → Watch.on_notification (exec (suc fuel)) rounds n w
            ≡ some (visit hs (path w.state (watch_target n)) w)
      follow Watch.did_finish_launching w f = ask-follows hs fuel rounds r created w refl f
      follow Watch.will_enter_foreground w f = ask-follows hs fuel rounds r started w refl f
      follow Watch.did_become_active w f = ask-follows hs fuel rounds r resumed w refl f
      follow Watch.will_resign_active w f = ask-follows hs fuel rounds r started w refl f
      follow Watch.did_enter_background w f = ask-follows hs fuel rounds r created w refl f
