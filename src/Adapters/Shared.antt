-- ===== src/Adapters/Shared.antt =====
-- crates/essenty-apple/src: notification.rs and shared.rs, the error of an attachment and the sequences
-- of callbacks that a scene runs through.
use essenty.Common.{ℕ, Bool, true, false, Option, some}
use essenty.Common.Results.{Result, ok, err, ◌>>=◌}
use essenty.Lifecycle.Registry.{World, Exec, new}
use essenty.Adapters.Hosts.{
  apple, scene_connected, scene_will_enter_foreground, scene_became_active,
  scene_will_resign_active, scene_did_enter_background, scene_disconnected,
}

pub data ApplicationLifecycleError : Type 0 where
  not_main_thread : ApplicationLifecycleError

abbrev pub Attached : Type 0 → Type 0
Attached W = Option (Result ApplicationLifecycleError (World W))

-- `MainThreadMarker::new` answers on the main thread only; `start` is what follows with the new registry.
abbrev pub attach_on : {W : Type 0} → Bool → W → (World W → Option (World W)) → Attached W
attach_on true memory start = start (new memory) >>= λ w. some (ok w)
attach_on false memory start = some (err not_main_thread)

module _ {W : Type 0} (exec : Exec W) (rounds : ℕ) where
  unfoldable pub activate : World W → Option (World W)
  activate w = apple exec rounds scene_connected w >>= λ w'.
      apple exec rounds scene_will_enter_foreground w' >>= apple exec rounds scene_became_active

  unfoldable pub terminate : World W → Option (World W)
  terminate w = apple exec rounds scene_will_resign_active w >>= λ w'.
      apple exec rounds scene_did_enter_background w' >>= apple exec rounds scene_disconnected
