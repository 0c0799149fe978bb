-- ===== src/Adapters/Hosts.antt =====
-- crates/essenty-android/src/lifecycle.rs, crates/essenty-apple/src/lifecycle.rs and
-- crates/essenty-web/src/lifecycle.rs: each host owns a registry and moves it on callbacks of its
-- platform.
use essenty.Common.{ℕ, Bool, Option, some, if◌then◌else◌}
use essenty.Common.Results.{◌>>=◌}
use essenty.Lifecycle.State.{initialized, created, started, resumed, is_destroyed, eq_state}
use essenty.Lifecycle.Registry.{World, Exec, Run, Answer, step, destroy, move_to}

pub data AndroidCallback : Type 0 where
  on_create on_start on_resume on_pause on_stop on_destroy : AndroidCallback

pub data SceneCallback : Type 0 where
  scene_connected scene_will_enter_foreground scene_became_active : SceneCallback
  scene_will_resign_active scene_did_enter_background scene_disconnected : SceneCallback

pub data PageVisibility : Type 0 where
  visible hidden other : PageVisibility

-- `let _ =` on the answer of a move.
abbrev pub ignore : {W : Type 0} → Option (Answer × World W) → Option (World W)
ignore r = r >>= λ (answer, w). some w

module _ {W : Type 0} (exec : Exec W) (rounds : ℕ) where
  unfoldable pub android : AndroidCallback → Run W Answer
  android on_create w =
      if eq_state w.state initialized
      then step exec initialized created w
      else move_to exec rounds created w
  android on_start w = move_to exec rounds started w
  android on_resume w = move_to exec rounds resumed w
  android on_pause w = move_to exec rounds started w
  android on_stop w = move_to exec rounds created w
  android on_destroy w = destroy exec rounds w

  unfoldable pub apple : SceneCallback → World W → Option (World W)
  apple scene_connected w = ignore (move_to exec rounds created w)
  apple scene_will_enter_foreground w = ignore (move_to exec rounds started w)
  apple scene_became_active w = ignore (move_to exec rounds resumed w)
  apple scene_will_resign_active w = ignore (move_to exec rounds started w)
  apple scene_did_enter_background w = ignore (move_to exec rounds created w)
  apple scene_disconnected w = ignore (destroy exec rounds w)

  unfoldable pub on_visibility : PageVisibility → World W → Option (World W)
  on_visibility visible w = ignore (move_to exec rounds resumed w)
  on_visibility _ w =
      if is_destroyed w.state then some w else ignore (move_to exec rounds created w)

  unfoldable pub on_page_hide_with_persistence : Bool → World W → Option (World W)
  on_page_hide_with_persistence persisted w =
      if persisted then ignore (move_to exec rounds created w) else ignore (destroy exec rounds w)
