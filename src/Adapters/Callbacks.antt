-- ===== src/Adapters/Callbacks.antt =====
-- The lifecycle.rs of crates/essenty-android, crates/essenty-apple and crates/essenty-web: where the
-- callbacks of a platform lead, and that a callback that Android repeats is harmless.
use essenty.Common.{
  ℕ, suc, ◌<◌, true, false, ◌≡◌, refl, sym, ap, subst, ◌∙◌, some, List, [], arith, Bool-cases, inl,
  inr,
}
use essenty.Common.Results.{ok}
use essenty.Lifecycle.State.{
  LifecycleState, initialized, created, started, resumed, destroyed, is_destroyed, eq_state,
  eq_state-eq,
}
use essenty.Lifecycle.Registry.{World, apply, step}
use essenty.Lifecycle.Subscribe.{exec}
use essenty.Lifecycle.Automaton.{Moves, creates}
use essenty.Lifecycle.Route.{route, last, all_live}
use essenty.Lifecycle.Visit.{Handler, plain, visit, visit-state, visit-observers}
use essenty.Lifecycle.Delivery.{apply-plain, destroy-plain, move_to-plain}
use essenty.Adapters.Hosts.{
  AndroidCallback, on_create, on_start, on_resume, on_pause, on_stop, on_destroy, android,
  SceneCallback, scene_connected, scene_will_enter_foreground, scene_became_active,
  scene_will_resign_active, scene_did_enter_background, scene_disconnected, apple, PageVisibility,
  visible, hidden, other, on_visibility, ignore,
}

-- The state that each callback asks for.
abbrev pub target : AndroidCallback → LifecycleState
target on_create = created
target on_start = started
target on_resume = resumed
target on_pause = started
target on_stop = created
target on_destroy = destroyed

abbrev pub scene_target : SceneCallback → LifecycleState
scene_target scene_connected = created
scene_target scene_will_enter_foreground = started
scene_target scene_became_active = resumed
scene_target scene_will_resign_active = started
scene_target scene_did_enter_background = created
scene_target scene_disconnected = destroyed

abbrev pub page_target : PageVisibility → LifecycleState
page_target visible = resumed
page_target _ = created

arrives :
    (s : LifecycleState) (c : AndroidCallback)
    → is_destroyed s ≡ false
    → is_destroyed (target c) ≡ false
    → (last s (route s (target c)) ≡ target c) × (all_live (route s (target c)) ≡ true)
arrives s c x d = ground arith

stays : (c : AndroidCallback) → route (target c) (target c) ≡ []
stays c = ground arith

module _ {W : Type 0} (fuel : ℕ) (hs : List (ℕ × Handler W)) (rounds : ℕ) (r : 3 < rounds) where
  creates-plain :
      (w : World W)
      → w.observers ≡ plain hs
      → w.state ≡ initialized
      → step (exec (suc fuel)) initialized created w
        ≡ some (ok tt, visit hs (route w.state created) w)
  unfolding step
  creates-plain w e s =
      let guarded : step (exec (suc fuel)) initialized created w
          ≡ apply (exec (suc fuel)) created w =
        rw s refl in
      guarded
      ∙ apply-plain fuel hs created w e (subst (λ q. Moves q created) (sym s) creates)
      ∙ ap (λ t. some (ok tt, visit hs t w)) (ap (λ q. route q created) (sym s))

  -- From a live registry whose observers only use their own memory, every callback of an activity
  -- succeeds, and leads by the route through each state between to the state that it asks for.
  pub android-plain :
      (c : AndroidCallback) (w : World W)
      → w.observers ≡ plain hs
      → is_destroyed w.state ≡ false
      → android (exec (suc fuel)) rounds c w ≡ some (ok tt, visit hs (route w.state (target c)) w)
  unfolding android
  android-plain on_create w e x = elim (Bool-cases (eq_state w.state initialized)) [
    | inl q ↦ rw q (creates-plain w e (eq_state-eq w.state initialized q))
    | inr q ↦ rw q (move_to-plain fuel hs rounds created w e x r)
  ]
  android-plain on_start w e x = move_to-plain fuel hs rounds started w e x r
  android-plain on_resume w e x = move_to-plain fuel hs rounds resumed w e x r
  android-plain on_pause w e x = move_to-plain fuel hs rounds started w e x r
  android-plain on_stop w e x = move_to-plain fuel hs rounds created w e x r
  android-plain on_destroy w e x = destroy-plain fuel hs rounds w e x r

  -- A callback other than `onDestroy` that is repeated right away succeeds and changes nothing.
  pub android-twice :
      (c : AndroidCallback) (w : World W)
      → w.observers ≡ plain hs
      → is_destroyed w.state ≡ false
      → is_destroyed (target c) ≡ false
      → (w' : World W) × (android (exec (suc fuel)) rounds c w ≡ some (ok tt, w'))
        × (w'.state ≡ target c)
        × (android (exec (suc fuel)) rounds c w' ≡ some (ok tt, w'))
  android-twice c w e x d =
      let w' = visit hs (route w.state (target c)) w in
      let f = arrives w.state c x d in
      let s = visit-state hs (route w.state (target c)) w ∙ f.0 in
      let o = visit-observers hs (route w.state (target c)) w f.1 ∙ e in
      (
        w',
        android-plain c w e x,
        s,
        android-plain c w' o (ap is_destroyed s ∙ d)
            ∙ ap (λ t. some (ok tt, visit hs t w')) (ap (λ q. route q (target c)) s ∙ stays c),
      )

  -- From a live registry whose observers only use their own memory, every callback of a scene leads by
  -- the route to the state that it asks for.
  pub apple-plain :
      (c : SceneCallback) (w : World W)
      → w.observers ≡ plain hs
      → is_destroyed w.state ≡ false
      → apple (exec (suc fuel)) rounds c w ≡ some (visit hs (route w.state (scene_target c)) w)
  unfolding apple
  apple-plain scene_connected w e x = ap ignore (move_to-plain fuel hs rounds created w e x r)
  apple-plain scene_will_enter_foreground w e x =
      ap ignore (move_to-plain fuel hs rounds started w e x r)
  apple-plain scene_became_active w e x = ap ignore (move_to-plain fuel hs rounds resumed w e x r)
  apple-plain scene_will_resign_active w e x =
      ap ignore (move_to-plain fuel hs rounds started w e x r)
  apple-plain scene_did_enter_background w e x =
      ap ignore (move_to-plain fuel hs rounds created w e x r)
  apple-plain scene_disconnected w e x = ap ignore (destroy-plain fuel hs rounds w e x r)

  -- From a live registry whose observers only use their own memory, a visible page leads by the route to
  -- `Resumed`, and any other page to `Created`.
  pub on_visibility-plain :
      (v : PageVisibility) (w : World W)
      → w.observers ≡ plain hs
      → is_destroyed w.state ≡ false
      → on_visibility (exec (suc fuel)) rounds v w
        ≡ some (visit hs (route w.state (page_target v)) w)
  unfolding on_visibility
  on_visibility-plain visible w e x = ap ignore (move_to-plain fuel hs rounds resumed w e x r)
  on_visibility-plain hidden w e x = rw x (ap ignore (move_to-plain fuel hs rounds created w e x r))
  on_visibility-plain other w e x = rw x (ap ignore (move_to-plain fuel hs rounds created w e x r))
