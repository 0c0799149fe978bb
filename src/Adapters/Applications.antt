-- ===== src/Adapters/Applications.antt =====
-- crates/essenty-apple/src: macos_native.rs, uikit_native.rs and watch_native.rs, what the notifications of
-- an application make of its registry.
use essenty.Common.{
  ℕ, suc, ◌<◌, Bool, true, false, ◌≡◌, refl, ap, ◌∙◌, Option, none, some, List, [], ◌∷◌, map, subst,
}
use essenty.Common.Ints.{ℤ}
use essenty.Common.Results.{ok, err, ◌>>=◌}
use essenty.Lifecycle.State.{LifecycleState, initialized, destroyed}
use essenty.Lifecycle.Registry.{World, new, move_to}
use essenty.Adapters.Hosts.{ignore}
use essenty.Lifecycle.Subscribe.{exec}
use essenty.Lifecycle.Route.{route}
use essenty.Lifecycle.Visit.{Handler, visit, visit-state}
use essenty.Adapters.Shared.{Attached, not_main_thread}
use essenty.Adapters.Macos as Macos
use essenty.Adapters.Uikit as Uikit
use essenty.Adapters.Watch as Watch
use essenty.Adapters.Driven.{
  Drives, Fits, run, begun, begun-run, begun-eq, new-Fits, ask-follows, destroy-follows, settled,
  is_initialized, journey, run-visit, advance, last-path,
}
use essenty.Adapters.Targets.{
  running_as, kit_state, watch_state, current-running_as, current-kit_state, current-watch_state,
  macos_target, uikit_target, watch_target, current-macos, current-uikit, current-watch,
  macos-Drives, uikit-Drives, watch-Drives,
}

module _ {W : Type 0} (fuel rounds : ℕ) (r : 3 < rounds) where
  -- A host that is attached on the main thread only, then follows notifications and is dropped: the
  -- registry starts at what the application says of itself, and a drop may ask for one state more.
  abbrev pub Observes :
      {E : Type 0}
      → (Bool → Attached W)
      → (E → World W → Option (World W))
      → (World W → Option (World W))
      → Option LifecycleState
      → (E → Option LifecycleState)
      → Option LifecycleState
      → List E
      → Type 0
  Observes attach handle drop start target left es =
      (attach false ≡ some (err not_main_thread))
      × ((w : World W) × (attach true ≡ some (ok w))
          × (w' : World W) × (run [] handle es w ≡ some w')
          × (w'.state ≡ settled initialized (start ∷ map target es))
          × (w'' : World W) × (drop w' ≡ some w'')
          × (w''.state ≡ advance w'.state left))

  started_by :
      (t : LifecycleState) (memory : W)
      → is_initialized (some t) ≡ false
      → ignore (move_to (exec (suc fuel)) rounds t (new memory)) ≡ some (begun (some t) memory)
  started_by t memory i =
      ask-follows [] fuel rounds r t (new memory) i (new-Fits memory) ∙ begun-eq (some t) memory

  observes :
      {E : Type 0} (attach : Bool → Attached W) (handle : E → World W → Option (World W))
      (drop : World W → Option (World W)) (start : Option LifecycleState)
      (target : E → Option LifecycleState) (left : Option LifecycleState) (es : List E) (memory : W)
      → attach false ≡ some (err not_main_thread)
      → attach true ≡ some (ok (begun start memory))
      → is_initialized start ≡ false
      → Drives [] handle target
      → ((w : World W)
          → Fits [] w
          → (w'' : World W) × (drop w ≡ some w'') × (w''.state ≡ advance w.state left))
      → Observes attach handle drop start target left es
  observes attach handle drop start target left es memory off on i d e =
      let t = begun-run handle target d start es memory i in
      let u = e t.0 t.3 in (off, (begun start memory, on, t.0, t.1, t.2, u.0, u.1, u.2))

  stays :
      (w : World W)
      → Fits [] w
      → (w'' : World W) × (some w ≡ some w'') × (w''.state ≡ advance w.state none)
  stays w f = (w, refl, refl)

  caught_up :
      (o : Option LifecycleState) (memory : W)
      → is_initialized o ≡ false
      → Macos.catch_up (exec (suc fuel)) rounds o (new memory) ≡ some (begun o memory)
  caught_up none memory i = refl
  caught_up (some t) memory i = started_by t memory i

  macos-Observes :
      (app : Macos.Application) (ns : List Macos.Notification) (memory : W)
      → Observes
          (λ on_main. Macos.attach (exec (suc fuel)) rounds on_main app memory)
          (Macos.on_notification (exec (suc fuel)) rounds)
          (Macos.drop (exec (suc fuel)) rounds)
          (Macos.current app)
          macos_target
          none
          ns
  unfolding Macos.attach Macos.drop
  macos-Observes app ns memory =
      observes (λ on_main. Macos.attach (exec (suc fuel)) rounds on_main app memory)
        (Macos.on_notification (exec (suc fuel)) rounds) (Macos.drop (exec (suc fuel)) rounds)
        (Macos.current app) macos_target none ns memory refl
        (ap (λ w. w >>= λ x. some (ok x))
          (caught_up (Macos.current app) memory (current-macos app)))
        (current-macos app) (macos-Drives [] fuel rounds r) stays

  uikit-Observes :
      (app : Uikit.ApplicationState) (ns : List Uikit.Notification) (memory : W)
      → Observes
          (λ on_main. Uikit.attach (exec (suc fuel)) rounds on_main app memory)
          (Uikit.on_notification (exec (suc fuel)) rounds)
          (Uikit.drop (exec (suc fuel)) rounds)
          (some (Uikit.current app))
          uikit_target
          none
          ns
  unfolding Uikit.attach Uikit.drop
  uikit-Observes app ns memory =
      observes (λ on_main. Uikit.attach (exec (suc fuel)) rounds on_main app memory)
        (Uikit.on_notification (exec (suc fuel)) rounds) (Uikit.drop (exec (suc fuel)) rounds)
        (some (Uikit.current app)) uikit_target none ns memory refl
        (ap (λ w. w >>= λ x. some (ok x))
          (started_by (Uikit.current app) memory (current-uikit app)))
        (current-uikit app) (uikit-Drives [] fuel rounds r) stays

  destroys :
      (w : World W)
      → Fits [] w
      → (w'' : World W) × (Watch.drop (exec (suc fuel)) rounds w ≡ some w'')
        × (w''.state ≡ advance w.state (some destroyed))
  unfolding Watch.drop
  destroys w f = (
    visit [] (route w.state destroyed) w,
    destroy-follows [] fuel rounds r w f,
    visit-state [] (route w.state destroyed) w ∙ last-path w.state (some destroyed) refl,
  )

  watch-Observes :
      (app : ℤ) (ns : List Watch.Notification) (memory : W)
      → Observes
          (λ on_main. Watch.attach (exec (suc fuel)) rounds on_main app memory)
          (Watch.on_notification (exec (suc fuel)) rounds)
          (Watch.drop (exec (suc fuel)) rounds)
          (some (Watch.current app))
          watch_target
          (some destroyed)
          ns
  unfolding Watch.attach Watch.drop
  watch-Observes app ns memory =
      observes (λ on_main. Watch.attach (exec (suc fuel)) rounds on_main app memory)
        (Watch.on_notification (exec (suc fuel)) rounds) (Watch.drop (exec (suc fuel)) rounds)
        (some (Watch.current app)) watch_target (some destroyed) ns memory refl
        (ap (λ w. w >>= λ x. some (ok x))
          (started_by (Watch.current app) memory (current-watch app)))
        (current-watch app) (watch-Drives [] fuel rounds r) destroys

  -- On macOS, on UIKit and on watchOS, before observers subscribe, a host cannot be attached off the main
  -- thread; attached on it, its registry is at once Resumed for an active application, Started for an
  -- inactive one and Created for one in the background, or Initialized if a macOS application does not
  -- run yet. After any sequence of notifications its state is
  -- the last that was asked for, but Destroyed for good once that was asked for. Dropping the host leaves
  -- the state as it is on macOS and UIKit, and destroys the registry on watchOS.
  pub applications-Observes :
      (mac : Macos.Application) (macs : List Macos.Notification) (kit : Uikit.ApplicationState)
      (kits : List Uikit.Notification) (watch : ℤ) (watches : List Watch.Notification) (memory : W)
      → Observes
          (λ on_main. Macos.attach (exec (suc fuel)) rounds on_main mac memory)
          (Macos.on_notification (exec (suc fuel)) rounds)
          (Macos.drop (exec (suc fuel)) rounds)
          (running_as mac.is_running mac.is_active)
          macos_target
          none
          macs
        × Observes
            (λ on_main. Uikit.attach (exec (suc fuel)) rounds on_main kit memory)
            (Uikit.on_notification (exec (suc fuel)) rounds)
            (Uikit.drop (exec (suc fuel)) rounds)
            (some (kit_state kit))
            uikit_target
            none
            kits
        × Observes
            (λ on_main. Watch.attach (exec (suc fuel)) rounds on_main watch memory)
            (Watch.on_notification (exec (suc fuel)) rounds)
            (Watch.drop (exec (suc fuel)) rounds)
            (some (watch_state watch))
            watch_target
            (some destroyed)
            watches
  applications-Observes mac macs kit kits watch watches memory = (
    subst
        (λ o.
          Observes (λ on_main. Macos.attach (exec (suc fuel)) rounds on_main mac memory)
            (Macos.on_notification (exec (suc fuel)) rounds) (Macos.drop (exec (suc fuel)) rounds) o
            macos_target none macs)
        (current-running_as mac) (macos-Observes mac macs memory),
    subst
        (λ state.
          Observes (λ on_main. Uikit.attach (exec (suc fuel)) rounds on_main kit memory)
            (Uikit.on_notification (exec (suc fuel)) rounds) (Uikit.drop (exec (suc fuel)) rounds)
            (some state) uikit_target none kits)
        (current-kit_state kit) (uikit-Observes kit kits memory),
    subst
        (λ state.
          Observes (λ on_main. Watch.attach (exec (suc fuel)) rounds on_main watch memory)
            (Watch.on_notification (exec (suc fuel)) rounds) (Watch.drop (exec (suc fuel)) rounds)
            (some state) watch_target (some destroyed) watches)
        (current-watch_state watch) (watch-Observes watch watches memory),
  )

  -- From a registry whose observers only use their own memory, the notifications of an application on
  -- macOS, on UIKit and on watchOS lead by the route to each state that they ask for in turn, and tell
  -- every observer of each state on it.
  pub applications-visit :
      (hs : List (ℕ × Handler W)) (macs : List Macos.Notification) (kits : List Uikit.Notification)
      (watches : List Watch.Notification) (w : World W)
      → Fits hs w
      → (run hs (Macos.on_notification (exec (suc fuel)) rounds) macs w
          ≡ some (visit hs (journey w.state (map macos_target macs)) w))
        × (run hs (Uikit.on_notification (exec (suc fuel)) rounds) kits w
            ≡ some (visit hs (journey w.state (map uikit_target kits)) w))
        × (run hs (Watch.on_notification (exec (suc fuel)) rounds) watches w
            ≡ some (visit hs (journey w.state (map watch_target watches)) w))
  applications-visit hs macs kits watches w f = (
    run-visit hs _ macos_target (macos-Drives hs fuel rounds r) macs w f,
    run-visit hs _ uikit_target (uikit-Drives hs fuel rounds r) kits w f,
    run-visit hs _ watch_target (watch-Drives hs fuel rounds r) watches w f,
  )
