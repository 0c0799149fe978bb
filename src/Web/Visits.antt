-- ===== src/Web/Visits.antt =====
-- crates/essenty-web/src/wasm/browser_lifecycle.rs with lifecycle.rs: what a binding makes of the page that it
-- attaches to and of the events that come.
use essenty.Common.{
  ℕ, suc, ◌<◌, Bool, true, false, ◌&&◌, ◌||◌, ◌≡◌, refl, sym, ap, ◌∙◌, Option, none, some, List, [],
  ◌∷◌, map, arith, Bool-cases, inl, inr, if◌then◌else◌,
}
use essenty.Common.Results.{Result, ok, err, ◌>>=◌}
use essenty.Common.Text.{Chars, codes, same_text}
use essenty.Lifecycle.State.{LifecycleState, initialized, created, resumed, destroyed, is_destroyed}
use essenty.Lifecycle.Registry.{World, new, move_to, destroy}
use essenty.Lifecycle.Subscribe.{exec}
use essenty.Lifecycle.Route.{route}
use essenty.Lifecycle.Visit.{Handler, visit}
use essenty.Adapters.Hosts.{
  ignore, PageVisibility, visible, hidden, other, on_visibility, on_page_hide_with_persistence,
}
use essenty.Adapters.Callbacks.{page_target}
use essenty.Adapters.Driven.{
  Drives, Fits, run, begun, begun-run, begun-eq, new-Fits, ask-follows, destroy-follows, settled,
  is_initialized, path, route-destroyed, if_true, if_false,
}
use essenty.Web.Page.{
  parse, on_visibility_str, on_read, on_event, PageEvent, visibility_changed, page_shown,
  page_hidden, is_persisted, Dom, Listener, listen, stop_listening, attach, with_registry,
  BrowserError, unavailable, Listened,
}
use essenty.Web.Attaching.{IsFresh, SameListeners, is_mine, Listens, listen-Listens}

-- What a text of `document.visibilityState` and an event ask for.
abbrev pub read_target : Option Chars → Option LifecycleState
read_target none = none
read_target (some state) = some (page_target (parse state))

abbrev pub event_target : PageEvent → Option LifecycleState
event_target (visibility_changed state) = read_target state
event_target (page_shown state) = read_target state
event_target (page_hidden persisted) = some (if is_persisted persisted then created else destroyed)

-- What a page and its events ask for, by the text of its visibility and by the flag of `pagehide`.
abbrev pub shown_as : Chars → LifecycleState
shown_as state = if same_text state (codes "visible") then resumed else created

abbrev pub page_asks : Option Chars → Option LifecycleState
page_asks none = none
page_asks (some state) = some (shown_as state)

abbrev pub event_asks : PageEvent → Option LifecycleState
event_asks (visibility_changed state) = page_asks state
event_asks (page_shown state) = page_asks state
event_asks (page_hidden (some true)) = some created
event_asks (page_hidden _) = some destroyed

parse-shown_as : (state : Chars) → page_target (parse state) ≡ shown_as state
unfolding parse
parse-shown_as state = ground arith

read-page_asks : (s : Option Chars) → read_target s ≡ page_asks s
read-page_asks none = refl
read-page_asks (some state) = ap some (parse-shown_as state)

event-event_asks : (e : PageEvent) → event_target e ≡ event_asks e
event-event_asks (visibility_changed s) = read-page_asks s
event-event_asks (page_shown s) = read-page_asks s
event-event_asks (page_hidden none) = refl
event-event_asks (page_hidden (some true)) = refl
event-event_asks (page_hidden (some false)) = refl

events-event_asks : (es : List PageEvent) → map event_target es ≡ map event_asks es
events-event_asks [] = refl
events-event_asks (e ∷ es) = rw (event-event_asks e, events-event_asks es)

page_target-asks : (v : PageVisibility) → is_initialized (some (page_target v)) ≡ false
page_target-asks v = ground arith

read_target-asks : (s : Option Chars) → is_initialized (read_target s) ≡ false
read_target-asks none = refl
read_target-asks (some s) = page_target-asks (parse s)

event_target-asks : (e : PageEvent) → is_initialized (event_target e) ≡ false
event_target-asks (visibility_changed s) = read_target-asks s
event_target-asks (page_shown s) = read_target-asks s
event_target-asks (page_hidden p) = ground arith

module _ {W : Type 0} (hs : List (ℕ × Handler W)) (fuel rounds : ℕ) (r : 3 < rounds) where
  -- A page that is not visible: the code spares a registry that is destroyed.
  spared :
      (w : World W)
      → Fits hs w
      → (if is_destroyed w.state
          then some w
          else ignore (move_to (exec (suc fuel)) rounds created w))
        ≡ some (visit hs (route w.state created) w)
  spared w f = elim (Bool-cases (is_destroyed w.state)) [
    | inl d ↦
        if_true (is_destroyed w.state) _ _ d
        ∙ ap (λ ss. some (visit hs ss w)) (sym (route-destroyed w.state created d))
    | inr d ↦ if_false (is_destroyed w.state) _ _ d ∙ ask-follows hs fuel rounds r created w refl f
  ]

  on_visibility-follows :
      (v : PageVisibility) (w : World W)
      → Fits hs w
      → on_visibility (exec (suc fuel)) rounds v w
        ≡ some (visit hs (route w.state (page_target v)) w)
  unfolding on_visibility
  on_visibility-follows visible w f = ask-follows hs fuel rounds r resumed w refl f
  on_visibility-follows hidden w f = spared w f
  on_visibility-follows other w f = spared w f

  on_read-follows :
      (s : Option Chars) (w : World W)
      → Fits hs w
      → on_read (exec (suc fuel)) rounds s w ≡ some (visit hs (path w.state (read_target s)) w)
  unfolding on_visibility_str
  on_read-follows none w f = refl
  on_read-follows (some s) w f = on_visibility-follows (parse s) w f

  on_event-Drives : Drives hs (on_event (exec (suc fuel)) rounds) event_target
  unfolding on_event on_page_hide_with_persistence
  on_event-Drives = record { follows = follow; asks = event_target-asks }
    where
      hide :
          (b : Bool) (w : World W)
          → Fits hs w
          → (if b
              then ignore (move_to (exec (suc fuel)) rounds created w)
              else ignore (destroy (exec (suc fuel)) rounds w))
            ≡ some (visit hs (path w.state (some (if b then created else destroyed))) w)
      hide true w f = ask-follows hs fuel rounds r created w refl f
      hide false w f = destroy-follows hs fuel rounds r w f

      follow :
          (e : PageEvent) (w : World W)
          → Fits hs w
          → on_event (exec (suc fuel)) rounds e w
            ≡ some (visit hs (path w.state (event_target e)) w)
      follow (visibility_changed s) w f = on_read-follows s w f
      follow (page_shown s) w f = on_read-follows s w f
      follow (page_hidden p) w f = hide (is_persisted p) w f

module _ (dom : Dom) {W : Type 0} (fuel rounds : ℕ) (r : 3 < rounds) where
  open dom use {Page, has_window, has_document, visibility_state, listening}

  module _ (owner : ℕ) (memory : W) (page : Page) (fresh : IsFresh dom owner page)
      (es : List PageEvent) where
    -- A failure leaves the listeners of the page as they were. Otherwise there are three more until the
    -- drop, and events move the registry, which starts at what the page says.
    abbrev pub Attaches : Result BrowserError (World W) × Page → Type 0
    Attaches (err e, p) = SameListeners dom p page
    Attaches (ok w, p) =
        ((k : Listener) → listening k p ≡ (is_mine dom owner k || listening k page))
        × SameListeners dom (stop_listening dom owner p) page
        × ((w' : World W) × (run [] (on_event (exec (suc fuel)) rounds) es w ≡ some w')
            × (w'.state
                ≡ settled initialized (page_asks (visibility_state page) ∷ map event_asks es)))

    with_registry-Attaches :
        (l : Listened dom)
        → Listens dom owner page fresh l
        → Attaches (with_registry dom l (begun (read_target (visibility_state page)) memory))
    with_registry-Attaches (err e, p) h = h
    with_registry-Attaches (ok u, p) (a, b) =
        let t =
          begun-run (on_event (exec (suc fuel)) rounds) event_target
            (on_event-Drives [] fuel rounds r) (read_target (visibility_state page)) es memory
            (read_target-asks (visibility_state page)) in
        (
          a,
          b,
          (
            t.0,
            t.1,
            t.2
                ∙ ap (settled initialized) (
                    ap (λ o. o ∷ map event_target es) (read-page_asks (visibility_state page))
                    ∙ ap (λ os. page_asks (visibility_state page) ∷ os) (events-event_asks es)),
          ),
        )

    attached_if :
        (b : Bool)
        → (t : Result BrowserError (World W) × Page) × ((if b
              then (on_read (exec (suc fuel)) rounds (visibility_state page) (new memory) >>= λ w.
                  some (with_registry dom (listen dom owner page) w))
              else some (err unavailable, page))
            ≡ some t)
          × Attaches t
    attached_if false = ((err unavailable, page), refl, λ k. refl)
    attached_if true =
        let start = read_target (visibility_state page) in
        let moved =
          on_read-follows [] fuel rounds r (visibility_state page) (new memory) (new-Fits memory)
          ∙ begun-eq start memory in
        (
          with_registry dom (listen dom owner page) (begun start memory),
          ap (λ m. m >>= λ w. some (with_registry dom (listen dom owner page) w)) moved,
          with_registry-Attaches (listen dom owner page) (listen-Listens dom owner page fresh),
        )

    -- Attaching to a page that has no listener of this binding returns. If it fails, for want of a window
    -- or a document or because the browser refuses any of the listeners, the listeners of the page are as
    -- they were. Otherwise there are exactly the three of the binding more, and the drop takes these away
    -- again; and after any sequence of events, while no observer is subscribed, the state of the registry is
    -- the last that the page or an event asked for: Resumed for a page whose visibility is the text
    -- "visible", Created for any other and for a hidden page that may be restored, and Destroyed, for good,
    -- for one that may not.
    pub attach-Attaches :
        (t : Result BrowserError (World W) × Page) × (attach dom
            (exec (suc fuel))
            rounds
            owner
            memory
            page
          ≡ some t)
        × Attaches t
    unfolding attach
    attach-Attaches = attached_if (has_window page && has_document page)
