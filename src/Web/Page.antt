-- ===== src/Web/Page.antt =====
-- crates/essenty-web/src: the parsing and the strings of lifecycle.rs, history.rs, and the listeners of
-- wasm/browser_lifecycle.rs and wasm/browser_history.rs over a page of the browser that is a parameter.
use essenty.Common.{ℕ, Bool, false, ◌&&◌, ◌||◌, not, Option, none, some, if◌then◌else◌, ◌==◌, ◌≡◌}
use essenty.Common.Results.{Result, ok, err, ◌>>=◌}
use essenty.Common.Text.{Chars, codes, same_text}
use essenty.Lifecycle.Registry.{World, Exec, new}
use essenty.Back.Dispatcher.{Scene}
use essenty.Back.Gestures.{back}
use essenty.Adapters.Hosts.{
  PageVisibility, visible, hidden, other, on_visibility, on_page_hide_with_persistence,
}

unfoldable pub parse : Chars → PageVisibility
unfolding same_text
parse state =
    if same_text state (codes "visible")
    then visible
    else if same_text state (codes "hidden")
    then hidden
    else other

pub data EventName : Type 0 where
  visibilitychange pagehide pageshow popstate : EventName

abbrev pub number : EventName → ℕ
number visibilitychange = 0
number pagehide = 1
number pageshow = 2
number popstate = 3

-- A closure that is registered for an event: the binding that owns it, and the event.
pub record Listener : Type 0 where
  pub owner : ℕ
  pub event : EventName

abbrev pub same_listener : Listener → Listener → Bool
same_listener k l = k.owner == l.owner && number k.event == number l.event

-- What the bindings rely on of a page. `add` answers none where the browser throws; removing a listener
-- does not throw.
pub record Dom : Type 1 where
  pub Page : Type 0
  pub has_window : Page → Bool
  pub has_document : Page → Bool
  pub visibility_state : Page → Option Chars
  pub listening : Listener → Page → Bool
  pub add : Listener → Page → Option Page
  pub remove : Listener → Page → Page
  pub listening-add :
      (k l : Listener) (p q : Page)
      → add l p ≡ some q
      → listening k q ≡ (same_listener k l || listening k p)
  pub listening-remove :
      (k l : Listener) (p : Page)
      → listening k (remove l p) ≡ (not (same_listener k l) && listening k p)

pub data BrowserError : Type 0 where
  unavailable listener_failed : BrowserError

-- What the listeners read of an event and of the page when it comes: `none` where the property is no
-- text, and where the event is no transition of a page.
pub data PageEvent : Type 0 where
  visibility_changed page_shown : Option Chars → PageEvent
  page_hidden : Option Bool → PageEvent

abbrev pub is_persisted : Option Bool → Bool
is_persisted none = false
is_persisted (some persisted) = persisted

module _ {W : Type 0} (exec : Exec W) (rounds : ℕ) where
  unfoldable pub on_visibility_str : Chars → World W → Option (World W)
  unfolding parse
  on_visibility_str state = on_visibility exec rounds (parse state)

  unfoldable pub on_page_hide : World W → Option (World W)
  on_page_hide = on_page_hide_with_persistence exec rounds false

  abbrev pub on_read : Option Chars → World W → Option (World W)
  on_read none w = some w
  on_read (some state) w = on_visibility_str state w

  -- The three closures of `BrowserLifecycle`.
  unfoldable pub on_event : PageEvent → World W → Option (World W)
  on_event (visibility_changed state) w = on_read state w
  on_event (page_shown state) w = on_read state w
  on_event (page_hidden persisted) w =
      on_page_hide_with_persistence exec rounds (is_persisted persisted) w

unfoldable pub on_pop_state : {F W : Type 0} → ℕ → Scene F W → Option (Bool × Scene F W)
on_pop_state depth = back depth

module _ (dom : Dom) where
  open dom use {Page, has_window, has_document, visibility_state, add, remove}

  abbrev pub Listened : Type 0
  Listened = Result BrowserError (Unit {0}) × Page

  -- What follows a registration: what it undoes if the browser threw, and how it goes on.
  abbrev pub after_add : Option Page → Page → (Page → Page) → (Page → Listened) → Listened
  after_add none page undo go_on = (err listener_failed, undo page)
  after_add (some next) page undo go_on = go_on next

  abbrev pub then_add : Listener → (Page → Page) → (Page → Listened) → Page → Listened
  then_add l undo go_on page = after_add (add l page) page undo go_on

  abbrev pub of : ℕ → EventName → Listener
  of owner event = record { owner = owner; event = event }

  abbrev pub listen_pageshow : ℕ → Page → Listened
  listen_pageshow owner =
      then_add (of owner pageshow)
        (λ p. remove (of owner pagehide) (remove (of owner visibilitychange) p)) (λ p. (ok tt, p))

  abbrev pub listen_pagehide : ℕ → Page → Listened
  listen_pagehide owner =
      then_add (of owner pagehide) (λ p. remove (of owner visibilitychange) p)
        (listen_pageshow owner)

  unfoldable pub listen : ℕ → Page → Listened
  listen owner = then_add (of owner visibilitychange) (λ p. p) (listen_pagehide owner)

  -- The drop of `BrowserLifecycle`.
  unfoldable pub stop_listening : ℕ → Page → Page
  stop_listening owner p =
      remove (of owner pageshow) (remove (of owner pagehide) (remove (of owner visibilitychange) p))

  abbrev pub with_registry :
      {W : Type 0} → Listened → World W → Result BrowserError (World W) × Page
  with_registry (ok _, p) w = (ok w, p)
  with_registry (err e, p) w = (err e, p)

  -- `BrowserLifecycle::new`.
  unfoldable pub attach :
      {W : Type 0} → Exec W → ℕ → ℕ → W → Page → Option (Result BrowserError (World W) × Page)
  unfolding listen
  attach exec rounds owner memory page =
      if has_window page && has_document page
      then (on_read exec rounds (visibility_state page) (new memory) >>= λ w.
          some (with_registry (listen owner page) w))
      else some (err unavailable, page)

  -- `BrowserHistoryBack::new` and its drop.
  unfoldable pub attach_history : ℕ → Page → Listened
  attach_history owner page =
      if has_window page
      then then_add (of owner popstate) (λ p. p) (λ p. (ok tt, p)) page
      else (err unavailable, page)

  unfoldable pub drop_history : ℕ → Page → Page
  drop_history owner = remove (of owner popstate)

  unfoldable pub current_visibility_state : Page → Option Chars
  current_visibility_state page =
      if has_window page && has_document page then visibility_state page else none
