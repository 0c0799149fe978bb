-- ===== src/Web/PageExamples.antt =====
-- crates/essenty-web/src/wasm on a page that refuses no listener.
use essenty.Common.{
  ℕ, Bool, true, false, ◌&&◌, ◌||◌, not, Option, none, some, List, [], ◌∷◌, ◌≡◌, refl, sym, ap,
  arith,
}
use essenty.Common.Text.{codes}
use essenty.Lifecycle.Registry.{World}
use essenty.Lifecycle.Subscribe.{exec}
use essenty.Adapters.Hosts.{other}
use essenty.Web.Page.{
  Dom, Listener, same_listener, PageEvent, visibility_changed, page_hidden, page_shown, attach,
  parse, BrowserError,
}
use essenty.Common.Results.{Result}
use essenty.Web.Attaching.{IsFresh}
use essenty.Web.Visits.{Attaches, attach-Attaches}

-- A page by the test for its listeners.
abbrev Listeners : Type 0
Listeners = Listener → Bool

abbrev empty : Listeners
empty k = false

abbrev add_to : Listener → Listeners → Listeners
add_to l p k = same_listener k l || p k

abbrev remove_from : Listener → Listeners → Listeners
remove_from l p k = not (same_listener k l) && p k

added :
    (k l : Listener) (p q : Listeners)
    → some (add_to l p) ≡ some q
    → q k ≡ (same_listener k l || p k)
added k l p q e = ap (λ o. listens_in k o) (sym e)
  where
    listens_in : Listener → Option Listeners → Bool
    listens_in k none = false
    listens_in k (some p) = p k

abbrev window : Dom
window = record {
  Page = Listeners;
  has_window = λ p. true;
  has_document = λ p. true;
  visibility_state = λ p. some (codes "hidden");
  listening = λ k p. p k;
  add = λ l p. some (add_to l p);
  remove = remove_from;
  listening-add = λ k l p q e. added k l p q e;
  listening-remove = λ k l p. refl;
}

no_listeners : IsFresh window 0 empty
no_listeners event = refl

abbrev events : List PageEvent
events =
    visibility_changed (some (codes "visible")) ∷ page_hidden (some true) ∷ page_shown none ∷ []

attach-Attaches_example :
    (t : Result BrowserError (World ℕ) × Listeners) × (attach window (exec 1) 4 0 7 empty ≡ some t)
    × Attaches window 0 4 (omega arith) 0 7 empty no_listeners events t
attach-Attaches_example = attach-Attaches window 0 4 (omega arith) 0 7 empty no_listeners events

-- A text that is no visibility counts as hidden.
parses : parse (codes "prerender") ≡ other
unfolding parse
parses = refl
