-- ===== src/Adapters/Polling.antt =====
-- crates/essenty-android/src/native_activity.rs: where the events of an activity lead, and that its input
-- and that of the back handler treat the back key alike.
use essenty.Common.{
  ℕ, suc, ◌≤◌, ◌<◌, Bool, true, false, ◌≡◌, refl, ap, ◌∙◌, Option, none, some, List, [], ◌∷◌, map,
  arith, if◌then◌else◌, length, ltb, not, ◌&&◌, reverse,
}
use essenty.Common.Results.{◌>>=◌, Ends, Ends-bind}
use essenty.Lifecycle.State.{
  LifecycleState, created, started, resumed, destroyed, is_destroyed, rank,
}
use essenty.Lifecycle.Registry.{World, new}
use essenty.Lifecycle.Subscribe.{exec}
use essenty.Lifecycle.Visit.{tell, visit, enter, visit-state}
use essenty.Back.Dispatcher.{Scene, can_handle}
use essenty.Back.Gestures.{back}
use essenty.Back.Invariant.{Inv, back-Inv}
use essenty.Android.BackHandler.{
  LegacyInput, back_down, back_up, back_other, other_input, AndroidBackStrategy, native_key,
  handle_legacy_back, for_api_level, is_native_key, pressed, invoked_callback, predictive_callback,
}
use essenty.Adapters.Driven.{
  Fits, begun, begun-eq, new-Fits, ask-follows, settled, is_initialized, path, last-path,
  visit-Fits,
}
use essenty.Adapters.Activity.{
  PollEvent, main, wake, timeout, start, resume, pause, stop, destroy, target, asked, new_activity,
  on_poll, poll_events, InputStatus, handled, unless_handled, on_input, is_modern,
  handle_input_events,
}

-- The memory of the application after its callback saw every event once, in order.
abbrev pub seen : {W : Type 0} → (PollEvent → W → W) → List PollEvent → W → W
seen f [] m = m
seen f (e ∷ es) m = seen f es (f e m)

-- What an event of the platform asks of the lifecycle.
abbrev pub asked_by : PollEvent → Option LifecycleState
asked_by wake = none
asked_by timeout = none
asked_by (main event) = elim event [
  | start ↦ some started
  | resume ↦ some resumed
  | pause ↦ some started
  | stop ↦ some created
  | destroy ↦ some destroyed
  | _ ↦ none
]

target-asked_by : (e : PollEvent) → target e ≡ asked_by e
target-asked_by wake = refl
target-asked_by timeout = refl
target-asked_by (main event) = ground arith

targets-asked_by : (es : List PollEvent) → map target es ≡ map asked_by es
targets-asked_by [] = refl
targets-asked_by (e ∷ es) = rw (target-asked_by e, targets-asked_by es)

target-asks : (e : PollEvent) → is_initialized (target e) ≡ false
target-asks e = ground arith

module _ {W : Type 0} where
  untold : (b : Bool) (s : LifecycleState) (m : W) → tell (if b then [] else reverse []) s m ≡ m
  untold true s m = refl
  untold false s m = refl

  visit-memory : (ss : List LifecycleState) (w : World W) → (visit [] ss w).memory ≡ w.memory
  visit-memory [] w = refl
  visit-memory (s ∷ ss) w =
      visit-memory ss (enter [] s w)
      ∙ untold (ltb (rank w.state) (rank s) && not (is_destroyed s)) s w.memory

  abbrev pub callback_of : (PollEvent → W → W) → PollEvent → World W → Option (World W)
  callback_of f e w = some (record w { memory = f e w.memory })

  module _ (fuel rounds : ℕ) (r : 3 < rounds) where
    asked-follows :
        (o : Option LifecycleState) (w : World W)
        → is_initialized o ≡ false
        → Fits [] w
        → asked (exec (suc fuel)) rounds o w ≡ some (visit [] (path w.state o) w)
    asked-follows none w i f = refl
    asked-follows (some t) w i f = ask-follows [] fuel rounds r t w i f

    poll-settled :
        (f : PollEvent → W → W) (es : List PollEvent) (w : World W)
        → Fits [] w
        → (w' : World W) × (poll_events (exec (suc fuel)) rounds (callback_of f) es w ≡ some w')
          × (w'.state ≡ settled w.state (map target es))
          × (w'.memory ≡ seen f es w.memory)
    unfolding poll_events on_poll
    poll-settled f [] w g = (w, refl, refl, refl)
    poll-settled f (e ∷ es) w g =
        let o = target e in
        let v = visit [] (path w.state o) w in
        let moved : World W = record v { memory = f e v.memory } in
        let t = poll-settled f es moved (visit-Fits [] o w g) in
        (
          t.0,
          ap
                (λ m.
                  m >>= callback_of f e >>= poll_events (exec (suc fuel)) rounds (callback_of f) es)
                (asked-follows o w (target-asks e) g)
              ∙ t.1,
          t.2
              ∙ ap (λ s. settled s (map target es))
                  (visit-state [] (path w.state o) w ∙ last-path w.state o (target-asks e)),
          t.3 ∙ ap (λ m. seen f es (f e m)) (visit-memory (path w.state o) w),
        )

    -- Before observers subscribe, a new activity is in Created, and the events that the application
    -- polls, whose callback only uses the memory of the application, move it to the last state that
    -- one of them asked for, but to Destroyed for good: a start or a pause asks for Started, a resume for
    -- Resumed, a stop for Created, a destroy for Destroyed, and nothing else asks. The callback sees every
    -- event, in order.
    pub new_activity-poll :
        (f : PollEvent → W → W) (es : List PollEvent) (memory : W)
        → (w w' : World W) × (new_activity (exec (suc fuel)) rounds memory ≡ some w)
          × (poll_events (exec (suc fuel)) rounds (callback_of f) es w ≡ some w')
          × (w.state ≡ created)
          × (w'.state ≡ settled created (map asked_by es))
          × (w'.memory ≡ seen f es memory)
    unfolding new_activity new
    new_activity-poll f es memory =
        let w = begun (some created) memory in
        let t = poll-settled f es w (visit-Fits [] (some created) (new memory) (new-Fits memory)) in
        (
          w,
          t.0,
          asked-follows (some created) (new memory) refl (new-Fits memory)
              ∙ begun-eq (some created) memory,
          t.1,
          refl,
          t.2 ∙ ap (settled created) (targets-asked_by es),
          t.3 ∙ ap (seen f es) (visit-memory (created ∷ []) (new memory)),
        )

modern-strategy : (api : ℕ) → is_modern api ≡ not (is_native_key (for_api_level api))
unfolding for_api_level
modern-strategy api = ground arith

module _ {F W : Type 0} (depth : ℕ) (fallback : LegacyInput → InputStatus) where
  -- What the caller of `handle_legacy_back` gets, where its fallback stands for `none`.
  abbrev pub status_of :
      LegacyInput → Option (Option Bool × Scene F W) → Option (InputStatus × Scene F W)
  status_of event r =
      r >>= λ (answer, s). some (elim answer [ none ↦ fallback event | some b ↦ handled ], s)

  legacy_up :
      (r : Option (Bool × Scene F W))
      → (r >>= λ (b, s'). some (unless_handled fallback back_up b, s'))
        ≡ status_of back_up (pressed depth r)
  legacy_up none = refl
  legacy_up (some (true, s)) = refl
  legacy_up (some (false, s)) = refl

  legacy_down :
      (b : Bool) (s : Scene F W)
      → some (unless_handled fallback back_down b, s)
        ≡ status_of back_down (some (if b then some true else none, s))
  legacy_down true s = refl
  legacy_down false s = refl

  same_input :
      (strategy : AndroidBackStrategy) (event : LegacyInput) (s : Scene F W)
      → on_input depth fallback (not (is_native_key strategy)) event s
        ≡ status_of event (handle_legacy_back depth strategy event s)
  unfolding on_input handle_legacy_back
  same_input native_key back_down s = legacy_down (can_handle s) s
  same_input native_key back_up s = legacy_up (back depth s)
  same_input native_key back_other s = refl
  same_input native_key other_input s = refl
  same_input invoked_callback back_down s = refl
  same_input invoked_callback back_up s = refl
  same_input invoked_callback back_other s = refl
  same_input invoked_callback other_input s = refl
  same_input predictive_callback back_down s = refl
  same_input predictive_callback back_up s = refl
  same_input predictive_callback back_other s = refl
  same_input predictive_callback other_input s = refl

  -- On every level the input loop of an activity gives an event the same status, and leaves the
  -- dispatcher the same, as the back handler that uses the strategy of that level.
  pub on_input-legacy :
      (api : ℕ) (event : LegacyInput) (s : Scene F W)
      → on_input depth fallback (is_modern api) event s
        ≡ status_of event (handle_legacy_back depth (for_api_level api) event s)
  on_input-legacy api event s =
      ap (λ b. on_input depth fallback b event s) (modern-strategy api)
      ∙ same_input (for_api_level api) event s

  on_input-Inv :
      (modern : Bool) (event : LegacyInput) (s : Scene F W)
      → 2 ≤ depth
      → Inv s
      → Ends (λ r. Inv r.1) (on_input depth fallback modern event s)
  unfolding on_input
  on_input-Inv false back_down s d h = h
  on_input-Inv false back_up s d h =
      Ends-bind (λ r. Inv r.1) (λ r. Inv r.1) (back depth s) _ (back-Inv depth s d h) (λ r k. k)
  on_input-Inv false back_other s d h = h
  on_input-Inv false other_input s d h = h
  on_input-Inv true back_down s d h = h
  on_input-Inv true back_up s d h = h
  on_input-Inv true back_other s d h = h
  on_input-Inv true other_input s d h = h

  -- The input loop comes to an end, gives each event one status, and keeps the dispatcher consistent.
  pub handle_input_events-Ends :
      (api : ℕ) (events : List LegacyInput) (s : Scene F W)
      → 2 ≤ depth
      → Inv s
      → Ends
          (λ r. (length r.0 ≡ length events) × Inv r.1)
          (handle_input_events depth fallback api events s)
  unfolding handle_input_events
  handle_input_events-Ends api [] s d h = (refl, h)
  handle_input_events-Ends api (event ∷ events) s d h =
      Ends-bind (λ r. Inv r.1) (λ r. (length r.0 ≡ suc (length events)) × Inv r.1) _ _
        (on_input-Inv (is_modern api) event s d h)
        (λ r k.
          Ends-bind (λ t. (length t.0 ≡ length events) × Inv t.1)
            (λ t. (length t.0 ≡ suc (length events)) × Inv t.1) _ _
            (handle_input_events-Ends api events r.1 d k) (λ t q. (ap suc q.0, q.1)))
