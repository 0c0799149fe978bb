-- ===== src/Back/Told.antt =====
-- crates/essenty-back-handler/src/dispatcher.rs: the listeners are told whether some callback is enabled, by a
-- dispatch and by any sequence of operations.
use essenty.Common.{ℕ, Bool, true, not, ◌≡◌, ◌≤◌, Option, none, some, List, [], ◌∷◌, is_some, subst}
use essenty.Common.Results.{Holds, Holds-bind, Holds-if, Ends, Ends-weaken, Ends-Holds}
use essenty.Common.Ints.{ℤ}
use essenty.Common.Order.{ℕ_ord}
use essenty.Common.Map.{get, contains_key}
use essenty.Back.Event.{
  BackEvent, invoked_event, cancelled_event, started_event, started_with, progressed_event,
  progressed_with,
}
use essenty.Back.Dispatcher.{
  Entry, Callback, Scene, can_handle, winner, new, register_reentrant, set_entry_enabled,
  set_priority, prioritise_found,
}
use essenty.Back.Gestures.{
  or_else, put_active, end_gesture, unregister, dispatch_to, dispatch_if, back, start_with_owner,
  start_gesture, start_fallback, claim, progress_gesture, predictive_start, predictive_start_with,
  predictive_progress, predictive_progress_with, predictive_cancel, predictive_invoke, answer,
}
use essenty.Back.Soundness.{Sound, IsAware}
use essenty.Back.Termination.{After, dispatch_to-Ends}
use essenty.Back.Invariant.{Inv}
use essenty.Back.Telling.{
  Heard, IsSparing, Found, get-AreSparing, notify-Heard, put_entry-Heard, enable_found-Heard,
  unregister_by-Heard, dispatch_to-Relays,
}
use essenty.Back.Runs.{Operation, operate, left, run, run-Inv, run-new-Inv}

module _ {F W : Type 0} (Knows : Bool → W → Type 0) where
  -- The memory knows whether some callback is enabled.
  abbrev pub Told : Scene F W → Type 0
  Told s = Knows (can_handle s) s.memory

  told : (s : Scene F W) → IsAware s → Heard Knows s → Told s
  told s w h = subst (λ b. Knows b s.memory) w h.2

  -- Let `Knows` say of the memory what a listener makes of the value that it is told, and let the
  -- callbacks, also those that callbacks register, leave that so, as the listeners after it do. From a
  -- scene in which the owner of the gesture is registered and the memory knows the aggregate that was
  -- told last, a dispatch of depth two comes to an end, whatever the callbacks queue. It keeps the owner
  -- registered, leaves the gesture in flight or not as it was with its start event, reports whether the id
  -- was registered, and then the memory knows whether some callback is enabled.
  pub dispatch_to-Told :
      (depth id : ℕ) (event : BackEvent F) (s : Scene F W)
      → 2 ≤ depth
      → Sound s
      → Heard Knows s
      → Ends
          (λ r. After s r.1 × IsAware r.1 × (r.0 ≡ contains_key id s.entries) × Told r.1)
          (dispatch_to depth id event true s)
  dispatch_to-Told depth id event s d sound h =
      Ends-weaken
        (λ (r : Bool × Scene F W).
          Heard Knows r.1 × (After s r.1 × IsAware r.1 × (r.0 ≡ contains_key id s.entries)))
        (λ (r : Bool × Scene F W).
          After s r.1 × IsAware r.1 × (r.0 ≡ contains_key id s.entries) × Told r.1)
        _ (λ r k. (k.1.0, k.1.1, k.1.2, told r.1 k.1.1 k.0))
        (Ends-Holds (λ r. Heard Knows r.1)
          (λ r. After s r.1 × IsAware r.1 × (r.0 ≡ contains_key id s.entries)) _
          (dispatch_to-Relays Knows depth id event true s h)
          (dispatch_to-Ends depth id event s d sound))

  dispatch_if-Heard :
      (depth : ℕ) (o : Option ℕ) (event : BackEvent F) (s : Scene F W)
      → Heard Knows s
      → Holds (λ r. Heard Knows r.1) (dispatch_if depth o event s)
  dispatch_if-Heard depth none event s h = h
  dispatch_if-Heard depth (some id) event s h = dispatch_to-Relays Knows depth id event true s h

  answer-Heard :
      (m : Option (Bool × Scene F W))
      → Holds (λ r. Heard Knows r.1) m
      → Holds (λ r. Heard Knows r.1) (answer m)
  answer-Heard none h = tt
  answer-Heard (some r) h = h

  left-Heard :
      {A : Type 0} (m : Option (A × Scene F W))
      → Holds (λ r. Heard Knows r.1) m
      → Holds (Heard Knows) (left m)
  left-Heard none h = tt
  left-Heard (some r) h = h

  register_reentrant-Heard :
      (p : ℤ) (e : Bool) (cb : Callback F W) (s : Scene F W)
      → IsSparing Knows cb
      → Heard Knows s
      → Heard Knows (register_reentrant p e cb s).1
  unfolding register_reentrant
  register_reentrant-Heard p e cb s c h =
      notify-Heard Knows _ (
        put_entry-Heard Knows s.next_id (record { priority = p; enabled = e; callback = cb }) s c h)

  prioritise_found-Heard :
      (id : ℕ) (p : ℤ) (o : Option (Entry F W)) (s : Scene F W)
      → Found Knows o
      → Heard Knows s
      → Heard Knows (prioritise_found id p o s).1
  prioritise_found-Heard id p none s f h = h
  prioritise_found-Heard id p (some entry) s f h =
      put_entry-Heard Knows id (record entry { priority = p }) s f h

  start-Heard :
      (depth : ℕ) (o : Option ℕ) (event : BackEvent F) (s : Scene F W)
      → Heard Knows s
      → Holds (λ r. Heard Knows r.1) (start_with_owner depth o event s)
  start-Heard depth none event s h = h
  start-Heard depth (some id) event s h = dispatch_to-Relays Knows depth id event true _ h

  fallback-Heard :
      (depth : ℕ) (o : Option ℕ) (start : Option (BackEvent F)) (s : Scene F W)
      → Heard Knows s
      → Holds (Heard Knows) (start_fallback depth o start s)
  fallback-Heard depth none start s h = h
  fallback-Heard depth (some id) none s h = h
  fallback-Heard depth (some id) (some start) s h =
      Holds-bind (λ r. Heard Knows r.1) (Heard Knows) _ _
        (dispatch_to-Relays Knows depth id start true s h) (λ r k. k)

  progress-Heard :
      (depth : ℕ) (event : BackEvent F) (s : Scene F W)
      → Heard Knows s
      → Holds (λ r. Heard Knows r.1) (progress_gesture depth event s)
  unfolding progress_gesture claim
  progress-Heard depth event s h =
      Holds-if (λ r. Heard Knows r.1) (not s.gesture_in_flight) _ _ (λ _. h)
        λ _.
          Holds-bind (Heard Knows) (λ r. Heard Knows r.1) _ _
            (Holds-if (Heard Knows) (is_some s.active_gesture) _ _ (λ _. h)
              (λ _.
                fallback-Heard depth (winner s) s.gesture_start_event (put_active (winner s) s) h))
            (λ t k. answer-Heard _ (dispatch_if-Heard depth t.active_gesture event t k))

  ends-Heard :
      (depth : ℕ) (o : Option ℕ) (event : BackEvent F) (s : Scene F W)
      → Heard Knows s
      → Holds (λ r. Heard Knows r.1) (answer (dispatch_if depth o event (end_gesture s)))
  ends-Heard depth o event s h = answer-Heard _ (dispatch_if-Heard depth o event (end_gesture s) h)

  -- The callbacks that are registered leave what the memory knows, and no listener comes or goes.
  abbrev pub IsFair : Operation F W → Type 0
  IsFair (Operation.registers p e cb) = IsSparing Knows cb
  IsFair (Operation.listens l) = ⊥
  IsFair (Operation.unlistens id) = ⊥
  IsFair _ = Unit

  operate-Heard :
      (depth : ℕ) (o : Operation F W) (s : Scene F W)
      → IsFair o
      → Heard Knows s
      → Holds (Heard Knows) (operate depth o s)
  unfolding operate unregister set_entry_enabled set_priority back start_gesture predictive_start
      predictive_start_with predictive_progress predictive_progress_with predictive_cancel
      predictive_invoke
  operate-Heard depth (Operation.registers p e cb) s c h = register_reentrant-Heard p e cb s c h
  operate-Heard depth (Operation.unregisters id) s c h =
      left-Heard _
        (unregister_by-Heard Knows (dispatch_to depth) id s (dispatch_to-Relays Knows depth) h)
  operate-Heard depth (Operation.enables id e) s c h =
      enable_found-Heard Knows id e (get id s.entries) s (get-AreSparing Knows id s.entries h.1) h
  operate-Heard depth (Operation.prioritises id p) s c h =
      prioritise_found-Heard id p (get id s.entries) s (get-AreSparing Knows id s.entries h.1) h
  operate-Heard depth (Operation.listens l) s c h = absurd c
  operate-Heard depth (Operation.unlistens id) s c h = absurd c
  operate-Heard depth Operation.backs s c h = left-Heard _ (
      dispatch_if-Heard depth (or_else s.active_gesture (winner s)) invoked_event (end_gesture s) h)
  operate-Heard depth Operation.starts s c h =
      left-Heard _ (start-Heard depth (winner s) started_event s h)
  operate-Heard depth (Operation.starts_at position) s c h =
      left-Heard _ (start-Heard depth (winner s) (started_with position) s h)
  operate-Heard depth (Operation.progresses f) s c h =
      left-Heard _ (progress-Heard depth (progressed_event f) s h)
  operate-Heard depth (Operation.progresses_at f position) s c h =
      left-Heard _ (progress-Heard depth (progressed_with f position) s h)
  operate-Heard depth Operation.cancels s c h = left-Heard _ (
      Holds-if (λ r. Heard Knows r.1) (not s.gesture_in_flight) _ _ (λ _. h)
        (λ _. ends-Heard depth s.active_gesture cancelled_event s h))
  operate-Heard depth Operation.invokes s c h = left-Heard _ (
      Holds-if (λ r. Heard Knows r.1) (not s.gesture_in_flight) _ _ (λ _. h)
        (λ _. ends-Heard depth (or_else s.active_gesture (winner s)) invoked_event s h))

  abbrev pub AreFair : List (Operation F W) → Type 0
  AreFair [] = Unit
  AreFair (o ∷ os) = IsFair o × AreFair os

  run-Heard :
      (depth : ℕ) (os : List (Operation F W)) (s : Scene F W)
      → AreFair os
      → Heard Knows s
      → Holds (Heard Knows) (run depth os s)
  unfolding run
  run-Heard depth [] s c h = h
  run-Heard depth (o ∷ os) s c h =
      Holds-bind (Heard Knows) (Heard Knows) _ _ (operate-Heard depth o s c.0 h)
        (λ t k. run-Heard depth os t c.1 k)

  -- Every sequence of operations on a new dispatcher comes to an end at depth two or more, whatever its
  -- callbacks queue, and leaves the invariant: the entries in order, the owner of a gesture registered
  -- and the gesture in flight, a start event exactly while a gesture is in flight, and as the aggregate
  -- that was told last whether some callback is enabled. Let `Knows` say of the memory what a listener
  -- makes of the value that it is told, and let the callbacks, also those that callbacks register, leave
  -- that so, as the listeners after it do. Then, from any scene in the invariant whose memory knows the
  -- aggregate that was told last, a sequence in which no listener comes or goes keeps the invariant, and
  -- at its end the memory knows whether some callback is enabled.
  pub run-Told :
      (depth : ℕ) (os : List (Operation F W)) (m : W) (s : Scene F W) (later : List (Operation F W))
      → 2 ≤ depth
      → Inv s
      → Heard Knows s
      → AreFair later
      → Ends Inv (run depth os (new m)) × Ends (λ t. Inv t × Told t) (run depth later s)
  run-Told depth os m s later d v h c = (
    run-new-Inv depth os m d,
    Ends-weaken (λ t. Heard Knows t × Inv t) (λ t. Inv t × Told t) _
        (λ t k. (k.1, told t k.1.aware k.0))
        (Ends-Holds (Heard Knows) Inv _ (run-Heard depth later s c h) (run-Inv depth d later s v)),
  )
