-- ===== src/Runtime/Returns.antt =====
-- crates/essenty/src/runtime.rs: a dispatch returns, and what it leaves.
use essenty.Common.{
  ℕ, zero, suc, ◌<◌, false, ◌≡◌, subst, sym, List, arith, Bool-cases, inl, inr, ◌&&◌, not,
}
use essenty.Common.Results.{Result, ok, err, Ends, Ends-bind, Ends-if, Ends-Holds}
use essenty.Lifecycle.State.{LifecycleState, is_destroyed, eq_state, initialized}
use essenty.Lifecycle.Registry.{World, Answer, move_to}
use essenty.Lifecycle.Subscribe.{exec}
use essenty.Lifecycle.Visit.{Handler, plain}
use essenty.Lifecycle.Delivery.{move_to-plain}
use essenty.Back.Event.{started_event, progressed_event}
use essenty.Back.Dispatcher.{Scene, winner}
use essenty.Back.Gestures.{start_gesture, predictive_start, predictive_progress}
use essenty.Back.Gestures
use essenty.Back.Invariant.{
  Inv, winner-Owns, start-Inv, progress-Inv, cancel-Inv, invoke-Inv, back-Inv,
}
use essenty.Common.Map.{Map}
use essenty.StateKeeper.Keeper.{Text, Bytes, StateKeeperError, save}
use essenty.Runtime.Dispatch.{
  PlatformEvent, Runtime, scene, after_move, after_back, after_gesture, after_save, dispatch,
}
use essenty.Runtime.Reports.{Reported, dispatch-Reported}

module _ {W : Type 0} where
  route_moves :
      (fuel : ℕ) (hs : List (ℕ × Handler W)) (target : LifecycleState) (w : World W)
      → 3 < suc fuel
      → w.observers ≡ plain hs
      → is_destroyed w.state ≡ false
      → Ends (λ p. Unit) (move_to (exec (suc fuel)) (suc fuel) target w)
  route_moves fuel hs target w f e d =
      subst (Ends (λ p. Unit)) (sym (move_to-plain fuel hs (suc fuel) target w e d f)) (
        Ends-if (λ p. Unit) (eq_state target initialized && not (eq_state w.state initialized)) _ _
          (λ _. tt) (λ _. tt))

  move_to-returns :
      (fuel : ℕ) (hs : List (ℕ × Handler W)) (target : LifecycleState) (w : World W)
      → 3 < fuel
      → w.observers ≡ plain hs
      → Ends (λ p. Unit) (move_to (exec fuel) fuel target w)
  unfolding move_to
  move_to-returns zero hs target w f e = absurd (omega arith)
  move_to-returns (suc fuel) hs target w f e = elim (Bool-cases (is_destroyed w.state)) [
    | inl d ↦ rw d tt
    | inr d ↦ route_moves fuel hs target w f e d
  ]

module _ {F W V : Type 0} where
  abbrev Sane : {A : Type 0} → A × Runtime F W V → Type 0
  Sane o = Inv (scene o.1)

  Inv-memory :
      (r : Runtime F W V) (w : World W) → Inv (scene r) → Inv (scene (record r { lifecycle = w }))
  Inv-memory r w h = record {
    sorted = h.sorted;
    owns = h.owns;
    in_flight = h.in_flight;
    started = h.started;
    aware = h.aware;
  }

  moved-Sane :
      (target : LifecycleState) (r : Runtime F W V) (p : Answer × World W)
      → Inv (scene r)
      → Ends Sane (after_move target r p)
  moved-Sane target r (ok done, w) h = Inv-memory r w h
  moved-Sane target r (err e, w) h = Inv-memory r w h

  gestured-Sane :
      (r : Runtime F W V) (p : Gestures.Answer × Scene F W)
      → Inv p.1
      → Ends Sane (after_gesture r p)
  gestured-Sane r (ok handled, s) h = h
  gestured-Sane r (err e, s) h = h

  saved-Sane :
      (r : Runtime F W V) (saved : Result StateKeeperError (Map Text Bytes))
      → Inv (scene r)
      → Ends Sane (after_save r saved)
  saved-Sane r (ok m) h = h
  saved-Sane r (err e) h = h

  dispatch-Sane :
      (fuel : ℕ) (hs : List (ℕ × Handler W)) (event : PlatformEvent F) (r : Runtime F W V)
      → 3 < fuel
      → r.lifecycle.observers ≡ plain hs
      → Inv (scene r)
      → Ends Sane (dispatch fuel event r)
  unfolding dispatch predictive_start predictive_progress start_gesture
  dispatch-Sane fuel hs (PlatformEvent.lifecycle target) r f e h =
      Ends-bind (λ p. Unit) Sane _ (after_move target r)
        (move_to-returns fuel hs target r.lifecycle f e) (λ p k. moved-Sane target r p h)
  dispatch-Sane fuel hs PlatformEvent.back_pressed r f e h =
      Ends-bind (λ p. Inv p.1) Sane _ (after_back r) (back-Inv fuel (scene r) (omega arith) h)
        (λ p k. k)
  dispatch-Sane fuel hs PlatformEvent.predictive_start r f e h =
      Ends-bind (λ p. Inv p.1) Sane _ (after_back r)
        (start-Inv fuel (winner (scene r)) started_event (scene r) (omega arith)
          (winner-Owns (scene r) h.sorted) h)
        (λ p k. k)
  dispatch-Sane fuel hs (PlatformEvent.predictive_progress progress) r f e h =
      Ends-bind (λ p. Inv p.1) Sane _ (after_gesture r)
        (progress-Inv fuel (progressed_event progress) (scene r) (omega arith) h) (gestured-Sane r)
  dispatch-Sane fuel hs PlatformEvent.predictive_cancel r f e h =
      Ends-bind (λ p. Inv p.1) Sane _ (after_gesture r) (cancel-Inv fuel (scene r) (omega arith) h)
        (gestured-Sane r)
  dispatch-Sane fuel hs PlatformEvent.predictive_commit r f e h =
      Ends-bind (λ p. Inv p.1) Sane _ (after_gesture r) (invoke-Inv fuel (scene r) (omega arith) h)
        (gestured-Sane r)
  dispatch-Sane fuel hs PlatformEvent.save_state r f e h =
      saved-Sane r (save r.state_keeper r.lifecycle.memory) h

  -- Where the observers of the registry only use their own memory and the dispatcher is in its
  -- invariant, a dispatch with fuel four or more returns and keeps that invariant. On success it
  -- reports whether the dispatcher that it leaves can handle back; the answer of the dispatcher to a back
  -- event, and none for others; and what the state keeper saves for `SaveState`, and none for others. An
  -- error is that of the registry, of the dispatcher on a gesture event, or of the state keeper. The
  -- retained scope ends exactly when the event is a move to `Destroyed`, and otherwise the instance keeper stays as it was. A failure leaves the
  -- instance keeper as it was, and no event changes the state keeper.
  pub dispatch-Ends :
      (fuel : ℕ) (hs : List (ℕ × Handler W)) (event : PlatformEvent F) (r : Runtime F W V)
      → 3 < fuel
      → r.lifecycle.observers ≡ plain hs
      → Inv (scene r)
      → Ends (λ o. Reported fuel event r o × Inv (scene o.1)) (dispatch fuel event r)
  dispatch-Ends fuel hs event r f e h =
      Ends-Holds (Reported fuel event r) Sane _ (dispatch-Reported fuel event r)
        (dispatch-Sane fuel hs event r f e h)
