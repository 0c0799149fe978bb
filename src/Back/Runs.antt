-- ===== src/Back/Runs.antt =====
-- crates/essenty-back-handler/src/dispatcher.rs: sequences of public operations on a dispatcher.
use essenty.Common.{ℕ, Bool, refl, ◌≤◌, Option, none, some, List, [], ◌∷◌, arith}
use essenty.Common.Results.{◌>>=◌, Ends, Ends-bind, Ends-weaken}
use essenty.Common.Ints.{ℤ}
use essenty.Common.Order.{ℕ_ord}
use essenty.Common.Map.{get}
use essenty.Back.Event.{
  GesturePosition, started_event, started_with, progressed_event, progressed_with,
}
use essenty.Back.Dispatcher.{
  Scene, Callback, EnabledListener, winner, new, register_reentrant, set_entry_enabled,
  set_priority, add_enabled_changed_listener, remove_enabled_changed_listener,
}
use essenty.Back.Gestures.{
  back, start_gesture, predictive_start, predictive_start_with, predictive_progress,
  predictive_progress_with, predictive_cancel, predictive_invoke, unregister,
}
use essenty.Back.Invariant.{
  Inv, winner-Owns, register_reentrant-Inv, unregister-Ends, enable_found-Inv, prioritise_found-Inv,
  start-Inv, progress-Inv, cancel-Inv, invoke-Inv, back-Inv,
}

pub data Operation (F W : Type 0) : Type 0 where
  registers : ℤ → Bool → Callback F W → Operation F W
  unregisters : ℕ → Operation F W
  enables : ℕ → Bool → Operation F W
  prioritises : ℕ → ℤ → Operation F W
  listens : EnabledListener W → Operation F W
  unlistens : ℕ → Operation F W
  backs starts cancels invokes : Operation F W
  starts_at : GesturePosition F → Operation F W
  progresses : F → Operation F W
  progresses_at : F → GesturePosition F → Operation F W

abbrev pub left : {W A : Type 0} → Option (A × W) → Option W
left r = r >>= λ p. some p.1

module _ {F W : Type 0} (depth : ℕ) where
  -- One operation, for the scene that it leaves.
  unfoldable pub operate : Operation F W → Scene F W → Option (Scene F W)
  operate (Operation.registers p e cb) s = some (register_reentrant p e cb s).1
  operate (Operation.unregisters id) s = left (unregister depth id s)
  operate (Operation.enables id e) s = some (set_entry_enabled id e s).1
  operate (Operation.prioritises id p) s = some (set_priority id p s).1
  operate (Operation.listens l) s = some (add_enabled_changed_listener l s).1
  operate (Operation.unlistens id) s = some (remove_enabled_changed_listener id s).1
  operate Operation.backs s = left (back depth s)
  operate Operation.starts s = left (predictive_start depth s)
  operate (Operation.starts_at position) s = left (predictive_start_with depth position s)
  operate (Operation.progresses f) s = left (predictive_progress depth f s)
  operate (Operation.progresses_at f position) s =
      left (predictive_progress_with depth f position s)
  operate Operation.cancels s = left (predictive_cancel depth s)
  operate Operation.invokes s = left (predictive_invoke depth s)

  unfoldable pub run : List (Operation F W) → Scene F W → Option (Scene F W)
  run [] s = some s
  run (o ∷ os) s = operate o s >>= run os

left-Inv : {F W A : Type 0} (m : Option (A × Scene F W)) → Ends (λ r. Inv r.1) m → Ends Inv (left m)
left-Inv none h = h
left-Inv (some r) h = h

module _ {F W : Type 0} (depth : ℕ) (d : 2 ≤ depth) where
  operate-Inv : (o : Operation F W) (s : Scene F W) → Inv s → Ends Inv (operate depth o s)
  unfolding operate set_entry_enabled set_priority add_enabled_changed_listener
      remove_enabled_changed_listener start_gesture predictive_start predictive_start_with
      predictive_progress predictive_progress_with
  operate-Inv (Operation.registers p e cb) s h = register_reentrant-Inv p e cb s h
  operate-Inv (Operation.unregisters id) s h =
      left-Inv _ (Ends-weaken _ (λ r. Inv r.1) _ (λ r k. k.0) (unregister-Ends depth id s d h))
  operate-Inv (Operation.enables id e) s h = enable_found-Inv id e (get id s.entries) s h
  operate-Inv (Operation.prioritises id p) s h =
      prioritise_found-Inv id p (get id s.entries) s refl h
  operate-Inv (Operation.listens l) s h = ground (arith, h)
  operate-Inv (Operation.unlistens id) s h = ground (arith, h)
  operate-Inv Operation.backs s h = left-Inv _ (back-Inv depth s d h)
  operate-Inv Operation.starts s h =
      left-Inv _ (start-Inv depth (winner s) started_event s d (winner-Owns s h.sorted) h)
  operate-Inv (Operation.starts_at position) s h =
      left-Inv _ (start-Inv depth (winner s) (started_with position) s d (winner-Owns s h.sorted) h)
  operate-Inv (Operation.progresses f) s h =
      left-Inv _ (progress-Inv depth (progressed_event f) s d h)
  operate-Inv (Operation.progresses_at f position) s h =
      left-Inv _ (progress-Inv depth (progressed_with f position) s d h)
  operate-Inv Operation.cancels s h = left-Inv _ (cancel-Inv depth s d h)
  operate-Inv Operation.invokes s h = left-Inv _ (invoke-Inv depth s d h)

  pub run-Inv : (os : List (Operation F W)) (s : Scene F W) → Inv s → Ends Inv (run depth os s)
  unfolding run
  run-Inv [] s h = h
  run-Inv (o ∷ os) s h = Ends-bind Inv Inv _ _ (operate-Inv o s h) (run-Inv os)

pub new-Inv : {F W : Type 0} (m : W) → Inv (new {F = F} m)
unfolding new
new-Inv m = record {
  sorted = tt;
  owns = tt;
  in_flight = λ e. absurd (cc);
  started = refl;
  aware = refl;
}

-- Every sequence of operations on a new dispatcher comes to an end at depth two or more, whatever its
-- callbacks queue, and leaves the invariant: the entries in order, the owner of a gesture registered
-- and the gesture in flight, a start event exactly while a gesture is in flight, and the flag
-- for the aggregate equal to whether some callback is enabled.
pub run-new-Inv :
    {F W : Type 0} (depth : ℕ) (os : List (Operation F W)) (m : W)
    → 2 ≤ depth
    → Ends Inv (run depth os (new m))
run-new-Inv depth os m d = run-Inv depth d os (new m) (new-Inv m)
