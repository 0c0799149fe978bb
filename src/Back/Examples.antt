-- ===== src/Back/Examples.antt =====
-- crates/essenty-back-handler/src/dispatcher.rs on concrete dispatchers.
use essenty.Common.{
  ℕ, ◌≡◌, refl, true, false, ◌||◌, List, [], ◌∷◌, ◌++◌, Option, none, some, is_some, arith, Bool,
  inl,
}
use essenty.Common.Results.{Ends}
use essenty.Common.Ints.{pos, negsuc}
use essenty.Common.Order.{ℕ_ord}
use essenty.Common.Map.{contains_key, get, insert, remove}
use essenty.Back.Event.{invoked_event}
use essenty.Back.Dispatcher.{
  Callback, EnabledListener, add_enabled_changed_listener, Reaction, return, Scene, new, winner,
  can_handle, tell, notify_enabled_changed, register_reentrant, collect, call_back,
}
use essenty.Back.Gestures.{
  run_commands, run_command, unregister_by, release, dispatch_to, unregister, back, start_gesture,
  predictive_start,
}
use essenty.Back.Soundness.{Sound, IsAware}
use essenty.Back.Telling.{Heard}
use essenty.Back.Told.{run-Told, dispatch_to-Told}
use essenty.Back.Termination.{After}
use essenty.Back.Winner.{IsWinner, winner-IsWinner}
use essenty.Back.Invariant.{Inv, unregister-Ends}
use essenty.Back.Outcomes.{Ended, back-Ends}
use essenty.Back.Runs.{Operation, operate, run, run-new-Inv}

-- A callback that writes its name down and unregisters itself.
abbrev leaves : ℕ → Callback ℕ (List ℕ)
leaves name event m = Reaction.unregister name (return (m ++ name ∷ []))

abbrev stays : ℕ → Callback ℕ (List ℕ)
stays name event m = return (m ++ name ∷ [])

-- Two callbacks, the second of the higher priority, and a gesture that it owns.
abbrev steps : List (Operation ℕ (List ℕ))
steps =
    Operation.registers (pos 0) true (stays 0)
    ∷ Operation.registers (pos 5) true (leaves 1)
    ∷ Operation.enables 1 false
    ∷ Operation.enables 1 true
    ∷ Operation.prioritises 0 (negsuc 3)
    ∷ Operation.starts
    ∷ []

abbrev or_new : Option (Scene ℕ (List ℕ)) → Scene ℕ (List ℕ)
or_new none = new []
or_new (some s) = s

abbrev registered : List (Operation ℕ (List ℕ))
registered =
    Operation.registers (pos 0) true (stays 0)
    ∷ Operation.registers (pos 5) true (stays 1)
    ∷ Operation.starts
    ∷ []

abbrev ready : Scene ℕ (List ℕ)
ready = or_new (run 2 registered (new []))

ready-Inv : Inv ready
unfolding run operate register_reentrant notify_enabled_changed predictive_start start_gesture
    winner new dispatch_to call_back collect run_commands tell insert get
ready-Inv = run-new-Inv 2 registered [] (omega arith)

-- The callback of the higher priority owns the gesture and heard of it.
ready_owner : (ready.active_gesture ≡ some 1) × (ready.memory ≡ 1 ∷ [])
unfolding run operate register_reentrant notify_enabled_changed predictive_start start_gesture
    winner new dispatch_to call_back collect run_commands tell insert get
ready_owner = (refl, refl)

-- A listener that keeps the flag in a cell of the memory, beside the names that callbacks write down.
abbrev hears : EnabledListener (Bool × List ℕ)
hears b m = (b, m.1)

abbrev Recorded : Bool → Bool × List ℕ → Type 0
Recorded b m = m.0 ≡ b

abbrev notes : ℕ → Callback ℕ (Bool × List ℕ)
notes name event m = Reaction.unregister name (return (m.0, m.1 ++ name ∷ []))

abbrev listening : Scene ℕ (Bool × List ℕ)
listening = (add_enabled_changed_listener hears (new (false, []))).1

listening-Heard : Heard Recorded listening
unfolding add_enabled_changed_listener new insert
listening-Heard = (inl (λ b m. refl, tt), tt, refl)

listening-Inv : Inv listening
unfolding add_enabled_changed_listener new insert
listening-Inv = record {
  sorted = tt;
  owns = tt;
  in_flight = λ e. absurd (cc);
  started = refl;
  aware = refl;
}

-- The callback unregisters itself while it owns a gesture.
abbrev goes : List (Operation ℕ (Bool × List ℕ))
goes = Operation.registers (pos 0) true (notes 0) ∷ Operation.starts ∷ []

abbrev memory_of : Option (Scene ℕ (Bool × List ℕ)) → Bool × List ℕ
memory_of none = (true, [])
memory_of (some s) = s.memory

-- The listener has heard that no callback is left.
heard_none : memory_of (run 2 goes listening) ≡ (false, 0 ∷ 0 ∷ [])
unfolding run operate register_reentrant notify_enabled_changed predictive_start start_gesture
    winner new dispatch_to call_back collect run_commands run_command unregister_by release tell
    insert get remove add_enabled_changed_listener
heard_none = refl

run-Told_example :
    Ends Inv (run 2 goes (new (false, [])))
    × Ends (λ t. Inv t × ((t.memory).0 ≡ can_handle t)) (run 2 goes listening)
run-Told_example =
    run-Told Recorded 2 goes (false, []) listening goes (omega arith) listening-Inv listening-Heard
      (λ c event m k. k, (tt, tt))

winner-IsWinner_example : IsWinner ready (winner ready)
winner-IsWinner_example = winner-IsWinner ready ready-Inv.sorted

abbrev owned : Scene ℕ (Bool × List ℕ)
owned = (register_reentrant (pos 0) true (notes 0) listening).1

owned-Heard : Heard Recorded owned
unfolding register_reentrant notify_enabled_changed tell insert add_enabled_changed_listener new
owned-Heard = (inl (λ b m. refl, tt), (λ c event m k. k, tt), refl)

owned-Sound : Sound owned
unfolding register_reentrant notify_enabled_changed tell insert add_enabled_changed_listener new
owned-Sound = (tt, tt)

dispatch_to-Told_example :
    Ends
      (λ r.
        After owned r.1
        × IsAware r.1
        × (r.0 ≡ contains_key 0 owned.entries)
        × ((r.1.memory).0 ≡ can_handle r.1))
      (dispatch_to 2 0 invoked_event true owned)
dispatch_to-Told_example =
    dispatch_to-Told Recorded 2 0 invoked_event owned (omega arith) owned-Sound owned-Heard

unregister-Ends_example :
    Ends
      (λ r.
        Inv r.1
        × (r.0 ≡ contains_key 1 ready.entries)
        × (contains_key 1 r.1.entries ≡ false)
        × (r.1.gesture_in_flight ≡ ready.gesture_in_flight))
      (unregister 2 1 ready)
unregister-Ends_example = unregister-Ends 2 1 ready (omega arith) ready-Inv

back-Ends_example : Ends (Ended (is_some ready.active_gesture || can_handle ready)) (back 2 ready)
back-Ends_example = back-Ends 2 ready (omega arith) ready-Inv
