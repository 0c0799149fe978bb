-- ===== src/Runtime/Examples.antt =====
-- crates/essenty/src/runtime.rs on a concrete runtime.
use essenty.Common.{ℕ, ◌≡◌, refl, List, [], ◌∷◌, arith}
use essenty.Common.Results.{Ends}
use essenty.Lifecycle.State.{destroyed}
use essenty.Lifecycle.Registry
use essenty.Back.Dispatcher
use essenty.Back.Invariant.{Inv}
use essenty.Runtime.Dispatch.{PlatformEvent, Runtime, scene, with_restored, dispatch}
use essenty.Runtime.Reports.{Reported}
use essenty.Runtime.Returns.{dispatch-Ends}

abbrev fresh : Runtime ℕ (List ℕ) ℕ
fresh = with_restored ((97 ∷ [], 1 ∷ []) ∷ []) []

fresh-Inv : Inv (scene fresh)
unfolding with_restored Dispatcher.new
fresh-Inv = record {
  sorted = tt;
  owns = tt;
  in_flight = λ e. absurd (cc);
  started = refl;
  aware = refl;
}

fresh_observers : fresh.lifecycle.observers ≡ []
unfolding with_restored Registry.new
fresh_observers = refl

dispatch-Ends_example :
    Ends
      (λ o. Reported 4 (PlatformEvent.lifecycle destroyed) fresh o × Inv (scene o.1))
      (dispatch 4 (PlatformEvent.lifecycle destroyed) fresh)
dispatch-Ends_example =
    dispatch-Ends 4 [] (PlatformEvent.lifecycle destroyed) fresh (omega arith) fresh_observers
      fresh-Inv
