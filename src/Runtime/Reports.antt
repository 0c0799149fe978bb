-- ===== src/Runtime/Reports.antt =====
-- crates/essenty/src/runtime.rs: what one dispatch reports, and what it does to the retained scope.
use essenty.Common.{ℕ, Bool, false, ◌≡◌, refl, Option, none, some, if◌then◌else◌}
use essenty.Common.Results.{Result, ok, err, ◌>>=◌, Holds}
use essenty.Common.Map.{Map}
use essenty.Lifecycle.State.{LifecycleState, LifecycleError, is_destroyed}
use essenty.Lifecycle.Registry.{World, Answer, move_to}
use essenty.Lifecycle.Subscribe.{exec}
use essenty.Back.Event.{BackError}
use essenty.Back.Dispatcher.{Scene, can_handle}
use essenty.Back.Gestures
use essenty.StateKeeper.Keeper.{Text, Bytes, StateKeeperError, save}
use essenty.InstanceKeeper.Keeper.{destroy_all}
use essenty.Runtime.Dispatch.{
  PlatformEvent, DispatchResult, RuntimeError, Runtime, scene, after_move, after_back,
  after_gesture, after_save, dispatch,
}

abbrev pub ends_scope : {F : Type 0} → PlatformEvent F → Bool
ends_scope (PlatformEvent.lifecycle target) = is_destroyed target
ends_scope _ = false

-- A property of whatever follows.
all :
    {A B : Type 0} (Q : B → Type 0) (m : Option A) (f : A → Option B)
    → ((a : A) → m ≡ some a → Holds Q (f a))
    → Holds Q (m >>= f)
all Q none f h = tt
all Q (some a) f h = h a refl

module _ {F W V : Type 0} where
  -- The answer to a back event is that of the operation of the dispatcher, which leaves the dispatcher
  -- and the memory so; no other event has one.
  abbrev pub Answered : ℕ → PlatformEvent F → Runtime F W V → Option Bool → Runtime F W V → Type 0
  Answered fuel (PlatformEvent.lifecycle target) r o r' = o ≡ none
  Answered fuel PlatformEvent.save_state r o r' = o ≡ none
  Answered fuel PlatformEvent.back_pressed r o r' =
      (b : Bool) × (o ≡ some b) × (Gestures.back fuel (scene r) ≡ some (b, scene r'))
  Answered fuel PlatformEvent.predictive_start r o r' =
      (b : Bool) × (o ≡ some b) × (Gestures.predictive_start fuel (scene r) ≡ some (b, scene r'))
  Answered fuel (PlatformEvent.predictive_progress progress) r o r' =
      (b : Bool) × (o ≡ some b)
      × (Gestures.predictive_progress fuel progress (scene r) ≡ some (ok b, scene r'))
  Answered fuel PlatformEvent.predictive_cancel r o r' =
      (b : Bool) × (o ≡ some b)
      × (Gestures.predictive_cancel fuel (scene r) ≡ some (ok b, scene r'))
  Answered fuel PlatformEvent.predictive_commit r o r' =
      (b : Bool) × (o ≡ some b)
      × (Gestures.predictive_invoke fuel (scene r) ≡ some (ok b, scene r'))

  -- The state that is reported is what the keeper saves of the memory; no other event has one.
  abbrev pub Saved : PlatformEvent F → Runtime F W V → Option (Map Text Bytes) → Type 0
  Saved PlatformEvent.save_state r o =
      (m : Map Text Bytes) × (o ≡ some m) × (save r.state_keeper r.lifecycle.memory ≡ ok m)
  Saved _ r o = o ≡ none

  -- The error is that of the part that the event is for.
  abbrev pub Refused : ℕ → PlatformEvent F → Runtime F W V → RuntimeError → Runtime F W V → Type 0
  Refused fuel (PlatformEvent.lifecycle target) r e r' =
      (x : LifecycleError) × (e ≡ RuntimeError.lifecycle x)
      × (move_to (exec fuel) fuel target r.lifecycle ≡ some (err x, r'.lifecycle))
  Refused fuel PlatformEvent.save_state r e r' =
      (x : StateKeeperError) × (e ≡ RuntimeError.state x)
      × (save r.state_keeper r.lifecycle.memory ≡ err x)
  Refused fuel PlatformEvent.back_pressed r e r' = ⊥
  Refused fuel PlatformEvent.predictive_start r e r' = ⊥
  Refused fuel (PlatformEvent.predictive_progress progress) r e r' =
      (x : BackError) × (e ≡ RuntimeError.back x)
      × (Gestures.predictive_progress fuel progress (scene r) ≡ some (err x, scene r'))
  Refused fuel PlatformEvent.predictive_cancel r e r' =
      (x : BackError) × (e ≡ RuntimeError.back x)
      × (Gestures.predictive_cancel fuel (scene r) ≡ some (err x, scene r'))
  Refused fuel PlatformEvent.predictive_commit r e r' =
      (x : BackError) × (e ≡ RuntimeError.back x)
      × (Gestures.predictive_invoke fuel (scene r) ≡ some (err x, scene r'))

  -- What is reported of an event, and what is kept when it fails.
  abbrev pub Reported :
      ℕ
      → PlatformEvent F
      → Runtime F W V
      → Result RuntimeError DispatchResult × Runtime F W V
      → Type 0
  Reported fuel event r (ok result, r') =
      Answered fuel event r result.back_handled r'
      × Saved event r result.saved_state
      × (result.can_handle_back ≡ can_handle (scene r'))
      × (r'.instance_keeper
          ≡ (if ends_scope event then destroy_all r.instance_keeper else r.instance_keeper))
      × (r'.state_keeper ≡ r.state_keeper)
  Reported fuel event r (err e, r') =
      Refused fuel event r e r'
      × (r'.instance_keeper ≡ r.instance_keeper)
      × (r'.state_keeper ≡ r.state_keeper)

  moved :
      (fuel : ℕ) (target : LifecycleState) (r : Runtime F W V) (p : Answer × World W)
      → move_to (exec fuel) fuel target r.lifecycle ≡ some p
      → Holds (Reported fuel (PlatformEvent.lifecycle target) r) (after_move target r p)
  moved fuel target r (ok done, w) e = (refl, refl, refl, refl, refl)
  moved fuel target r (err x, w) e = ((x, refl, e), refl, refl)

  progressed :
      (fuel : ℕ) (progress : F) (r : Runtime F W V) (p : Gestures.Answer × Scene F W)
      → Gestures.predictive_progress fuel progress (scene r) ≡ some p
      → Holds (Reported fuel (PlatformEvent.predictive_progress progress) r) (after_gesture r p)
  progressed fuel progress r (ok b, s) e = ((b, refl, e), refl, refl, refl, refl)
  progressed fuel progress r (err x, s) e = ((x, refl, e), refl, refl)

  cancelled :
      (fuel : ℕ) (r : Runtime F W V) (p : Gestures.Answer × Scene F W)
      → Gestures.predictive_cancel fuel (scene r) ≡ some p
      → Holds (Reported fuel PlatformEvent.predictive_cancel r) (after_gesture r p)
  cancelled fuel r (ok b, s) e = ((b, refl, e), refl, refl, refl, refl)
  cancelled fuel r (err x, s) e = ((x, refl, e), refl, refl)

  committed :
      (fuel : ℕ) (r : Runtime F W V) (p : Gestures.Answer × Scene F W)
      → Gestures.predictive_invoke fuel (scene r) ≡ some p
      → Holds (Reported fuel PlatformEvent.predictive_commit r) (after_gesture r p)
  committed fuel r (ok b, s) e = ((b, refl, e), refl, refl, refl, refl)
  committed fuel r (err x, s) e = ((x, refl, e), refl, refl)

  saves :
      (fuel : ℕ) (r : Runtime F W V) (saved : Result StateKeeperError (Map Text Bytes))
      → save r.state_keeper r.lifecycle.memory ≡ saved
      → Holds (Reported fuel PlatformEvent.save_state r) (after_save r saved)
  saves fuel r (ok m) e = (refl, (m, refl, e), refl, refl, refl)
  saves fuel r (err x) e = ((x, refl, e), refl, refl)

  pub dispatch-Reported :
      (fuel : ℕ) (event : PlatformEvent F) (r : Runtime F W V)
      → Holds (Reported fuel event r) (dispatch fuel event r)
  unfolding dispatch
  dispatch-Reported fuel (PlatformEvent.lifecycle target) r =
      all (Reported fuel (PlatformEvent.lifecycle target) r) _ (after_move target r)
        (moved fuel target r)
  dispatch-Reported fuel PlatformEvent.back_pressed r =
      all (Reported fuel PlatformEvent.back_pressed r) _ (after_back r)
        (λ p e. ((p.0, refl, e), refl, refl, refl, refl))
  dispatch-Reported fuel PlatformEvent.predictive_start r =
      all (Reported fuel PlatformEvent.predictive_start r) _ (after_back r)
        (λ p e. ((p.0, refl, e), refl, refl, refl, refl))
  dispatch-Reported fuel (PlatformEvent.predictive_progress progress) r =
      all (Reported fuel (PlatformEvent.predictive_progress progress) r) _ (after_gesture r)
        (progressed fuel progress r)
  dispatch-Reported fuel PlatformEvent.predictive_cancel r =
      all (Reported fuel PlatformEvent.predictive_cancel r) _ (after_gesture r) (cancelled fuel r)
  dispatch-Reported fuel PlatformEvent.predictive_commit r =
      all (Reported fuel PlatformEvent.predictive_commit r) _ (after_gesture r) (committed fuel r)
  dispatch-Reported fuel PlatformEvent.save_state r =
      saves fuel r (save r.state_keeper r.lifecycle.memory) refl
