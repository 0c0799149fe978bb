-- ===== src/Lifecycle/Registry.antt =====
-- crates/essenty-lifecycle/src/registry.rs: the registry and its operations. Each operation takes
-- `exec`, which runs the script of an observer that it calls; `exec` here runs scripts that call the
-- registry back, to a depth that its fuel bounds. A result `none` means that the fuel ran out.
use essenty.Common.{
  ℕ, zero, suc, ◌+◌, ◌-◌, Bool, true, false, ◌&&◌, ◌||◌, not, Option, none, some, List, [], ◌∷◌,
  map, reverse, ltb, ◌==◌, if◌then◌else◌, length,
}
use essenty.Common.Results.{Result, ok, err, ◌>>=◌}
use essenty.Lifecycle.State.{
  LifecycleState, LifecycleError, initialized, created, started, resumed, destroyed, is_destroyed,
  rank, from_rank, eq_state, invalid_transition, already_destroyed,
}
use essenty.Lifecycle.Script.{Script, Observer, Command, Tracker}

abbrev pub Observers : Type 0 → Type 0
Observers W = List (ℕ × Observer W)

pub record RegistryInner (W : Type 0) : Type 0 where
  pub state : LifecycleState
  pub observers : Observers W
  pub next_id : ℕ

-- The registry, the cells of `on_transition` and the memory of the application. `entered` records
-- the states that the registry took on, newest first; no operation reads it.
pub record World (W : Type 0) : Type 0 where
  pub registry : RegistryInner W
  pub open registry use *
  pub trackers : List Tracker
  pub memory : W
  pub entered : List LifecycleState

abbrev pub Answer : Type 0
Answer = Result LifecycleError (Unit {0})

abbrev pub Exec : Type 0 → Type 0
Exec W = Script W → World W → Option (World W)

abbrev pub Run : Type 0 → Type 0 → Type 0
Run W A = World W → Option (A × World W)

unfoldable pub new : {W : Type 0} → W → World W
new memory = record {
  registry = record { state = initialized; observers = []; next_id = 0 };
  trackers = [];
  memory = memory;
  entered = [];
}

-- The tests of `apply`: leaving a state upwards delivers in order, downwards in reverse.
abbrev pub may_reverse : LifecycleState → Bool
may_reverse started = true
may_reverse created = true
may_reverse destroyed = true
may_reverse _ = false

abbrev pub is_downward : LifecycleState → LifecycleState → Bool
is_downward started resumed = true
is_downward created started = true
is_downward destroyed previous = true
is_downward _ _ = false

abbrev pub retain {ℓ} : {A : Type ℓ} → ℕ → List (ℕ × A) → List (ℕ × A)
retain id [] = []
retain id ((other, o) ∷ os) =
    let rest = retain id os in if other == id then rest else (other, o) ∷ rest

abbrev pub is_registered {ℓ} : {A : Type ℓ} → ℕ → List (ℕ × A) → Bool
is_registered id [] = false
is_registered id ((other, o) ∷ os) = other == id || is_registered id os

abbrev pub subscriber_count : {W : Type 0} → World W → ℕ
subscriber_count w = length w.observers

-- The rank that a round of the loop of `move_to` goes to.
abbrev pub next_rank : LifecycleState → LifecycleState → ℕ
next_rank current target =
    if ltb (rank current) (rank target) then rank current + 1 else rank current - 1

-- `unsubscribe` of the registry: it reports by the length whether an observer was removed.
unfoldable pub remove_observer : {W : Type 0} → ℕ → World W → Bool × World W
remove_observer id w =
    let kept = retain id w.observers in
    (
      not (length kept == length w.observers),
      record w { registry = record w.registry { observers = kept } },
    )

module _ {W : Type 0} (exec : Exec W) where
  unfoldable pub deliver : List (Observer W) → LifecycleState → World W → Option (World W)
  deliver [] next w = some w
  deliver (o ∷ os) next w = exec (o next) w >>= deliver os next

  unfoldable pub apply : LifecycleState → Run W Answer
  apply next w =
      if is_destroyed w.state
      then some (err already_destroyed, w)
      else (let snapshot = map (λ (p : ℕ × Observer W). p.1) w.observers in
          let ordered =
            if may_reverse next && is_downward next w.state then reverse snapshot else snapshot in
          let moved = record w {
            registry = record w.registry { state = next };
            entered = next ∷ w.entered;
          } in
          deliver ordered next moved >>= λ told. some (
            ok tt,
            (if is_destroyed next
                then record told { registry = record told.registry { observers = [] } }
                else told),
          ))

  unfoldable pub step : LifecycleState → LifecycleState → Run W Answer
  step from to w =
      if is_destroyed w.state
      then some (err already_destroyed, w)
      else if not (eq_state w.state from)
      then some (err (invalid_transition w.state to), w)
      else apply to w

  -- The loop of `move_to`, with the number of its rounds bounded.
  unfoldable pub walk : ℕ → LifecycleState → Run W Answer
  walk zero target w = none
  walk (suc rounds) target w =
      if eq_state w.state target
      then some (ok tt, w)
      else if is_destroyed w.state
      then some (err already_destroyed, w)
      else (apply (from_rank (next_rank w.state target)) w >>= λ (answer, w'). elim answer [
        | ok _ ↦ walk rounds target w'
        | err e ↦ some (err e, w')
      ])

  -- `move_to` for a target that is not `Destroyed`.
  unfoldable pub move_within : ℕ → LifecycleState → Run W Answer
  move_within rounds target w =
      if is_destroyed w.state
      then some (err already_destroyed, w)
      else if eq_state w.state target
      then some (ok tt, w)
      else if eq_state target initialized
      then some (err (invalid_transition w.state target), w)
      else walk rounds target w

  unfoldable pub destroy : ℕ → Run W Answer
  destroy rounds w =
      if is_destroyed w.state
      then some (err already_destroyed, w)
      else if eq_state w.state initialized
      then apply destroyed w
      else (move_within rounds created w >>= λ (answer, w'). elim answer [
        | ok _ ↦ apply destroyed w'
        | err e ↦ some (err e, w')
      ])

  unfoldable pub move_to : ℕ → LifecycleState → Run W Answer
  move_to rounds target w =
      if is_destroyed w.state
      then some (err already_destroyed, w)
      else if is_destroyed target
      then destroy rounds w
      else move_within rounds target w

  unfoldable pub run_command : ℕ → Command → Run W Answer
  run_command rounds (Command.move_to target) = move_to rounds target
  run_command rounds Command.create = step initialized created
  run_command rounds Command.start = step created started
  run_command rounds Command.resume = step started resumed
  run_command rounds Command.pause = step resumed started
  run_command rounds Command.stop = step started created
  run_command rounds Command.destroy = destroy rounds
