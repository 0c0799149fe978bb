-- ===== src/Lifecycle/Subscribe.antt =====
-- crates/essenty-lifecycle/src/registry.rs: `subscribe` with its replay, the guard `Subscription`,
-- the helpers `do_on_…`, and the execution of scripts that call the registry back.
use essenty.Common.{
  ℕ, zero, suc, ◌+◌, ◌%◌, Bool, true, false, ◌&&◌, ◌||◌, not, Option, none, some, List, [], ◌∷◌,
  ◌++◌, if◌then◌else◌, length, get_elem?, set, u64_mod, ◌-◌,
}
use essenty.Common.Results.{◌>>=◌}
use essenty.Lifecycle.State.{
  LifecycleState, initialized, created, started, resumed, destroyed, is_destroyed, eq_state,
  ge_state,
}
use essenty.Lifecycle.Script.{Script, Observer, Subscription, Transition, Tracker, finish}
use essenty.Lifecycle.Registry.{World, Exec, Run, remove_observer, is_registered, run_command}

abbrev pub replays : List LifecycleState
replays = created ∷ started ∷ resumed ∷ []

module _ {W : Type 0} (exec : Exec W) where
  -- The replay of `subscribe`: the states up to the one that was current at the subscription.
  unfoldable pub replay :
      LifecycleState → Observer W → List LifecycleState → World W → Option (World W)
  replay current observer [] w = some w
  replay current observer (r ∷ rs) w =
      (if ge_state current r && not (is_destroyed current) then exec (observer r) w else some w)
      >>= replay current observer rs

  unfoldable pub subscribe : Observer W → Run W Subscription
  subscribe observer w =
      let id = w.next_id in
      let current = w.state in
      let added = record w.registry {
        next_id = (id + 1) % u64_mod;
        observers =
            if eq_state current destroyed then w.observers else w.observers ++ (id, observer) ∷ [];
      } in
      replay current observer replays (record w { registry = added }) >>= λ replayed.
      some (record { inner = some id }, replayed)

-- The operations of the guard. A registry that was dropped is `none`.
module _ {W : Type 0} where
  unfoldable pub is_active : Subscription → Option (World W) → Bool
  is_active guard none = false
  is_active guard (some w) = elim guard.inner [
    | none ↦ false
    | some id ↦ is_registered id w.observers
  ]

  abbrev pub remove_from : Option ℕ → World W → World W
  remove_from none w = w
  remove_from (some id) w = (remove_observer id w).1

  -- `remove`, which `unsubscribe` and the drop of the guard call.
  unfoldable pub remove : Subscription → Option (World W) → Subscription × Option (World W)
  remove guard none = (record { inner = none }, none)
  remove guard (some w) = (record { inner = none }, some (remove_from guard.inner w))

unfoldable pub detach : Subscription → Subscription × ℕ
detach guard = (record { inner = none }, elim guard.inner [ none ↦ u64_mod - 1 | some id ↦ id ])

abbrev pub fresh_tracker : Tracker
fresh_tracker = record { previous = initialized; fired = false; id_slot = none }

abbrev pub tracker_at : ℕ → List Tracker → Tracker
tracker_at cell cells = elim (get_elem? cells cell) [ none ↦ fresh_tracker | some t ↦ t ]

-- The closure of `on_transition` fires on a delivery of `to` right after one of `from`.
abbrev pub fires : Transition → Tracker → LifecycleState → Bool
fires t cells state =
    eq_state cells.previous t.from && eq_state state t.to && (not t.once || not cells.fired)

module _ {W : Type 0} where
  abbrev pub unsubscribe_then : Option ℕ → Script W → Script W
  unsubscribe_then none callback = callback
  unsubscribe_then (some id) callback = Script.unsubscribe id (λ _. callback)

  -- What the closure does, by the cells that it reads.
  unfoldable pub react : Transition → ℕ → Script W → LifecycleState → Tracker → Script W
  react t cell callback state cells =
      if fires t cells state
      then Script.write_tracker cell (record cells { previous = state; fired = true })
          (if t.once then unsubscribe_then cells.id_slot callback else callback)
      else Script.write_tracker cell (record cells { previous = state }) finish

  unfoldable pub transition_observer : Transition → ℕ → Script W → Observer W
  transition_observer t cell callback state = Script.read_tracker cell (react t cell callback state)

  unfoldable pub destroy_observer : Script W → Observer W
  destroy_observer callback state = if eq_state state destroyed then callback else finish

  abbrev pub set_tracker : ℕ → Tracker → World W → World W
  set_tracker cell cells w = record w { trackers = set w.trackers cell cells }

  -- The end of `on_transition`: a helper that fired during the replay is unsubscribed.
  unfoldable pub settle : Transition → ℕ → Subscription → World W → World W
  settle t cell guard w =
      let cells = record (tracker_at cell w.trackers) { id_slot = guard.inner } in
      let slotted = set_tracker cell cells w in
      if t.once && cells.fired then remove_from guard.inner slotted else slotted

module _ {W : Type 0} (exec : Exec W) where
  unfoldable pub on_transition : Transition → Script W → Run W Subscription
  on_transition t callback w =
      let cell = length w.trackers in
      let allocated = record w { trackers = w.trackers ++ fresh_tracker ∷ [] } in
      subscribe exec (transition_observer t cell callback) allocated >>= λ (guard, w').
      some (guard, settle t cell guard w')

  unfoldable pub do_on_destroy : Script W → Run W Subscription
  do_on_destroy callback w =
      if is_destroyed w.state
      then exec callback w >>= subscribe exec (λ state. finish)
      else subscribe exec (destroy_observer callback) w

  -- One script; the observers that its calls notify are run by `exec`.
  unfoldable pub interpret : ℕ → Script W → World W → Option (World W)
  interpret rounds finish w = some w
  interpret rounds (Script.effect f k) w = interpret rounds k (record w { memory = f w.memory })
  interpret rounds (Script.branch k) w = interpret rounds (k w.memory) w
  interpret rounds (Script.read_state k) w = interpret rounds (k w.state) w
  interpret rounds (Script.subscribe observer k) w =
      subscribe exec observer w >>= λ (guard, w'). interpret rounds (k guard) w'
  interpret rounds (Script.unsubscribe id k) w =
      let (removed, w') = remove_observer id w in interpret rounds (k removed) w'
  interpret rounds (Script.command c k) w =
      run_command exec rounds c w >>= λ (answer, w'). interpret rounds (k answer) w'
  interpret rounds (Script.on_transition t callback k) w =
      on_transition t callback w >>= λ (guard, w'). interpret rounds (k guard) w'
  interpret rounds (Script.do_on_destroy callback k) w =
      do_on_destroy callback w >>= λ (guard, w'). interpret rounds (k guard) w'
  interpret rounds (Script.read_tracker cell k) w =
      interpret rounds (k (tracker_at cell w.trackers)) w
  interpret rounds (Script.write_tracker cell cells k) w =
      interpret rounds k (set_tracker cell cells w)

-- Scripts whose calls of the registry nest at most `fuel` deep.
unfoldable pub exec : {W : Type 0} → ℕ → Exec W
exec zero script w = none
exec (suc fuel) script w = interpret (exec fuel) fuel script w

abbrev pub do_on_create : Transition
do_on_create = record { from = initialized; to = created; once = true }

abbrev pub do_on_start : Transition
do_on_start = record { from = created; to = started; once = false }

abbrev pub do_on_start_once : Transition
do_on_start_once = record { from = created; to = started; once = true }

abbrev pub do_on_resume : Transition
do_on_resume = record { from = started; to = resumed; once = false }

abbrev pub do_on_resume_once : Transition
do_on_resume_once = record { from = started; to = resumed; once = true }

abbrev pub do_on_pause : Transition
do_on_pause = record { from = resumed; to = started; once = false }

abbrev pub do_on_pause_once : Transition
do_on_pause_once = record { from = resumed; to = started; once = true }

abbrev pub do_on_stop : Transition
do_on_stop = record { from = started; to = created; once = false }

abbrev pub do_on_stop_once : Transition
do_on_stop_once = record { from = started; to = created; once = true }
