-- ===== src/Tokio/Scope.antt =====
-- crates/essenty-lifecycle-tokio/src/scope.rs: `LifecycleScope`. The list of abort handles and the
-- runtime are parts of the memory that the observers of the lifecycle share.
use essenty.Common.{ℕ, Bool, false, Option, none, some, List, [], ◌∷◌, ◌++◌, if◌then◌else◌}
use essenty.Common.Results.{Result, ok, err, ◌>>=◌}
use essenty.Lifecycle.State.{is_destroyed}
use essenty.Lifecycle.Script.{Subscription, effect, finish}
use essenty.Lifecycle.Registry.{World, Exec, Run}
use essenty.Lifecycle.Subscribe.{do_on_destroy, remove_from}
use essenty.Tokio.Runtime.{Tokio}

pub data SpawnError : Type 0 where
  destroyed : SpawnError

pub data ScopeError : Type 0 where
  no_runtime : ScopeError

module _ (tokio : Tokio) where
  open tokio use {Runtime, alive, next, spawn, abort}

  pub record Tasks : Type 0 where
    pub tasks : List ℕ
    pub runtime : Runtime

  abbrev pub abort_all : List ℕ → Runtime → Runtime
  abort_all [] r = r
  abort_all (handle ∷ handles) r = abort_all handles (abort handle r)

  -- `mem::take` of the handles, and the loop over them: the closure of `with_handle`, and `drop`.
  unfoldable pub cancel : Tasks → Tasks
  cancel m = record { tasks = []; runtime = abort_all m.tasks m.runtime }

  abbrev pub retain_alive : List ℕ → Runtime → List ℕ
  retain_alive [] r = []
  retain_alive (known ∷ rest) r =
      let kept = retain_alive rest r in if alive known r then known ∷ kept else kept

  unfoldable pub track : ℕ → Tasks → Tasks
  track handle m = record m { tasks = retain_alive m.tasks m.runtime ++ handle ∷ [] }

  abbrev pub Scope : Type 0
  Scope = World Tasks

  unfoldable pub with_handle : Exec Tasks → Run Tasks Subscription
  with_handle exec = do_on_destroy exec (effect cancel finish)

  -- `try_new`, by whether a runtime is current on the thread.
  unfoldable pub try_new :
      Exec Tasks → Bool → Scope → Option (Result ScopeError Subscription × Scope)
  try_new exec current w =
      let built = with_handle exec w >>= λ (guard, w'). some (ok guard, w') in
      if current then built else some (err no_runtime, w)

  -- `new`, which panics where no runtime is current.
  unfoldable pub new : Exec Tasks → Bool → Scope → Option (Subscription × Scope)
  new exec current w = let built = with_handle exec w in if current then built else none

  unfoldable pub check_alive : Scope → Result SpawnError (Unit {0})
  check_alive w = if is_destroyed w.state then err destroyed else ok tt

  -- Both `spawn` and `spawn_local` hand the future to Tokio and then track the handle. `meanwhile` is
  -- what the runtime does between the two calls, when the new task may already run, and end.
  abbrev pub spawned : (Runtime → Runtime) → Tasks → Tasks
  spawned meanwhile m = track (next m.runtime) (record m { runtime = meanwhile (spawn m.runtime) })

  abbrev pub spawn_checked :
      (Runtime → Runtime) → Result SpawnError (Unit {0}) → Scope → Result SpawnError ℕ × Scope
  spawn_checked meanwhile (err e) w = (err e, w)
  spawn_checked meanwhile (ok _) w =
      (ok (next w.memory.runtime), record w { memory = spawned meanwhile w.memory })

  unfoldable pub spawn_task : (Runtime → Runtime) → Scope → Result SpawnError ℕ × Scope
  spawn_task meanwhile w = spawn_checked meanwhile (check_alive w) w

  -- `spawn_local` panics where no local set is current, after the check of the lifecycle.
  abbrev pub local_checked :
      (Runtime → Runtime)
      → Result SpawnError (Unit {0})
      → Bool
      → Scope
      → Option (Result SpawnError ℕ × Scope)
  local_checked meanwhile (ok _) false w = none
  local_checked meanwhile checked _ w = some (spawn_checked meanwhile checked w)

  unfoldable pub spawn_local :
      (Runtime → Runtime) → Bool → Scope → Option (Result SpawnError ℕ × Scope)
  spawn_local meanwhile local_set w = local_checked meanwhile (check_alive w) local_set w

  -- The drop of the scope, and of its subscription after it.
  unfoldable pub drop : Subscription → Scope → Scope
  drop guard w = remove_from guard.inner (record w { memory = cancel w.memory })
