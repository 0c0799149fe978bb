-- ===== src/Tokio/Examples.antt =====
-- crates/essenty-lifecycle-tokio on a runtime that keeps lists of the tasks that run and of those that
-- were asked to abort.
use essenty.Common.{
  ℕ, ◌+◌, true, false, ◌||◌, ◌≡◌, refl, ◌≤◌, none, some, List, [], ◌∷◌, arith, ltb, length, is_some,
  ◌==◌, if◌then◌else◌,
}
use essenty.Common.Results.{Result, ok, err}
use essenty.Lifecycle.State.{LifecycleState, initialized, created, started, resumed, destroyed}
use essenty.Lifecycle.Script.{Subscription}
use essenty.Lifecycle.Registry.{new, destroy}
use essenty.Lifecycle.Subscribe.{exec}
use essenty.Tokio.Runtime.{Tokio}
use essenty.Tokio.Repeat.{
  Repeat, RepeatError, invalid_min_state, returned, begin, finished, receiving, dropped, listen,
  on_state, stop_child, poll, is_active,
}
use essenty.Tokio.Steps.{Reach, receive, here, later}
use essenty.Tokio.Scope.{
  Tasks, no_runtime, Scope, track, spawned, with_handle, try_new, check_alive, spawn_local, drop,
}
use essenty.Tokio.Scope as Scopes
use essenty.Tokio.Children.{is_launched}
use essenty.Tokio.NoOverlap.{no-overlap}
use essenty.Tokio.Launches.{due, entries, launches_refine}
use essenty.Tokio.Ending.{drain, round, ends, drain-ends}
use essenty.Tokio.Cancelling.{Cancelled, Refuses, scope_cancels}

record Tables : Type 0 where
  count : ℕ
  live : List ℕ
  asked : List ℕ

abbrev without : ℕ → List ℕ → List ℕ
without x [] = []
without x (y ∷ ys) = let rest = without x ys in if y == x then rest else y ∷ rest

without-gone : (x : ℕ) (ys : List ℕ) → is_launched x (without x ys) ≡ false
without-gone x [] = refl
without-gone x (y ∷ ys) = ground (arith, without-gone x ys)

without-kept :
    (x z : ℕ) (ys : List ℕ) → is_launched z (without x ys) ≡ true → is_launched z ys ≡ true
without-kept x z [] h = h
without-kept x z (y ∷ ys) h = ground (arith, without-kept x z ys)

-- Tasks end, others may be spawned, and what was asked stays so.
record Runs (r r' : Tables) : Type 0 where
  grows : r.count ≤ r'.count
  ends_only :
      (id : ℕ)
      → ltb id r.count ≡ true
      → is_launched id r'.live ≡ true
      → is_launched id r.live ≡ true
  keeps : (id : ℕ) → is_launched id r.asked ≡ true → is_launched id r'.asked ≡ true

not_below : (n : ℕ) → ltb n n ≡ false
not_below n = ground arith

below_next : (id n : ℕ) → ltb id (n + 1) ≡ (id == n || ltb id n)
below_next id n = ground arith

below_mono : (id m n : ℕ) → m ≤ n → ltb id m ≡ true → ltb id n ≡ true
below_mono id m n p h = ground arith

le_self : (n : ℕ) → n ≤ n
le_self n = omega arith

abbrev tables : Tokio
tables = record {
  Runtime = Tables;
  known = λ id r. ltb id r.count;
  alive = λ id r. is_launched id r.live;
  requested = λ id r. is_launched id r.asked;
  next = λ r. r.count;
  spawn = λ r. record r { count = r.count + 1; live = r.count ∷ r.live };
  abort = λ id r. record r { asked = id ∷ r.asked };
  Progress = Runs;
  settle = λ id r. record r { live = without id r.live };
  known-next = λ r. not_below r.count;
  known-spawn = λ id r. below_next id r.count;
  known-abort = λ id other r. refl;
  known-Progress = λ id r r' p h. below_mono id r.count r'.count p.grows h;
  alive-spawn = λ id r. refl;
  alive-abort = λ id other r h. h;
  alive-Progress = λ id r r' p k h. p.ends_only id k h;
  requested-spawn = λ id r h. h;
  requested-abort = λ id other r. refl;
  requested-Progress = λ id r r' p h. p.keeps id h;
  settle-Progress = λ id r. record {
    grows = le_self r.count;
    ends_only = λ z k h. without-kept id z r.live h;
    keeps = λ z h. h;
  };
  alive-settle = λ id r h. without-gone id r.live;
}

abbrev idle : Tables
idle = record { count = 0; live = []; asked = [] }

abbrev launched : Repeat tables
launched = on_state tables started resumed (listen tables idle)

path : Reach tables started (listen tables idle) launched
unfolding listen
path = later here (receive resumed refl)

no-overlap_example :
    ((a b : ℕ)
      → is_launched a launched.launched ≡ true
      → is_launched a launched.runtime.live ≡ true
      → is_launched b launched.launched ≡ true
      → is_launched b launched.runtime.live ≡ true
      → a ≡ b)
    × ((result : Result RepeatError (Unit {0}))
        → launched.control ≡ finished result
        → (id : ℕ) → is_launched id launched.launched ≡ true
        → is_launched id launched.runtime.live ≡ false)
    × (launched.control ≡ dropped
        → (id : ℕ) → is_launched id launched.launched ≡ true
        → is_launched id launched.runtime.live ≡ true
        → is_launched id launched.runtime.asked ≡ true)
no-overlap_example = no-overlap tables started idle path

launches_refine_example :
    (length launched.launched ≡ entries started launched.seen)
    × (launched.control ≡ receiving → is_some launched.child ≡ due started launched.seen)
launches_refine_example = launches_refine tables started idle path

abbrev visits : List LifecycleState
visits = created ∷ started ∷ created ∷ started ∷ created ∷ destroyed ∷ []

abbrev drained : Repeat tables
drained = drain tables started visits (listen tables idle)

-- Two children were launched, one after the other.
launched_twice : drained.launched ≡ 1 ∷ 0 ∷ []
unfolding drain round on_state stop_child poll listen is_active
launched_twice = refl

drain-ends_example :
    Reach tables started (listen tables idle) drained
    × (drained.control ≡ finished (ok tt))
    × (ends visits ≡ true
        → (id : ℕ) → is_launched id drained.launched ≡ true
        → is_launched id drained.runtime.live ≡ false)
drain-ends_example = drain-ends tables started visits idle

abbrev no_tasks : Tasks tables
no_tasks = record { tasks = []; runtime = idle }

abbrev alone : Scope tables
alone = new no_tasks

refused_minimum :
    begin (exec 1) (λ s (m : List LifecycleState). s ∷ m) initialized (new [])
    ≡ some (returned (err (invalid_min_state initialized)), new [])
unfolding begin new
refused_minimum = refl

scope_cancels_example :
    (guard : Subscription) × (w : Scope tables) × (with_handle tables (exec 1) alone
      ≡ some (guard, w))
    × ((m : Tasks tables)
        → ((w' : Scope tables) × (destroy (exec 1) 4 (record w { memory = m }) ≡ some (ok tt, w'))
            × Cancelled tables m.tasks w'.memory
            × Refuses tables w')
          × Cancelled tables m.tasks (drop tables guard (record w { memory = m })).memory)
unfolding new
scope_cancels_example = scope_cancels tables 0 0 alone refl refl

-- Between the two calls nothing happens, or the runtime brings the first two tasks to their end.
abbrev at_once : Tables → Tables
at_once r = r

abbrev first_ends : Tables → Tables
first_ends r = record r { live = without 1 (without 0 r.live) }

abbrev one_task : Tasks tables
one_task = spawned tables at_once no_tasks

-- The new task has ended before it is tracked.
ended_early : (spawned tables first_ends one_task).tasks ≡ 1 ∷ []
unfolding track
ended_early = refl

-- Outside a runtime, and outside a local set, the code panics; `try_new` returns its error.
outside_runtime : Scopes.new tables (exec 1) false alone ≡ none
unfolding Scopes.new
outside_runtime = refl

outside_error : try_new tables (exec 1) false alone ≡ some (err no_runtime, alone)
unfolding try_new
outside_error = refl

outside_local_set : spawn_local tables at_once false alone ≡ none
unfolding spawn_local check_alive new
outside_local_set = refl

local_spawned :
    spawn_local tables at_once true alone
    ≡ some (ok 0, record alone { memory = spawned tables at_once no_tasks })
unfolding spawn_local check_alive new
local_spawned = refl
