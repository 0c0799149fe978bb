-- ===== src/Lifecycle/Examples.antt =====
-- crates/essenty-lifecycle/src/registry.rs on concrete registries.
use essenty.Common.{ℕ, ◌+◌, ◌*◌, ◌≤◌, ◌≡◌, refl, List, [], ◌∷◌, ◌++◌, Option, none, some, arith}
use essenty.Common.Results.{ok}
use essenty.Lifecycle.State.{created, started, resumed, destroyed, rank}
use essenty.Lifecycle.Script.{Script, Observer, Command, finish, effect}
use essenty.Lifecycle.Registry.{
  World, new, deliver, apply, step, walk, move_within, destroy, move_to, run_command,
}
use essenty.Lifecycle.Subscribe.{
  interpret, exec, subscribe, replay, fresh_tracker, do_on_resume_once, transition_observer,
}
use essenty.Lifecycle.Automaton.{IsPath, current, count}
use essenty.Lifecycle.Scripts.{exec-IsPath, exec-destroyed}
use essenty.Lifecycle.Route.{route}
use essenty.Lifecycle.Visit.{Handler, plain, visit}
use essenty.Lifecycle.Delivery.{move_to-plain}
use essenty.Lifecycle.Guards.{observer_of, subscribe-catch_up}
use essenty.Lifecycle.Hooks.{hear, hear-due}

-- A handler that writes down its name and the state that it hears of.
abbrev logs : ℕ → Handler (List ℕ)
logs name s m = m ++ (10 * name + rank s) ∷ []

-- An observer that destroys the registry as soon as it is started.
abbrev destroyer : Observer (List ℕ)
destroyer started = Script.command Command.destroy (λ _. finish)
destroyer _ = finish

abbrev setup : Script (List ℕ)
setup =
    Script.subscribe (observer_of (logs 1)) (λ _.
      Script.subscribe destroyer (λ _. Script.command (Command.move_to resumed) (λ _. finish)))

abbrev or_new : Option (World (List ℕ)) → World (List ℕ)
or_new none = new []
or_new (some w) = w

abbrev ended : World (List ℕ)
ended = or_new (exec 6 setup (new []))

ran : exec 6 setup (new []) ≡ some ended
unfolding exec interpret subscribe replay run_command move_to move_within walk destroy apply step
    deliver new
ran = refl

-- The observer heard of each state once, `Destroyed` in the middle of the climb.
ended_log : ended.memory ≡ 11 ∷ 12 ∷ 11 ∷ 14 ∷ []
unfolding exec interpret subscribe replay run_command move_to move_within walk destroy apply step
    deliver new
ended_log = refl

ended_state : ended.state ≡ destroyed
unfolding exec interpret subscribe replay run_command move_to move_within walk destroy apply step
    deliver new
ended_state = refl

exec-IsPath_example :
    IsPath ended.entered
    × (ended.state ≡ current ended.entered)
    × (count destroyed ended.entered ≤ 1)
exec-IsPath_example = exec-IsPath [] 6 setup ended ran

-- Another run, of a registry that is destroyed.
abbrev late : World (List ℕ)
late = or_new (exec 6 setup ended)

ran_late : exec 6 setup ended ≡ some late
unfolding exec interpret subscribe replay run_command move_to move_within walk destroy apply step
    deliver new
ran_late = refl

exec-destroyed_example : late.state ≡ destroyed
exec-destroyed_example = exec-destroyed 6 setup ended late ran_late ended_state

abbrev handlers : List (ℕ × Handler (List ℕ))
handlers = (0, logs 1) ∷ (1, logs 2) ∷ []

abbrev at_rest : World (List ℕ)
at_rest = record {
  registry = record { state = started; observers = plain handlers; next_id = 2 };
  trackers = fresh_tracker ∷ [];
  memory = [];
  entered = started ∷ created ∷ [];
}

move_to-plain_example :
    move_to (exec 1) 4 destroyed at_rest
    ≡ some (ok tt, visit handlers (route started destroyed) at_rest)
move_to-plain_example = move_to-plain 0 handlers 4 destroyed at_rest refl refl (omega arith)

-- On the way down the later observer hears first.
destroyed_log : (visit handlers (route started destroyed) at_rest).memory ≡ 21 ∷ 11 ∷ 24 ∷ 14 ∷ []
destroyed_log = refl

subscribe-catch_up_example :
    subscribe (exec 1) (observer_of (logs 3)) at_rest
    ≡ some (
      record { inner = some 2 },
      record at_rest {
        registry = record at_rest.registry {
          next_id = 3;
          observers = at_rest.observers ++ (2, observer_of (logs 3)) ∷ [];
        };
        memory = 31 ∷ 32 ∷ [];
      },
    )
subscribe-catch_up_example = subscribe-catch_up 0 (logs 3) at_rest

hear-due_example :
    (w' : World (List ℕ)) × (hear
        (exec 1)
        (transition_observer do_on_resume_once 0 (effect (λ m. 7 ∷ m) finish))
        (started ∷ resumed ∷ started ∷ resumed ∷ [])
        at_rest
      ≡ some w')
    × (w'.memory ≡ 7 ∷ [])
hear-due_example =
    hear-due do_on_resume_once 0 (λ m. 7 ∷ m) 0 (started ∷ resumed ∷ started ∷ resumed ∷ []) at_rest
      (omega arith)
