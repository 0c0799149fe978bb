-- ===== src/Lifecycle/Guards.antt =====
-- Subscriptions of crates/essenty-lifecycle/src/registry.rs: what a late subscriber hears, and what
-- its guard removes.
use essenty.Common.{
  ℕ, suc, ◌+◌, ◌%◌, ◌<◌, ◌≤◌, true, false, ◌&&◌, not, ◌≡◌, refl, ◌∙◌, List, [], ◌∷◌, ◌++◌, some,
  arith, if◌then◌else◌, length, ◌==◌, u64_mod,
}
use essenty.Lifecycle.State.{LifecycleState, initialized, destroyed, is_destroyed}
use essenty.Lifecycle.Script.{Observer, Subscription, finish, effect}
use essenty.Lifecycle.Registry.{World, Observers, remove_observer, retain, is_registered}
use essenty.Lifecycle.Subscribe.{interpret, exec, subscribe, replay, is_active, remove}
use essenty.Lifecycle.Route.{route}
use essenty.Lifecycle.Visit.{Handler}

-- What a subscriber missed: the way from `Initialized` to the state, and nothing of a registry that
-- was destroyed.
abbrev pub missed : LifecycleState → List LifecycleState
missed destroyed = []
missed s = route initialized s

abbrev pub catch_up : {W : Type 0} → Handler W → List LifecycleState → W → W
catch_up f [] m = m
catch_up f (s ∷ ss) m = catch_up f ss (f s m)

abbrev pub observer_of : {W : Type 0} → Handler W → Observer W
observer_of f s = effect (f s) finish

-- A subscriber that only uses its own memory is told the states that it missed, each once and in
-- order; it is added behind the other observers, unless the registry was destroyed.
pub subscribe-catch_up :
    {W : Type 0} (fuel : ℕ) (f : Handler W) (w : World W)
    → subscribe (exec (suc fuel)) (observer_of f) w
      ≡ some (
        record { inner = some w.next_id },
        record w {
          registry = record w.registry {
            next_id = (w.next_id + 1) % u64_mod;
            observers =
                if is_destroyed w.state
                then w.observers
                else w.observers ++ (w.next_id, observer_of f) ∷ [];
          };
          memory = catch_up f (missed w.state) w.memory;
        },
      )
unfolding subscribe replay exec interpret
subscribe-catch_up fuel f w = ground arith

module _ {W : Type 0} (id : ℕ) where
  length-retain : (os : Observers W) → length (retain id os) ≤ length os
  length-retain [] = omega arith
  length-retain ((j, o) ∷ os) = ground (arith, length-retain os)

  retain_absent : (os : Observers W) → is_registered id os ≡ false → retain id os ≡ os
  retain_absent [] h = refl
  retain_absent ((j, o) ∷ os) h = ground (arith, retain_absent os)

  length-retain_lt :
      (os : Observers W) → is_registered id os ≡ true → length (retain id os) < length os
  length-retain_lt [] h = ground arith
  length-retain_lt ((j, o) ∷ os) h = ground (arith, length-retain os, length-retain_lt os)

  registered-retain :
      (j : ℕ) (os : Observers W)
      → is_registered j (retain id os) ≡ (is_registered j os && not (j == id))
  registered-retain j [] = refl
  registered-retain j ((k, o) ∷ os) = ground (arith, registered-retain j os)

  retain-append :
      (os : Observers W) (o : Observer W)
      → is_registered id os ≡ false
      → retain id (os ++ (id, o) ∷ []) ≡ os
  retain-append [] o h = ground arith
  retain-append ((j, p) ∷ os) o h = ground (arith, retain-append os o)

  registered-append :
      (os : Observers W) (o : Observer W) → is_registered id (os ++ (id, o) ∷ []) ≡ true
  registered-append [] o = ground arith
  registered-append ((j, p) ∷ os) o = ground (arith, registered-append os o)

-- `unsubscribe` reports whether the id was registered; afterwards it is not, and every other id is
-- as it was. The state and the memory stay.
pub remove_observer_lem :
    {W : Type 0} (id : ℕ) (w : World W)
    → ((remove_observer id w).0 ≡ is_registered id w.observers)
      × ((j : ℕ)
          → is_registered j (remove_observer id w).1.observers
            ≡ (is_registered j w.observers && not (j == id)))
      × ((remove_observer id w).1.state ≡ w.state)
      × ((remove_observer id w).1.memory ≡ w.memory)
unfolding remove_observer
remove_observer_lem id w = (
  ground (arith, length-retain_lt id w.observers, retain_absent id w.observers),
  λ j. registered-retain id j w.observers,
  refl,
  refl,
)

-- The guard of a new subscription is active, and dropping it takes away that observer and no other.
pub remove-subscribe :
    {W : Type 0} (fuel : ℕ) (f : Handler W) (w : World W)
    → is_destroyed w.state ≡ false
    → is_registered w.next_id w.observers ≡ false
    → (guard : Subscription) × (w' : World W) × (subscribe (exec (suc fuel)) (observer_of f) w
        ≡ some (guard, w'))
      × (is_active guard (some w') ≡ true)
      × ((dropped : World W) × ((remove guard (some w')).1 ≡ some dropped)
          × (dropped.observers ≡ w.observers)
          × (is_active guard (some dropped) ≡ false))
unfolding remove_observer is_active remove
remove-subscribe {W} fuel f w live fresh =
    let guard : Subscription = record { inner = some w.next_id } in
    let w' : World W = record w {
      registry = record w.registry {
        next_id = (w.next_id + 1) % u64_mod;
        observers = w.observers ++ (w.next_id, observer_of f) ∷ [];
      };
      memory = catch_up f (missed w.state) w.memory;
    } in
    let gone = retain-append w.next_id w.observers (observer_of f) fresh in
    (
      guard,
      w',
      subscribe-catch_up fuel f w ∙ rw live refl,
      registered-append w.next_id w.observers (observer_of f),
      ((remove_observer w.next_id w').1, refl, gone, rw gone fresh),
    )
