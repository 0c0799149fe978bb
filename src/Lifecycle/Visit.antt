-- ===== src/Lifecycle/Visit.antt =====
-- crates/essenty-lifecycle/src/registry.rs: what a registry becomes when its observers, which only use
-- their own memory, are told of a sequence of states.
use essenty.Common.{
  ℕ, true, ◌&&◌, ◌≡◌, refl, sym, ◌∙◌, List, [], ◌∷◌, ◌++◌, arith, Bool-cases, inl, inr,
  if◌then◌else◌, reverse, ltb, not,
}
use mathlib.Core.List.{reverse-cons}
use essenty.Lifecycle.State.{LifecycleState, is_destroyed, rank}
use essenty.Lifecycle.Script.{finish, effect}
use essenty.Lifecycle.Registry.{World, Observers}
use essenty.Lifecycle.Route.{last, all_live}

-- A handler changes the memory, by the state that it is told of.
abbrev pub Handler : Type 0 → Type 0
Handler W = LifecycleState → W → W

abbrev pub plain : {W : Type 0} → List (ℕ × Handler W) → Observers W
plain [] = []
plain ((id, f) ∷ hs) = (id, λ s. effect (f s) finish) ∷ plain hs

module _ {W : Type 0} where
  -- Telling the handlers of a state, first to last.
  abbrev pub tell : List (ℕ × Handler W) → LifecycleState → W → W
  tell [] s m = m
  tell ((id, f) ∷ hs) s m = tell hs s (f s m)

  -- The handlers in the order in which they hear of a move: as they subscribed on the way up, last
  -- first on the way down.
  abbrev pub in_order :
      LifecycleState → LifecycleState → List (ℕ × Handler W) → List (ℕ × Handler W)
  in_order from to hs =
      if ltb (rank from) (rank to) && not (is_destroyed to) then hs else reverse hs

  -- A registry whose state changes, whose handlers are told, and which at its end lets go of them.
  abbrev pub enter : List (ℕ × Handler W) → LifecycleState → World W → World W
  enter hs next w = record w {
    registry = record w.registry {
      state = next;
      observers = if is_destroyed next then [] else w.observers;
    };
    memory = tell (in_order w.state next hs) next w.memory;
    entered = next ∷ w.entered;
  }

  abbrev pub visit : List (ℕ × Handler W) → List LifecycleState → World W → World W
  visit hs [] w = w
  visit hs (s ∷ ss) w = visit hs ss (enter hs s w)

module _ {W : Type 0} where
  plain-append : (hs ks : List (ℕ × Handler W)) → plain (hs ++ ks) ≡ plain hs ++ plain ks
  plain-append [] ks = refl
  plain-append ((id, f) ∷ hs) ks = rw (plain-append hs ks)

  pub plain-reverse : (hs : List (ℕ × Handler W)) → plain (reverse hs) ≡ reverse (plain hs)
  plain-reverse [] = refl
  plain-reverse ((id, f) ∷ hs) =
      rw (reverse-cons (id, f) hs, plain-append (reverse hs) ((id, f) ∷ []), plain-reverse hs)
        (sym (reverse-cons (id, λ s. effect (f s) finish) (plain hs)))

module _ {W : Type 0} (hs : List (ℕ × Handler W)) where
  pub visit-append :
      (ss ts : List LifecycleState) (w : World W)
      → visit hs (ss ++ ts) w ≡ visit hs ts (visit hs ss w)
  visit-append [] ts w = refl
  visit-append (s ∷ ss) ts w = visit-append ss ts (enter hs s w)

  pub visit-state :
      (ss : List LifecycleState) (w : World W) → (visit hs ss w).state ≡ last w.state ss
  visit-state [] w = refl
  visit-state (s ∷ ss) w = visit-state ss (enter hs s w)

  pub visit-observers :
      (ss : List LifecycleState) (w : World W)
      → all_live ss ≡ true
      → (visit hs ss w).observers ≡ w.observers
  visit-observers [] w h = refl
  visit-observers (s ∷ ss) w h = elim (Bool-cases (is_destroyed s)) [
    | inl d ↦ absurd (cc)
    | inr d ↦ visit-observers ss (enter hs s w) (ground arith) ∙ rw d refl
  ]
