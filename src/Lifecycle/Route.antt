-- ===== src/Lifecycle/Route.antt =====
-- crates/essenty-lifecycle/src/registry.rs: the states that `move_to` passes through.
-- own memory: which states it visits, and whom it tells of each, in which order.
use essenty.Common.{
  ◌+◌, ◌-◌, ◌≤◌, Bool, true, false, ◌&&◌, ◌≡◌, List, [], ◌∷◌, ◌++◌, arith, if◌then◌else◌, length,
  ltb, not,
}
use essenty.Lifecycle.State.{
  LifecycleState, initialized, created, started, resumed, destroyed, is_destroyed, rank, from_rank,
  eq_state,
}

-- The states that a registry passes through on its way to a target.
abbrev pub route : LifecycleState → LifecycleState → List LifecycleState
route initialized created = created ∷ []
route initialized started = created ∷ started ∷ []
route initialized resumed = created ∷ started ∷ resumed ∷ []
route initialized destroyed = destroyed ∷ []
route created started = started ∷ []
route created resumed = started ∷ resumed ∷ []
route created destroyed = destroyed ∷ []
route started created = created ∷ []
route started resumed = resumed ∷ []
route started destroyed = created ∷ destroyed ∷ []
route resumed created = started ∷ created ∷ []
route resumed started = started ∷ []
route resumed destroyed = started ∷ created ∷ destroyed ∷ []
route _ _ = []

pub route-here : (s t : LifecycleState) → eq_state s t ≡ true → route s t ≡ []
route-here s t h = ground arith

abbrev pub first : LifecycleState → LifecycleState → LifecycleState
first s t = from_rank (if ltb (rank s) (rank t) then rank s + 1 else rank s - 1)

pub route-next :
    (s t : LifecycleState)
    → eq_state s t ≡ false
    → is_destroyed s ≡ false
    → is_destroyed t ≡ false
    → eq_state t initialized ≡ false
    → (route s t ≡ first s t ∷ route (first s t) t) × (is_destroyed (first s t) ≡ false)
route-next s t p q r u = ground arith

pub is_destroyed-eq : (s : LifecycleState) → is_destroyed s ≡ true → s ≡ destroyed
is_destroyed-eq s h = ground arith

pub length-route : (s t : LifecycleState) → length (route s t) ≤ 3
length-route s t = ground arith

abbrev pub last : LifecycleState → List LifecycleState → LifecycleState
last s [] = s
last s (t ∷ ts) = last t ts

abbrev pub all_live : List LifecycleState → Bool
all_live [] = true
all_live (s ∷ ss) = not (is_destroyed s) && all_live ss

pub route-abort :
    (s : LifecycleState) → eq_state s initialized ≡ true → route s destroyed ≡ destroyed ∷ []
route-abort s h = ground arith

pub route-end :
    (s : LifecycleState)
    → is_destroyed s ≡ false
    → eq_state s initialized ≡ false
    → (route s destroyed ≡ route s created ++ destroyed ∷ [])
      × (last s (route s created) ≡ created)
      × (all_live (route s created) ≡ true)
route-end s p q = ground arith
