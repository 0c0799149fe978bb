-- ===== src/Lifecycle/Delivery.antt =====
-- What `move_to` of crates/essenty-lifecycle/src/registry.rs does when the observers only use their
-- own memory: which states it visits, and whom it tells of each, in which order.
use essenty.Common.{
  ℕ, zero, suc, ◌<◌, Bool, true, false, ◌&&◌, ◌≡◌, refl, sym, ap, ◌∙◌, List, [], ◌∷◌, some, arith,
  Bool-cases, inl, inr, if◌then◌else◌, length, map, reverse, not,
}
use mathlib.Core.List.{reverse-cons, map-append}
use essenty.Common.Results.{ok, err}
use essenty.Lifecycle.State.{
  LifecycleState, initialized, created, destroyed, is_destroyed, eq_state, eq_state-eq,
  invalid_transition,
}
use essenty.Lifecycle.Script.{Observer}
use essenty.Lifecycle.Registry.{
  World, Observers, deliver, apply, walk, move_within, destroy, move_to, may_reverse, is_downward,
}
use essenty.Lifecycle.Subscribe.{interpret, exec}
use essenty.Lifecycle.Automaton.{
  Moves, creates, starts, resumes, pauses, stops, ends, aborts, walk-Moves,
}
use essenty.Lifecycle.Route.{
  route, route-here, first, route-next, is_destroyed-eq, length-route, route-abort, route-end,
}
use essenty.Lifecycle.Visit.{
  Handler, plain, tell, in_order, enter, visit, plain-reverse, visit-append, visit-state,
  visit-observers,
}

abbrev snapshot : {W : Type 0} → Observers W → List (Observer W)
snapshot os = map (λ p. p.1) os

module _ {W : Type 0} where
  snapshot-reverse : (os : Observers W) → snapshot (reverse os) ≡ reverse (snapshot os)
  snapshot-reverse [] = refl
  snapshot-reverse (o ∷ os) =
      rw
        (
          reverse-cons o os,
          map-append (λ (p : ℕ × Observer W). p.1) (reverse os) (o ∷ []),
          snapshot-reverse os,
        )
        (sym (reverse-cons o.1 (snapshot os)))

  in_order-Moves :
      (hs : List (ℕ × Handler W)) {s t : LifecycleState}
      → Moves s t
      → (if may_reverse t && is_downward t s then reverse hs else hs) ≡ in_order s t hs
  in_order-Moves hs creates = refl
  in_order-Moves hs starts = refl
  in_order-Moves hs resumes = refl
  in_order-Moves hs pauses = refl
  in_order-Moves hs stops = refl
  in_order-Moves hs ends = refl
  in_order-Moves hs aborts = refl

Moves-live : {s t : LifecycleState} → Moves s t → is_destroyed s ≡ false
Moves-live creates = refl
Moves-live starts = refl
Moves-live resumes = refl
Moves-live pauses = refl
Moves-live stops = refl
Moves-live ends = refl
Moves-live aborts = refl

module _ {W : Type 0} (fuel : ℕ) where
  deliver-plain :
      (hs : List (ℕ × Handler W)) (s : LifecycleState) (w : World W)
      → deliver (exec (suc fuel)) (snapshot (plain hs)) s w
        ≡ some (record w { memory = tell hs s w.memory })
  unfolding deliver exec interpret
  deliver-plain [] s w = refl
  deliver-plain ((id, f) ∷ hs) s w = deliver-plain hs s (record w { memory = f s w.memory })

  deliver-ordered :
      (b : Bool) (os : Observers W) (hs : List (ℕ × Handler W)) (s : LifecycleState) (w : World W)
      → os ≡ plain hs
      → deliver (exec (suc fuel)) (if b then reverse (snapshot os) else snapshot os) s w
        ≡ some (record w { memory = tell (if b then reverse hs else hs) s w.memory })
  deliver-ordered true os hs s w e =
      rw (e, ← snapshot-reverse (plain hs), ← plain-reverse hs) (deliver-plain (reverse hs) s w)
  deliver-ordered false os hs s w e = rw e (deliver-plain hs s w)

  pub apply-plain :
      (hs : List (ℕ × Handler W)) (next : LifecycleState) (w : World W)
      → w.observers ≡ plain hs
      → Moves w.state next
      → apply (exec (suc fuel)) next w ≡ some (ok tt, enter hs next w)
  unfolding apply
  apply-plain hs next w e m =
      rw
        (
          Moves-live m,
          deliver-ordered (may_reverse next && is_downward next w.state) w.observers hs next _ e,
          in_order-Moves hs m,
        )
        (elim (Bool-cases (is_destroyed next)) [ inl d ↦ rw d refl | inr d ↦ rw d refl ])

  -- A round of the loop takes the first state off the route.
  walk-plain :
      (hs : List (ℕ × Handler W)) (rounds : ℕ) (target : LifecycleState) (w : World W)
      → w.observers ≡ plain hs
      → is_destroyed w.state ≡ false
      → is_destroyed target ≡ false
      → eq_state target initialized ≡ false
      → length (route w.state target) < rounds
      → walk (exec (suc fuel)) rounds target w ≡ some (ok tt, visit hs (route w.state target) w)
  unfolding walk
  walk-plain hs zero target w e x d i h = absurd (omega arith)
  walk-plain hs (suc rounds) target w e x d i h = elim (Bool-cases (eq_state w.state target)) [
    | inl q ↦ rw (q, route-here w.state target q)
    | inr q ↦
        let to = first w.state target in
        let n = route-next w.state target q x d i in
        rw (q, x, apply-plain hs to w e (walk-Moves w.state target q x d i), n.0)
          (walk-plain hs rounds target (enter hs to w) (rw n.1 e) n.1 d i
            (omega (arith, ap length n.0)))
  ]

  move_within-plain :
      (hs : List (ℕ × Handler W)) (rounds : ℕ) (target : LifecycleState) (w : World W)
      → w.observers ≡ plain hs
      → is_destroyed w.state ≡ false
      → is_destroyed target ≡ false
      → eq_state target initialized ≡ false
      → 3 < rounds
      → move_within (exec (suc fuel)) rounds target w
        ≡ some (ok tt, visit hs (route w.state target) w)
  unfolding move_within
  move_within-plain hs rounds target w e x d i r = elim (Bool-cases (eq_state w.state target)) [
    | inl q ↦ rw (x, q, route-here w.state target q)
    | inr q ↦
        rw (x, q, i)
          (walk-plain hs rounds target w e x d i (omega (arith, length-route w.state target)))
  ]

  pub destroy-plain :
      (hs : List (ℕ × Handler W)) (rounds : ℕ) (w : World W)
      → w.observers ≡ plain hs
      → is_destroyed w.state ≡ false
      → 3 < rounds
      → destroy (exec (suc fuel)) rounds w ≡ some (ok tt, visit hs (route w.state destroyed) w)
  unfolding destroy
  destroy-plain hs rounds w e x r = elim (Bool-cases (eq_state w.state initialized)) [
    | inl q ↦ rw (
      x,
      q,
      apply-plain hs destroyed w e (rw (eq_state-eq w.state initialized q) aborts),
      route-abort w.state q,
    )
    | inr q ↦
        let down = visit hs (route w.state created) w in
        let f = route-end w.state x q in
        rw (
          x,
          q,
          move_within-plain hs rounds created w e x refl refl r,
          apply-plain hs destroyed down (visit-observers hs (route w.state created) w f.2 ∙ e)
              (rw (visit-state hs (route w.state created) w, f.1) ends),
          f.0,
          visit-append hs (route w.state created) (destroyed ∷ []) w,
        )
  ]

  -- From a live registry whose observers only use their own memory, `move_to` with fuel for four
  -- rounds returns: it succeeds, unless it is asked to go back to `Initialized`, it visits the states
  -- of the route one by one, and at each it tells every observer once, in the order of the move.
  pub move_to-plain :
      (hs : List (ℕ × Handler W)) (rounds : ℕ) (target : LifecycleState) (w : World W)
      → w.observers ≡ plain hs
      → is_destroyed w.state ≡ false
      → 3 < rounds
      → move_to (exec (suc fuel)) rounds target w ≡ (
          if eq_state target initialized && not (eq_state w.state initialized)
          then some (err (invalid_transition w.state target), w)
          else some (ok tt, visit hs (route w.state target) w))
  unfolding move_to
  move_to-plain hs rounds target w e x r = elim (Bool-cases (is_destroyed target)) [
    | inl d ↦ rw (is_destroyed-eq target d, x) (destroy-plain hs rounds w e x r)
    | inr d ↦ elim (Bool-cases (eq_state target initialized)) [
      | inr i ↦ rw (x, d, i) (move_within-plain hs rounds target w e x d i r)
      | inl i ↦
          rw (eq_state-eq target initialized i, x)
            (elim (Bool-cases (eq_state w.state initialized)) [
              | inl q ↦ rw (q, route-here w.state initialized q) (unfold move_within in rw (x, q))
              | inr q ↦ rw q (unfold move_within in rw (x, q))
            ])
    ]
  ]
