-- ===== src/Lifecycle/Hooks.antt =====
-- The helpers `do_on_…` of crates/essenty-lifecycle/src/registry.rs: how often the closure of
-- `on_transition` runs its callback over a sequence of deliveries.
use essenty.Common.{
  ℕ, zero, suc, ◌<◌, Bool, true, false, ◌&&◌, ◌||◌, ◌≡◌, refl, sym, ◌∙◌, ap, List, [], ◌∷◌, Option,
  some, arith, Bool-cases, Option-cases, inl, inr, if◌then◌else◌, length, set,
}
use essenty.Common.Results.{◌>>=◌}
use essenty.Lifecycle.State.{LifecycleState, eq_state}
use essenty.Lifecycle.Script.{Observer, Transition, Tracker, finish, effect}
use essenty.Lifecycle.Registry.{World, Exec, remove_observer}
use essenty.Lifecycle.Subscribe.{
  interpret, exec, react, transition_observer, fires, tracker_at, set_tracker, remove_from,
}

-- How often `to` comes right after `from`.
abbrev pub passes : Transition → LifecycleState → List LifecycleState → ℕ
passes t previous [] = 0
passes t previous (s ∷ ss) = elim (eq_state previous t.from && eq_state s t.to) [
  | true ↦ suc (passes t s ss)
  | false ↦ passes t s ss
]

abbrev pub at_most_once : ℕ → ℕ
at_most_once zero = 0
at_most_once (suc n) = 1

-- How often the callback is due: at each passage, or at the first if the helper is for one.
abbrev pub due : Transition → Tracker → List LifecycleState → ℕ
due t cells ss =
    if t.once
    then (if cells.fired then 0 else at_most_once (passes t cells.previous ss))
    else passes t cells.previous ss

abbrev pub iterate : {W : Type 0} → ℕ → (W → W) → W → W
iterate zero f m = m
iterate (suc n) f m = iterate n f (f m)

tracker_at-set :
    (cell : ℕ) (cells : List Tracker) (t : Tracker)
    → cell < length cells
    → tracker_at cell (set cells cell t) ≡ t
tracker_at-set cell [] t h = absurd (omega arith)
tracker_at-set zero (c ∷ cells) t h = refl
tracker_at-set (suc cell) (c ∷ cells) t h = tracker_at-set cell cells t (omega arith)

length-set :
    (cell : ℕ) (cells : List Tracker) (t : Tracker) → length (set cells cell t) ≡ length cells
length-set cell [] t = refl
length-set zero (c ∷ cells) t = refl
length-set (suc cell) (c ∷ cells) t = ap suc (length-set cell cells t)

or-false : (b : Bool) → b ≡ (b || false)
or-false b = ground arith

or-true : (b : Bool) → (b || true) ≡ true
or-true b = ground arith

module _ {W : Type 0} where
  -- An observer hears a sequence of states.
  pub hear : Exec W → Observer W → List LifecycleState → World W → Option (World W)
  hear exec o [] w = some w
  hear exec o (s ∷ ss) w = exec (o s) w >>= hear exec o ss

  let_go : Transition → Option ℕ → World W → World W
  let_go t slot w = if t.once then remove_from slot w else w

  heard_with : Transition → ℕ → (W → W) → LifecycleState → World W → Tracker → World W
  unfolding let_go
  heard_with t cell f s w cells =
      if fires t cells s
      then (let gone =
            let_go t cells.id_slot
              (set_tracker cell (record cells { previous = s; fired = true }) w) in
          record gone { memory = f w.memory })
      else set_tracker cell (record cells { previous = s }) w

  react-heard :
      (t : Transition) (cell : ℕ) (f : W → W) (fuel : ℕ) (s : LifecycleState) (w : World W)
      (cells : Tracker)
      → interpret (exec fuel) fuel (react t cell (effect f finish) s cells) w
        ≡ some (heard_with t cell f s w cells)
  unfolding interpret react heard_with remove_observer
  react-heard t cell f fuel s w cells = elim (Bool-cases (fires t cells s)) [
    | inr q ↦ rw q refl
    | inl q ↦ rw q (elim (Bool-cases t.once) [
      | inr o ↦ rw o refl
      | inl o ↦
          rw o (elim (Option-cases cells.id_slot) [ inl n ↦ rw n refl | inr (id, n) ↦ rw n refl ])
    ])
  ]

  exec-heard :
      (t : Transition) (cell : ℕ) (f : W → W) (fuel : ℕ) (s : LifecycleState) (w : World W)
      → exec (suc fuel) (transition_observer t cell (effect f finish) s) w
        ≡ some (heard_with t cell f s w (tracker_at cell w.trackers))
  unfolding exec interpret transition_observer
  exec-heard t cell f fuel s w = react-heard t cell f fuel s w (tracker_at cell w.trackers)

  -- What a delivery does to the cell, and to the memory.
  heard_with_lem :
      (t : Transition) (cell : ℕ) (f : W → W) (s : LifecycleState) (w : World W) (cells : Tracker)
      → let w' = heard_with t cell f s w cells in
        (w'.trackers
          ≡ set w.trackers cell
              (record cells { previous = s; fired = cells.fired || fires t cells s }))
        × (w'.memory ≡ (if fires t cells s then f w.memory else w.memory))
  unfolding heard_with remove_observer
  heard_with_lem t cell f s w cells = elim (Bool-cases (fires t cells s)) [
    | inr q ↦ rw q (
      ap (λ b. set w.trackers cell (record cells { previous = s; fired = b }))
          (or-false cells.fired),
      refl,
    )
    | inl q ↦
        rw (q, or-true cells.fired)
          (elim (Bool-cases t.once) [
            | inr o ↦ rw o (refl, refl)
            | inl o ↦ rw o (elim (Option-cases cells.id_slot) [
              | inl n ↦ rw n (refl, refl)
              | inr (id, n) ↦ rw n (refl, refl)
            ])
          ])
  ]

  -- The passage that is due now, and those due later.
  due-step :
      (t : Transition) (cells : Tracker) (s : LifecycleState) (ss : List LifecycleState) (f : W → W)
      (m : W)
      → iterate (due t cells (s ∷ ss)) f m
        ≡ iterate
            (due t (record cells { previous = s; fired = cells.fired || fires t cells s }) ss)
            f
            (if fires t cells s then f m else m)
  due-step t cells s ss f m = ground arith

  -- Over any sequence of states that it hears, the closure of a helper `do_on_…` runs its callback
  -- exactly as often as it is due: at each `from` followed by `to`, or only at the first of these if
  -- the helper is for one. The previous state starts as the cell has it.
  pub hear-due :
      (t : Transition) (cell : ℕ) (f : W → W) (fuel : ℕ) (ss : List LifecycleState) (w : World W)
      → cell < length w.trackers
      → (w' : World W) × (hear (exec (suc fuel)) (transition_observer t cell (effect f finish)) ss w
          ≡ some w')
        × (w'.memory ≡ iterate (due t (tracker_at cell w.trackers) ss) f w.memory)
  unfolding hear
  hear-due t cell f fuel [] w h = (w, refl, ground arith)
  hear-due t cell f fuel (s ∷ ss) w h =
      let cells = tracker_at cell w.trackers in
      let told = heard_with t cell f s w cells in
      let l = heard_with_lem t cell f s w cells in
      let later = hear-due t cell f fuel ss told (
        rw
          (
            l.0,
            length-set cell w.trackers
                (record cells { previous = s; fired = cells.fired || fires t cells s }),
          )
          h) in
      (
        later.0,
        rw (exec-heard t cell f fuel s w) later.1,
        later.2
            ∙ rw
                (
                  l.0,
                  tracker_at-set cell w.trackers
                      (record cells { previous = s; fired = cells.fired || fires t cells s }) h,
                  l.1,
                )
                (sym (due-step t cells s ss f w.memory)),
      )
