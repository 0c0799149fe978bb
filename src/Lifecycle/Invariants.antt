-- ===== src/Lifecycle/Invariants.antt =====
-- A rule for the registry of crates/essenty-lifecycle/src/registry.rs: what every move of the
-- automaton keeps, every operation and every script keeps, however its observers call back.
use essenty.Common.{
  ℕ, zero, suc, false, ◌≡◌, refl, List, [], ◌∷◌, Option, some, arith, inl, inr, Bool-cases, not,
}
use essenty.Common.Results.{ok, err, Holds, Holds-bind, Holds-if, Holds-weaken}
use essenty.Lifecycle.State.{
  LifecycleState, LifecycleError, initialized, created, started, resumed, destroyed, is_destroyed,
  eq_state, eq_state-eq,
}
use essenty.Lifecycle.Script.{Script, Observer, Command}
use essenty.Lifecycle.Registry.{
  World, Exec, Answer, deliver, apply, step, walk, move_within, destroy, move_to, run_command,
}
use essenty.Lifecycle.Automaton.{
  Moves, creates, starts, resumes, pauses, stops, ends, aborts, walk-Moves,
}

-- A property of the worlds that the moves keep, and that looks only at the state and the states
-- entered.
pub record IsTraceProperty {W : Type 0} (P : World W → Type 0) : Type 0 where
  pub enter :
      (next : LifecycleState) (w : World W)
      → Moves w.state next
      → P w
      → P (record w { registry = record w.registry { state = next }; entered = next ∷ w.entered })
  pub frame : (w w' : World W) → w'.state ≡ w.state → w'.entered ≡ w.entered → P w → P w'

abbrev pub Kept : {W A : Type 0} → (World W → Type 0) → Option (A × World W) → Type 0
Kept P r = Holds (λ p. P p.1) r

-- A walk that succeeds ends at its target.
abbrev Arrives : {W : Type 0} → (World W → Type 0) → LifecycleState → Answer × World W → Type 0
Arrives P target p = P p.1 × (p.0 ≡ ok tt → p.1.state ≡ target)

continue-Holds :
    {W : Type 0} (Q : Answer × World W → Type 0) (answer : Answer) (w : World W)
    (rest : Option (Answer × World W))
    → Holds Q rest
    → ((e : LifecycleError) → Q (err e, w))
    → Holds Q (elim answer [ ok _ ↦ rest | err e ↦ some (err e, w) ])
continue-Holds Q (ok u) w rest h k = h
continue-Holds Q (err e) w rest h k = k e

module _ {W : Type 0} (P : World W → Type 0) (rule : IsTraceProperty P) (exec : Exec W)
    (keep : (s : Script W) (w : World W) → P w → Holds P (exec s w)) where
  deliver-keeps :
      (os : List (Observer W)) (next : LifecycleState) (w : World W)
      → P w
      → Holds P (deliver exec os next w)
  unfolding deliver
  deliver-keeps [] next w h = h
  deliver-keeps (o ∷ os) next w h =
      Holds-bind P P (exec (o next) w) _ (keep (o next) w h) (deliver-keeps os next)

  apply-keeps :
      (next : LifecycleState) (w : World W)
      → (is_destroyed w.state ≡ false → Moves w.state next)
      → P w
      → Kept P (apply exec next w)
  unfolding apply
  apply-keeps next w m h =
      Holds-if (λ p. P p.1) (is_destroyed w.state) _ _ (λ _. h)
        λ live.
          Holds-bind P (λ p. P p.1) _ _ (deliver-keeps _ next _ (rule.enter next w (m live) h))
            λ told k. elim (Bool-cases (is_destroyed next)) [
              | inl d ↦ rw d (rule.frame told _ refl refl k)
              | inr d ↦ rw d k
            ]

  walk-keeps :
      (rounds : ℕ) (target : LifecycleState) (w : World W)
      → is_destroyed target ≡ false
      → eq_state target initialized ≡ false
      → P w
      → Holds (Arrives P target) (walk exec rounds target w)
  unfolding walk
  walk-keeps zero target w d i h = tt
  walk-keeps (suc rounds) target w d i h =
      Holds-if (Arrives P target) (eq_state w.state target) _ _
        (λ e. (h, λ _. eq_state-eq w.state target e))
        λ e.
          Holds-if (Arrives P target) (is_destroyed w.state) _ _ (λ x. (h, λ k. cc))
            λ x.
              Holds-bind (λ p. P p.1) (Arrives P target) _ _
                (apply-keeps _ w (λ _. walk-Moves w.state target e x d i) h)
                λ p k.
                  continue-Holds (Arrives P target) p.0 p.1 _ (walk-keeps rounds target p.1 d i k)
                    (λ x. (k, λ q. cc))

  move_within-keeps :
      (rounds : ℕ) (target : LifecycleState) (w : World W)
      → is_destroyed target ≡ false
      → P w
      → Holds (Arrives P target) (move_within exec rounds target w)
  unfolding move_within
  move_within-keeps rounds target w d h =
      Holds-if (Arrives P target) (is_destroyed w.state) _ _ (λ x. (h, λ k. cc))
        λ x.
          Holds-if (Arrives P target) (eq_state w.state target) _ _
            (λ e. (h, λ _. eq_state-eq w.state target e))
            λ e.
              Holds-if (Arrives P target) (eq_state target initialized) _ _ (λ i. (h, λ k. cc))
                (λ i. walk-keeps rounds target w d i h)

  -- After the walk to `created` the registry is destroyed from there.
  finish_destroy :
      (answer : Answer) (w : World W)
      → Arrives P created (answer, w)
      → Kept P (elim answer [ ok _ ↦ apply exec destroyed w | err e ↦ some (err e, w) ])
  finish_destroy (ok u) w k = apply-keeps destroyed w (λ _. rw (k.1 refl) ends) k.0
  finish_destroy (err e) w k = k.0

  destroy-keeps : (rounds : ℕ) (w : World W) → P w → Kept P (destroy exec rounds w)
  unfolding destroy
  destroy-keeps rounds w h =
      Holds-if (λ p. P p.1) (is_destroyed w.state) _ _ (λ x. h)
        λ x.
          Holds-if (λ p. P p.1) (eq_state w.state initialized) _ _
            (λ e. apply-keeps destroyed w (λ _. rw (eq_state-eq w.state initialized e) aborts) h)
            λ e.
              Holds-bind (Arrives P created) (λ p. P p.1) _ _
                (move_within-keeps rounds created w refl h) λ p k. finish_destroy p.0 p.1 k

  move_to-keeps :
      (rounds : ℕ) (target : LifecycleState) (w : World W)
      → P w
      → Kept P (move_to exec rounds target w)
  unfolding move_to
  move_to-keeps rounds target w h =
      Holds-if (λ p. P p.1) (is_destroyed w.state) _ _ (λ x. h)
        λ x.
          Holds-if (λ p. P p.1) (is_destroyed target) _ _ (λ d. destroy-keeps rounds w h)
            (λ d.
              Holds-weaken (Arrives P target) (λ p. P p.1) _ (λ p k. k.0)
                (move_within-keeps rounds target w d h))

  step-keeps :
      (from to : LifecycleState) (w : World W) → Moves from to → P w → Kept P (step exec from to w)
  unfolding step
  step-keeps from to w m h =
      Holds-if (λ p. P p.1) (is_destroyed w.state) _ _ (λ x. h)
        λ x.
          Holds-if (λ p. P p.1) (not (eq_state w.state from)) _ _ (λ e. h)
            λ e. apply-keeps to w (λ _. rw (eq_state-eq w.state from (ground arith)) m) h

  pub command-keeps :
      (rounds : ℕ) (c : Command) (w : World W) → P w → Kept P (run_command exec rounds c w)
  unfolding run_command
  command-keeps rounds (Command.move_to target) w h = move_to-keeps rounds target w h
  command-keeps rounds Command.create w h = step-keeps initialized created w creates h
  command-keeps rounds Command.start w h = step-keeps created started w starts h
  command-keeps rounds Command.resume w h = step-keeps started resumed w resumes h
  command-keeps rounds Command.pause w h = step-keeps resumed started w pauses h
  command-keeps rounds Command.stop w h = step-keeps started created w stops h
  command-keeps rounds Command.destroy w h = destroy-keeps rounds w h
