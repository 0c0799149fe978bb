-- ===== src/Lifecycle/Scripts.antt =====
-- Scripts of crates/essenty-lifecycle/src/registry.rs that call the registry back, at any depth,
-- keep every trace property, and what that says of the states a registry takes on.
use essenty.Common.{ℕ, zero, suc, ◌≡◌, refl, List, [], ◌∷◌, some, arith, ◌&&◌, not, ◌≤◌}
use essenty.Common.Results.{Holds, Holds-bind, Holds-if, Holds-eq}
use essenty.Lifecycle.State.{LifecycleState, destroyed, is_destroyed, ge_state}
use essenty.Lifecycle.Script.{Script, Observer, Subscription, Transition, finish}
use essenty.Lifecycle.Registry.{World, Exec, remove_observer, new}
use essenty.Lifecycle.Subscribe.{
  subscribe, replay, replays, on_transition, settle, do_on_destroy, interpret, exec,
  destroy_observer,
}
use essenty.Lifecycle.Automaton.{
  Reach, here, next, Reach-destroyed, IsPath, current, count, IsPath-destroyed,
}
use essenty.Lifecycle.Invariants.{IsTraceProperty, Kept, command-keeps}

module _ {W : Type 0} (P : World W → Type 0) (rule : IsTraceProperty P) (exec : Exec W)
    (keep : (s : Script W) (w : World W) → P w → Holds P (exec s w)) where
  replay-keeps :
      (s : LifecycleState) (o : Observer W) (rs : List LifecycleState) (w : World W)
      → P w
      → Holds P (replay exec s o rs w)
  unfolding replay
  replay-keeps s o [] w h = h
  replay-keeps s o (r ∷ rs) w h =
      Holds-bind P P _ _
        (Holds-if P (ge_state s r && not (is_destroyed s)) _ _ (λ _. keep (o r) w h) (λ _. h))
        (replay-keeps s o rs)

  subscribe-keeps : (o : Observer W) (w : World W) → P w → Kept P (subscribe exec o w)
  unfolding subscribe
  subscribe-keeps o w h =
      Holds-bind P (λ p. P p.1) _ _ (replay-keeps w.state o replays _ (rule.frame w _ refl refl h))
        λ w' k. k

  settle-keeps :
      (t : Transition) (cell : ℕ) (g : Subscription) (w : World W) → P w → P (settle t cell g w)
  unfolding settle remove_observer
  settle-keeps t cell g w h = rule.frame w _ (ground arith) (ground arith) h

  on_transition-keeps :
      (t : Transition) (c : Script W) (w : World W) → P w → Kept P (on_transition exec t c w)
  unfolding on_transition
  on_transition-keeps t c w h =
      Holds-bind (λ (p : Subscription × World W). P p.1) (λ p. P p.1) _ _
        (subscribe-keeps _ _ (rule.frame w _ refl refl h)) λ p k. settle-keeps t _ p.0 p.1 k

  do_on_destroy-keeps : (c : Script W) (w : World W) → P w → Kept P (do_on_destroy exec c w)
  unfolding do_on_destroy
  do_on_destroy-keeps c w h =
      Holds-if (λ p. P p.1) (is_destroyed w.state) _ _
        (λ _. Holds-bind P (λ p. P p.1) _ _ (keep c w h) (subscribe-keeps (λ s. finish)))
        (λ _. subscribe-keeps (destroy_observer c) w h)

  interpret-keeps :
      (rounds : ℕ) (s : Script W) (w : World W) → P w → Holds P (interpret exec rounds s w)
  unfolding interpret remove_observer
  interpret-keeps rounds finish w h = h
  interpret-keeps rounds (Script.effect f k) w h =
      interpret-keeps rounds k _ (rule.frame w _ refl refl h)
  interpret-keeps rounds (Script.branch k) w h = interpret-keeps rounds (k w.memory) w h
  interpret-keeps rounds (Script.read_state k) w h = interpret-keeps rounds (k w.state) w h
  interpret-keeps rounds (Script.subscribe o k) w h =
      Holds-bind (λ p. P p.1) P _ _ (subscribe-keeps o w h) λ p. interpret-keeps rounds (k p.0) p.1
  interpret-keeps rounds (Script.unsubscribe id k) w h =
      interpret-keeps rounds (k _) _ (rule.frame w _ refl refl h)
  interpret-keeps rounds (Script.command c k) w h =
      Holds-bind (λ p. P p.1) P _ _ (command-keeps P rule exec keep rounds c w h)
        λ p. interpret-keeps rounds (k p.0) p.1
  interpret-keeps rounds (Script.on_transition t c k) w h =
      Holds-bind (λ p. P p.1) P _ _ (on_transition-keeps t c w h)
        λ p. interpret-keeps rounds (k p.0) p.1
  interpret-keeps rounds (Script.do_on_destroy c k) w h =
      Holds-bind (λ p. P p.1) P _ _ (do_on_destroy-keeps c w h)
        λ p. interpret-keeps rounds (k p.0) p.1
  interpret-keeps rounds (Script.read_tracker cell k) w h = interpret-keeps rounds (k _) w h
  interpret-keeps rounds (Script.write_tracker cell t k) w h =
      interpret-keeps rounds k _ (rule.frame w _ refl refl h)

exec-keeps :
    {W : Type 0} (P : World W → Type 0)
    → IsTraceProperty P
    → (fuel : ℕ) (s : Script W) (w : World W) → P w
    → Holds P (exec fuel s w)
unfolding exec
exec-keeps P rule zero s w h = tt
exec-keeps P rule (suc fuel) s w h =
    interpret-keeps P rule (exec fuel) (exec-keeps P rule fuel) fuel s w h

-- The registry is in the state that it entered last, and the states entered form a path.
pub record IsTraced {W : Type 0} (w : World W) : Type 0 where
  pub latest : w.state ≡ current w.entered
  pub path : IsPath w.entered

IsTraced-rule : {W : Type 0} → IsTraceProperty (IsTraced {W = W})
IsTraced-rule = record {
  enter = λ next w m h. record { latest = refl; path = (rw (← h.latest) m, h.path) };
  frame = λ w w' s e h. record { latest = rw (s, e) h.latest; path = rw e h.path };
}

-- Whatever a script and the observers that it sets off do to a new registry, the states that it
-- takes on form a path of the automaton from `Initialized` to its state, on which `Destroyed` stands
-- at most once.
pub exec-IsPath :
    {W : Type 0} (m : W) (fuel : ℕ) (s : Script W) (w : World W)
    → exec fuel s (new m) ≡ some w
    → IsPath w.entered × (w.state ≡ current w.entered) × (count destroyed w.entered ≤ 1)
unfolding new
exec-IsPath {W} m fuel s w e =
    let traced : IsTraced w =
      Holds-eq IsTraced _
        (exec-keeps IsTraced IsTraced-rule fuel s (new m) (record { latest = refl; path = tt }))
        e in
    (traced.path, traced.latest, IsPath-destroyed w.entered traced.path)

Reach-rule : {W : Type 0} (s : LifecycleState) → IsTraceProperty (λ (w : World W). Reach s w.state)
Reach-rule s = record { enter = λ t w m h. next h m; frame = λ w w' e _ h. rw e h }

-- A run of any script, whatever its observers do, leads from the state of the registry to one that
-- the automaton reaches from it.
pub exec-Reach :
    {W : Type 0} (fuel : ℕ) (s : Script W) (w w' : World W)
    → exec fuel s w ≡ some w'
    → Reach w.state w'.state
exec-Reach fuel s w w' e =
    Holds-eq (λ u. Reach w.state u.state) _
      (exec-keeps (λ u. Reach w.state u.state) (Reach-rule w.state) fuel s w here) e

-- No script brings a destroyed registry back.
pub exec-destroyed :
    {W : Type 0} (fuel : ℕ) (s : Script W) (w w' : World W)
    → exec fuel s w ≡ some w'
    → w.state ≡ destroyed
    → w'.state ≡ destroyed
exec-destroyed fuel s w w' e d = Reach-destroyed d (exec-Reach fuel s w w' e)
