-- ===== src/Tokio/Cancelling.antt =====
-- crates/essenty-lifecycle-tokio/src/scope.rs: what the end of the lifecycle, or of the scope, does to the
-- tasks of a scope.
use essenty.Common.{
  ℕ, suc, Bool, true, false, ◌||◌, ◌≡◌, refl, sym, ap, ◌∙◌, Option, none, some, List, [], ◌∷◌,
  arith, Bool-cases, inl, inr, subst, ◌==◌,
}
use essenty.Common.Results.{ok, err}
use essenty.Lifecycle.State.{
  LifecycleState, initialized, created, started, resumed, destroyed, is_destroyed,
}
use essenty.Lifecycle.Script.{Subscription, Tracker, effect, finish}
use essenty.Lifecycle.Registry.{World, destroy, move_within, walk, apply, deliver, remove_observer}
use essenty.Lifecycle.Subscribe.{
  exec, interpret, destroy_observer, remove_from, do_on_destroy, subscribe, replay,
}
use essenty.Tokio.Runtime.{Tokio}
use essenty.Tokio.Scope.{
  Tasks, SpawnError, Scope, abort_all, cancel, check_alive, spawn_task, spawn_local, drop,
  with_handle,
}
use essenty.Tokio.Children.{is_launched}

-- A registry with one observer, which reacts to the end of the lifecycle.
module _ {W : Type 0} (f : W → W) (fuel rounds id : ℕ) where
  abbrev with_hook : LifecycleState → ℕ → List Tracker → W → List LifecycleState → World W
  with_hook state next_id trackers memory entered = record {
    registry = record {
      state = state;
      observers = (id, destroy_observer (effect f finish)) ∷ [];
      next_id = next_id;
    };
    trackers = trackers;
    memory = memory;
    entered = entered;
  }

  abbrev Ended : World W → W → Type 0
  Ended w memory =
      (w' : World W) × (destroy (exec (suc fuel)) (suc (suc (suc (suc rounds)))) w
        ≡ some (ok tt, w'))
      × (w'.state ≡ destroyed)
      × (w'.memory ≡ memory)

  destroy-hook :
      (state : LifecycleState) (n : ℕ) (ts : List Tracker) (m : W) (es : List LifecycleState)
      → is_destroyed state ≡ false
      → Ended (with_hook state n ts m es) (f m)
  unfolding destroy move_within walk apply deliver exec interpret destroy_observer
  destroy-hook initialized n ts m es h = (_, refl, refl, refl)
  destroy-hook created n ts m es h = (_, refl, refl, refl)
  destroy-hook started n ts m es h = (_, refl, refl, refl)
  destroy-hook resumed n ts m es h = (_, refl, refl, refl)
  destroy-hook destroyed n ts m es h = cc

  destroy-hooked :
      (w : World W)
      → w.observers ≡ (id, destroy_observer (effect f finish)) ∷ []
      → is_destroyed w.state ≡ false
      → Ended w (f w.memory)
  destroy-hooked w e x =
      subst (λ v. Ended v (f w.memory))
        (ap (λ os. record w { registry = record w.registry { observers = os } }) (sym e))
        (destroy-hook w.state w.next_id w.trackers w.memory w.entered x)

or_true : (a : Bool) → (a || true) ≡ true
or_true a = ground arith

module _ (tokio : Tokio) where
  open tokio use {Runtime, abort, requested, requested-abort}

  still-requested :
      (handles : List ℕ) (r : Runtime) (id : ℕ)
      → requested id r ≡ true
      → requested id (abort_all tokio handles r) ≡ true
  still-requested [] r id h = h
  still-requested (handle ∷ handles) r id h =
      still-requested handles (abort handle r) id
        (requested-abort id handle r ∙ ap (λ b. id == handle || b) h ∙ or_true (id == handle))

  requested-abort_all :
      (handles : List ℕ) (r : Runtime) (id : ℕ)
      → is_launched id handles ≡ true
      → requested id (abort_all tokio handles r) ≡ true
  requested-abort_all [] r id h = cc
  requested-abort_all (handle ∷ handles) r id h = elim (Bool-cases (id == handle)) [
    | inl q ↦
        still-requested handles (abort handle r) id
          (requested-abort id handle r ∙ ap (λ b. b || requested id r) q)
    | inr q ↦
        requested-abort_all handles (abort handle r) id
          (sym (ap (λ b. b || is_launched id handles) q) ∙ h)
  ]

  -- What a cancelled scope has let go of.
  abbrev pub Cancelled : List ℕ → Tasks tokio → Type 0
  Cancelled handles m =
      (m.tasks ≡ []) × ((id : ℕ) → is_launched id handles ≡ true → requested id m.runtime ≡ true)

  cancel-Cancelled : (m : Tasks tokio) → Cancelled m.tasks (cancel tokio m)
  unfolding cancel
  cancel-Cancelled m = (refl, λ id h. requested-abort_all m.tasks m.runtime id h)

  -- Both ways to start a task are refused, and change nothing.
  abbrev pub Refuses : Scope tokio → Type 0
  Refuses w =
      (meanwhile : Runtime → Runtime)
      → (spawn_task tokio meanwhile w ≡ (err SpawnError.destroyed, w))
        × ((local_set : Bool)
            → spawn_local tokio meanwhile local_set w ≡ some (err SpawnError.destroyed, w))

  refused : (w : Scope tokio) → w.state ≡ destroyed → Refuses w
  unfolding spawn_task spawn_local check_alive
  refused w e meanwhile = (rw e refl, λ local_set. rw e refl)

  remove_from-memory : (o : Option ℕ) (w : Scope tokio) → (remove_from o w).memory ≡ w.memory
  unfolding remove_observer
  remove_from-memory none w = refl
  remove_from-memory (some id) w = refl

  drop-memory :
      (guard : Subscription) (w : Scope tokio) → (drop tokio guard w).memory ≡ cancel tokio w.memory
  unfolding drop
  drop-memory guard w = remove_from-memory guard.inner (record w { memory = cancel tokio w.memory })

  -- The only observer is the one that cancels the tasks.
  abbrev pub IsHooked : ℕ → Scope tokio → Type 0
  IsHooked id w = w.observers ≡ (id, destroy_observer (effect (cancel tokio) finish)) ∷ []

  abbrev Built : ℕ → Scope tokio → Scope tokio → Type 0
  Built fuel v w =
      (guard : Subscription) × (with_handle tokio (exec (suc fuel)) v ≡ some (guard, w))
      × IsHooked v.next_id w
      × (w.state ≡ v.state)

  with_handle-state :
      (fuel : ℕ) (state : LifecycleState) (n : ℕ) (ts : List Tracker) (m : Tasks tokio)
      (es : List LifecycleState)
      → is_destroyed state ≡ false
      → (w : Scope tokio) × Built fuel
          (record {
            registry = record { state = state; observers = []; next_id = n };
            trackers = ts;
            memory = m;
            entered = es;
          })
          w
  unfolding with_handle do_on_destroy subscribe replay destroy_observer exec interpret
  with_handle-state fuel initialized n ts m es h = (_, (_, refl, refl, refl))
  with_handle-state fuel created n ts m es h = (_, (_, refl, refl, refl))
  with_handle-state fuel started n ts m es h = (_, (_, refl, refl, refl))
  with_handle-state fuel resumed n ts m es h = (_, (_, refl, refl, refl))
  with_handle-state fuel destroyed n ts m es h = cc

  with_handle-Built :
      (fuel : ℕ) (v : Scope tokio)
      → v.observers ≡ []
      → is_destroyed v.state ≡ false
      → (w : Scope tokio) × Built fuel v w
  with_handle-Built fuel v e x =
      subst (λ u. (w : Scope tokio) × Built fuel u w)
        (ap (λ os. record v { registry = record v.registry { observers = os } }) (sym e))
        (with_handle-state fuel v.state v.next_id v.trackers v.memory v.entered x)

  destroy-Cancelled :
      (fuel rounds id : ℕ) (w : Scope tokio)
      → IsHooked id w
      → is_destroyed w.state ≡ false
      → ((w' : Scope tokio) × (destroy (exec (suc fuel)) (suc (suc (suc (suc rounds)))) w
            ≡ some (ok tt, w'))
          × Cancelled w.memory.tasks w'.memory
          × Refuses w')
        × ((guard : Subscription) → Cancelled w.memory.tasks (drop tokio guard w).memory)
  destroy-Cancelled fuel rounds id w e x =
      let d = destroy-hooked (cancel tokio) fuel rounds id w e x in
      (
        (
          d.0,
          d.1,
          subst (Cancelled w.memory.tasks) (sym d.3) (cancel-Cancelled w.memory),
          refused d.0 d.2,
        ),
        λ guard.
            subst (Cancelled w.memory.tasks) (sym (drop-memory guard w))
              (cancel-Cancelled w.memory),
      )

  -- A scope that `with_handle` builds on a live lifecycle without observers, whatever tasks it tracks
  -- since: destroying the lifecycle, with fuel for four rounds, succeeds from any live state, asks every
  -- tracked task to abort and forgets them, and a later `spawn` or `spawn_local` is refused, with or
  -- without a local set, and starts nothing. A drop of the scope asks its tasks to abort just so.
  pub scope_cancels :
      (fuel rounds : ℕ) (v : Scope tokio)
      → v.observers ≡ []
      → is_destroyed v.state ≡ false
      → (guard : Subscription) × (w : Scope tokio) × (with_handle tokio (exec (suc fuel)) v
          ≡ some (guard, w))
        × ((m : Tasks tokio)
            → ((w' : Scope tokio) × (destroy
                    (exec (suc fuel))
                    (suc (suc (suc (suc rounds))))
                    (record w { memory = m })
                  ≡ some (ok tt, w'))
                × Cancelled m.tasks w'.memory
                × Refuses w')
              × Cancelled m.tasks (drop tokio guard (record w { memory = m })).memory)
  scope_cancels fuel rounds v e x =
      let b = with_handle-Built fuel v e x in
      (
        b.1.0,
        b.0,
        b.1.1,
        λ m.
            (let d =
                destroy-Cancelled fuel rounds v.next_id (record b.0 { memory = m }) b.1.2
                  (ap is_destroyed b.1.3 ∙ x) in
              (d.0, d.1 b.1.0)),
      )
