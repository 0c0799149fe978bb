-- ===== src/Back/Termination.antt =====
-- crates/essenty-back-handler/src/dispatcher.rs: callbacks queue commands that may dispatch again;
-- dispatches nest at most two deep.
use essenty.Common.{
  ℕ, zero, suc, Bool, true, false, ◌||◌, not, ◌≡◌, refl, ◌≤◌, Option, none, some, List, [], ◌∷◌,
  ◌⊎◌, inl, inr, is_some, arith,
}
use essenty.Common.Results.{◌>>=◌, Ends, Ends-bind, Ends-if, Ends-weaken}
use essenty.Common.Order.{ℕ_ord}
use essenty.Common.Map.{get, contains_key, get-remove, same_refl}
use essenty.Back.Event.{BackEvent, cancelled_event}
use essenty.Back.Dispatcher.{
  BackCommand, Scene, Entry, notify_enabled_changed, put_entry, set_entry_enabled, enable_found,
  call_back, call_entry,
}
use essenty.Back.Gestures.{
  Dispatch, same_id, put_active, without_entry, release, unregister_by, run_command, run_commands,
  dispatch_to,
}
use essenty.Back.Soundness.{
  Sound, IsAware, Keeps, Keeps-trans, notify-fields, notify-IsAware, notify-Sound, notify-Keeps,
  put_entry-Sound, without_entry-Sound,
}

-- The result of a run from `s`.
abbrev pub After : {F W : Type 0} → Scene F W → Scene F W → Type 0
After s t = Sound t × Keeps s t

-- A dispatch while no gesture has an owner.
abbrev pub IsCalm : {F W : Type 0} → Dispatch F W → Type 0
IsCalm {F} {W} dispatch =
    (id : ℕ) (event : BackEvent F) (s : Scene F W)
    → s.active_gesture ≡ none
    → Sound s
    → Ends (λ r. After s r.1) (dispatch id event true s)

abbrev pub Fits : {F W : Type 0} → Dispatch F W → Scene F W → Type 0
Fits dispatch s = (s.active_gesture ≡ none) ⊎ IsCalm dispatch

-- What `unregister` leaves: it reports whether the id was there, the id is gone, and listeners that
-- knew the aggregate know it still.
abbrev pub Unregistered : {F W : Type 0} → ℕ → Scene F W → Bool × Scene F W → Type 0
Unregistered id s r =
    After s r.1
    × (r.0 ≡ contains_key id s.entries)
    × (contains_key id r.1.entries ≡ false)
    × (IsAware s → IsAware r.1)

not-same_id : (a : Option ℕ) (id : ℕ) → a ≡ none → same_id a id ≡ false
not-same_id a id e = rw e refl

or-true : (b : Bool) → (b || true) ≡ true
or-true b = ground arith

module _ {F W : Type 0} where
  Fits-Keeps :
      (dispatch : Dispatch F W) (s t : Scene F W) → Keeps s t → Fits dispatch s → Fits dispatch t
  Fits-Keeps dispatch s t k (inr calm) = inr calm
  Fits-Keeps dispatch s t k (inl e) = inl (ground arith)

  release-Ends :
      (dispatch : Dispatch F W) (id : ℕ) (s : Scene F W)
      → Sound s
      → Fits dispatch s
      → Ends (λ t. After s t × (same_id t.active_gesture id ≡ false)) (release dispatch id s)
  unfolding release
  release-Ends dispatch id s h fits =
      Ends-if (λ t. After s t × (same_id t.active_gesture id ≡ false)) (same_id s.active_gesture id)
        _ _ (λ hit. owned hit fits) (λ miss. ((h, (inl refl, refl, refl)), miss))
    where
      owned :
          same_id s.active_gesture id ≡ true
          → Fits dispatch s
          → Ends
              (λ t. After s t × (same_id t.active_gesture id ≡ false))
              (dispatch id cancelled_event true (put_active none s) >>= λ (handled, s'). some s')
      owned hit (inl e) = absurd (cc (not-same_id s.active_gesture id e))
      owned hit (inr calm) =
          Ends-bind (λ r. After (put_active none s) r.1)
            (λ t. After s t × (same_id t.active_gesture id ≡ false)) _ _
            (calm id cancelled_event (put_active none s) refl (h.0, tt))
            (λ r k.
              let gone : r.1.active_gesture ≡ none = ground (arith, k) in
              ((k.0, (inr gone, k.1.1, k.1.2)), not-same_id r.1.active_gesture id gone))

  gone_after :
      (id : ℕ) (t : Scene F W)
      → Sound t
      → contains_key id (notify_enabled_changed (without_entry id t)).entries ≡ false
  gone_after id t h =
      rw ((notify-fields (without_entry id t)).0, get-remove id id t.entries h.0, same_refl id) refl

  pub unregister_by-Ends :
      (dispatch : Dispatch F W) (id : ℕ) (s : Scene F W)
      → Sound s
      → Fits dispatch s
      → Ends (Unregistered id s) (unregister_by dispatch id s)
  unfolding unregister_by
  unregister_by-Ends dispatch id s h fits =
      Ends-if (Unregistered id s) (not (contains_key id s.entries)) _ _
        (λ absent. ((h, (inl refl, refl, refl)), ground arith, ground arith, λ w. w))
        λ present.
          Ends-bind (λ t. After s t × (same_id t.active_gesture id ≡ false)) (Unregistered id s) _ _
            (release-Ends dispatch id s h fits)
            λ t k.
              let left = without_entry id t in
              (
                (
                  notify-Sound left (without_entry-Sound id t k.1 k.0.0),
                  Keeps-trans s left (notify_enabled_changed left) k.0.1 (notify-Keeps left),
                ),
                ground arith,
                gone_after id t k.0.0,
                λ _. notify-IsAware left,
              )

  enable_found-After :
      (id : ℕ) (enabled : Bool) (o : Option (Entry F W)) (s : Scene F W)
      → Sound s
      → After s (enable_found id enabled o s).1
  enable_found-After id enabled none s h = (h, (inl refl, refl, refl))
  enable_found-After id enabled (some entry) s h =
      let t = put_entry id (record entry { enabled = enabled }) s in
      (notify-Sound t (put_entry-Sound id (record entry { enabled = enabled }) s h), notify-Keeps t)

  run_command-Ends :
      (dispatch : Dispatch F W) (c : BackCommand F W) (s : Scene F W)
      → Sound s
      → Fits dispatch s
      → Ends (After s) (run_command dispatch c s)
  unfolding run_command set_entry_enabled
  run_command-Ends dispatch (BackCommand.register id p e cb) s h fits = (
    put_entry-Sound id (record { priority = p; enabled = e; callback = cb }) s h,
    (inl refl, refl, refl),
  )
  run_command-Ends dispatch (BackCommand.unregister id) s h fits =
      Ends-bind (Unregistered id s) (After s) _ _ (unregister_by-Ends dispatch id s h fits)
        (λ r k. k.0)
  run_command-Ends dispatch (BackCommand.set_enabled id e) s h fits =
      enable_found-After id e (get id s.entries) s h

  run_commands-Ends :
      (dispatch : Dispatch F W) (cs : List (BackCommand F W)) (s : Scene F W)
      → Sound s
      → Fits dispatch s
      → Ends (After s) (run_commands dispatch cs s)
  unfolding run_commands
  run_commands-Ends dispatch [] s h fits = (h, (inl refl, refl, refl))
  run_commands-Ends dispatch (c ∷ cs) s h fits =
      Ends-bind (After s) (After s) _ _ (run_command-Ends dispatch c s h fits) λ t k.
        Ends-weaken (After t) (After s) _ (λ u l. (l.0, Keeps-trans s t u k.1 l.1))
          (run_commands-Ends dispatch cs t k.0 (Fits-Keeps dispatch s t k.1 fits))

  call_entry-After :
      (event : BackEvent F) (o : Option (Entry F W)) (s : Scene F W)
      → Sound s
      → After s (call_entry event true o s).1 × ((call_entry event true o s).0 ≡ is_some o)
  call_entry-After event none s h = ((h, (inl refl, refl, refl)), refl)
  call_entry-After event (some entry) s h =
      rw (or-true entry.enabled) ((h, (inl refl, refl, refl)), refl)

  -- What a dispatch with enough depth leaves: it ends, reports whether the id was registered, and the
  -- flag for the aggregate is true to it.
  pub dispatch_to-Fits :
      (depth id : ℕ) (event : BackEvent F) (s : Scene F W)
      → Sound s
      → Fits (dispatch_to depth) s
      → Ends
          (λ r. After s r.1 × IsAware r.1 × (r.0 ≡ contains_key id s.entries))
          (dispatch_to (suc depth) id event true s)
  unfolding dispatch_to call_back
  dispatch_to-Fits depth id event s h fits =
      let o = get id s.entries in
      let called = (call_entry event true o s).1 in
      let c = call_entry-After event o s h in
      Ends-bind (After called) (λ r. After s r.1 × IsAware r.1 × (r.0 ≡ contains_key id s.entries))
        _ _
        (run_commands-Ends (dispatch_to depth) (call_entry event true o s).2 called c.0.0
          (Fits-Keeps (dispatch_to depth) s called c.0.1 fits))
        λ t k. (
          (
            notify-Sound t k.0,
            Keeps-trans s t (notify_enabled_changed t) (Keeps-trans s called t c.0.1 k.1)
                (notify-Keeps t),
          ),
          notify-IsAware t,
          c.1,
        )

  pub dispatch_to-IsCalm : (depth : ℕ) → IsCalm (dispatch_to {F = F} {W = W} (suc depth))
  dispatch_to-IsCalm depth id event s e h =
      Ends-weaken (λ r. After s r.1 × IsAware r.1 × (r.0 ≡ contains_key id s.entries))
        (λ r. After s r.1) _ (λ r k. k.0) (dispatch_to-Fits depth id event s h (inl e))

  -- From a scene in which the owner of the gesture is registered, a dispatch of depth two comes to an
  -- end, whatever the callbacks queue. It keeps the scene so, leaves the gesture in flight or not as
  -- it was with its start event, reports whether the id was registered, and leaves the flag for the
  -- aggregate equal to whether some callback is enabled.
  pub dispatch_to-Ends :
      (depth id : ℕ) (event : BackEvent F) (s : Scene F W)
      → 2 ≤ depth
      → Sound s
      → Ends
          (λ r. After s r.1 × IsAware r.1 × (r.0 ≡ contains_key id s.entries))
          (dispatch_to depth id event true s)
  dispatch_to-Ends zero id event s d h = absurd (omega arith)
  dispatch_to-Ends (suc zero) id event s d h = absurd (omega arith)
  dispatch_to-Ends (suc (suc depth)) id event s d h =
      dispatch_to-Fits (suc depth) id event s h (inr (dispatch_to-IsCalm depth))
