-- ===== src/Back/Invariant.antt =====
-- crates/essenty-back-handler/src/dispatcher.rs: every public operation of the dispatcher returns
-- and keeps its invariant.
use essenty.Common.{
  ℕ, zero, suc, Bool, true, false, not, ◌≡◌, refl, sym, ◌∙◌, ◌≤◌, Option, none, some, [], ◌∷◌, inl,
  inr, is_some, arith,
}
use essenty.Common.Results.{Ends, Ends-bind, Ends-if, Ends-weaken}
use essenty.Common.Ints.{ℤ}
use essenty.Common.Order.{ℕ_ord}
use essenty.Common.Map.{
  Map, get, insert, contains_key, IsSorted, get-After, After-trans, After-IsSorted,
}
use essenty.Back.Event.{BackEvent, invoked_event, cancelled_event}
use essenty.Back.Dispatcher.{
  Scene, Entry, Callback, any_enabled, winner, notify_enabled_changed, register_reentrant,
  enable_found, prioritise_found,
}
use essenty.Back.Gestures.{
  or_else, put_active, end_gesture, unregister, dispatch_to, dispatch_if, back, start_with_owner,
  start_fallback, claim, progress_gesture, predictive_cancel, predictive_invoke, answer,
}
use essenty.Back.Soundness.{
  Owns, Sound, IsAware, Keeps, Keeps-trans, notify-IsAware, notify-Sound, notify-Keeps,
  put_entry-Sound,
}
use essenty.Back.Winner.{winner_lem}
use essenty.Back.Termination.{
  After, Unregistered, dispatch_to-IsCalm, dispatch_to-Ends, unregister_by-Ends,
}

-- The owner of a gesture is registered and the gesture in flight; a gesture in flight has a start
-- event; the aggregate that was told last is whether some callback is enabled.
pub record Inv {F W : Type 0} (s : Scene F W) : Type 0 where
  pub sorted : IsSorted s.entries
  pub owns : Owns s.active_gesture s.entries
  pub in_flight : is_some s.active_gesture ≡ true → s.gesture_in_flight ≡ true
  pub started : s.gesture_in_flight ≡ is_some s.gesture_start_event
  pub aware : s.has_enabled ≡ any_enabled s.entries

module _ {F W : Type 0} where
  pub After-Inv : (s t : Scene F W) → Inv s → After s t → IsAware t → Inv t
  After-Inv s t h a w = record {
    sorted = a.0.0;
    owns = a.0.1;
    in_flight = λ e. ground (arith, h.in_flight, a.1);
    started = ground (arith, h.started, a.1);
    aware = w;
  }

  -- The entry that is found keeps its flag, so some callback is enabled as before.
  any_enabled-insert :
      (id : ℕ) (e e' : Entry F W) (m : Map ℕ (Entry F W))
      → IsSorted m
      → get id m ≡ some e
      → e'.enabled ≡ e.enabled
      → any_enabled (insert id e' m) ≡ any_enabled m
  unfolding get insert
  any_enabled-insert id e e' [] s g q = ground arith
  any_enabled-insert id e e' ((j, x) ∷ m) s g q = ground (
    arith,
    get-After id m,
    After-trans id j m,
    any_enabled-insert id e e' m (After-IsSorted j m s),
  )

  pub winner-Owns : (s : Scene F W) → IsSorted s.entries → Owns (winner s) s.entries
  winner-Owns s sorted = go (winner s) refl
    where
      go : (o : Option ℕ) → winner s ≡ o → Owns o s.entries
      go none e = tt
      go (some id) e = let w = (winner_lem s sorted).1 id e in rw w.1 refl

  -- A dispatch from a scene that differs in its gesture alone.
  dispatch_if-Inv :
      (depth : ℕ) (o : Option ℕ) (event : BackEvent F) (s : Scene F W)
      → 2 ≤ depth
      → Inv s
      → Ends (λ r. Inv r.1) (dispatch_if depth o event s)
  dispatch_if-Inv depth none event s d h = h
  dispatch_if-Inv depth (some id) event s d h =
      Ends-weaken (λ r. After s r.1 × IsAware r.1 × (r.0 ≡ contains_key id s.entries))
        (λ r. Inv r.1) _ (λ r k. After-Inv s r.1 h k.0 k.1)
        (dispatch_to-Ends depth id event s d (h.sorted, h.owns))

  pub end_gesture-Inv : (s : Scene F W) → Inv s → Inv (end_gesture s)
  end_gesture-Inv s h = record {
    sorted = h.sorted;
    owns = tt;
    in_flight = λ e. absurd (cc);
    started = refl;
    aware = h.aware;
  }

  answer-Inv :
      (m : Option (Bool × Scene F W)) → Ends (λ r. Inv r.1) m → Ends (λ r. Inv r.1) (answer m)
  answer-Inv none h = h
  answer-Inv (some (b, s)) h = h

  notify-Inv : (s t : Scene F W) → Inv s → Sound t → Keeps s t → Inv (notify_enabled_changed t)
  notify-Inv s t h sound keeps =
      After-Inv s (notify_enabled_changed t) h
        (notify-Sound t sound, Keeps-trans s t (notify_enabled_changed t) keeps (notify-Keeps t))
        (notify-IsAware t)

  pub register_reentrant-Inv :
      (p : ℤ) (e : Bool) (cb : Callback F W) (s : Scene F W)
      → Inv s
      → Inv (register_reentrant p e cb s).1
  unfolding register_reentrant
  register_reentrant-Inv p e cb s h =
      let entry : Entry F W = record { priority = p; enabled = e; callback = cb } in
      notify-Inv s _ h (put_entry-Sound s.next_id entry s (h.sorted, h.owns)) (inl refl, refl, refl)

  -- `unregister` returns at any depth from two on: it reports whether the id was registered, and the
  -- id is gone, whatever the cancelled owner queues.
  pub unregister-Ends :
      (depth id : ℕ) (s : Scene F W)
      → 2 ≤ depth
      → Inv s
      → Ends
          (λ r.
            Inv r.1
            × (r.0 ≡ contains_key id s.entries)
            × (contains_key id r.1.entries ≡ false)
            × (r.1.gesture_in_flight ≡ s.gesture_in_flight))
          (unregister depth id s)
  unfolding unregister
  unregister-Ends zero id s d h = absurd (omega arith)
  unregister-Ends (suc depth) id s d h =
      Ends-weaken (Unregistered id s) _ _
        (λ r k. (After-Inv s r.1 h k.0 (k.3 h.aware), k.1, k.2, k.0.1.1))
        (unregister_by-Ends (dispatch_to (suc depth)) id s (h.sorted, h.owns)
          (inr (dispatch_to-IsCalm depth)))

  pub enable_found-Inv :
      (id : ℕ) (e : Bool) (o : Option (Entry F W)) (s : Scene F W)
      → Inv s
      → Inv (enable_found id e o s).1
  enable_found-Inv id e none s h = h
  enable_found-Inv id e (some entry) s h =
      notify-Inv s _ h (put_entry-Sound id (record entry { enabled = e }) s (h.sorted, h.owns))
        (inl refl, refl, refl)

  pub prioritise_found-Inv :
      (id : ℕ) (p : ℤ) (o : Option (Entry F W)) (s : Scene F W)
      → get id s.entries ≡ o
      → Inv s
      → Inv (prioritise_found id p o s).1
  prioritise_found-Inv id p none s g h = h
  prioritise_found-Inv id p (some entry) s g h =
      let sound = put_entry-Sound id (record entry { priority = p }) s (h.sorted, h.owns) in
      After-Inv s _ h (sound, (inl refl, refl, refl))
        (h.aware
          ∙ sym (
              any_enabled-insert id entry (record entry { priority = p }) s.entries h.sorted g
                refl))

  pub start-Inv :
      (depth : ℕ) (o : Option ℕ) (event : BackEvent F) (s : Scene F W)
      → 2 ≤ depth
      → Owns o s.entries
      → Inv s
      → Ends (λ r. Inv r.1) (start_with_owner depth o event s)
  start-Inv depth none event s d w h = end_gesture-Inv s h
  start-Inv depth (some id) event s d w h = dispatch_if-Inv depth (some id) event _ d (record {
    sorted = h.sorted;
    owns = w;
    in_flight = λ _. refl;
    started = refl;
    aware = h.aware;
  })

  fallback-Inv :
      (depth : ℕ) (o : Option ℕ) (start : Option (BackEvent F)) (s : Scene F W)
      → 2 ≤ depth
      → Inv s
      → Ends (λ t. Inv t) (start_fallback depth o start s)
  fallback-Inv depth none start s d h = h
  fallback-Inv depth (some id) none s d h = h
  fallback-Inv depth (some id) (some start) s d h =
      Ends-bind (λ r. Inv r.1) (λ t. Inv t) _ _ (dispatch_if-Inv depth (some id) start s d h)
        (λ r k. k)

  claim-Inv :
      (depth : ℕ) (s : Scene F W)
      → 2 ≤ depth
      → s.gesture_in_flight ≡ true
      → Inv s
      → Ends (λ t. Inv t) (claim depth s)
  unfolding claim
  claim-Inv depth s d f h =
      Ends-if (λ t. Inv t) (is_some s.active_gesture) _ _ (λ _. h)
        λ _.
          fallback-Inv depth (winner s) s.gesture_start_event (put_active (winner s) s) d (record {
            sorted = h.sorted;
            owns = winner-Owns s h.sorted;
            in_flight = λ _. f;
            started = h.started;
            aware = h.aware;
          })

  pub progress-Inv :
      (depth : ℕ) (event : BackEvent F) (s : Scene F W)
      → 2 ≤ depth
      → Inv s
      → Ends (λ r. Inv r.1) (progress_gesture depth event s)
  unfolding progress_gesture
  progress-Inv depth event s d h =
      Ends-if (λ r. Inv r.1) (not s.gesture_in_flight) _ _ (λ _. h)
        λ f.
          Ends-bind (λ t. Inv t) (λ r. Inv r.1) _ _ (claim-Inv depth s d (ground arith) h)
            λ t k. answer-Inv _ (dispatch_if-Inv depth t.active_gesture event t d k)

  pub cancel-Inv :
      (depth : ℕ) (s : Scene F W)
      → 2 ≤ depth
      → Inv s
      → Ends (λ r. Inv r.1) (predictive_cancel depth s)
  unfolding predictive_cancel
  cancel-Inv depth s d h =
      Ends-if (λ r. Inv r.1) (not s.gesture_in_flight) _ _ (λ _. h)
        λ _. answer-Inv _ (
          dispatch_if-Inv depth s.active_gesture cancelled_event (end_gesture s) d
            (end_gesture-Inv s h))

  pub invoke-Inv :
      (depth : ℕ) (s : Scene F W)
      → 2 ≤ depth
      → Inv s
      → Ends (λ r. Inv r.1) (predictive_invoke depth s)
  unfolding predictive_invoke
  invoke-Inv depth s d h =
      Ends-if (λ r. Inv r.1) (not s.gesture_in_flight) _ _ (λ _. h)
        λ _. answer-Inv _ (
          dispatch_if-Inv depth (or_else s.active_gesture (winner s)) invoked_event (end_gesture s)
            d (end_gesture-Inv s h))

  pub back-Inv :
      (depth : ℕ) (s : Scene F W) → 2 ≤ depth → Inv s → Ends (λ r. Inv r.1) (back depth s)
  unfolding back
  back-Inv depth s d h =
      dispatch_if-Inv depth (or_else s.active_gesture (winner s)) invoked_event (end_gesture s) d
        (end_gesture-Inv s h)
