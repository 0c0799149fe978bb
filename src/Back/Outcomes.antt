-- ===== src/Back/Outcomes.antt =====
-- crates/essenty-back-handler/src/dispatcher.rs: what the back and gesture operations answer, and
-- where they leave the gesture.
use essenty.Common.{
  ℕ, Bool, true, false, ◌||◌, not, ◌≡◌, refl, ◌∙◌, ap, ◌≤◌, Option, none, some, ◌⊎◌, inl, inr,
  if◌then◌else◌, is_some, arith,
}
use essenty.Common.Results.{ok, err, Ends, Ends-bind, Ends-if, Ends-weaken}
use essenty.Common.Order.{ℕ_ord}
use essenty.Common.Map.{contains_key}
use essenty.Back.Event.{BackEvent, invoked_event, cancelled_event, no_gesture_in_progress}
use essenty.Back.Dispatcher.{Scene, can_handle, winner}
use essenty.Back.Gestures.{
  Answer, or_else, end_gesture, dispatch_if, answer, back, predictive_cancel, predictive_invoke,
}
use essenty.Back.Soundness.{Owns, IsAware}
use essenty.Back.Winner.{winner_lem}
use essenty.Back.Termination.{After, dispatch_to-Ends}
use essenty.Back.Invariant.{Inv, After-Inv, winner-Owns, end_gesture-Inv}

-- What comes of a dispatch to `o` from `s`.
abbrev Handled : {F W : Type 0} → Option ℕ → Scene F W → Bool × Scene F W → Type 0
Handled o s r =
    Inv r.1
    × (r.0 ≡ is_some o)
    × (r.1.gesture_in_flight ≡ s.gesture_in_flight)
    × ((s.active_gesture ≡ r.1.active_gesture) ⊎ (r.1.active_gesture ≡ none))

-- The gesture is over, and `r` has the answer `a`.
abbrev pub Ended : {F W A : Type 0} → A → A × Scene F W → Type 0
Ended a r = Inv r.1 × (r.0 ≡ a) × (r.1.gesture_in_flight ≡ false) × (r.1.active_gesture ≡ none)

-- An error without a gesture in flight, which changes nothing; otherwise the end of the gesture, with
-- the answer `a`.
abbrev pub Completed : {F W : Type 0} → Bool → Scene F W → Answer × Scene F W → Type 0
Completed a s r =
    ((s.gesture_in_flight ≡ false) × (r ≡ (err no_gesture_in_progress, s)))
    ⊎ ((s.gesture_in_flight ≡ true) × Ended (ok a) r)

module _ {F W : Type 0} where
  -- A dispatch to a registered id, or to none, is handled exactly if there is an id.
  dispatch_if-Ends :
      (depth : ℕ) (o : Option ℕ) (event : BackEvent F) (s : Scene F W)
      → 2 ≤ depth
      → Owns o s.entries
      → Inv s
      → Ends (Handled o s) (dispatch_if depth o event s)
  dispatch_if-Ends depth none event s d w h = (h, refl, refl, inl refl)
  dispatch_if-Ends depth (some id) event s d w h =
      Ends-weaken (λ r. After s r.1 × IsAware r.1 × (r.0 ≡ contains_key id s.entries))
        (Handled (some id) s) _
        (λ r k. (After-Inv s r.1 h k.0 k.1, k.2 ∙ w, k.0.1.1, ground (arith, k.0.1.0)))
        (dispatch_to-Ends depth id event s d (h.sorted, h.owns))

  target-Owns : (s : Scene F W) → Inv s → Owns (or_else s.active_gesture (winner s)) s.entries
  target-Owns s h = go s.active_gesture h.owns
    where
      go : (a : Option ℕ) → Owns a s.entries → Owns (or_else a (winner s)) s.entries
      go none o = winner-Owns s h.sorted
      go (some id) o = o

  is_some-target :
      (s : Scene F W)
      → Inv s
      → is_some (or_else s.active_gesture (winner s)) ≡ (is_some s.active_gesture || can_handle s)
  is_some-target s h = go s.active_gesture
    where
      go : (a : Option ℕ) → is_some (or_else a (winner s)) ≡ (is_some a || can_handle s)
      go none = (winner_lem s h.sorted).0
      go (some id) = refl

  ended :
      (s : Scene F W) (o : Option ℕ) (r : Bool × Scene F W)
      → Handled o (end_gesture s) r
      → Ended (is_some o) r
  ended s o r k = (k.0, k.1, k.2, ground (arith, k.3))

  -- `back` returns, at any depth from two on; it is handled exactly if a gesture has an owner or some
  -- callback is enabled, and it ends the gesture.
  pub back-Ends :
      (depth : ℕ) (s : Scene F W)
      → 2 ≤ depth
      → Inv s
      → Ends (Ended (is_some s.active_gesture || can_handle s)) (back depth s)
  unfolding back
  back-Ends depth s d h =
      let target = or_else s.active_gesture (winner s) in
      Ends-weaken (Handled target (end_gesture s)) _ _
        (λ r k. let e = ended s target r k in (e.0, e.1 ∙ is_some-target s h, e.2, e.3))
        (dispatch_if-Ends depth target invoked_event (end_gesture s) d (target-Owns s h)
          (end_gesture-Inv s h))

  complete :
      (depth : ℕ) (s : Scene F W) (o : Option ℕ) (event : BackEvent F) (a : Bool)
      → 2 ≤ depth
      → Inv s
      → Owns o s.entries
      → is_some o ≡ a
      → Ends (Completed a s) (
          if not s.gesture_in_flight
          then some (err no_gesture_in_progress, s)
          else answer (dispatch_if depth o event (end_gesture s)))
  complete depth s o event a d h w q =
      Ends-if (Completed a s) (not s.gesture_in_flight) _ _ (λ f. inl (ground arith, refl))
        λ f.
          Ends-bind (Handled o (end_gesture s)) (Completed a s) _ _
            (dispatch_if-Ends depth o event (end_gesture s) d w (end_gesture-Inv s h))
            λ r k. let e = ended s o r k in inr (ground arith, (e.0, ap ok (e.1 ∙ q), e.2, e.3))

  -- `predictive_invoke` returns, at any depth from two on; it is an error exactly if no gesture is in
  -- flight; otherwise it is handled as by `back`, and it ends the gesture.
  pub predictive_invoke-Ends :
      (depth : ℕ) (s : Scene F W)
      → 2 ≤ depth
      → Inv s
      → Ends (Completed (is_some s.active_gesture || can_handle s) s) (predictive_invoke depth s)
  unfolding predictive_invoke
  predictive_invoke-Ends depth s d h =
      complete depth s (or_else s.active_gesture (winner s)) invoked_event _ d h (target-Owns s h)
        (is_some-target s h)

  -- `predictive_cancel` returns, at any depth from two on; it is an error exactly if no gesture is in
  -- flight; otherwise it is handled exactly if the gesture has an owner, and it ends the gesture.
  pub predictive_cancel-Ends :
      (depth : ℕ) (s : Scene F W)
      → 2 ≤ depth
      → Inv s
      → Ends (Completed (is_some s.active_gesture) s) (predictive_cancel depth s)
  unfolding predictive_cancel
  predictive_cancel-Ends depth s d h =
      complete depth s s.active_gesture cancelled_event _ d h h.owns refl
