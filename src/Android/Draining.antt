-- ===== src/Android/Draining.antt =====
-- crates/essenty-android/src/back_handler/platform.rs: what a drain of the callbacks leaves.
use essenty.Common.{
  ℕ, ◌≤◌, Bool, true, false, ◌||◌, ◌≡◌, refl, sym, ap, ◌∙◌, Option, none, some, List, [], ◌∷◌, ◌++◌,
  if◌then◌else◌, arith, length, Bool-cases, inl, inr, subst,
}
use mathlib.Core.List.{append-nil}
use essenty.Common.Results.{Ends, Ends-bind, Ends-if}
use essenty.Back.Event.{started_with, progressed_with}
use essenty.Back.Dispatcher.{Scene, can_handle, has_active_gesture, same_flag, winner}
use essenty.Back.Gestures.{predictive_start_with, predictive_progress_with, start_gesture}
use essenty.Back.Invariant.{
  Inv, winner-Owns, start-Inv, progress-Inv, cancel-Inv, invoke-Inv, back-Inv,
}
use essenty.Android.BackHandler.{
  PlatformEvent, started, progressed, cancelled, invoked, AndroidBackHandler, is_native_key, Job,
  install, uninstall, reconcile, synchronize_enabled_state, ignore, deliver, drain, drain_callbacks,
  saturating_next,
}

-- The registration is not to be touched now.
abbrev pub is_settled : {F W : Type 0} → AndroidBackHandler F W → Bool
is_settled h = h.closed || is_native_key h.strategy || has_active_gesture h.bridge

module _ {F W : Type 0} (depth : ℕ) (d : 2 ≤ depth) where
  ignore-Inv :
      {A : Type 0} (m : Option (A × Scene F W)) → Ends (λ r. Inv r.1) m → Ends Inv (ignore m)
  ignore-Inv none h = h
  ignore-Inv (some (a, s)) h = h

  deliver-Inv : (event : PlatformEvent F) (s : Scene F W) → Inv s → Ends Inv (deliver depth event s)
  unfolding deliver predictive_start_with predictive_progress_with start_gesture
  deliver-Inv (started position progress) s h =
      Ends-bind (λ r. Inv r.1) Inv _ _
        (start-Inv depth (winner s) (started_with position) s d (winner-Owns s h.sorted) h)
        (λ r k. ignore-Inv _ (progress-Inv depth (progressed_with progress position) r.1 d k))
  deliver-Inv (progressed position progress) s h =
      ignore-Inv _ (progress-Inv depth (progressed_with progress position) s d h)
  deliver-Inv cancelled s h = ignore-Inv _ (cancel-Inv depth s d h)
  deliver-Inv invoked s h =
      Ends-if Inv (has_active_gesture s) _ _ (λ _. ignore-Inv _ (invoke-Inv depth s d h))
        (λ _. ignore-Inv _ (back-Inv depth s d h))

  -- What the loop keeps.
  abbrev Drained : AndroidBackHandler F W → AndroidBackHandler F W → Type 0
  Drained h h' =
      Inv h'.bridge
      × (h'.receiver ≡ h.receiver)
      × (h'.registered ≡ h.registered)
      × (h'.strategy ≡ h.strategy)
      × (h'.closed ≡ h.closed)
      × (h'.posted ≡ h.posted)

  drain-Ends :
      (events : List (PlatformEvent F)) (h : AndroidBackHandler F W)
      → Inv h.bridge
      → Ends (Drained h) (drain depth events h)
  unfolding drain
  drain-Ends [] h v = (v, refl, refl, refl, refl, refl)
  drain-Ends (event ∷ events) h v =
      Ends-bind Inv (Drained h) _ _ (deliver-Inv event h.bridge v) (λ s k.
        drain-Ends events
          (record h { bridge = s; callback_count = saturating_next h.callback_count }) k)

same_flag-eq : (a b : Bool) → same_flag a b ≡ true → b ≡ a
same_flag-eq a b h = ground arith

module _ {F W : Type 0} where
  -- The flag follows the dispatcher unless it is not to be touched, and a job was posted if it had to
  -- change.
  abbrev pub Agrees : Bool → Bool → Bool → List Job → AndroidBackHandler F W → Type 0
  Agrees b e registered posted t =
      (b ≡ false → t.registered ≡ e)
      × (t.posted
          ≡ posted
            ++ (if b || same_flag e registered
                then []
                else (if e then install else uninstall) ∷ []))

  reconcile-Agrees :
      (b e : Bool) (h : AndroidBackHandler F W)
      → let t = if b then h else reconcile e h in
        Agrees b e h.registered h.posted t × (t.bridge ≡ h.bridge) × (t.receiver ≡ h.receiver)
  reconcile-Agrees true e h = ((λ q. cc, sym (append-nil h.posted)), refl, refl)
  reconcile-Agrees false e h = elim (Bool-cases (same_flag e h.registered)) [
    | inl q ↦ rw q ((λ _. same_flag-eq e h.registered q, sym (append-nil h.posted)), refl, refl)
    | inr q ↦ rw q ((λ _. refl, refl), refl, refl)
  ]

  synchronize-Agrees :
      (h : AndroidBackHandler F W)
      → let t = synchronize_enabled_state h in
        Agrees (is_settled h) (can_handle h.bridge) h.registered h.posted t
        × (t.bridge ≡ h.bridge)
        × (t.receiver ≡ h.receiver)
  unfolding synchronize_enabled_state
  synchronize-Agrees h = reconcile-Agrees (is_settled h) (can_handle h.bridge) h

  -- What a drain reports and leaves.
  abbrev pub Settled : AndroidBackHandler F W → ℕ × AndroidBackHandler F W → Type 0
  Settled h (count, t) =
      (count ≡ length h.receiver)
      × (t.receiver ≡ [])
      × Inv t.bridge
      × Agrees (h.closed || is_native_key h.strategy || has_active_gesture t.bridge)
          (can_handle t.bridge) h.registered h.posted t

  is_settled-eq :
      (h t : AndroidBackHandler F W) (s : Scene F W)
      → t.closed ≡ h.closed
      → t.strategy ≡ h.strategy
      → s ≡ t.bridge
      → is_settled t ≡ (h.closed || is_native_key h.strategy || has_active_gesture s)
  is_settled-eq h t s c st e =
      ap (λ x. x || is_native_key t.strategy || has_active_gesture t.bridge) c
      ∙ (ap (λ x. h.closed || is_native_key x || has_active_gesture t.bridge) st
          ∙ ap (λ x. h.closed || is_native_key h.strategy || has_active_gesture x) (sym e))

  Agrees-subst :
      (b b' e e' g g' : Bool) (p p' : List Job) (t : AndroidBackHandler F W)
      → b ≡ b'
      → e ≡ e'
      → g ≡ g'
      → p ≡ p'
      → Agrees b e g p t
      → Agrees b' e' g' p' t
  Agrees-subst b b' e e' g g' p p' t qb qe qg qp a =
      subst (λ x. Agrees b' e' g' x t) qp
        (subst (λ x. Agrees b' e' x p t) qg
          (subst (λ x. Agrees b' x g p t) qe (subst (λ x. Agrees x e g p t) qb a)))

  settle :
      (h t : AndroidBackHandler F W)
      → Inv t.bridge
      → t.receiver ≡ []
      → t.registered ≡ h.registered
      → t.strategy ≡ h.strategy
      → t.closed ≡ h.closed
      → t.posted ≡ h.posted
      → Settled h (length h.receiver, synchronize_enabled_state t)
  settle h t v r g st c p =
      let s = synchronize_enabled_state t in
      let a = synchronize-Agrees t in
      (
        refl,
        a.2 ∙ r,
        subst Inv (sym a.1) v,
        Agrees-subst (is_settled t)
            (h.closed || is_native_key h.strategy || has_active_gesture s.bridge)
            (can_handle t.bridge) (can_handle s.bridge) t.registered h.registered t.posted h.posted
            s (is_settled-eq h t s.bridge c st a.1) (ap can_handle (sym a.1)) g p a.0,
      )

  -- A drain of the callbacks returns, at any depth from two on, whatever events Java sent and whatever
  -- the Rust callbacks queue: it reports how many events it consumed and leaves none, and the dispatcher
  -- stays consistent. Unless the handler is closed, uses the native key, or a gesture is in flight, the
  -- registration then agrees with whether a callback is enabled; and exactly one job, to install or to
  -- uninstall, is posted if it did not agree before, and none otherwise.
  pub drain_callbacks-Ends :
      (depth : ℕ) (h : AndroidBackHandler F W)
      → 2 ≤ depth
      → Inv h.bridge
      → Ends (Settled h) (drain_callbacks depth h)
  unfolding drain_callbacks
  drain_callbacks-Ends depth h d v =
      Ends-bind (Drained depth d (record h { receiver = [] })) (Settled h) _ _
        (drain-Ends depth d h.receiver (record h { receiver = [] }) v)
        (λ t k. settle h t k.0 k.1 k.2 k.3 k.4 k.5)
