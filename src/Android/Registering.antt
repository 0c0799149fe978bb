-- ===== src/Android/Registering.antt =====
-- crates/essenty-android/src/back_handler/platform.rs: the registration flag against what the mutex of a
-- handler holds and what Java calls, while Rust reconciles only once the jobs that it posted have run.
use essenty.Common.{
  ℕ, Bool, true, false, ◌||◌, Option, none, some, List, [], ◌∷◌, if◌then◌else◌, ◌≡◌, refl, ap, ◌∙◌,
  Bool-cases, inl, inr, subst,
}
use essenty.Common.Results.{Result, Holds, Holds-bind, Holds-eq}
use essenty.Back.Dispatcher.{Scene, can_handle, has_active_gesture, same_flag}
use essenty.Android.BackHandler.{
  AndroidBackError, AndroidBackHandler, is_native_key, reconcile, synchronize_enabled_state,
  PlatformEvent, deliver, drain, drain_callbacks, saturating_next,
}
use essenty.Android.Java.{JavaCalls}
use essenty.Android.JavaMain.{
  Main, unregister_slot, take_slot, run_posted, run_jobs, after_unregister, close, close_waiting,
  completed,
}
use essenty.Android.Proxy.{callback, send_some, event_of}
use essenty.Android.Slots.{take_slot-Taken}
use essenty.Android.Threads.{
  Agrees, Host, holds, Aligned, Step, changes, hears, reconciles, drains, runs, closes, Steps, here,
  next,
}
use essenty.Android.Jobs.{
  synchronize-Agrees, after_unregister-Aligned, run_job-Aligned, quiet-Agrees,
}

module _ (calls : JavaCalls) (F W : Type 0) where
  open calls use {Java, attached}

  -- What reconciling and draining leave alone, seen from the main thread.
  abbrev Kept : AndroidBackHandler F W → AndroidBackHandler F W → Type 0
  Kept h h' =
      (h'.registration ≡ h.registration)
      × (h'.strategy ≡ h.strategy)
      × (h'.registered ≡ h.registered)
      × (h'.posted ≡ h.posted)

  drain-Kept :
      (depth : ℕ) (events : List (PlatformEvent F)) (h : AndroidBackHandler F W)
      → Holds (Kept h) (drain depth events h)
  unfolding drain
  drain-Kept depth [] h = (refl, refl, refl, refl)
  drain-Kept depth (event ∷ events) h =
      Holds-bind (λ s. Unit {0}) (Kept h) (deliver depth event h.bridge) _
        (trivial (deliver depth event h.bridge))
        (λ s k.
          drain-Kept depth events
            (record h { bridge = s; callback_count = saturating_next h.callback_count }))
    where
      trivial : (r : Option (Scene F W)) → Holds (λ s. Unit {0}) r
      trivial none = tt
      trivial (some s) = tt

  reconcile-fixed :
      (b enabled : Bool) (h : AndroidBackHandler F W)
      → let t = if b then h else reconcile enabled h in
        (t.registration ≡ h.registration) × (t.strategy ≡ h.strategy)
  reconcile-fixed true enabled h = (refl, refl)
  reconcile-fixed false enabled h = elim (Bool-cases (same_flag enabled h.registered)) [
    | inl q ↦ rw q (refl, refl)
    | inr q ↦ rw q (refl, refl)
  ]

  -- Reconciling a handler with nothing posted.
  synchronize-Aligned :
      (h : AndroidBackHandler F W) (m : Main Java)
      → h.posted ≡ []
      → Aligned calls F W (h, m)
      → Aligned calls F W (synchronize_enabled_state h, m)
  unfolding synchronize_enabled_state
  synchronize-Aligned h m p (o, a, n) =
      let f =
        reconcile-fixed (h.closed || is_native_key h.strategy || has_active_gesture h.bridge)
          (can_handle h.bridge) h in
      (
        o,
        rw f.0 (
            synchronize-Agrees calls F W h (holds calls F W (h, m)) p
              (quiet-Agrees calls F W h.posted h.registered _ p a)),
        ap is_native_key f.1 ∙ n,
      )

  moved-Aligned :
      (h h' : AndroidBackHandler F W) (m : Main Java)
      → Kept h h'
      → Aligned calls F W (h, m)
      → Aligned calls F W (h', m)
  moved-Aligned h h' m k (o, a, n) = (o, rw (k.0, k.2, k.3) a, ap is_native_key k.1 ∙ n)

  drain_callbacks-Aligned :
      (depth : ℕ) (h : AndroidBackHandler F W) (m : Main Java)
      → h.posted ≡ []
      → Aligned calls F W (h, m)
      → Holds (λ r. Aligned calls F W (r.1, m)) (drain_callbacks depth h)
  unfolding drain_callbacks
  drain_callbacks-Aligned depth h m p a =
      Holds-bind (Kept (record h { receiver = [] })) (λ r. Aligned calls F W (r.1, m)) _ _
        (drain-Kept depth h.receiver (record h { receiver = [] }))
        (λ t k.
          synchronize-Aligned t m (k.3 ∙ p) (moved-Aligned (record h { receiver = [] }) t m k a))

  send_some-Kept :
      (event : Option (PlatformEvent F)) (h : AndroidBackHandler F W)
      → Kept h (send_some false event h)
  send_some-Kept none h = (refl, refl, refl, refl)
  send_some-Kept (some event) h = (refl, refl, refl, refl)

  completed-Aligned :
      (done : Bool) (h : AndroidBackHandler F W) (m : Main Java)
      → Aligned calls F W (h, m)
      → Aligned calls F W ((completed calls done h).1, m)
  completed-Aligned true h m a = a
  completed-Aligned false h m a = a

  abbrev Answer : Type 0
  Answer = Result AndroidBackError (Unit {0}) × AndroidBackHandler F W × Main Java

  abbrev Closed : Answer → Type 0
  Closed r = Aligned calls F W (r.1, r.2)

  either : (b : Bool) (x y : Answer) → Closed x → Closed y → Closed (if b then x else y)
  either true x y a c = a
  either false x y a c = c

  close_waiting-Aligned :
      (h : AndroidBackHandler F W) (m : Main Java)
      → h.posted ≡ []
      → attached m.java ≡ true
      → Aligned calls F W (h, m)
      → Closed (close_waiting calls h m)
  unfolding close_waiting run_posted run_jobs unregister_slot
  close_waiting-Aligned h m p c (o, a, n) =
      rw (p, c)
        (let k = record h { posted = [] } in
          let r = take_slot calls (m.slots h.registration) h.registration m in
          let t = after_unregister calls r.0 k r.1 in
          completed-Aligned r.0 t.0 t.1 (
            after_unregister-Aligned calls F W k m r refl n
              (take_slot-Taken calls h.registration (m.slots h.registration) m refl o)))

  close-Aligned :
      (h : AndroidBackHandler F W) (m : Main Java)
      → h.posted ≡ []
      → attached m.java ≡ true
      → Aligned calls F W (h, m)
      → Closed (close calls true h m)
  unfolding close
  close-Aligned h m p c a =
      either (has_active_gesture h.bridge) _ _ a
        (either (is_native_key h.strategy) _ _ a (close_waiting-Aligned h m p c a))

  pub Step-Aligned :
      {s t : Host calls F W} → Step calls F W s t → Aligned calls F W s → Aligned calls F W t
  unfolding callback
  Step-Aligned (changes h m s) a = a
  Step-Aligned (hears h m name arg) a =
      moved-Aligned h (send_some false (event_of name arg) h) m
        (send_some-Kept (event_of name arg) h) a
  Step-Aligned (reconciles h m p) a = synchronize-Aligned h m p a
  Step-Aligned (drains h h' m depth count p e) a =
      Holds-eq (λ r. Aligned calls F W (r.1, m)) _ (drain_callbacks-Aligned depth h m p a) e
  Step-Aligned (runs h m job jobs e) (o, a, n) =
      run_job-Aligned calls F W job jobs h m o n
        (subst (λ x. Agrees x h.registered (holds calls F W (h, m))) e a)
  Step-Aligned (closes h m p c) a = close-Aligned h m p c a

  -- However the two threads go on, and whatever Java refuses.
  pub Steps-Aligned :
      {s t : Host calls F W} → Aligned calls F W s → Steps calls F W s t → Aligned calls F W t
  Steps-Aligned a here = a
  Steps-Aligned a (next r st) = Step-Aligned st (Steps-Aligned a r)
