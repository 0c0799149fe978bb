-- ===== src/Android/Serving.antt =====
-- crates/essenty-android/src/back_handler/platform.rs: what the jobs of one reconciliation lead to.
use essenty.Common.{
  ℕ, Bool, true, false, not, Option, none, some, [], ◌≡◌, refl, sym, ap, ◌∙◌, Bool-cases, ◌⊎◌, inl,
  inr, is_some,
}
use essenty.Back.Dispatcher.{can_handle}
use essenty.Android.BackHandler.{
  AndroidBackStrategy, AndroidBackHandler, is_native_key, reconcile, synchronize_enabled_state,
}
use essenty.Android.Draining.{is_settled}
use essenty.Android.Java.{JavaCalls}
use essenty.Android.JavaMain.{
  Main, Registration, Setup, refused, skipped, installed, setup, unregister_slot, take_slot,
  run_job, run_install, run_uninstall, run_posted, run_jobs, after_setup, after_unregister,
  with_dispatcher, register_proxy, retry_all, retry_quarantined,
}
use essenty.Android.Slots.{
  setup-SetUp, setup-not_skipped, is_installed, is_skipped, unregister_slot-Taken,
}
use essenty.Android.Jobs.{quiet-Agrees, is_some-none}
use essenty.Android.Threads.{Host, holds, Aligned}

module _ (calls : JavaCalls) where
  open calls use {Java, attached, get_dispatcher, build_proxy, register, unregister}

  -- No call of Java fails.
  pub record Calm : Type 0 where
    pub attached_lem : (j : Java) → attached j ≡ true
    pub get_dispatcher_lem : (j : Java) → is_some (get_dispatcher j).0 ≡ true
    pub build_proxy_lem : (s : AndroidBackStrategy) (j : Java) → is_some (build_proxy s j).0 ≡ true
    pub register_lem : (d p : ℕ) (j : Java) → (register d p j).0 ≡ true
    pub unregister_lem : (d p : ℕ) (j : Java) → (unregister d p j).0 ≡ true

  module _ (calm : Calm) where
    register_proxy-installed :
        (id d : ℕ) (p : Option ℕ) (m : Main Java)
        → is_some p ≡ true
        → (register_proxy calls id d p m).0 ≡ installed
    unfolding register_proxy
    register_proxy-installed id d none m e = absurd (cc)
    register_proxy-installed id d (some p) m e = rw (calm.register_lem d p m.java) refl

    with_dispatcher-installed :
        (id : ℕ) (s : AndroidBackStrategy) (d : Option ℕ) (m : Main Java)
        → is_native_key s ≡ false
        → is_some d ≡ true
        → (with_dispatcher calls s id d m).0 ≡ installed
    unfolding with_dispatcher
    with_dispatcher-installed id s none m n e = absurd (cc)
    with_dispatcher-installed id s (some d) m n e = rw n (
        register_proxy-installed id d (build_proxy s m.java).0
          (record m { java = (build_proxy s m.java).1 }) (calm.build_proxy_lem s m.java))

    setup-installed :
        (id : ℕ) (s : AndroidBackStrategy) (m : Main Java)
        → is_native_key s ≡ false
        → (setup calls s id m).0 ≡ installed
    unfolding setup retry_quarantined
    setup-installed id s m n = rw (calm.attached_lem m.java) (
        let t = (retry_all calls m.retries m).1 in
        with_dispatcher-installed id s (get_dispatcher t.java).0
          (record t { retries = (retry_all calls m.retries m).0; java = (get_dispatcher t.java).1 })
          n (calm.get_dispatcher_lem t.java))

    pub take_slot-done :
        (id : ℕ) (v : Option Registration) (m : Main Java) → (take_slot calls v id m).0 ≡ true
    unfolding take_slot
    take_slot-done id none m = refl
    take_slot-done id (some r) m = calm.unregister_lem r.dispatcher r.proxy m.java

    pub unregister_slot-done : (id : ℕ) (m : Main Java) → (unregister_slot calls id m).0 ≡ true
    unfolding unregister_slot
    unregister_slot-done id m = rw (calm.attached_lem m.java) (take_slot-done id (m.slots id) m)

  module _ {F W : Type 0} where
    after_setup-holds :
        (h : AndroidBackHandler F W) (r : Setup × Main Java) (b : Bool)
        → is_some (r.1.slots h.registration) ≡ b
        → holds calls F W (after_setup calls r.0 h, r.1) ≡ b
    after_setup-holds h (refused, m) b e = e
    after_setup-holds h (skipped, m) b e = e
    after_setup-holds h (installed, m) b e = e

    pub after_unregister-holds :
        (h : AndroidBackHandler F W) (r : Bool × Main Java) (b : Bool)
        → is_some (r.1.slots h.registration) ≡ b
        → holds calls F W (after_unregister calls r.0 h r.1) ≡ b
    after_unregister-holds h (true, m) b e = e
    after_unregister-holds h (false, m) b e = e

    -- What reconciling a handler with nothing posted leads to, by what its jobs lead to.
    run_reconciled :
        (P : Host calls F W → Type 0) (enabled : Bool) (h : AndroidBackHandler F W) (m : Main Java)
        → h.posted ≡ []
        → h.registered ≡ holds calls F W (h, m)
        → (holds calls F W (h, m) ≡ enabled → P (record h { registered = enabled; posted = [] }, m))
        → (enabled ≡ true
            → holds calls F W (h, m) ≡ false
            → P (run_install calls (record h { registered = true; posted = [] }) m))
        → (enabled ≡ false
            → holds calls F W (h, m) ≡ true
            → P (run_uninstall calls (record h { registered = false; posted = [] }) m))
        → P (run_posted calls (reconcile enabled h) m)
    unfolding run_posted run_jobs run_job
    run_reconciled P true h m p r same fill empty = elim (Bool-cases h.registered) [
      | inl q ↦ rw q (rw p (same (sym r ∙ q)))
      | inr q ↦ rw q (rw p (fill refl (sym r ∙ q)))
    ]
    run_reconciled P false h m p r same fill empty = elim (Bool-cases h.registered) [
      | inl q ↦ rw q (rw p (empty refl (sym r ∙ q)))
      | inr q ↦ rw q (rw p (same (sym r ∙ q)))
    ]

    -- The mutex holds a registration exactly if wanted, or an error says why not.
    abbrev pub Told : Bool → Host calls F W → Type 0
    Told enabled t = (holds calls F W t ≡ enabled) ⊎ (is_some t.0.error ≡ true)

    after_setup-Told :
        (h : AndroidBackHandler F W) (r : Setup × Main Java)
        → is_skipped calls r.0 ≡ false
        → is_some (r.1.slots h.registration) ≡ is_installed calls r.0
        → Told true (after_setup calls r.0 h, r.1)
    after_setup-Told h (refused, m) k e = inr refl
    after_setup-Told h (skipped, m) k e = absurd (cc)
    after_setup-Told h (installed, m) k e = inl e

    after_unregister-Told :
        (h : AndroidBackHandler F W) (r : Bool × Main Java)
        → is_some (r.1.slots h.registration) ≡ not r.0
        → Told false (after_unregister calls r.0 h r.1)
    after_unregister-Told h (true, m) e = inl e
    after_unregister-Told h (false, m) e = inr refl

    Told-true : (e : Bool) (t : Host calls F W) → e ≡ true → Told true t → Told e t
    Told-true e t q k = rw q k

    Told-false : (e : Bool) (t : Host calls F W) → e ≡ false → Told false t → Told e t
    Told-false e t q k = rw q k

    reconcile-Told :
        (enabled : Bool) (h : AndroidBackHandler F W) (m : Main Java)
        → h.posted ≡ []
        → Aligned calls F W (h, m)
        → Told enabled (run_posted calls (reconcile enabled h) m)
    unfolding run_install run_uninstall
    reconcile-Told enabled h m p (o, a, n) =
        run_reconciled (Told enabled) enabled h m p
          (quiet-Agrees calls F W h.posted h.registered (holds calls F W (h, m)) p a) (λ e. inl e)
          (λ e held.
            Told-true enabled (run_install calls (record h { registered = true; posted = [] }) m) e
              (after_setup-Told (record h { registered = true; posted = [] })
                (setup calls h.strategy h.registration m)
                (setup-not_skipped calls h.registration h.strategy m n)
                (setup-SetUp calls h.registration h.strategy m (is_some-none calls F W _ held)
                  o).1))
          (λ e held.
            Told-false enabled
              (run_uninstall calls (record h { registered = false; posted = [] }) m) e
              (after_unregister-Told (record h { registered = false; posted = [] })
                (unregister_slot calls h.registration m)
                (unregister_slot-Taken calls h.registration m o held).2))

    reconcile-holds :
        (enabled : Bool) (h : AndroidBackHandler F W) (m : Main Java)
        → Calm
        → h.posted ≡ []
        → Aligned calls F W (h, m)
        → holds calls F W (run_posted calls (reconcile enabled h) m) ≡ enabled
    unfolding run_install run_uninstall
    reconcile-holds enabled h m calm p (o, a, n) =
        run_reconciled (λ t. holds calls F W t ≡ enabled) enabled h m p
          (quiet-Agrees calls F W h.posted h.registered (holds calls F W (h, m)) p a) (λ e. e)
          (λ e held.
            after_setup-holds (record h { registered = true; posted = [] })
              (setup calls h.strategy h.registration m) enabled
              ((setup-SetUp calls h.registration h.strategy m (is_some-none calls F W _ held) o).1
                ∙ ap (is_installed calls) (setup-installed calm h.registration h.strategy m n)
                ∙ sym e))
          (λ e held.
            after_unregister-holds (record h { registered = false; posted = [] })
              (unregister_slot calls h.registration m) enabled
              ((unregister_slot-Taken calls h.registration m o held).2
                ∙ ap not (unregister_slot-done calm h.registration m)
                ∙ sym e))

    synchronize-eq :
        (h : AndroidBackHandler F W)
        → is_settled h ≡ false
        → synchronize_enabled_state h ≡ reconcile (can_handle h.bridge) h
    unfolding synchronize_enabled_state
    synchronize-eq h q = rw q refl

    -- Whatever Java refuses: for a handler aligned with Java that posted nothing, is open, does not use the
    -- native key and has no gesture in flight, a reconciliation followed by the jobs that it posts ends
    -- with a registration held exactly if a callback is enabled, or with an error that the application
    -- can take.
    pub synchronize-Told :
        (h : AndroidBackHandler F W) (m : Main Java)
        → Aligned calls F W (h, m)
        → h.posted ≡ []
        → is_settled h ≡ false
        → Told (can_handle h.bridge) (run_posted calls (synchronize_enabled_state h) m)
    synchronize-Told h m a p q =
        rw (synchronize-eq h q) (reconcile-Told (can_handle h.bridge) h m p a)

    -- If no call of Java fails: for a handler aligned with Java that posted nothing, is open, does not use
    -- the native key and has no gesture in flight, after a reconciliation and the jobs that it posts the
    -- mutex of the handler holds a registration exactly if a callback is enabled.
    pub synchronize-holds :
        (h : AndroidBackHandler F W) (m : Main Java)
        → Calm
        → Aligned calls F W (h, m)
        → h.posted ≡ []
        → is_settled h ≡ false
        → holds calls F W (run_posted calls (synchronize_enabled_state h) m) ≡ can_handle h.bridge
    synchronize-holds h m calm a p q =
        rw (synchronize-eq h q) (reconcile-holds (can_handle h.bridge) h m calm p a)
