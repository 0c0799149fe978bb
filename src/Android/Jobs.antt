-- ===== src/Android/Jobs.antt =====
-- crates/essenty-android/src/back_handler/platform.rs: a reconciliation and a job keep the registration flag
-- in agreement with the mutex.
use essenty.Common.{
  Bool, true, false, ◌||◌, not, Option, none, some, List, [], ◌∷◌, if◌then◌else◌, ◌≡◌, refl, sym,
  ◌∙◌, arith, Bool-cases, inl, inr, is_some, subst,
}
use essenty.Back.Dispatcher.{can_handle, has_active_gesture, same_flag}
use essenty.Android.BackHandler.{
  Job, install, uninstall, AndroidBackHandler, is_native_key, reconcile, synchronize_enabled_state,
}
use essenty.Android.Java.{JavaCalls}
use essenty.Android.JavaMain.{
  Main, Registration, Setup, refused, skipped, installed, setup, unregister_slot, run_job,
  run_install, run_uninstall, after_setup, after_unregister,
}
use essenty.Android.Slots.{
  OwnsMain, setup-SetUp, is_skipped, setup-not_skipped, unregister_slot-Taken, SetUp, Taken,
}
use essenty.Android.Threads.{Agrees, holds, Aligned}

module _ (calls : JavaCalls) (F W : Type 0) where
  open calls use {Java, attached}

  posted_one :
      (enabled held : Bool)
      → held ≡ not enabled
      → Agrees ((if enabled then install else uninstall) ∷ []) enabled held
  posted_one true held e = (refl, e)
  posted_one false held e = (refl, e)

  other_flag :
      (enabled registered : Bool) → same_flag enabled registered ≡ false → registered ≡ not enabled
  other_flag true registered q = ground arith
  other_flag false registered q = ground arith

  reconcile-Agrees :
      (h : AndroidBackHandler F W) (enabled held : Bool)
      → h.posted ≡ []
      → h.registered ≡ held
      → Agrees (reconcile enabled h).posted (reconcile enabled h).registered held
  reconcile-Agrees h enabled held p r = elim (Bool-cases (same_flag enabled h.registered)) [
    | inl q ↦ rw q (rw p r)
    | inr q ↦ rw q (rw p (posted_one enabled held (sym r ∙ other_flag enabled h.registered q)))
  ]

  pub synchronize-Agrees :
      (h : AndroidBackHandler F W) (held : Bool)
      → h.posted ≡ []
      → h.registered ≡ held
      → Agrees (synchronize_enabled_state h).posted (synchronize_enabled_state h).registered held
  unfolding synchronize_enabled_state
  synchronize-Agrees h held p r =
      elim (Bool-cases (h.closed || is_native_key h.strategy || has_active_gesture h.bridge)) [
        | inl q ↦ rw q (rw p r)
        | inr q ↦ rw q (reconcile-Agrees h (can_handle h.bridge) held p r)
      ]

  pub quiet-Agrees :
      (posted : List Job) (registered held : Bool)
      → posted ≡ []
      → Agrees posted registered held
      → registered ≡ held
  quiet-Agrees posted registered held e a = subst (λ x. Agrees x registered held) e a

  after_setup-Aligned :
      (h : AndroidBackHandler F W) (r : Setup × Main Java)
      → h.posted ≡ []
      → is_native_key h.strategy ≡ false
      → is_skipped calls r.0 ≡ false
      → SetUp calls h.registration r
      → Aligned calls F W (after_setup calls r.0 h, r.1)
  after_setup-Aligned h (refused, m) p n k s = (s.0, rw p (sym s.1), n)
  after_setup-Aligned h (skipped, m) p n k s = absurd (cc)
  after_setup-Aligned h (installed, m) p n k s = (s.0, rw p (sym s.1), n)

  pub after_unregister-Aligned :
      (h : AndroidBackHandler F W) (m : Main Java) (r : Bool × Main Java)
      → h.posted ≡ []
      → is_native_key h.strategy ≡ false
      → Taken calls h.registration m r
      → Aligned calls F W (after_unregister calls r.0 h r.1)
  after_unregister-Aligned h m (true, t) p n k = (k.0, rw p (sym k.2), n)
  after_unregister-Aligned h m (false, t) p n k = (k.0, rw p (sym k.2), n)

  pub is_some-none : (v : Option Registration) → is_some v ≡ false → v ≡ none
  is_some-none none e = refl
  is_some-none (some a) e = absurd (cc)

  run_install-Aligned :
      (h : AndroidBackHandler F W) (m : Main Java)
      → h.posted ≡ []
      → is_native_key h.strategy ≡ false
      → OwnsMain calls m
      → holds calls F W (h, m) ≡ false
      → Aligned calls F W (run_install calls h m)
  unfolding run_install
  run_install-Aligned h m p n o e =
      after_setup-Aligned h (setup calls h.strategy h.registration m) p n
        (setup-not_skipped calls h.registration h.strategy m n)
        (setup-SetUp calls h.registration h.strategy m (is_some-none _ e) o)

  run_uninstall-Aligned :
      (h : AndroidBackHandler F W) (m : Main Java)
      → h.posted ≡ []
      → is_native_key h.strategy ≡ false
      → OwnsMain calls m
      → holds calls F W (h, m) ≡ true
      → Aligned calls F W (run_uninstall calls h m)
  unfolding run_uninstall
  run_uninstall-Aligned h m p n o e =
      after_unregister-Aligned h m (unregister_slot calls h.registration m) p n
        (unregister_slot-Taken calls h.registration m o e)

  pub run_job-Aligned :
      (job : Job) (jobs : List Job) (h : AndroidBackHandler F W) (m : Main Java)
      → OwnsMain calls m
      → is_native_key h.strategy ≡ false
      → Agrees (job ∷ jobs) h.registered (holds calls F W (h, m))
      → Aligned calls F W (run_job calls job (record h { posted = jobs }) m)
  unfolding run_job
  run_job-Aligned install [] h m o n a =
      run_install-Aligned (record h { posted = [] }) m refl n o a.1
  run_job-Aligned uninstall [] h m o n a =
      run_uninstall-Aligned (record h { posted = [] }) m refl n o a.1
  run_job-Aligned install (j ∷ js) h m o n a = absurd a
  run_job-Aligned uninstall (j ∷ js) h m o n a = absurd a
