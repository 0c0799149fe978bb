-- ===== src/Android/Threads.antt =====
-- crates/essenty-android/src/back_handler/platform.rs: a handler between the Rust thread and the Java main
-- thread, whose steps interleave, and the registration flag against what the mutex of the handler holds.
use essenty.Common.{ℕ, Bool, true, false, Option, some, List, [], ◌∷◌, ◌≡◌, is_some}
use essenty.Common.Text.{Chars}
use essenty.Back.Dispatcher.{Scene}
use essenty.Android.BackHandler.{
  Job, install, uninstall, AndroidBackHandler, is_native_key, synchronize_enabled_state,
  drain_callbacks,
}
use essenty.Android.Java.{JavaCalls}
use essenty.Android.JavaMain.{Main, run_job, close}
use essenty.Android.Proxy.{callback, BackEvent}
use essenty.Android.Slots.{OwnsMain}

-- The flag by what is still to run: `held` says whether the mutex holds a registration.
abbrev pub Agrees : List Job → Bool → Bool → Type 0
Agrees [] registered held = registered ≡ held
Agrees (install ∷ []) registered held = (registered ≡ true) × (held ≡ false)
Agrees (uninstall ∷ []) registered held = (registered ≡ false) × (held ≡ true)
Agrees _ registered held = ⊥

module _ (calls : JavaCalls) (F W : Type 0) where
  open calls use {Java, attached}

  abbrev pub Host : Type 0
  Host = AndroidBackHandler F W × Main Java

  abbrev pub holds : Host → Bool
  holds (h, m) = is_some (m.slots h.registration)

  -- Java calls exactly the proxies that the mutexes hold, and the flag agrees with that of the handler,
  -- which uses callbacks of the platform.
  abbrev pub Aligned : Host → Type 0
  Aligned (h, m) =
      OwnsMain calls m
      × Agrees h.posted h.registered (holds (h, m))
      × (is_native_key h.strategy ≡ false)

  -- A step of the Rust thread or of the Java main thread, in which Java may fail any call.
  pub data Step : Host → Host → Type 0 where
    changes :
        (h : AndroidBackHandler F W) (m : Main Java) (s : Scene F W)
        → Step (h, m) (record h { bridge = s }, m)
    hears :
        (h : AndroidBackHandler F W) (m : Main Java) (name : Chars) (arg : Option (BackEvent F))
        → Step (h, m) (callback false name arg h, m)
    reconciles :
        (h : AndroidBackHandler F W) (m : Main Java)
        → h.posted ≡ []
        → Step (h, m) (synchronize_enabled_state h, m)
    drains :
        (h h' : AndroidBackHandler F W) (m : Main Java) (depth count : ℕ)
        → h.posted ≡ []
        → drain_callbacks depth h ≡ some (count, h')
        → Step (h, m) (h', m)
    runs :
        (h : AndroidBackHandler F W) (m : Main Java) (job : Job) (jobs : List Job)
        → h.posted ≡ job ∷ jobs
        → Step (h, m) (run_job calls job (record h { posted = jobs }) m)
    closes :
        (h : AndroidBackHandler F W) (m : Main Java)
        → h.posted ≡ []
        → attached m.java ≡ true
        → Step (h, m) ((close calls true h m).1, (close calls true h m).2)

  pub data Steps (s : Host) : Host → Type 0 where
    here : Steps s s
    next : {t u : Host} → Steps s t → Step t u → Steps s u
