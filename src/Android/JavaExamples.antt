-- ===== src/Android/JavaExamples.antt =====
-- The back handler with a Java that keeps a count of the proxies that it built and a list of those that
-- it calls, and that never refuses.
use essenty.Common.{
  ℕ, ◌+◌, ◌≤◌, Bool, true, false, ◌&&◌, ◌||◌, not, Option, none, some, List, [], ◌∷◌, ltb, ◌==◌,
  ◌≡◌, refl, arith,
}
use essenty.Common.Text.{codes}
use essenty.Android.BackHandler.{
  AndroidBackHandler, install, uninstall, predictive_callback, invoked, synchronize_enabled_state,
}
use essenty.Back.Dispatcher.{register_reentrant, notify_enabled_changed, new}
use essenty.Common.Map.{insert}
use essenty.Android.BackExamples.{scene}
use essenty.Android.Java.{JavaCalls}
use essenty.Android.JavaMain.{Registration, Main, retain_other, run_posted, run_job, close, drop}
use essenty.Android.Proxy.{event_of}
use essenty.Android.Slots.{OwnsMain}
use essenty.Android.Threads.{Aligned, holds}
use essenty.Android.Serving.{Calm, Told, synchronize-Told, synchronize-holds}
use essenty.Android.Teardown.{drop-empties, close-Ended, Ended}

record Counted : Type 0 where
  built : ℕ
  called : List ℕ

abbrev is_in : ℕ → List ℕ → Bool
is_in p [] = false
is_in p (q ∷ qs) = p == q || is_in p qs

abbrev sum : List ℕ → ℕ
sum [] = 0
sum (p ∷ ps) = p + sum ps

is_in-le : (p : ℕ) (ps : List ℕ) → is_in p ps ≡ true → p ≤ sum ps
is_in-le p [] h = absurd (cc)
is_in-le p (q ∷ qs) h = ground (arith, is_in-le p qs)

is_in-retain : (p q : ℕ) (ps : List ℕ) → is_in q (retain_other p ps) ≡ (not (q == p) && is_in q ps)
is_in-retain p q [] = ground arith
is_in-retain p q (r ∷ ps) = ground (arith, is_in-retain p q ps)

abbrev known : ℕ → Counted → Bool
known p j = ltb p j.built || is_in p j.called

abbrev new_proxy : Counted → ℕ
new_proxy j = j.built + sum j.called + 1

abbrev built_one : Counted → Counted
built_one j = record j { built = new_proxy j + 1 }

new_proxy-new :
    (p : ℕ) (j : Counted)
    → some (new_proxy j) ≡ some p
    → (known p j ≡ false) × (known p (built_one j) ≡ true)
new_proxy-new p j e = ground (arith, is_in-le p j.called)

known-built_one : (p : ℕ) (j : Counted) → known p j ≡ true → known p (built_one j) ≡ true
known-built_one p j h = ground arith

known-called : (p : ℕ) (j : Counted) → is_in p j.called ≡ true → known p j ≡ true
known-called p j h = ground arith

abbrev java_calls : JavaCalls
java_calls = record {
  Java = Counted;
  known = known;
  listens = λ p j. is_in p j.called;
  attached = λ j. true;
  get_dispatcher = λ j. (some 0, j);
  build_proxy = λ s j. (some (new_proxy j), built_one j);
  register = λ d p j. (true, record j { called = p ∷ j.called });
  unregister = λ d p j. (true, record j { called = retain_other p j.called });
  listens-known = known-called;
  build_proxy-new = λ s p j e. new_proxy-new p j e;
  known-get_dispatcher = λ p j h. h;
  known-build_proxy = λ s p j h. known-built_one p j h;
  listens-get_dispatcher = λ p j. refl;
  listens-build_proxy = λ s p j. refl;
  listens-register = λ d p q j. refl;
  listens-unregister = λ d p q j. is_in-retain p q j.called;
}

java_calls-Calm : Calm java_calls
java_calls-Calm = record {
  attached_lem = λ j. refl;
  get_dispatcher_lem = λ j. refl;
  build_proxy_lem = λ s j. refl;
  register_lem = λ d p j. refl;
  unregister_lem = λ d p j. refl;
}

on_back_invoked : event_of {F = ℕ} (codes "onBackInvoked") none ≡ some invoked
unfolding event_of
on_back_invoked = refl

abbrev silent : Main Counted
silent = record { slots = λ id. none; retries = []; java = record { built = 0; called = [] } }

silent-OwnsMain : OwnsMain java_calls silent
silent-OwnsMain = record {
  owned = λ p h. absurd (cc);
  live = λ a r e. absurd (cc);
  apart = λ a b r t e f g. absurd (cc);
}

-- Nothing is enabled, so nothing is posted at first.
abbrev idle : AndroidBackHandler ℕ ℕ
idle = record {
  bridge = scene;
  receiver = [];
  registration = 0;
  error = none;
  registered = false;
  strategy = predictive_callback;
  callback_count = 0;
  closed = false;
  posted = [];
}

idle-Aligned : Aligned java_calls ℕ ℕ (idle, silent)
idle-Aligned = (silent-OwnsMain, refl, refl)

synchronize-Told_example :
    Told java_calls true (run_posted java_calls (synchronize_enabled_state idle) silent)
unfolding register_reentrant notify_enabled_changed insert new
synchronize-Told_example = synchronize-Told java_calls idle silent idle-Aligned refl refl

synchronize-holds_example :
    holds java_calls ℕ ℕ (run_posted java_calls (synchronize_enabled_state idle) silent) ≡ true
unfolding register_reentrant notify_enabled_changed insert new
synchronize-holds_example =
    synchronize-holds java_calls idle silent java_calls-Calm idle-Aligned refl refl

drop-empties_example :
    holds java_calls ℕ ℕ
      (run_posted java_calls (drop java_calls idle silent).0 (drop java_calls idle silent).1)
    ≡ false
unfolding register_reentrant notify_enabled_changed insert new
drop-empties_example =
    drop-empties java_calls (codes "onBackInvoked") none invoked idle silent java_calls-Calm
      idle-Aligned refl refl on_back_invoked refl

close-Ended_example : Ended java_calls (close java_calls true idle silent)
unfolding register_reentrant notify_enabled_changed insert new
close-Ended_example = close-Ended java_calls idle silent idle-Aligned refl refl refl

-- A disable and an enable before the main thread has run, and a reconciliation in between: Java calls
-- two proxies, of which the mutex holds one.
abbrev disabled : AndroidBackHandler ℕ ℕ → AndroidBackHandler ℕ ℕ
disabled h = synchronize_enabled_state (record h { bridge = new 0 })

abbrev enabled : AndroidBackHandler ℕ ℕ → AndroidBackHandler ℕ ℕ
enabled h = synchronize_enabled_state (record h { bridge = scene })

overtaken : Option Registration × List ℕ
overtaken =
    let (h, m) = run_posted java_calls (enabled idle) silent in
    let (h', m') =
      run_job java_calls uninstall (record (enabled (disabled h)) { posted = install ∷ [] }) m in
    let (h'', m'') = run_posted java_calls (enabled h') m' in (m''.slots 0, m''.java.called)

overtaken_result : overtaken ≡ (some (record { dispatcher = 0; proxy = 8 }), 8 ∷ 3 ∷ [])
unfolding overtaken register_reentrant notify_enabled_changed insert new run_posted run_job
    synchronize_enabled_state
overtaken_result = refl
