-- ===== src/Android/JavaMain.antt =====
-- crates/essenty-android/src/back_handler/platform.rs: what the jobs of a handler do on the Java main
-- thread, and `close` and the drop of a handler.
use essenty.Common.{
  ℕ, Bool, true, false, ◌||◌, Option, none, some, List, [], ◌∷◌, ◌++◌, if◌then◌else◌, ◌==◌,
}
use essenty.Common.Results.{Result, ok, err}
use essenty.Back.Dispatcher.{has_active_gesture}
use essenty.Android.BackHandler.{
  AndroidBackStrategy, is_native_key, Job, install, uninstall, AndroidBackError, register_failed,
  unregister_failed, gesture_owned, not_completed, AndroidBackHandler,
}
use essenty.Android.Java.{JavaCalls}

pub record Registration : Type 0 where
  pub dispatcher : ℕ
  pub proxy : ℕ

-- The mutexes of registrations of all handlers, by their identity, the list `UNREGISTER_RETRY`, and
-- Java.
pub record Main (J : Type 0) : Type 0 where
  pub slots : ℕ → Option Registration
  pub retries : List ℕ
  pub java : J

-- What becomes of the setup of an `install`: `skipped` is its early `Ok`.
pub data Setup : Type 0 where
  refused skipped installed : Setup

abbrev pub set_slot : {J : Type 0} → ℕ → Option Registration → Main J → Main J
set_slot id value m = record m { slots = λ other. if other == id then value else m.slots other }

abbrev pub retain_other : ℕ → List ℕ → List ℕ
retain_other id [] = []
retain_other id (other ∷ others) =
    let rest = retain_other id others in if other == id then rest else other ∷ rest

abbrev pub remove_quarantined : {J : Type 0} → ℕ → Main J → Main J
remove_quarantined id m = record m { retries = retain_other id m.retries }

abbrev pub quarantine : {J : Type 0} → ℕ → Main J → Main J
quarantine id m = record m { retries = m.retries ++ id ∷ [] }

module _ (calls : JavaCalls) where
  open calls use {Java, attached, get_dispatcher, build_proxy, register, unregister}

  -- Unregisters what a mutex holds, and empties it if that succeeds.
  unfoldable pub take_slot : Option Registration → ℕ → Main Java → Bool × Main Java
  take_slot none id m = (true, m)
  take_slot (some value) id m =
      let (done, j) = unregister value.dispatcher value.proxy m.java in
      let m' = record m { java = j } in (done, if done then set_slot id none m' else m')

  unfoldable pub retry_all : List ℕ → Main Java → List ℕ × Main Java
  unfolding take_slot
  retry_all [] m = ([], m)
  retry_all (id ∷ ids) m =
      let (done, m') = take_slot (m.slots id) id m in
      let (retained, m'') = retry_all ids m' in (if done then retained else id ∷ retained, m'')

  unfoldable pub retry_quarantined : Main Java → Main Java
  unfolding retry_all
  retry_quarantined m =
      let (retained, m') = retry_all m.retries m in record m' { retries = retained }

  unfoldable pub register_proxy : ℕ → ℕ → Option ℕ → Main Java → Setup × Main Java
  register_proxy id dispatcher none m = (refused, m)
  register_proxy id dispatcher (some proxy) m =
      let (done, j) = register dispatcher proxy m.java in
      let m' = record m { java = j } in
      if done
      then (installed, set_slot id (some (record { dispatcher = dispatcher; proxy = proxy })) m')
      else (refused, m')

  unfoldable pub with_dispatcher :
      AndroidBackStrategy → ℕ → Option ℕ → Main Java → Setup × Main Java
  unfolding register_proxy
  with_dispatcher strategy id none m = (refused, m)
  with_dispatcher strategy id (some dispatcher) m =
      if is_native_key strategy
      then (skipped, m)
      else (let (proxy, j) = build_proxy strategy m.java in
          register_proxy id dispatcher proxy (record m { java = j }))

  unfoldable pub setup : AndroidBackStrategy → ℕ → Main Java → Setup × Main Java
  unfolding with_dispatcher retry_quarantined
  setup strategy id m =
      if attached m.java
      then (let m' = retry_quarantined m in
          let (dispatcher, j) = get_dispatcher m'.java in
          with_dispatcher strategy id dispatcher (record m' { java = j }))
      else (refused, m)

  -- The closure that empties the mutex of a handler, under `jni_with_env`.
  unfoldable pub unregister_slot : ℕ → Main Java → Bool × Main Java
  unfolding take_slot
  unregister_slot id m = if attached m.java then take_slot (m.slots id) id m else (false, m)

  module _ {F W : Type 0} where
    abbrev pub after_setup : Setup → AndroidBackHandler F W → AndroidBackHandler F W
    after_setup refused h = record h { registered = false; error = some register_failed }
    after_setup skipped h = h
    after_setup installed h = record h { registered = true }

    unfoldable pub run_install :
        AndroidBackHandler F W → Main Java → AndroidBackHandler F W × Main Java
    unfolding setup
    run_install h m =
        let (outcome, m') = setup h.strategy h.registration m in (after_setup outcome h, m')

    abbrev pub after_unregister :
        Bool → AndroidBackHandler F W → Main Java → AndroidBackHandler F W × Main Java
    after_unregister true h m =
        (record h { registered = false }, remove_quarantined h.registration m)
    after_unregister false h m = (
      record h { registered = true; error = some unregister_failed },
      quarantine h.registration m,
    )

    unfoldable pub run_uninstall :
        AndroidBackHandler F W → Main Java → AndroidBackHandler F W × Main Java
    unfolding unregister_slot
    run_uninstall h m =
        let (done, m') = unregister_slot h.registration m in after_unregister done h m'

    unfoldable pub run_job :
        Job → AndroidBackHandler F W → Main Java → AndroidBackHandler F W × Main Java
    unfolding run_install run_uninstall
    run_job install = run_install
    run_job uninstall = run_uninstall

    -- The main thread runs what was posted, in order.
    unfoldable pub run_jobs :
        List Job → AndroidBackHandler F W → Main Java → AndroidBackHandler F W × Main Java
    unfolding run_job
    run_jobs [] h m = (h, m)
    run_jobs (job ∷ jobs) h m = let (h', m') = run_job job h m in run_jobs jobs h' m'

    unfoldable pub run_posted :
        AndroidBackHandler F W → Main Java → AndroidBackHandler F W × Main Java
    unfolding run_jobs
    run_posted h m = run_jobs h.posted (record h { posted = [] }) m

    -- What `close` makes of the answer of the job that it waits for.
    abbrev pub completed :
        Bool → AndroidBackHandler F W → Result AndroidBackError (Unit {0}) × AndroidBackHandler F W
    completed true h = (ok tt, record h { closed = true })
    completed false h = (err unregister_failed, h)

    -- The main thread runs what was posted before, and then the job of `close`.
    unfoldable pub close_waiting :
        AndroidBackHandler F W
        → Main Java
        → Result AndroidBackError (Unit {0}) × AndroidBackHandler F W × Main Java
    unfolding run_posted unregister_slot
    close_waiting h m =
        let (h', m') = run_posted h m in
        let (done, m'') = unregister_slot h'.registration m' in
        let (told, left_over) = after_unregister done h' m'' in
        let (answer, ended) = completed done told in (answer, ended, left_over)

    -- `runs`: the main thread still runs what is posted; otherwise the job is dropped with the
    -- channel that it holds.
    unfoldable pub close :
        Bool
        → AndroidBackHandler F W
        → Main Java
        → Result AndroidBackError (Unit {0}) × AndroidBackHandler F W × Main Java
    unfolding close_waiting
    close runs h m =
        if has_active_gesture h.bridge
        then (err gesture_owned, h, m)
        else if is_native_key h.strategy
        then (ok tt, record h { closed = true }, m)
        else if runs
        then close_waiting h m
        else (err not_completed, h, m)

    unfoldable pub drop : AndroidBackHandler F W → Main Java → AndroidBackHandler F W × Main Java
    drop h m =
        if h.closed || is_native_key h.strategy
        then (h, m)
        else if has_active_gesture h.bridge
        then (h, quarantine h.registration m)
        else (record h { posted = h.posted ++ uninstall ∷ [] }, m)
