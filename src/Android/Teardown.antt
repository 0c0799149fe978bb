-- ===== src/Android/Teardown.antt =====
-- crates/essenty-android/src/back_handler/platform.rs: what `close` and the drop of a handler leave.
use essenty.Common.{
  Bool, true, false, ◌||◌, not, Option, some, [], ◌∷◌, ◌++◌, if◌then◌else◌, ◌≡◌, refl, ap, ◌∙◌,
}
use essenty.Common.Results.{Result, ok, err}
use essenty.Common.Text.{Chars}
use essenty.Back.Dispatcher.{has_active_gesture}
use essenty.Android.BackHandler.{
  AndroidBackHandler, AndroidBackError, gesture_owned, PlatformEvent, uninstall, is_native_key,
}
use essenty.Android.Java.{JavaCalls}
use essenty.Android.JavaMain.{
  Main, unregister_slot, take_slot, run_job, run_uninstall, run_posted, run_jobs, after_unregister,
  quarantine, completed, close, close_waiting, drop,
}
use essenty.Android.Proxy.{callback, send_some, BackEvent, event_of, is_terminal}
use essenty.Android.Slots.{take_slot-Taken, Taken, OwnsMain}
use essenty.Android.Threads.{holds, Aligned}
use essenty.Android.Serving.{Calm, take_slot-done, after_unregister-holds}

abbrev pub is_ok : {A : Type 0} → Result AndroidBackError A → Bool
is_ok (ok a) = true
is_ok (err e) = false

if_false : {A : Type 0} (b : Bool) (x y : A) → b ≡ false → (if b then x else y) ≡ y
if_false true x y e = absurd (cc)
if_false false x y e = refl

or_false : (b c : Bool) → b ≡ false → c ≡ false → (b || c) ≡ false
or_false true c e f = e
or_false false c e f = f

module _ (calls : JavaCalls) {F W : Type 0} where
  open calls use {Java, attached}

  -- The handler is closed exactly if its mutex was emptied.
  abbrev pub Ended :
      Result AndroidBackError (Unit {0}) × AndroidBackHandler F W × Main Java → Type 0
  Ended (answer, h, m) =
      (h.closed ≡ is_ok answer)
      × (holds calls F W (h, m) ≡ not (is_ok answer))
      × (h.registered ≡ not (is_ok answer))

  completed-Ended :
      (r : Bool × Main Java) (h : AndroidBackHandler F W) (m : Main Java)
      → h.closed ≡ false
      → Taken calls h.registration m r
      → let t = after_unregister calls r.0 h r.1 in
        let c = completed calls r.0 t.0 in Ended (c.0, c.1, t.1)
  completed-Ended (true, t) h m c k = (refl, k.2, refl)
  completed-Ended (false, t) h m c k = (c, k.2, refl)

  close_waiting-Ended :
      (h : AndroidBackHandler F W) (m : Main Java)
      → OwnsMain calls m
      → h.posted ≡ []
      → attached m.java ≡ true
      → h.closed ≡ false
      → Ended (close_waiting calls h m)
  unfolding close_waiting run_posted run_jobs unregister_slot
  close_waiting-Ended h m o p at c =
      rw (p, at)
        (completed-Ended (take_slot calls (m.slots h.registration) h.registration m)
          (record h { posted = [] }) m c
          (take_slot-Taken calls h.registration (m.slots h.registration) m refl o))

  -- A gesture refuses and changes nothing.
  abbrev pub Refused :
      Bool
      → AndroidBackHandler F W
      → Main Java
      → Result AndroidBackError (Unit {0}) × AndroidBackHandler F W × Main Java
      → Type 0
  Refused true h m r = r ≡ (err gesture_owned, h, m)
  Refused false h m r = Ended r

  Refused-if :
      (b : Bool) (h : AndroidBackHandler F W) (m : Main Java)
      (r : Result AndroidBackError (Unit {0}) × AndroidBackHandler F W × Main Java)
      → Ended r
      → Refused b h m (if b then (err gesture_owned, h, m) else r)
  Refused-if true h m r e = refl
  Refused-if false h m r e = e

  -- `close` on a thread that is attached, with nothing posted: a gesture in flight makes it an error
  -- that changes nothing, and otherwise it is Ok exactly if it leaves the mutex of the handler empty,
  -- and the handler closed; where Java refuses, the handler stays open and registered.
  pub close-Ended :
      (h : AndroidBackHandler F W) (m : Main Java)
      → Aligned calls F W (h, m)
      → h.posted ≡ []
      → attached m.java ≡ true
      → h.closed ≡ false
      → Refused (has_active_gesture h.bridge) h m (close calls true h m)
  unfolding close
  close-Ended h m (o, a, n) p at c =
      Refused-if (has_active_gesture h.bridge) h m _ (rw n (close_waiting-Ended h m o p at c))

  run_uninstall-empties :
      (h : AndroidBackHandler F W) (m : Main Java)
      → Calm calls
      → OwnsMain calls m
      → holds calls F W (run_uninstall calls h m) ≡ false
  unfolding run_uninstall unregister_slot
  run_uninstall-empties h m calm o = rw (calm.attached_lem m.java) (
      let v = m.slots h.registration in
      after_unregister-holds calls h (take_slot calls v h.registration m) false (
        (take_slot-Taken calls h.registration v m refl o).2
        ∙ ap not (take_slot-done calls calm h.registration v m)))

  -- What becomes of a handler after its drop: a gesture that it still owned ends by a call of its proxy.
  abbrev pub abandoned :
      Bool → Chars → Option (BackEvent F) → AndroidBackHandler F W → AndroidBackHandler F W
  abandoned true name arg h = callback true name arg h
  abandoned false name arg h = h

  terminal-posts :
      (e : PlatformEvent F) (h : AndroidBackHandler F W)
      → is_terminal e ≡ true
      → send_some true (some e) h ≡ record h { posted = h.posted ++ uninstall ∷ [] }
  terminal-posts (PlatformEvent.started p f) h t = absurd (cc)
  terminal-posts (PlatformEvent.progressed p f) h t = absurd (cc)
  terminal-posts PlatformEvent.cancelled h t = refl
  terminal-posts PlatformEvent.invoked h t = refl

  posted-empties :
      (h : AndroidBackHandler F W) (m : Main Java)
      → Calm calls
      → OwnsMain calls m
      → h.posted ≡ []
      → holds calls F W (run_posted calls (record h { posted = h.posted ++ uninstall ∷ [] }) m)
        ≡ false
  unfolding run_posted run_jobs run_job
  posted-empties h m calm o p = rw p (run_uninstall-empties (record h { posted = [] }) m calm o)

  abbrev left_behind :
      Bool → AndroidBackHandler F W → Main Java → AndroidBackHandler F W × Main Java
  left_behind b h m =
      if b
      then (h, quarantine h.registration m)
      else (record h { posted = h.posted ++ uninstall ∷ [] }, m)

  drop-eq :
      (h : AndroidBackHandler F W) (m : Main Java)
      → h.closed ≡ false
      → is_native_key h.strategy ≡ false
      → drop calls h m ≡ left_behind (has_active_gesture h.bridge) h m
  unfolding drop
  drop-eq h m c n = if_false (h.closed || is_native_key h.strategy) _ _ (or_false _ _ c n)

  dropped :
      (b : Bool) (name : Chars) (arg : Option (BackEvent F)) (e : PlatformEvent F)
      (h : AndroidBackHandler F W) (m : Main Java)
      → Calm calls
      → OwnsMain calls m
      → h.posted ≡ []
      → event_of name arg ≡ some e
      → is_terminal e ≡ true
      → let t = left_behind b h m in
        holds calls F W (run_posted calls (abandoned b name arg t.0) t.1) ≡ false
  unfolding callback
  dropped true name arg e h m calm o p q t =
      rw (q, terminal-posts e h t) (posted-empties h (quarantine h.registration m) calm o p)
  dropped false name arg e h m calm o p q t = posted-empties h m calm o p

  -- If no call of Java fails: an open handler aligned with Java that is dropped with nothing posted, and
  -- whose gesture, if it still owned one, is then ended by a terminal call of its proxy, holds no
  -- registration once the main thread has run what was posted.
  pub drop-empties :
      (name : Chars) (arg : Option (BackEvent F)) (e : PlatformEvent F) (h : AndroidBackHandler F W)
      (m : Main Java)
      → Calm calls
      → Aligned calls F W (h, m)
      → h.posted ≡ []
      → h.closed ≡ false
      → event_of name arg ≡ some e
      → is_terminal e ≡ true
      → let t = drop calls h m in
        holds calls F W
          (run_posted calls (abandoned (has_active_gesture h.bridge) name arg t.0) t.1)
        ≡ false
  drop-empties name arg e h m calm (o, a, n) p c q t =
      rw (drop-eq h m c n) (dropped (has_active_gesture h.bridge) name arg e h m calm o p q t)
