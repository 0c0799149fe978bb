-- ===== src/Tokio/Ending.antt =====
-- The loop of crates/essenty-lifecycle-tokio/src/repeat.rs over the states in its channel comes to an end
-- when the lifecycle does.
use essenty.Common.{
  ℕ, Bool, true, false, ◌||◌, ◌≡◌, refl, ap, ◌∙◌, Option, none, some, List, [], ◌∷◌, if◌then◌else◌,
  Bool-cases, inl, inr, ==_refl,
}
use essenty.Common.Results.{ok}
use essenty.Lifecycle.State.{LifecycleState, is_destroyed}
use essenty.Tokio.Runtime.{Tokio}
use essenty.Tokio.Repeat.{
  Repeat, Control, receiving, stopping, finished, dropped, After, go_on, give_back, is_active,
  resume, listen, poll, take_child, stop_child, start_child, on_state,
}
use essenty.Tokio.Steps.{receive, wait, progress, Reach, here, later}
use essenty.Tokio.Children.{is_launched}
use essenty.Tokio.NoOverlap.{no-overlap}

abbrev pub ends : List LifecycleState → Bool
ends [] = false
ends (state ∷ states) = is_destroyed state || ends states

module _ (tokio : Tokio) (min_state : LifecycleState) where
  open tokio use {
    Runtime, abort, alive, requested, settle, settle-Progress, alive-settle, requested-abort,
  }

  -- A runtime that runs an aborted child to its end before the loop is polled again.
  abbrev pub settled : Control → Repeat tokio → Repeat tokio
  settled (stopping handle after) s = poll tokio (record s { runtime = settle handle s.runtime })
  settled _ s = s

  -- The `while` loop for the states in the channel; a loop that returned receives no more.
  abbrev pub next_round : Control → Repeat tokio → Repeat tokio → Repeat tokio
  next_round receiving s rest = rest
  next_round _ s rest = s

  unfoldable pub round : LifecycleState → Repeat tokio → Repeat tokio
  round state s = let t = on_state tokio min_state state s in settled t.control t

  unfoldable pub drain : List LifecycleState → Repeat tokio → Repeat tokio
  drain [] s = s
  drain (state ∷ states) s = let u = round state s in next_round u.control u (drain states u)

  settled-Reach :
      (control : Control) (s t : Repeat tokio)
      → t.control ≡ control
      → Reach tokio min_state s t
      → Reach tokio min_state s (settled control t)
  settled-Reach receiving s t c path = path
  settled-Reach (stopping handle after) s t c path =
      later (later path (progress (settle handle t.runtime) (settle-Progress handle t.runtime)))
        wait
  settled-Reach (finished result) s t c path = path
  settled-Reach dropped s t c path = path

  -- Where the code is after a round: it waits for the next state, or returned if the lifecycle ended.
  take_child-settled :
      (after : After) (o : Option ℕ) (s : Repeat tokio)
      → let t = take_child tokio after o s in (settled t.control t).control ≡ resume after
  unfolding poll
  take_child-settled go_on none s = refl
  take_child-settled give_back none s = refl
  take_child-settled after (some handle) s =
      rw
        (alive-settle handle (abort handle s.runtime) (
          requested-abort handle handle s.runtime
          ∙ ap (λ b. b || requested handle s.runtime) (==_refl handle)))
        refl

  start_child-settled :
      (o : Option ℕ) (s : Repeat tokio)
      → s.control ≡ receiving
      → let t = start_child tokio o s in (settled t.control t).control ≡ receiving
  start_child-settled none s c =
      ap (λ control. (settled control (start_child tokio none s)).control) c ∙ c
  start_child-settled (some handle) s c = ap (λ control. (settled control s).control) c ∙ c

  round-control :
      (state : LifecycleState) (s : Repeat tokio)
      → s.control ≡ receiving
      → (round state s).control ≡ (if is_destroyed state then finished (ok tt) else receiving)
  unfolding round on_state stop_child
  round-control state s c =
      let noted = record s { seen = state ∷ s.seen } in
      elim (Bool-cases (is_destroyed state)) [
        | inl d ↦ rw d (take_child-settled give_back s.child noted)
        | inr d ↦ elim (Bool-cases (is_active state min_state)) [
          | inl a ↦ rw (d, a) (start_child-settled s.child noted c)
          | inr a ↦ rw (d, a) (take_child-settled go_on s.child noted)
        ]
      ]

  round-Reach :
      (state : LifecycleState) (s t : Repeat tokio)
      → t.control ≡ receiving
      → Reach tokio min_state s t
      → Reach tokio min_state s (round state t)
  unfolding round
  round-Reach state s t c path =
      let u = on_state tokio min_state state t in
      settled-Reach u.control s u refl (later path (receive state c))

  next_round-Reach :
      (control : Control) (s u rest : Repeat tokio)
      → Reach tokio min_state s u
      → (control ≡ receiving → Reach tokio min_state s rest)
      → Reach tokio min_state s (next_round control u rest)
  next_round-Reach receiving s u rest path more = more refl
  next_round-Reach (stopping handle after) s u rest path more = path
  next_round-Reach (finished result) s u rest path more = path
  next_round-Reach dropped s u rest path more = path

  drain-Reach :
      (states : List LifecycleState) (s t : Repeat tokio)
      → t.control ≡ receiving
      → Reach tokio min_state s t
      → Reach tokio min_state s (drain states t)
  unfolding drain
  drain-Reach [] s t c path = path
  drain-Reach (state ∷ states) s t c path =
      let u = round state t in
      let there = round-Reach state s t c path in
      next_round-Reach u.control s u (drain states u) there (λ q. drain-Reach states s u q there)

  listen-control : (r : Runtime) → (listen tokio r).control ≡ receiving
  unfolding listen
  listen-control r = refl

  drain-control :
      (states : List LifecycleState) (s : Repeat tokio)
      → s.control ≡ receiving
      → (drain states s).control ≡ (if ends states then finished (ok tt) else receiving)
  unfolding drain
  drain-control [] s c = c
  drain-control (state ∷ states) s c =
      let u = round state s in
      elim (Bool-cases (is_destroyed state)) [
        | inl d ↦
            let over : u.control ≡ finished (ok tt) = rw d at (round-control state s c) in
            rw d (ap (λ control. (next_round control u (drain states u)).control) over ∙ over)
        | inr d ↦
            let waits : u.control ≡ receiving = rw d at (round-control state s c) in
            rw d (
              ap (λ control. (next_round control u (drain states u)).control) waits
              ∙ drain-control states u waits)
      ]

  -- The repetition goes through the states in its channel, and each child that it aborts comes to its end:
  -- if the lifecycle was destroyed among them, it returns `Ok` and leaves no child running, whatever
  -- comes behind in the channel; if not, it waits for the next state. Both follow its steps.
  pub drain-ends :
      (states : List LifecycleState) (r : Runtime)
      → let t = drain states (listen tokio r) in
        Reach tokio min_state (listen tokio r) t
        × (t.control ≡ (if ends states then finished (ok tt) else receiving))
        × (ends states ≡ true
            → (id : ℕ) → is_launched id t.launched ≡ true
            → alive id t.runtime ≡ false)
  drain-ends states r =
      let path = drain-Reach states (listen tokio r) (listen tokio r) (listen-control r) here in
      let control = drain-control states (listen tokio r) (listen-control r) in
      (
        path,
        control,
        λ e.
            (no-overlap tokio min_state r path).1 (ok tt)
              (control ∙ ap (λ b. if b then finished (ok tt) else receiving) e),
      )
