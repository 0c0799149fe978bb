-- ===== src/Tokio/Launches.antt =====
-- How often crates/essenty-lifecycle-tokio/src/repeat.rs launches a child: the repetition against an
-- automaton that knows nothing of tasks.
use essenty.Common.{
  ℕ, suc, leb, ltb, Bool, true, false, ◌&&◌, ◌≡◌, refl, sym, ap, ◌∙◌, Option, none, some, List, [],
  ◌∷◌, not, if◌then◌else◌, arith, Bool-cases, inl, inr, subst, length, is_some,
}
use essenty.Lifecycle.State.{LifecycleState, destroyed, is_destroyed, rank}
use essenty.Tokio.Runtime.{Tokio}
use essenty.Tokio.Repeat.{
  Repeat, Control, receiving, stopping, finished, dropped, go_on, give_back, is_active, listen,
  poll, await, take_child, stop_child, start_child, on_state, on_closed, drop,
}
use essenty.Tokio.Steps.{Step, receive, close, wait, cancel, progress, Reach, here, later}

-- The states that count as active, by their place in the order of the states.
abbrev pub in_range : LifecycleState → LifecycleState → Bool
in_range min_state state = leb (rank min_state) (rank state) && ltb (rank state) (rank destroyed)

-- Whether a child is due after the states received, the newest first: the last was active.
abbrev pub due : LifecycleState → List LifecycleState → Bool
due min_state [] = false
due min_state (state ∷ earlier) = in_range min_state state

-- How often the states became active.
abbrev pub entries : LifecycleState → List LifecycleState → ℕ
entries min_state [] = 0
entries min_state (state ∷ earlier) =
    let before = entries min_state earlier in
    if in_range min_state state && not (due min_state earlier) then suc before else before

is_active-in_range :
    (min_state state : LifecycleState) → is_active state min_state ≡ in_range min_state state
unfolding is_active
is_active-in_range min_state state = ground arith

module _ (tokio : Tokio) (min_state : LifecycleState) where
  open tokio use {Runtime, Progress}

  abbrev Slot : Control → Repeat tokio → Type 0
  Slot receiving s = is_some s.child ≡ due min_state s.seen
  Slot (stopping handle go_on) s = (s.child ≡ none) × (due min_state s.seen ≡ false)
  Slot _ s = Unit

  record Agrees (s : Repeat tokio) : Type 0 where
    slot : Slot s.control s
    count : length s.launched ≡ entries min_state s.seen

  go_on-Agrees :
      (o : Option ℕ) (s : Repeat tokio)
      → s.child ≡ o
      → due min_state s.seen ≡ false
      → length s.launched ≡ entries min_state s.seen
      → Agrees (take_child tokio go_on o s)
  go_on-Agrees none s e d n = record { slot = ap is_some e ∙ sym d; count = n }
  go_on-Agrees (some handle) s e d n = record { slot = (refl, d); count = n }

  give_back-Agrees :
      (o : Option ℕ) (s : Repeat tokio)
      → length s.launched ≡ entries min_state s.seen
      → Agrees (take_child tokio give_back o s)
  give_back-Agrees none s n = record { slot = tt; count = n }
  give_back-Agrees (some handle) s n = record { slot = tt; count = n }

  -- The count after a state that is not active, and after one that is.
  entries-idle :
      (state : LifecycleState) (seen : List LifecycleState)
      → in_range min_state state ≡ false
      → entries min_state (state ∷ seen) ≡ entries min_state seen
  entries-idle state seen a = rw a refl

  entries-active :
      (state : LifecycleState) (seen : List LifecycleState) (b : Bool)
      → in_range min_state state ≡ true
      → b ≡ due min_state seen
      → entries min_state (state ∷ seen)
        ≡ (if b then entries min_state seen else suc (entries min_state seen))
  entries-active state seen b a d = ground arith

  start_child-Agrees :
      (o : Option ℕ) (state : LifecycleState) (s : Repeat tokio)
      → s.control ≡ receiving
      → s.child ≡ o
      → in_range min_state state ≡ true
      → is_some o ≡ due min_state s.seen
      → length s.launched ≡ entries min_state s.seen
      → Agrees (start_child tokio o (record s { seen = state ∷ s.seen }))
  start_child-Agrees (some handle) state s c e a d n = record {
    slot =
        subst (λ control. Slot control (record s { seen = state ∷ s.seen })) (sym c)
          (ap is_some e ∙ sym a);
    count = n ∙ sym (entries-active state s.seen true a d);
  }
  start_child-Agrees none state s c e a d n = record {
    slot =
        subst
          (λ control. Slot control (start_child tokio none (record s { seen = state ∷ s.seen })))
          (sym c) (sym a);
    count = ap suc n ∙ sym (entries-active state s.seen false a d);
  }

  destroyed_is_idle :
      (state : LifecycleState) → is_destroyed state ≡ true → in_range min_state state ≡ false
  destroyed_is_idle state d = ground arith

  on_state-Agrees :
      (state : LifecycleState) (s : Repeat tokio)
      → s.control ≡ receiving
      → Agrees s
      → Agrees (on_state tokio min_state state s)
  unfolding on_state stop_child
  on_state-Agrees state s c v =
      let noted = record s { seen = state ∷ s.seen } in
      let slot = subst (λ control. Slot control s) c v.slot in
      elim (Bool-cases (is_destroyed state)) [
        | inl d ↦ rw d (
            give_back-Agrees s.child noted
              (v.count ∙ sym (entries-idle state s.seen (destroyed_is_idle state d))))
        | inr d ↦ elim (Bool-cases (is_active state min_state)) [
          | inl a ↦
              let q = sym (is_active-in_range min_state state) ∙ a in
              rw (d, a) (start_child-Agrees s.child state s c refl q slot v.count)
          | inr a ↦
              let q = sym (is_active-in_range min_state state) ∙ a in
              rw (d, a)
                (go_on-Agrees s.child noted refl q (v.count ∙ sym (entries-idle state s.seen q)))
        ]
      ]

  await-Agrees :
      (control : Control) (s : Repeat tokio)
      → s.control ≡ control
      → Agrees s
      → Agrees (await tokio control s)
  await-Agrees receiving s c v = v
  await-Agrees (finished result) s c v = v
  await-Agrees dropped s c v = v
  await-Agrees (stopping handle give_back) s c v =
      elim (Bool-cases (tokio.alive handle s.runtime)) [
        | inl a ↦ rw a v
        | inr a ↦ rw a (record { slot = tt; count = v.count })
      ]
  await-Agrees (stopping handle go_on) s c v =
      let slot = subst (λ control. Slot control s) c v.slot in
      elim (Bool-cases (tokio.alive handle s.runtime)) [
        | inl a ↦ rw a v
        | inr a ↦ rw a (record { slot = ap is_some slot.0 ∙ sym slot.1; count = v.count })
      ]

  progress-Slot :
      (control : Control) (s : Repeat tokio) (r : Runtime)
      → Slot control s
      → Slot control (record s { runtime = r })
  progress-Slot receiving s r h = h
  progress-Slot (stopping handle go_on) s r h = h
  progress-Slot (stopping handle give_back) s r h = tt
  progress-Slot (finished result) s r h = tt
  progress-Slot dropped s r h = tt

  Step-Agrees : {s t : Repeat tokio} → Step tokio min_state s t → Agrees s → Agrees t
  unfolding on_closed stop_child poll drop
  Step-Agrees {s} (receive state c) v = on_state-Agrees state s c v
  Step-Agrees {s} (close c) v = give_back-Agrees s.child s v.count
  Step-Agrees {s} wait v = await-Agrees s.control s refl v
  Step-Agrees {s} cancel v = record { slot = tt; count = v.count }
  Step-Agrees {s} (progress r p) v = record {
    slot = progress-Slot s.control s r v.slot;
    count = v.count;
  }

  listen-Agrees : (r : Runtime) → Agrees (listen tokio r)
  unfolding listen
  listen-Agrees r = record { slot = refl; count = refl }

  Reach-Agrees : {s t : Repeat tokio} → Reach tokio min_state s t → Agrees s → Agrees t
  Reach-Agrees here v = v
  Reach-Agrees (later path step) v = Step-Agrees step (Reach-Agrees path v)

  -- However the steps follow one another and whenever children return by themselves, the repetition has
  -- launched as many children as there are entries into the active states among the states that it
  -- received; and while it waits for a state, it holds a child exactly if the last one was active.
  pub launches_refine :
      (r : Runtime) {t : Repeat tokio}
      → Reach tokio min_state (listen tokio r) t
      → (length t.launched ≡ entries min_state t.seen)
        × (t.control ≡ receiving → is_some t.child ≡ due min_state t.seen)
  launches_refine r {t} path =
      let v = Reach-Agrees path (listen-Agrees r) in
      (v.count, λ c. subst (λ control. Slot control t) c v.slot)
