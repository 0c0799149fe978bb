-- ===== src/Tokio/Children.antt =====
-- The children of crates/essenty-lifecycle-tokio/src/repeat.rs: an invariant of every step says which child
-- may run.
use essenty.Common.{
  ℕ, Bool, true, false, ◌||◌, ◌≡◌, refl, sym, ap, ◌∙◌, Option, none, some, List, [], ◌∷◌, ◌==◌,
  arith, ==_iff, ==_refl, Bool-cases, inl, inr, subst,
}
use essenty.Lifecycle.State.{LifecycleState, is_destroyed}
use essenty.Tokio.Runtime.{Tokio}
use essenty.Tokio.Repeat.{
  Repeat, Control, receiving, stopping, finished, dropped, After, go_on, give_back, is_active,
  resume, listen, poll, await, take_child, stop_child, start_child, abort_child, on_state,
  on_closed, drop,
}
use essenty.Tokio.Steps.{Step, receive, close, wait, cancel, progress, Reach, here, later}

abbrev pub is_launched : ℕ → List ℕ → Bool
is_launched id [] = false
is_launched id (other ∷ others) = id == other || is_launched id others

either_of : (a b c : Bool) → (a || b) ≡ true → (b ≡ true → c ≡ true) → (a || c) ≡ true
either_of a b c h f = ground arith

-- Of the newest child and the others: if no other runs, the one that runs is the newest.
newest :
    (id n : ℕ) (l r : Bool)
    → (id == n || l) ≡ true
    → (id == n || r) ≡ true
    → (l ≡ true → r ≡ true → ◌≡◌ {A = Option ℕ} none (some id))
    → ◌≡◌ {A = Option ℕ} (some n) (some id)
newest id n l r h a f = elim (Bool-cases (id == n)) [
  | inl q ↦ ap some (sym ((==_iff id n).0 q))
  | inr q ↦ cc (f (sym (ap (λ b. b || l) q) ∙ h) (sym (ap (λ b. b || r) q) ∙ a))
]

module _ (tokio : Tokio) where
  open tokio use {
    Runtime, known, alive, requested, next, spawn, abort, Progress, known-spawn, known-abort,
    known-Progress, alive-spawn, alive-abort, alive-Progress, requested-spawn, requested-abort,
    requested-Progress,
  }

  -- No child runs but the one that the option names.
  abbrev pub Only : Repeat tokio → Option ℕ → Type 0
  Only s o = (id : ℕ) → is_launched id s.launched ≡ true → alive id s.runtime ≡ true → o ≡ some id

  abbrev pub Known : Repeat tokio → Type 0
  Known s = (id : ℕ) → is_launched id s.launched ≡ true → known id s.runtime ≡ true

  abbrev pub Fits : Control → Repeat tokio → Type 0
  Fits receiving s = Only s s.child
  Fits (stopping handle after) s =
      (s.child ≡ none) × (requested handle s.runtime ≡ true) × Only s (some handle)
  Fits (finished result) s = (s.child ≡ none) × Only s none
  Fits dropped s =
      (s.child ≡ none)
      × (o : Option ℕ) × Only s o
      × ((id : ℕ) → o ≡ some id → requested id s.runtime ≡ true)

  pub record Inv (s : Repeat tokio) : Type 0 where
    pub launched_known : Known s
    pub fits : Fits s.control s

  pub listen-Inv : (r : Runtime) → Inv (listen tokio r)
  unfolding listen
  listen-Inv r = record { launched_known = λ id h. cc; fits = λ id h a. cc }

  resume-Inv :
      (after : After) (s : Repeat tokio)
      → Known s
      → s.child ≡ none
      → Only s none
      → Inv (record s { control = resume after })
  resume-Inv go_on s k e f = record { launched_known = k; fits = subst (Only s) (sym e) f }
  resume-Inv give_back s k e f = record { launched_known = k; fits = (e, f) }

  take_child-Inv :
      (after : After) (o : Option ℕ) (s : Repeat tokio)
      → s.child ≡ o
      → Known s
      → Only s o
      → Inv (take_child tokio after o s)
  take_child-Inv after none s e k f = resume-Inv after s k e f
  take_child-Inv after (some handle) s e k f = record {
    launched_known = λ id h. known-abort id handle s.runtime ∙ k id h;
    fits = (
      refl,
      requested-abort handle handle s.runtime
          ∙ ap (λ b. b || requested handle s.runtime) (==_refl handle),
      λ id h a. f id h (alive-abort id handle s.runtime a),
    );
  }

  stop_child-Inv :
      (after : After) (s : Repeat tokio) → Known s → Only s s.child → Inv (stop_child tokio after s)
  unfolding stop_child
  stop_child-Inv after s k f = take_child-Inv after s.child s refl k f

  start_child-Inv :
      (o : Option ℕ) (s : Repeat tokio)
      → s.control ≡ receiving
      → s.child ≡ o
      → Known s
      → Only s o
      → Inv (start_child tokio o s)
  start_child-Inv (some handle) s c e k f = record {
    launched_known = k;
    fits = subst (λ control. Fits control s) (sym c) (subst (Only s) (sym e) f);
  }
  start_child-Inv none s c e k f =
      let started = start_child tokio none s in
      record {
        launched_known = λ id h.
            known-spawn id s.runtime
            ∙ either_of (id == next s.runtime) (is_launched id s.launched) (known id s.runtime) h
                (k id);
        fits =
            subst (λ control. Fits control started) (sym c)
              (λ id h a.
                newest id (next s.runtime) (is_launched id s.launched) (alive id s.runtime) h
                  (sym (alive-spawn id s.runtime) ∙ a) (f id));
      }

  receiving-Only : (s : Repeat tokio) → s.control ≡ receiving → Inv s → Only s s.child
  receiving-Only s c v = subst (λ control. Fits control s) c v.fits

  on_state-Inv :
      (min_state state : LifecycleState) (s : Repeat tokio)
      → s.control ≡ receiving
      → Inv s
      → Inv (on_state tokio min_state state s)
  unfolding on_state
  on_state-Inv min_state state s c v =
      let noted = record s { seen = state ∷ s.seen } in
      let only = receiving-Only s c v in
      elim (Bool-cases (is_destroyed state)) [
        | inl d ↦ rw d (stop_child-Inv give_back noted v.launched_known only)
        | inr d ↦ elim (Bool-cases (is_active state min_state)) [
          | inl a ↦ rw (d, a) (start_child-Inv s.child noted c refl v.launched_known only)
          | inr a ↦ rw (d, a) (stop_child-Inv go_on noted v.launched_known only)
        ]
      ]

  awaited-Inv :
      (after : After) (handle : ℕ) (s : Repeat tokio)
      → s.control ≡ stopping handle after
      → Inv s
      → alive handle s.runtime ≡ false
      → Inv (record s { control = resume after })
  awaited-Inv after handle s c v a =
      let f = subst (λ control. Fits control s) c v.fits in
      resume-Inv after s v.launched_known f.0 (λ id h r. cc (f.2 id h r, a, r))

  await-Inv :
      (control : Control) (s : Repeat tokio)
      → s.control ≡ control
      → Inv s
      → Inv (await tokio control s)
  await-Inv receiving s c v = v
  await-Inv (finished result) s c v = v
  await-Inv dropped s c v = v
  await-Inv (stopping handle after) s c v = elim (Bool-cases (alive handle s.runtime)) [
    | inl a ↦ rw a v
    | inr a ↦ rw a (awaited-Inv after handle s c v a)
  ]

  progress-Only :
      (s : Repeat tokio) (r : Runtime) (o : Option ℕ)
      → Progress s.runtime r
      → Known s
      → Only s o
      → Only (record s { runtime = r }) o
  progress-Only s r o p k f id h a = f id h (alive-Progress id s.runtime r p (k id h) a)

  progress-Fits :
      (control : Control) (s : Repeat tokio) (r : Runtime)
      → Progress s.runtime r
      → Known s
      → Fits control s
      → Fits control (record s { runtime = r })
  progress-Fits receiving s r p k f = progress-Only s r s.child p k f
  progress-Fits (stopping handle after) s r p k f =
      (f.0, requested-Progress handle s.runtime r p f.1, progress-Only s r (some handle) p k f.2)
  progress-Fits (finished result) s r p k f = (f.0, progress-Only s r none p k f.1)
  progress-Fits dropped s r p k f = (
    f.0,
    f.1,
    progress-Only s r f.1 p k f.2,
    λ id e. requested-Progress id s.runtime r p (f.3 id e),
  )

  progress-Inv :
      (s : Repeat tokio) (r : Runtime)
      → Progress s.runtime r
      → Inv s
      → Inv (record s { runtime = r })
  progress-Inv s r p v = record {
    launched_known = λ id h. known-Progress id s.runtime r p (v.launched_known id h);
    fits = progress-Fits s.control s r p v.launched_known v.fits;
  }

  -- The state after a drop, by the child that it aborts.
  abbrev dropped_with : Option ℕ → Repeat tokio → Repeat tokio
  dropped_with o s = record s {
    control = dropped;
    child = none;
    runtime = abort_child tokio o s.runtime;
  }

  drop_idle-Inv :
      (s : Repeat tokio) (o : Option ℕ)
      → s.child ≡ none
      → Known s
      → Only s o
      → ((id : ℕ) → o ≡ some id → requested id s.runtime ≡ true)
      → Inv (dropped_with s.child s)
  drop_idle-Inv s o e k f q =
      subst (λ c. Inv (dropped_with c s)) (sym e)
        (record { launched_known = k; fits = (refl, o, f, q) })

  some-inj : (h id : ℕ) → ◌≡◌ {A = Option ℕ} (some h) (some id) → (id == h) ≡ true
  some-inj h id e = ground arith

  drop_child-Inv : (o : Option ℕ) (s : Repeat tokio) → Known s → Only s o → Inv (dropped_with o s)
  drop_child-Inv none s k f = record { launched_known = k; fits = (refl, none, f, λ id e. cc) }
  drop_child-Inv (some handle) s k f = record {
    launched_known = λ id h. known-abort id handle s.runtime ∙ k id h;
    fits = (
      refl,
      some handle,
      λ id h a. f id h (alive-abort id handle s.runtime a),
      λ id e.
          requested-abort id handle s.runtime
          ∙ ap (λ b. b || requested id s.runtime) (some-inj handle id e),
    );
  }

  drop_fitting-Inv :
      (control : Control) (s : Repeat tokio)
      → Known s
      → Fits control s
      → Inv (dropped_with s.child s)
  drop_fitting-Inv receiving s k f = drop_child-Inv s.child s k f
  drop_fitting-Inv (stopping handle after) s k f =
      drop_idle-Inv s (some handle) f.0 k f.2 (λ id e. cc (e, f.1))
  drop_fitting-Inv (finished result) s k f = drop_idle-Inv s none f.0 k f.1 (λ id e. cc)
  drop_fitting-Inv dropped s k f = drop_idle-Inv s f.1 f.0 k f.2 f.3

  drop-Inv : (s : Repeat tokio) → Inv s → Inv (drop tokio s)
  unfolding drop
  drop-Inv s v = drop_fitting-Inv s.control s v.launched_known v.fits

  module _ (min_state : LifecycleState) where
    Step-Inv : {s t : Repeat tokio} → Step tokio min_state s t → Inv s → Inv t
    unfolding on_closed poll
    Step-Inv {s} (receive state c) v = on_state-Inv min_state state s c v
    Step-Inv {s} (close c) v = stop_child-Inv give_back s v.launched_known (receiving-Only s c v)
    Step-Inv {s} wait v = await-Inv s.control s refl v
    Step-Inv {s} cancel v = drop-Inv s v
    Step-Inv {s} (progress r p) v = progress-Inv s r p v

    pub Reach-Inv : {s t : Repeat tokio} → Reach tokio min_state s t → Inv s → Inv t
    Reach-Inv here v = v
    Reach-Inv (later path step) v = Step-Inv step (Reach-Inv path v)
