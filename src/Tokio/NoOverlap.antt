-- ===== src/Tokio/NoOverlap.antt =====
-- The children of crates/essenty-lifecycle-tokio/src/repeat.rs: never two at once.
use essenty.Common.{
  ℕ, true, false, ◌≡◌, sym, ◌∙◌, Option, none, some, arith, Bool-cases, inl, inr, subst,
}
use essenty.Common.Results.{Result}
use essenty.Lifecycle.State.{LifecycleState}
use essenty.Tokio.Runtime.{Tokio}
use essenty.Tokio.Repeat.{
  Repeat, RepeatError, Control, receiving, stopping, finished, dropped, listen,
}
use essenty.Tokio.Steps.{Reach}
use essenty.Tokio.Children.{is_launched, Only, Fits, listen-Inv, Reach-Inv}

some_eq : (a b : ℕ) → ◌≡◌ {A = Option ℕ} (some a) (some b) → a ≡ b
some_eq a b e = ground arith

module _ (tokio : Tokio) where
  open tokio use {Runtime, alive, requested}

  one_alive :
      (s : Repeat tokio) (o : Option ℕ)
      → Only tokio s o
      → (a b : ℕ) → is_launched a s.launched ≡ true
      → alive a s.runtime ≡ true
      → is_launched b s.launched ≡ true
      → alive b s.runtime ≡ true
      → a ≡ b
  one_alive s o f a b la ra lb rb = some_eq a b (sym (f a la ra) ∙ f b lb rb)

  Fits-Only :
      (control : Control) (s : Repeat tokio)
      → Fits tokio control s
      → (o : Option ℕ) × Only tokio s o
  Fits-Only receiving s f = (s.child, f)
  Fits-Only (stopping handle after) s f = (some handle, f.2)
  Fits-Only (finished result) s f = (none, f.1)
  Fits-Only dropped s f = (f.1, f.2)

  dead :
      (s : Repeat tokio) (result : Result RepeatError (Unit {0}))
      → Fits tokio (finished result) s
      → (id : ℕ) → is_launched id s.launched ≡ true
      → alive id s.runtime ≡ false
  dead s result f id l = elim (Bool-cases (alive id s.runtime)) [
    | inl a ↦ cc (f.1 id l a)
    | inr a ↦ a
  ]

  -- However its steps and those of the runtime follow one another, a repetition never has two children
  -- running at once; when it has returned, none of its children runs; and when it was dropped, a child
  -- that still runs was asked to abort.
  pub no-overlap :
      (min_state : LifecycleState) (r : Runtime) {t : Repeat tokio}
      → Reach tokio min_state (listen tokio r) t
      → ((a b : ℕ)
          → is_launched a t.launched ≡ true
          → alive a t.runtime ≡ true
          → is_launched b t.launched ≡ true
          → alive b t.runtime ≡ true
          → a ≡ b)
        × ((result : Result RepeatError (Unit {0}))
            → t.control ≡ finished result
            → (id : ℕ) → is_launched id t.launched ≡ true
            → alive id t.runtime ≡ false)
        × (t.control ≡ dropped
            → (id : ℕ) → is_launched id t.launched ≡ true
            → alive id t.runtime ≡ true
            → requested id t.runtime ≡ true)
  no-overlap min_state r {t} path =
      let v = Reach-Inv tokio min_state path (listen-Inv tokio r) in
      let owner = Fits-Only t.control t v.fits in
      (
        λ a b la ra lb rb. one_alive t owner.0 owner.1 a b la ra lb rb,
        λ result c. dead t result (subst (λ control. Fits tokio control t) c v.fits),
        λ c id l a.
            (let f = subst (λ control. Fits tokio control t) c v.fits in f.3 id (f.2 id l a)),
      )
