-- ===== src/Android/Slots.antt =====
-- crates/essenty-android/src/back_handler/platform.rs: what the parts of a job on the Java main thread
-- leave in the mutexes.
use essenty.Common.{
  ℕ, Bool, true, false, not, Option, none, some, List, [], ◌∷◌, if◌then◌else◌, ◌≡◌, refl, ap, ◌∙◌,
  arith, Bool-cases, inl, inr, is_some,
}
use essenty.Android.BackHandler.{AndroidBackStrategy, is_native_key}
use essenty.Android.Java.{JavaCalls}
use essenty.Android.JavaMain.{
  Registration, Main, Setup, refused, skipped, installed, set_slot, take_slot, retry_all,
  retry_quarantined, register_proxy, with_dispatcher, setup, unregister_slot,
}
use essenty.Android.Owning.{Owns, place, place-same, empty-Owns, fill-Owns, quiet-Owns}

module _ (calls : JavaCalls) where
  open calls use {
    Java, listens, known, listens-known, build_proxy-new, attached, get_dispatcher, build_proxy,
    register, unregister, listens-get_dispatcher, listens-build_proxy, listens-register,
    listens-unregister, known-build_proxy,
  }

  abbrev pub OwnsMain : Main Java → Type 0
  OwnsMain m = Owns m.slots (λ p. listens p m.java)

  -- No mutex that was empty is filled.
  abbrev pub Empties : Main Java → Main Java → Type 0
  Empties m t = (id : ℕ) → m.slots id ≡ none → t.slots id ≡ none

  abbrev pub Taken : ℕ → Main Java → Bool × Main Java → Type 0
  Taken id m (done, t) = OwnsMain t × Empties m t × (is_some (t.slots id) ≡ not done)

  empties-place :
      (id b : ℕ) (slots : ℕ → Option Registration) → slots b ≡ none → place id none slots b ≡ none
  empties-place id b slots e = ground arith

  take_some :
      (id : ℕ) (r : Registration) (m : Main Java) (done : Bool)
      → m.slots id ≡ some r
      → OwnsMain m
      → (unregister r.dispatcher r.proxy m.java).0 ≡ done
      → let j = (unregister r.dispatcher r.proxy m.java).1 in
        let t = record m { java = j } in Taken id m (done, if done then set_slot id none t else t)
  take_some id r m true e o q = (
    empty-Owns m.slots (λ p. listens p m.java) _ o id r e
        (λ p. listens-unregister r.dispatcher r.proxy p m.java ∙ rw q refl),
    (λ b f. empties-place id b m.slots f),
    ap is_some (place-same id none m.slots),
  )
  take_some id r m false e o q = (
    quiet-Owns m.slots (λ p. listens p m.java) _ o
        (λ p. listens-unregister r.dispatcher r.proxy p m.java ∙ rw q refl),
    (λ b f. f),
    ap is_some e,
  )

  pub take_slot-Taken :
      (id : ℕ) (v : Option Registration) (m : Main Java)
      → m.slots id ≡ v
      → OwnsMain m
      → Taken id m (take_slot calls v id m)
  unfolding take_slot
  take_slot-Taken id none m e o = (o, (λ b f. f), ap is_some e)
  take_slot-Taken id (some r) m e o =
      take_some id r m (unregister r.dispatcher r.proxy m.java).0 e o refl

  pub retry_all-Owns :
      (ids : List ℕ) (m : Main Java)
      → OwnsMain m
      → OwnsMain (retry_all calls ids m).1 × Empties m (retry_all calls ids m).1
  unfolding retry_all
  retry_all-Owns [] m o = (o, λ b f. f)
  retry_all-Owns (id ∷ ids) m o =
      let t = take_slot-Taken id (m.slots id) m refl o in
      let r = retry_all-Owns ids (take_slot calls (m.slots id) id m).1 t.0 in
      (r.0, λ b f. r.1 b (t.1 b f))

  -- What an attempt to register a new proxy leaves: the mutex holds it exactly if it succeeded.
  abbrev pub is_installed : Setup → Bool
  is_installed installed = true
  is_installed _ = false

  abbrev pub SetUp : ℕ → Setup × Main Java → Type 0
  SetUp id (outcome, t) = OwnsMain t × (is_some (t.slots id) ≡ is_installed outcome)

  register_some :
      (id d p : ℕ) (m : Main Java) (done : Bool)
      → m.slots id ≡ none
      → listens p m.java ≡ false
      → OwnsMain m
      → (register d p m.java).0 ≡ done
      → let t = record m { java = (register d p m.java).1 } in
        SetUp id (
          if done
          then (installed, set_slot id (some (record { dispatcher = d; proxy = p })) t)
          else (refused, t))
  register_some id d p m true e n o q = (
    fill-Owns m.slots (λ x. listens x m.java) _ o id (record { dispatcher = d; proxy = p }) e n
        (λ x. listens-register d p x m.java ∙ rw q refl),
    ap is_some (place-same id (some (record { dispatcher = d; proxy = p })) m.slots),
  )
  register_some id d p m false e n o q = (
    quiet-Owns m.slots (λ x. listens x m.java) _ o (λ x. listens-register d p x m.java ∙ rw q refl),
    ap is_some e,
  )

  not_listening : (b c : Bool) → (b ≡ true → c ≡ true) → c ≡ false → b ≡ false
  not_listening true c f e = ground (arith, f refl)
  not_listening false c f e = refl

  register_proxy-SetUp :
      (id d : ℕ) (s : AndroidBackStrategy) (p : Option ℕ) (m : Main Java)
      → m.slots id ≡ none
      → OwnsMain m
      → (build_proxy s m.java).0 ≡ p
      → SetUp id (register_proxy calls id d p (record m { java = (build_proxy s m.java).1 }))
  unfolding register_proxy
  register_proxy-SetUp id d s none m e o q = (
    quiet-Owns m.slots (λ x. listens x m.java) _ o (λ x. listens-build_proxy s x m.java),
    ap is_some e,
  )
  register_proxy-SetUp id d s (some p) m e o q =
      register_some id d p (record m { java = (build_proxy s m.java).1 })
        (register d p (build_proxy s m.java).1).0 e
        (listens-build_proxy s p m.java
          ∙ not_listening (listens p m.java) (known p m.java) (listens-known p m.java)
              (build_proxy-new s p m.java q).0)
        (quiet-Owns m.slots (λ x. listens x m.java) _ o (λ x. listens-build_proxy s x m.java)) refl

  with_dispatcher-SetUp :
      (id : ℕ) (s : AndroidBackStrategy) (d : Option ℕ) (m : Main Java)
      → m.slots id ≡ none
      → OwnsMain m
      → SetUp id (with_dispatcher calls s id d m)
  unfolding with_dispatcher
  with_dispatcher-SetUp id s none m e o = (o, ap is_some e)
  with_dispatcher-SetUp id s (some d) m e o = elim (Bool-cases (is_native_key s)) [
    | inl q ↦ rw q (o, ap is_some e)
    | inr q ↦ rw q (register_proxy-SetUp id d s (build_proxy s m.java).0 m e o refl)
  ]

  -- Whatever fails, a setup for an empty mutex fills it exactly if it installed its proxy.
  pub setup-SetUp :
      (id : ℕ) (s : AndroidBackStrategy) (m : Main Java)
      → m.slots id ≡ none
      → OwnsMain m
      → SetUp id (setup calls s id m)
  unfolding setup retry_quarantined
  setup-SetUp id s m e o = elim (Bool-cases (attached m.java)) [
    | inl q ↦ rw q (
        let r = retry_all-Owns m.retries m o in
        let t = (retry_all calls m.retries m).1 in
        with_dispatcher-SetUp id s (get_dispatcher t.java).0
          (record t { retries = (retry_all calls m.retries m).0; java = (get_dispatcher t.java).1 })
          (r.1 id e)
          (quiet-Owns t.slots (λ x. listens x t.java) _ r.0 (λ x. listens-get_dispatcher x t.java)))
    | inr q ↦ rw q (o, ap is_some e)
  ]

  abbrev pub is_skipped : Setup → Bool
  is_skipped skipped = true
  is_skipped _ = false

  register_proxy-not_skipped :
      (id d : ℕ) (p : Option ℕ) (m : Main Java)
      → is_skipped (register_proxy calls id d p m).0 ≡ false
  unfolding register_proxy
  register_proxy-not_skipped id d none m = refl
  register_proxy-not_skipped id d (some p) m = elim (Bool-cases (register d p m.java).0) [
    | inl q ↦ rw q refl
    | inr q ↦ rw q refl
  ]

  with_dispatcher-not_skipped :
      (id : ℕ) (s : AndroidBackStrategy) (d : Option ℕ) (m : Main Java)
      → is_native_key s ≡ false
      → is_skipped (with_dispatcher calls s id d m).0 ≡ false
  unfolding with_dispatcher
  with_dispatcher-not_skipped id s none m q = refl
  with_dispatcher-not_skipped id s (some d) m q = rw q (
      register_proxy-not_skipped id d (build_proxy s m.java).0
        (record m { java = (build_proxy s m.java).1 }))

  -- Only the native key skips the setup.
  pub setup-not_skipped :
      (id : ℕ) (s : AndroidBackStrategy) (m : Main Java)
      → is_native_key s ≡ false
      → is_skipped (setup calls s id m).0 ≡ false
  unfolding setup retry_quarantined
  setup-not_skipped id s m n = elim (Bool-cases (attached m.java)) [
    | inl q ↦ rw q (
        let t = (retry_all calls m.retries m).1 in
        with_dispatcher-not_skipped id s (get_dispatcher t.java).0
          (record t { retries = (retry_all calls m.retries m).0; java = (get_dispatcher t.java).1 })
          n)
    | inr q ↦ rw q refl
  ]

  pub unregister_slot-Taken :
      (id : ℕ) (m : Main Java)
      → OwnsMain m
      → is_some (m.slots id) ≡ true
      → Taken id m (unregister_slot calls id m)
  unfolding unregister_slot
  unregister_slot-Taken id m o h = elim (Bool-cases (attached m.java)) [
    | inl q ↦ rw q (take_slot-Taken id (m.slots id) m refl o)
    | inr q ↦ rw q (o, λ b f. f, h)
  ]
