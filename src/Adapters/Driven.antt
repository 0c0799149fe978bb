-- ===== src/Adapters/Driven.antt =====
-- A registry of crates/essenty-lifecycle/src/registry.rs that the events of a platform drive: what a host
-- that asks for one state at each event makes of any sequence of events.
use essenty.Common.{
  ℕ, suc, ◌<◌, Bool, true, false, not, ◌&&◌, ◌≡◌, refl, sym, ap, ◌∙◌, subst, Option, none, some,
  List, [], ◌∷◌, ◌++◌, map, arith, Bool-cases, inl, inr, if◌then◌else◌,
}
use essenty.Common.Results.{ok, err, ◌>>=◌}
use essenty.Lifecycle.State.{
  LifecycleState, initialized, destroyed, is_destroyed, eq_state, invalid_transition,
}
use essenty.Lifecycle.Registry.{World, new, move_to, destroy}
use essenty.Lifecycle.Subscribe.{exec}
use essenty.Lifecycle.Route.{route, last, all_live}
use essenty.Lifecycle.Visit.{Handler, plain, visit, enter, visit-state, visit-observers}
use essenty.Lifecycle.Delivery.{destroy-plain, move_to-plain}
use essenty.Adapters.Hosts.{ignore}

-- The states between a state and the one asked for, if any.
abbrev pub path : LifecycleState → Option LifecycleState → List LifecycleState
path s none = []
path s (some t) = route s t

-- The states entered over a sequence of requests.
abbrev pub journey : LifecycleState → List (Option LifecycleState) → List LifecycleState
journey s [] = []
journey s (o ∷ os) = path s o ++ journey (last s (path s o)) os

-- The state after a sequence of requests: the last one asked for, but Destroyed for good once it was.
abbrev pub advance : LifecycleState → Option LifecycleState → LifecycleState
advance s none = s
advance s (some t) = if is_destroyed s then s else t

abbrev pub settled : LifecycleState → List (Option LifecycleState) → LifecycleState
settled s [] = s
settled s (o ∷ os) = settled (advance s o) os

abbrev pub is_initialized : Option LifecycleState → Bool
is_initialized none = false
is_initialized (some t) = eq_state t initialized

pub last-path :
    (s : LifecycleState) (o : Option LifecycleState)
    → is_initialized o ≡ false
    → last s (path s o) ≡ advance s o
last-path s none h = refl
last-path s (some t) h = ground arith

path-all_live :
    (s : LifecycleState) (o : Option LifecycleState)
    → is_destroyed (last s (path s o)) ≡ false
    → all_live (path s o) ≡ true
path-all_live s none h = refl
path-all_live s (some t) h = ground arith

last-append :
    (s : LifecycleState) (ss ts : List LifecycleState) → last s (ss ++ ts) ≡ last (last s ss) ts
last-append s [] ts = refl
last-append s (t ∷ ss) ts = last-append t ss ts

pub route-destroyed : (s t : LifecycleState) → is_destroyed s ≡ true → route s t ≡ []
route-destroyed s t d = ground arith

pub if_true : {A : Type 0} (b : Bool) (x y : A) → b ≡ true → (if b then x else y) ≡ x
if_true true x y e = refl
if_true false x y e = absurd (cc)

pub if_false : {A : Type 0} (b : Bool) (x y : A) → b ≡ false → (if b then x else y) ≡ y
if_false true x y e = absurd (cc)
if_false false x y e = refl

module _ {W : Type 0} (hs : List (ℕ × Handler W)) where
  visit-append :
      (ss ts : List LifecycleState) (w : World W)
      → visit hs (ss ++ ts) w ≡ visit hs ts (visit hs ss w)
  visit-append [] ts w = refl
  visit-append (s ∷ ss) ts w = visit-append ss ts (enter hs s w)

  -- A registry that is live has these observers, which only use their own memory.
  abbrev pub Fits : World W → Type 0
  Fits w = is_destroyed w.state ≡ false → w.observers ≡ plain hs

  pub visit-Fits :
      (o : Option LifecycleState) (w : World W) → Fits w → Fits (visit hs (path w.state o) w)
  visit-Fits o w f d =
      let live : is_destroyed (last w.state (path w.state o)) ≡ false =
        ap is_destroyed (sym (visit-state hs (path w.state o) w)) ∙ d in
      visit-observers hs (path w.state o) w (path-all_live w.state o live)
      ∙ f (was_live o w.state live)
    where
      was_live :
          (o : Option LifecycleState) (s : LifecycleState)
          → is_destroyed (last s (path s o)) ≡ false
          → is_destroyed s ≡ false
      was_live none s h = h
      was_live (some t) s h = ground arith

  -- A host that answers each event by moving the registry to the state that the event asks for.
  pub record Drives {E : Type 0} (handle : E → World W → Option (World W))
      (target : E → Option LifecycleState) : Type 0 where
    pub follows :
        (e : E) (w : World W) → Fits w → handle e w ≡ some (visit hs (path w.state (target e)) w)
    pub asks : (e : E) → is_initialized (target e) ≡ false

  module _ {E : Type 0} (handle : E → World W → Option (World W)) where
    abbrev pub run : List E → World W → Option (World W)
    run [] w = some w
    run (e ∷ es) w = handle e w >>= run es

    module _ (target : E → Option LifecycleState) (d : Drives handle target) where
      pub run-visit :
          (es : List E) (w : World W)
          → Fits w
          → run es w ≡ some (visit hs (journey w.state (map target es)) w)
      run-visit [] w f = refl
      run-visit (e ∷ es) w f =
          let p = path w.state (target e) in
          let w' = visit hs p w in
          ap (λ r. r >>= run es) (d.follows e w f)
          ∙ run-visit es w' (visit-Fits (target e) w f)
          ∙ ap (λ s. some (visit hs (journey s (map target es)) w')) (visit-state hs p w)
          ∙ ap some (sym (visit-append p (journey (last w.state p) (map target es)) w))

      pub journey-Fits :
          (es : List E) (w : World W) → Fits w → Fits (visit hs (journey w.state (map target es)) w)
      journey-Fits [] w f = f
      journey-Fits (e ∷ es) w f =
          let p = path w.state (target e) in
          let w' = visit hs p w in
          subst Fits
            (ap (λ s. visit hs (journey s (map target es)) w') (visit-state hs p w)
              ∙ sym (visit-append p (journey (last w.state p) (map target es)) w))
            (journey-Fits es w' (visit-Fits (target e) w f))

      pub last-journey :
          (es : List E) (s : LifecycleState)
          → last s (journey s (map target es)) ≡ settled s (map target es)
      last-journey [] s = refl
      last-journey (e ∷ es) s =
          last-append s (path s (target e)) (journey (last s (path s (target e))) (map target es))
          ∙ last-journey es (last s (path s (target e)))
          ∙ ap (λ t. settled t (map target es)) (last-path s (target e) (d.asks e))

  module _ (fuel rounds : ℕ) (r : 3 < rounds) where
    move_to-destroyed :
        (t : LifecycleState) (w : World W)
        → is_destroyed w.state ≡ true
        → ignore (move_to (exec (suc fuel)) rounds t w) ≡ some (visit hs (route w.state t) w)
    unfolding move_to
    move_to-destroyed t w d =
        ap ignore (if_true (is_destroyed w.state) _ _ d)
        ∙ ap (λ ss. some (visit hs ss w)) (sym (route-destroyed w.state t d))

    destroy-destroyed :
        (w : World W)
        → is_destroyed w.state ≡ true
        → ignore (destroy (exec (suc fuel)) rounds w) ≡ some (visit hs (route w.state destroyed) w)
    unfolding destroy
    destroy-destroyed w d =
        ap ignore (if_true (is_destroyed w.state) _ _ d)
        ∙ ap (λ ss. some (visit hs ss w)) (sym (route-destroyed w.state destroyed d))

    allowed :
        (t : LifecycleState) (w : World W)
        → eq_state t initialized ≡ false
        → ignore (
            if eq_state t initialized && not (eq_state w.state initialized)
            then some (err (invalid_transition w.state t), w)
            else some (ok tt, visit hs (route w.state t) w))
          ≡ some (visit hs (route w.state t) w)
    allowed t w i = rw i refl

    pub ask-follows :
        (t : LifecycleState) (w : World W)
        → eq_state t initialized ≡ false
        → Fits w
        → ignore (move_to (exec (suc fuel)) rounds t w) ≡ some (visit hs (route w.state t) w)
    ask-follows t w i f = elim (Bool-cases (is_destroyed w.state)) [
      | inl d ↦ move_to-destroyed t w d
      | inr d ↦ ap ignore (move_to-plain fuel hs rounds t w (f d) d r) ∙ allowed t w i
    ]

    pub destroy-follows :
        (w : World W)
        → Fits w
        → ignore (destroy (exec (suc fuel)) rounds w) ≡ some (visit hs (route w.state destroyed) w)
    destroy-follows w f = elim (Bool-cases (is_destroyed w.state)) [
      | inl d ↦ destroy-destroyed w d
      | inr d ↦ ap ignore (destroy-plain fuel hs rounds w (f d) d r)
    ]

-- The registry of a host that has just been created and was moved at once.
module _ {W : Type 0} where
  pub new-Fits : (memory : W) → Fits [] (new memory)
  unfolding new
  new-Fits memory d = refl

  new-state : (memory : W) → (new memory).state ≡ initialized
  unfolding new
  new-state memory = refl

  abbrev pub begun : Option LifecycleState → W → World W
  begun o memory = visit [] (path initialized o) (new memory)

  pub begun-eq :
      (o : Option LifecycleState) (memory : W)
      → some (visit [] (path (new memory).state o) (new memory)) ≡ some (begun o memory)
  begun-eq o memory = ap (λ s. some (visit [] (path s o) (new memory))) (new-state memory)

  -- From its creation on.
  pub begun-run :
      {E : Type 0} (handle : E → World W → Option (World W)) (target : E → Option LifecycleState)
      (d : Drives [] handle target) (o : Option LifecycleState) (es : List E) (memory : W)
      → is_initialized o ≡ false
      → (w : World W) × (run [] handle es (begun o memory) ≡ some w)
        × (w.state ≡ settled initialized (o ∷ map target es))
        × Fits [] w
  unfolding new
  begun-run handle target d o es memory i =
      let w = begun o memory in
      let s : w.state ≡ last initialized (path initialized o) =
        visit-state [] (path initialized o) (new memory) in
      let ss = journey w.state (map target es) in
      let f = visit-Fits [] o (new memory) (new-Fits memory) in
      (
        visit [] ss w,
        run-visit [] handle target d es w f,
        visit-state [] ss w
            ∙ last-journey [] handle target d es w.state
            ∙ ap (λ t. settled t (map target es)) (s ∙ last-path initialized o i),
        journey-Fits [] handle target d es w f,
      )
