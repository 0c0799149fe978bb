-- ===== src/StateKeeper/Saving.antt =====
-- crates/essenty-state-keeper/src/keeper.rs: what `save` returns, key by key, and when it fails.
use essenty.Common.{◌≡◌, refl, sym, ◌∙◌, subst, Option, none, some, [], ◌∷◌, arith}
use essenty.Common.Results.{Result, ok, err}
use essenty.Common.Order.{bytes_ord}
use essenty.Common.Map.{
  Map, get, insert, IsSorted, After, After-IsSorted, get-After, get-insert, insert-IsSorted,
}
use essenty.StateKeeper.Keeper.{Text, Bytes, StateKeeperError, Provider, StateKeeper, fill, save}

-- What a save holds under a key: the fresh bytes of its provider, or else what was restored.
abbrev pub fresh_or : Option Bytes → Result StateKeeperError (Option Bytes) → Option Bytes
fresh_or old (ok (some bytes)) = some bytes
fresh_or old (ok none) = old
fresh_or old (err e) = old

module _ {W : Type 0} where
  -- The error of the first provider, in the order of the keys, that fails.
  abbrev pub first_failure : Map Text (Provider W) → W → Option StateKeeperError
  first_failure [] w = none
  first_failure ((key, provider) ∷ rest) w = elim (provider w) [
    | err e ↦ some e
    | ok answer ↦ first_failure rest w
  ]

  abbrev pub held : Option (Provider W) → W → Option Bytes → Option Bytes
  held none w old = old
  held (some provider) w old = fresh_or old (provider w)

  abbrev pub Saves :
      Map Text (Provider W) → Map Text Bytes → W → Result StateKeeperError (Map Text Bytes) → Type 0
  Saves providers old w (err e) = first_failure providers w ≡ some e
  Saves providers old w (ok out) =
      (first_failure providers w ≡ none)
      × IsSorted out
      × ((key : Text) → get key out ≡ held (get key providers) w (get key old))

  -- The entry of the first key, when its provider answers.
  held-fresh :
      (key : Text) (provider : Provider W) (rest : Map Text (Provider W)) (old : Map Text Bytes)
      (w : W) (bytes : Bytes) (j : Text)
      → After key rest
      → provider w ≡ ok (some bytes)
      → held (get j ((key, provider) ∷ rest)) w (get j old)
        ≡ held (get j rest) w (get j (insert key bytes old))
  unfolding get
  held-fresh key provider rest old w bytes j a h = ground (
    arith,
    h,
    bytes_ord.cmp-eq j key,
    get-After key rest a,
    get-insert ⦃o = bytes_ord⦄ j key bytes old,
  )

  held-kept :
      (key : Text) (provider : Provider W) (rest : Map Text (Provider W)) (old : Map Text Bytes)
      (w : W) (j : Text)
      → After key rest
      → provider w ≡ ok none
      → held (get j ((key, provider) ∷ rest)) w (get j old) ≡ held (get j rest) w (get j old)
  unfolding get
  held-kept key provider rest old w j a h =
      ground (arith, h, bytes_ord.cmp-eq j key, get-After key rest a)

  -- A step of the loop on both sides.
  Saves-cons :
      (key : Text) (provider : Provider W) (rest : Map Text (Provider W))
      (old next : Map Text Bytes) (w : W) (r : Result StateKeeperError (Map Text Bytes))
      → first_failure ((key, provider) ∷ rest) w ≡ first_failure rest w
      → ((j : Text)
          → held (get j ((key, provider) ∷ rest)) w (get j old) ≡ held (get j rest) w (get j next))
      → Saves rest next w r
      → Saves ((key, provider) ∷ rest) old w r
  Saves-cons key provider rest old next w (ok out) e f (a, b, g) = (e ∙ a, b, λ j. g j ∙ sym (f j))
  Saves-cons key provider rest old next w (err x) e f s = e ∙ s

  abbrev FillSaves : Map Text (Provider W) → W → Type 0
  FillSaves providers w =
      (old : Map Text Bytes) → IsSorted old → Saves providers old w (fill providers old w)

  -- The iteration of one provider, once it is known what it answers.
  fill-cons :
      (key : Text) (provider : Provider W) (rest : Map Text (Provider W)) (old : Map Text Bytes)
      (w : W) (answer : Result StateKeeperError (Option Bytes))
      → provider w ≡ answer
      → After key rest
      → IsSorted old
      → FillSaves rest w
      → Saves ((key, provider) ∷ rest) old w (fill ((key, provider) ∷ rest) old w)
  unfolding fill
  fill-cons key provider rest old w (err e) h a t ih =
      let loop : err e ≡ fill ((key, provider) ∷ rest) old w = ground (arith, h) in
      let first : first_failure ((key, provider) ∷ rest) w ≡ some e = ground (arith, h) in
      subst (Saves ((key, provider) ∷ rest) old w) loop first
  fill-cons key provider rest old w (ok none) h a t ih =
      let loop : fill rest old w ≡ fill ((key, provider) ∷ rest) old w = ground (arith, h) in
      subst (Saves ((key, provider) ∷ rest) old w) loop (
        Saves-cons key provider rest old old w (fill rest old w) (ground (arith, h))
          (λ j. held-kept key provider rest old w j a h) (ih old t))
  fill-cons key provider rest old w (ok (some bytes)) h a t ih =
      let next = insert key bytes old in
      let loop : fill rest next w ≡ fill ((key, provider) ∷ rest) old w = ground (arith, h) in
      subst (Saves ((key, provider) ∷ rest) old w) loop (
        Saves-cons key provider rest old next w (fill rest next w) (ground (arith, h))
          (λ j. held-fresh key provider rest old w bytes j a h)
          (ih next (insert-IsSorted key bytes old t)))

  fill-Saves :
      (providers : Map Text (Provider W)) (w : W) → IsSorted providers → FillSaves providers w
  unfolding fill get
  fill-Saves [] w s old t = (refl, t, λ key. refl)
  fill-Saves ((key, provider) ∷ rest) w s old t =
      fill-cons key provider rest old w (provider w) refl s t
        (fill-Saves rest w (After-IsSorted key rest s))

  -- The two maps of a keeper hold their keys in order, each key once.
  abbrev pub IsKeeper : StateKeeper W → Type 0
  IsKeeper k = IsSorted k.restored × IsSorted k.providers

  -- Saving a keeper whose maps are ordered: it fails exactly when a provider fails, with the error
  -- of the first provider in the order of the keys that does; otherwise the saved map is ordered and
  -- holds, under each key, the fresh bytes of its provider where that gives some, else the bytes
  -- restored under the key, if any.
  pub save-Saves :
      (k : StateKeeper W) (w : W) → IsKeeper k → Saves k.providers k.restored w (save k w)
  unfolding save
  save-Saves k w s = fill-Saves k.providers w s.1 k.restored s.0
