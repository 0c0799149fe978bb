-- ===== src/StateKeeper/Restoring.antt =====
-- crates/essenty-state-keeper/src/keeper.rs: what a restored keeper gives back, and to whom.
use essenty.Common.{Bool, true, false, ◌≡◌, ◌∙◌, subst, ap, none, some, if◌then◌else◌, arith}
use essenty.Common.Results.{Result, ok, err}
use essenty.Common.Order.{bytes_ord}
use essenty.Common.Map.{
  Map, get, insert, remove, IsSorted, get-insert, get-remove, insert-IsSorted, same_refl,
}
use essenty.StateKeeper.Keeper.{
  Text, Bytes, duplicate_key, Provider, StateKeeper, Done, encoded, decoded, save, with_restored,
  has_provider, add_provider, register_value, consume_value,
}
use essenty.StateKeeper.Saving.{IsKeeper, Saves, save-Saves, held, fresh_or}

decoded-ok :
    {T : Type 0} (key : Text) (g : Bytes → Result Text T) (b : Bytes) (v : T)
    → g b ≡ ok v
    → decoded key g (some b) ≡ ok (some v)
decoded-ok key g b v y = ground (arith, y)

-- Consuming what is stored under a key takes it out.
consumed :
    (W : Type 0) {T : Type 0} (key : Text) (g : Bytes → Result Text T) (out : Map Text Bytes)
    (b : Bytes) (v : T)
    → IsSorted out
    → get key out ≡ some b
    → g b ≡ ok v
    → let first = consume_value {W = W} key g (with_restored {W = W} out) in
      (first.0 ≡ ok (some v)) × ((consume_value key g first.1).0 ≡ ok none)
unfolding consume_value with_restored
consumed W key g out b v s h y =
    let removed : get key (remove key out) ≡ none =
      ground (arith, get-remove ⦃o = bytes_ord⦄ key key out s, same_refl ⦃o = bytes_ord⦄ key) in
    (ap (decoded key g) h ∙ decoded-ok key g b v y, ap (decoded key g) removed)

module _ {W : Type 0} where
  -- Looking up the provider that a registration under a free key put in.
  registered :
      (key : Text) (provider : Provider W) (k : StateKeeper W)
      → has_provider key k ≡ false
      → get key (add_provider key provider k).1.providers ≡ some provider
  registered key provider k h = ground (
    arith,
    h,
    get-insert ⦃o = bytes_ord⦄ key key provider k.providers,
    same_refl ⦃o = bytes_ord⦄ key,
  )

  either-IsKeeper :
      (b : Bool) (x y : Done × StateKeeper W)
      → IsKeeper x.1
      → IsKeeper y.1
      → IsKeeper (if b then x else y).1
  either-IsKeeper true x y s t = s
  either-IsKeeper false x y s t = t

  pub registered-IsKeeper :
      (key : Text) (provider : Provider W) (k : StateKeeper W)
      → IsKeeper k
      → IsKeeper (add_provider key provider k).1
  registered-IsKeeper key provider k s =
      either-IsKeeper (has_provider key k) (err (duplicate_key key), k)
        (ok tt, record k { providers = insert key provider k.providers }) s
        (s.0, insert-IsSorted key provider k.providers s.1)

  -- What a save holds under a key whose provider gives bytes.
  saved :
      (key : Text) (provider : Provider W) (k : StateKeeper W) (w : W) (out : Map Text Bytes)
      (b : Bytes)
      → IsKeeper k
      → get key k.providers ≡ some provider
      → provider w ≡ ok (some b)
      → save k w ≡ ok out
      → IsSorted out × (get key out ≡ some b)
  saved key provider k w out b s h x e =
      let saves : Saves k.providers k.restored w (ok out) =
        subst (Saves k.providers k.restored w) e (save-Saves k w s) in
      (
        saves.1,
        saves.2 key
            ∙ ap (λ p. held p w (get key k.restored)) h
            ∙ ap (fresh_or (get key k.restored)) x,
      )

  -- A value registered under a free key, saved, carried into a new keeper and consumed there with a
  -- decoder that undoes the encoder comes back as it was when the state was saved, whenever the save
  -- succeeds; a second consumption under the key finds nothing.
  pub register_value-save-consume_value :
      {T : Type 0} (key : Text) (supplier : W → T) (f : T → Result Text Bytes)
      (g : Bytes → Result Text T) (k : StateKeeper W) (w : W) (out : Map Text Bytes) (b : Bytes)
      → IsKeeper k
      → has_provider key k ≡ false
      → f (supplier w) ≡ ok b
      → g b ≡ ok (supplier w)
      → save (register_value key supplier f k).1 w ≡ ok out
      → let first = consume_value {W = W} key g (with_restored out) in
        (first.0 ≡ ok (some (supplier w))) × ((consume_value key g first.1).0 ≡ ok none)
  unfolding register_value
  register_value-save-consume_value key supplier f g k w out b s h x y e =
      let answers : encoded key (f (supplier w)) ≡ ok (some b) = ap (encoded key) x in
      let provider : Provider W = λ v. encoded key (f (supplier v)) in
      let result =
        saved key provider (add_provider key provider k).1 w out b
          (registered-IsKeeper key provider k s) (registered key provider k h) answers e in
      consumed W key g out b (supplier w) result.0 result.1 y
