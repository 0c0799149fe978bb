-- ===== src/Android/Recreation.antt =====
-- crates/essenty-android/src/native_state.rs: the state that an activity saved, in the activity that Android
-- creates next.
use essenty.Common.{
  Bool, true, false, ◌≡◌, refl, ap, subst, Option, none, some, [], ◌∷◌, arith, All,
}
use essenty.Common.Results.{Result, ok, err}
use essenty.Common.Order.{bytes_ord}
use essenty.Common.Map.{Map, get, insert}
use essenty.StateKeeper.Keeper as Keeper
use essenty.StateKeeper.Keeper.{
  Text, Bytes, StateKeeperError, StateKeeper, Provider, fill, save, has_provider, register_value,
  consume_value, encoded,
}
use essenty.StateKeeper.Saving.{IsKeeper, Saves, save-Saves, held}
use essenty.StateKeeper.Restoring.{register_value-save-consume_value, registered-IsKeeper}
use essenty.Android.Container.{◌>>?◌, encode_native_state, decode_native_state}
use essenty.Android.RoundTrip.{decode-encode, bind-ok}
use essenty.Android.ActivityState.{
  NativeActivityState, from_keeper, from_bytes, from_loader, save_bytes, kept_in,
}

from_keeper-ok :
    {A : Type 0} (r : Result StateKeeperError A) (a : A) → from_keeper r ≡ ok a → r ≡ ok a
from_keeper-ok (ok b) a e = cc
from_keeper-ok (err x) a e = absurd (cc)

module _ (is_utf8 : Bytes → Bool) where
  -- Every key is valid UTF-8, as the keys of type String are.
  abbrev pub Utf8 : {V : Type 0} → Map Text V → Type 0
  Utf8 m = All (λ p. is_utf8 p.0 ≡ true) m

  insert-Utf8 :
      {V : Type 0} (key : Text) (value : V) (m : Map Text V)
      → is_utf8 key ≡ true
      → Utf8 m
      → Utf8 (insert key value m)
  unfolding insert
  insert-Utf8 key value [] k u = (k, tt)
  insert-Utf8 key value ((j, v) ∷ m) k u = ground (arith, k, u, insert-Utf8 key value m k u.1)

  module _ {W : Type 0} where
    -- One provider, once it is known what it answers.
    fill_cons-Utf8 :
        (key : Text) (provider : Provider W) (rest : Map Text (Provider W))
        (old out : Map Text Bytes) (w : W) (answer : Result StateKeeperError (Option Bytes))
        → provider w ≡ answer
        → is_utf8 key ≡ true
        → Utf8 old
        → ((next : Map Text Bytes) → Utf8 next → fill rest next w ≡ ok out → Utf8 out)
        → fill ((key, provider) ∷ rest) old w ≡ ok out
        → Utf8 out
    unfolding fill
    fill_cons-Utf8 key provider rest old out w (err x) h k u go_on e = absurd (ground (arith, h))
    fill_cons-Utf8 key provider rest old out w (ok none) h k u go_on e =
        go_on old u (ground (arith, h))
    fill_cons-Utf8 key provider rest old out w (ok (some bytes)) h k u go_on e =
        go_on (insert key bytes old) (insert-Utf8 key bytes old k u) (ground (arith, h))

    fill-Utf8 :
        (providers : Map Text (Provider W)) (old out : Map Text Bytes) (w : W)
        → Utf8 providers
        → Utf8 old
        → fill providers old w ≡ ok out
        → Utf8 out
    unfolding fill
    fill-Utf8 [] old out w p u e = let same : old ≡ out = cc in subst Utf8 same u
    fill-Utf8 ((key, provider) ∷ rest) old out w p u e =
        fill_cons-Utf8 key provider rest old out w (provider w) refl p.0 u
          (λ next v f. fill-Utf8 rest next out w p.1 v f) e

    from_bytes-eq :
        (bytes : Bytes) (out : Map Text Bytes)
        → decode_native_state is_utf8 bytes ≡ ok out
        → from_bytes is_utf8 bytes ≡ kept_in {W = W} out
    unfolding from_bytes decode_native_state
    from_bytes-eq [] out e = let same : [] ≡ out = cc in ap kept_in same
    from_bytes-eq (byte ∷ bytes) out e = ap (λ r. r >>? kept_in) e

    register_value-Utf8 :
        {T : Type 0} (key : Text) (supplier : W → T) (f : T → Result Text Bytes) (k : StateKeeper W)
        → IsKeeper k
        → has_provider key k ≡ false
        → is_utf8 key ≡ true
        → Utf8 k.providers
        → Utf8 k.restored
        → let r = (register_value key supplier f k).1 in
          IsKeeper r × Utf8 r.providers × Utf8 r.restored
    unfolding register_value
    register_value-Utf8 key supplier f k s h q p u =
        let provider : Provider W = λ w. encoded key (f (supplier w)) in
        (
          registered-IsKeeper key provider k s,
          rw h (insert-Utf8 key provider k.providers q p),
          rw h u,
        )

    -- The bytes that a save gives, read by the next activity.
    save_bytes-from_bytes :
        (k : StateKeeper W) (w : W) (bytes : Bytes)
        → IsKeeper k
        → Utf8 k.providers
        → Utf8 k.restored
        → save_bytes (record { keeper = k }) w ≡ ok bytes
        → (out : Map Text Bytes) × (save k w ≡ ok out)
          × (from_bytes is_utf8 bytes ≡ kept_in {W = W} out)
    unfolding save_bytes save fill
    save_bytes-from_bytes k w bytes s p u e =
        let (out, f, g) = bind-ok (from_keeper (save k w)) encode_native_state e in
        let saved = from_keeper-ok (save k w) out f in
        let saves : Saves k.providers k.restored w (ok out) =
          subst (Saves k.providers k.restored w) saved (save-Saves k w s) in
        let decoded =
          decode-encode is_utf8 out bytes saves.1 (fill-Utf8 k.providers k.restored out w p u saved)
            g in
        (out, saved, from_bytes-eq bytes out decoded)

    -- When the state of an activity, whose keeper has its keys in order and in valid UTF-8, was saved as
    -- bytes, the activity that Android creates next loads them: its keeper has no provider, and holds
    -- under each key the fresh bytes of the provider where that gave some, else what the first keeper
    -- still had restored under the key.
    pub save_bytes-from_loader :
        (k : StateKeeper W) (w : W) (bytes : Bytes)
        → IsKeeper k
        → Utf8 k.providers
        → Utf8 k.restored
        → save_bytes (record { keeper = k }) w ≡ ok bytes
        → (t : NativeActivityState W) × (from_loader is_utf8 (some bytes) ≡ ok t)
          × (t.keeper.providers ≡ [])
          × ((key : Text)
              → get key t.keeper.restored ≡ held (get key k.providers) w (get key k.restored))
    unfolding from_loader Keeper.with_restored
    save_bytes-from_loader k w bytes s p u e =
        let (out, saved, loaded) = save_bytes-from_bytes k w bytes s p u e in
        let saves : Saves k.providers k.restored w (ok out) =
          subst (Saves k.providers k.restored w) saved (save-Saves k w s) in
        (record { keeper = Keeper.with_restored out }, loaded, refl, saves.2)

    -- A value that an activity registers under a free key is, in the activity that is created from the
    -- bytes saved, consumed as it was when they were saved, and only once.
    pub value-survives :
        {T : Type 0} (key : Text) (supplier : W → T) (f : T → Result Text Bytes)
        (g : Bytes → Result Text T) (k : StateKeeper W) (w : W) (b bytes : Bytes)
        → IsKeeper k
        → has_provider key k ≡ false
        → Utf8 k.providers
        → Utf8 k.restored
        → is_utf8 key ≡ true
        → f (supplier w) ≡ ok b
        → g b ≡ ok (supplier w)
        → save_bytes (record { keeper = (register_value key supplier f k).1 }) w ≡ ok bytes
        → (t : NativeActivityState W) × (from_loader is_utf8 (some bytes) ≡ ok t)
          × ((consume_value key g t.keeper).0 ≡ ok (some (supplier w)))
          × ((consume_value key g (consume_value key g t.keeper).1).0 ≡ ok none)
    unfolding from_loader
    value-survives key supplier f g k w b bytes s h p u q x y e =
        let r = register_value-Utf8 key supplier f k s h q p u in
        let (out, saved, loaded) =
          save_bytes-from_bytes (register_value key supplier f k).1 w bytes r.0 r.1 r.2 e in
        let c = register_value-save-consume_value key supplier f g k w out b s h x y saved in
        (record { keeper = Keeper.with_restored out }, loaded, c.0, c.1)
