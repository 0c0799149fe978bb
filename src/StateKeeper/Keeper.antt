-- ===== src/StateKeeper/Keeper.antt =====
-- crates/essenty-state-keeper/src/keeper.rs and error.rs. A key is the bytes of its text; a provider
-- is a function of the live state `W` that it reads when the keeper saves.
use essenty.Common.{ℕ, Bool, Option, none, some, List, [], ◌∷◌, if◌then◌else◌, length}
use essenty.Common.Results.{Result, ok, err}
use essenty.Common.Order.{bytes_ord}
use essenty.Common.Map.{Map, get, insert, remove, contains_key}

abbrev pub Text : Type 0
Text = List ℕ

abbrev pub Bytes : Type 0
Bytes = List ℕ

pub data StateKeeperError : Type 0 where
  duplicate_key : Text → StateKeeperError
  encode : (key reason : Text) → StateKeeperError
  decode : (key reason : Text) → StateKeeperError

abbrev pub Provider : Type 0 → Type 0
Provider W = W → Result StateKeeperError (Option Bytes)

pub record StateKeeper (W : Type 0) : Type 0 where
  pub restored : Map Text Bytes
  pub providers : Map Text (Provider W)

abbrev pub Done : Type 0
Done = Result StateKeeperError (Unit {0})

-- What a provider makes of the answer of `encode`.
abbrev pub encoded : Text → Result Text Bytes → Result StateKeeperError (Option Bytes)
encoded key (ok bytes) = ok (some bytes)
encoded key (err reason) = err (encode key reason)

abbrev pub encoded_if :
    {T : Type 0}
    → Text
    → (T → Result Text Bytes)
    → Option T
    → Result StateKeeperError (Option Bytes)
encoded_if key f none = ok none
encoded_if key f (some value) = encoded key (f value)

abbrev pub decoded :
    {T : Type 0}
    → Text
    → (Bytes → Result Text T)
    → Option Bytes
    → Result StateKeeperError (Option T)
decoded key f none = ok none
decoded key f (some bytes) = elim (f bytes) [
  | ok value ↦ ok (some value)
  | err reason ↦ err (decode key reason)
]

module _ {W : Type 0} where
  unfoldable pub new : StateKeeper W
  new = record { restored = []; providers = [] }

  unfoldable pub with_restored : Map Text Bytes → StateKeeper W
  with_restored restored = record { restored = restored; providers = [] }

  abbrev pub has_provider : Text → StateKeeper W → Bool
  has_provider key k = contains_key key k.providers

  abbrev pub is_registered : Text → StateKeeper W → Bool
  is_registered = has_provider

  abbrev pub has_consumable : Text → StateKeeper W → Bool
  has_consumable key k = contains_key key k.restored

  abbrev pub provider_count : StateKeeper W → ℕ
  provider_count k = length k.providers

  abbrev pub pending_count : StateKeeper W → ℕ
  pending_count k = length k.restored

  -- The guard and the insertion that the four ways to register share.
  abbrev pub add_provider : Text → Provider W → StateKeeper W → Done × StateKeeper W
  add_provider key provider k =
      if has_provider key k
      then (err (duplicate_key key), k)
      else (ok tt, record k { providers = insert key provider k.providers })

  unfoldable pub register : Text → (W → Bytes) → StateKeeper W → Done × StateKeeper W
  register key provider = add_provider key (λ w. ok (some (provider w)))

  unfoldable pub register_optional :
      Text → (W → Option Bytes) → StateKeeper W → Done × StateKeeper W
  register_optional key provider = add_provider key (λ w. ok (provider w))

  unfoldable pub register_value :
      {T : Type 0} → Text → (W → T) → (T → Result Text Bytes) → StateKeeper W → Done × StateKeeper W
  register_value key supplier f = add_provider key (λ w. encoded key (f (supplier w)))

  unfoldable pub register_optional_value :
      {T : Type 0}
      → Text
      → (W → Option T)
      → (T → Result Text Bytes)
      → StateKeeper W
      → Done × StateKeeper W
  register_optional_value key supplier f = add_provider key (λ w. encoded_if key f (supplier w))

  unfoldable pub unregister : Text → StateKeeper W → Bool × StateKeeper W
  unregister key k = (has_provider key k, record k { providers = remove key k.providers })

  unfoldable pub consume_bytes : Text → StateKeeper W → Option Bytes × StateKeeper W
  consume_bytes key k = (get key k.restored, record k { restored = remove key k.restored })

  unfoldable pub consume_value :
      {T : Type 0}
      → Text
      → (Bytes → Result Text T)
      → StateKeeper W
      → Result StateKeeperError (Option T) × StateKeeper W
  consume_value key f k =
      (decoded key f (get key k.restored), record k { restored = remove key k.restored })

  -- The loop of `save`: the first provider that fails ends it.
  unfoldable pub fill :
      Map Text (Provider W) → Map Text Bytes → W → Result StateKeeperError (Map Text Bytes)
  fill [] out w = ok out
  fill ((key, provider) ∷ rest) out w = elim (provider w) [
    | err e ↦ err e
    | ok answer ↦ elim answer [
      | none ↦ fill rest out w
      | some bytes ↦ fill rest (insert key bytes out) w
    ]
  ]

  unfoldable pub save : StateKeeper W → W → Result StateKeeperError (Map Text Bytes)
  save k w = fill k.providers k.restored w
