-- ===== src/Android/ActivityState.antt =====
-- crates/essenty-android/src/native_state.rs and state_keeper.rs: the state keeper of a `NativeActivity`
-- host, from the bytes that Android restored to those that it saves, and `AndroidStateHost`.
use essenty.Common.{Bool, Option, none, some, [], ◌∷◌}
use essenty.Common.Results.{Result, ok, err}
use essenty.Common.Map.{Map}
use essenty.StateKeeper.Keeper as Keeper
use essenty.StateKeeper.Keeper.{Text, Bytes, StateKeeperError, StateKeeper}
use essenty.Android.Container.{
  NativeStateError, state, ◌>>?◌, encode_native_state, decode_native_state,
}

pub record NativeActivityState (W : Type 0) : Type 0 where
  pub keeper : StateKeeper W

pub record AndroidStateHost (W : Type 0) : Type 0 where
  pub keeper : StateKeeper W

-- `From<StateKeeperError>`, which `?` applies.
abbrev pub from_keeper : {A : Type 0} → Result StateKeeperError A → Result NativeStateError A
from_keeper (ok a) = ok a
from_keeper (err e) = err (state e)

abbrev pub unwrap_or_default : Option Bytes → Bytes
unwrap_or_default none = []
unwrap_or_default (some bytes) = bytes

module _ {W : Type 0} where
  abbrev pub kept_in : Map Text Bytes → Result NativeStateError (NativeActivityState W)
  kept_in restored = ok (record { keeper = Keeper.with_restored restored })

  module _ (is_utf8 : Bytes → Bool) where
    unfoldable pub from_bytes : Bytes → Result NativeStateError (NativeActivityState W)
    from_bytes [] = kept_in []
    from_bytes (byte ∷ bytes) = decode_native_state is_utf8 (byte ∷ bytes) >>? kept_in

    -- What the loader of the event gives, if it has state.
    unfoldable pub from_loader : Option Bytes → Result NativeStateError (NativeActivityState W)
    from_loader loaded = from_bytes (unwrap_or_default loaded)

  unfoldable pub save_bytes : NativeActivityState W → W → Result NativeStateError Bytes
  save_bytes s w = from_keeper (Keeper.save s.keeper w) >>? encode_native_state

  unfoldable pub new : AndroidStateHost W
  new = record { keeper = Keeper.new }

  unfoldable pub with_restored : Map Text Bytes → AndroidStateHost W
  with_restored restored = record { keeper = Keeper.with_restored restored }

  unfoldable pub perform_save : AndroidStateHost W → W → Result StateKeeperError (Map Text Bytes)
  perform_save host w = Keeper.save host.keeper w
