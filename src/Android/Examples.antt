-- ===== src/Android/Examples.antt =====
-- crates/essenty-android/src/native_state.rs on a concrete snapshot.
use essenty.Common.{
  ℕ, some, none, ◌≡◌, refl, Bool, true, false, [], ◌∷◌, ◌++◌, if◌then◌else◌, ◌==◌, arith,
}
use essenty.Common.Results.{Result, ok, err}
use essenty.Common.Order.{bytes_ord}
use essenty.Common.Map.{Map, get, insert}
use essenty.StateKeeper.Keeper.{Text, Bytes, StateKeeper, consume_value, register_value, save, fill}
use essenty.StateKeeper.Saving.{held}
use essenty.Android.ActivityState.{NativeActivityState, from_loader, save_bytes}
use essenty.Android.Recreation.{save_bytes-from_loader, value-survives}
use essenty.Android.Container.{
  checksum_mismatch, magic, version, crc32, checksum, shift, to_le_bytes, encode_records,
  encode_native_state, decode_native_state, decode_records,
}
use essenty.Android.RoundTrip.{decode-container}

-- Text of one byte per character.
abbrev is_ascii : Bytes → Bool
is_ascii [] = true
is_ascii (b ∷ bs) = elim (b == 255) [ true ↦ false | false ↦ is_ascii bs ]

abbrev snapshot : Map Text Bytes
snapshot = (97 ∷ [], 0 ∷ 255 ∷ []) ∷ (98 ∷ [], []) ∷ []

abbrev payload : Bytes
payload =
    2 ∷ 0 ∷ 0 ∷ 0 ∷ 1 ∷ 0 ∷ 0 ∷ 0 ∷ 2 ∷ 0 ∷ 0 ∷ 0 ∷ 97 ∷ 0 ∷ 255 ∷ 1 ∷ 0 ∷ 0 ∷ 0 ∷ 0 ∷ 0 ∷ 0 ∷ 0
    ∷ 98 ∷ []

abbrev container : Bytes
container = magic ++ version ∷ (to_le_bytes (crc32 payload) ++ payload)

encoded_snapshot : encode_native_state snapshot ≡ ok container
unfolding encode_native_state encode_records
encoded_snapshot = refl

decode-container_example :
    decode_native_state is_ascii (magic ++ 1 ∷ (to_le_bytes 5 ++ 7 ∷ []))
    ≡ (if crc32 (7 ∷ []) == 5 then decode_records is_ascii (7 ∷ []) else err checksum_mismatch)
decode-container_example = decode-container is_ascii 1 5 (7 ∷ []) refl (omega arith)

-- The checksum of the letter a.
crc32_a : crc32 (97 ∷ []) ≡ 3904355907
unfolding checksum shift
crc32_a = refl

-- A keeper with an entry that was restored and never consumed.
abbrev restored_keeper : StateKeeper ℕ
restored_keeper = record { restored = (116 ∷ [], 1 ∷ []) ∷ []; providers = [] }

abbrev encode_byte : ℕ → Result Text Bytes
encode_byte n = ok (n ∷ [])

abbrev decode_byte : Bytes → Result Text ℕ
decode_byte [] = err []
decode_byte (b ∷ bs) = ok b

abbrev with_counter : StateKeeper ℕ
with_counter = (register_value (99 ∷ []) (λ w. w) encode_byte restored_keeper).1

abbrev saved_payload : Bytes
saved_payload =
    2 ∷ 0 ∷ 0 ∷ 0 ∷ 1 ∷ 0 ∷ 0 ∷ 0 ∷ 1 ∷ 0 ∷ 0 ∷ 0 ∷ 99 ∷ 7 ∷ 1 ∷ 0 ∷ 0 ∷ 0 ∷ 1 ∷ 0 ∷ 0 ∷ 0 ∷ 116 ∷ 1
    ∷ []

abbrev saved_bytes : Bytes
saved_bytes = magic ++ version ∷ (to_le_bytes (crc32 saved_payload) ++ saved_payload)

saves_counter : save_bytes (record { keeper = with_counter }) 7 ≡ ok saved_bytes
unfolding save_bytes save fill register_value get insert encode_native_state encode_records
saves_counter = refl

abbrev pending_payload : Bytes
pending_payload = 1 ∷ 0 ∷ 0 ∷ 0 ∷ 1 ∷ 0 ∷ 0 ∷ 0 ∷ 1 ∷ 0 ∷ 0 ∷ 0 ∷ 116 ∷ 1 ∷ []

abbrev pending_bytes : Bytes
pending_bytes = magic ++ version ∷ (to_le_bytes (crc32 pending_payload) ++ pending_payload)

saves_pending : save_bytes (record { keeper = restored_keeper }) 7 ≡ ok pending_bytes
unfolding save_bytes save fill encode_native_state encode_records
saves_pending = refl

save_bytes-from_loader_example :
    (t : NativeActivityState ℕ) × (from_loader is_ascii (some pending_bytes) ≡ ok t)
    × (t.keeper.providers ≡ [])
    × ((key : Text)
        → get key t.keeper.restored
          ≡ held (get key restored_keeper.providers) 7 (get key restored_keeper.restored))
save_bytes-from_loader_example =
    save_bytes-from_loader is_ascii restored_keeper 7 pending_bytes (tt, tt) tt (refl, tt)
      saves_pending

value-survives_example :
    (t : NativeActivityState ℕ) × (from_loader is_ascii (some saved_bytes) ≡ ok t)
    × ((consume_value (99 ∷ []) decode_byte t.keeper).0 ≡ ok (some 7))
    × ((consume_value (99 ∷ []) decode_byte (consume_value (99 ∷ []) decode_byte t.keeper).1).0
        ≡ ok none)
unfolding get
value-survives_example =
    value-survives is_ascii (99 ∷ []) (λ w. w) encode_byte decode_byte restored_keeper 7 (7 ∷ [])
      saved_bytes (tt, tt) refl tt (refl, tt) refl refl refl saves_counter
