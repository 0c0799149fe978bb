-- ===== src/Android/Container.antt =====
-- crates/essenty-android/src/native_state.rs: the versioned byte container of saved state. A cursor
-- into a slice is the rest of the slice behind it. `is_utf8` is `std::str::from_utf8`.
use essenty.Common.{
  ℕ, zero, suc, ◌+◌, ◌-◌, ◌*◌, ◌/◌, ◌%◌, Bool, true, false, ◌||◌, not, [], ◌∷◌, ◌++◌, if◌then◌else◌,
  length, ltb, ◌==◌,
}
use essenty.Common.Bits.{u32_mod, xor, and}
use essenty.Common.Results.{Result, ok, err}
use essenty.Common.Order.{bytes_ord}
use essenty.Common.Map.{Map, insert, contains_key}
use essenty.StateKeeper.Keeper.{Text, Bytes, StateKeeperError}

pub data NativeStateError : Type 0 where
  malformed too_large checksum_mismatch : NativeStateError
  unsupported_version : ℕ → NativeStateError
  state : StateKeeperError → NativeStateError

abbrev pub max_envelope_bytes : ℕ
max_envelope_bytes = 512 * 1024

abbrev pub version : ℕ
version = 1

abbrev pub magic : Bytes
magic = 69 ∷ 83 ∷ 84 ∷ 83 ∷ []

abbrev pub legacy_magic : Bytes
legacy_magic = 69 ∷ 83 ∷ 84 ∷ 49 ∷ []

infixl 5 ◌>>?◌
abbrev pub ◌>>?◌ :
    {A B : Type 0}
    → Result NativeStateError A
    → (A → Result NativeStateError B)
    → Result NativeStateError B
ok a >>? f = f a
err e >>? f = err e

-- The inner loop of `crc32`.
unfoldable pub shift : ℕ → ℕ → ℕ
unfolding xor and
shift zero crc = crc
shift (suc rounds) crc =
    shift rounds (xor (crc / 2) (and 3988292384 ((u32_mod - and crc 1) % u32_mod)))

unfoldable pub checksum : Bytes → ℕ → ℕ
unfolding xor
checksum [] crc = crc
checksum (byte ∷ bytes) crc = checksum bytes (shift 8 (xor crc byte))

abbrev pub crc32 : Bytes → ℕ
crc32 bytes = u32_mod - 1 - checksum bytes (u32_mod - 1)

abbrev pub to_le_bytes : ℕ → Bytes
to_le_bytes n = n % 256 ∷ n / 256 % 256 ∷ n / 65536 % 256 ∷ n / 16777216 % 256 ∷ []

abbrev pub try_u32 : ℕ → Result NativeStateError ℕ
try_u32 n = if ltb n u32_mod then ok n else err too_large

-- The loop of `encode_native_state`, for what it appends to the payload.
unfoldable pub encode_records : Map Text Bytes → Result NativeStateError Bytes
encode_records [] = ok []
encode_records ((key, value) ∷ rest) = try_u32 (length key) >>? λ key_len.
    try_u32 (length value) >>? λ value_len. encode_records rest >>? λ later.
    ok (to_le_bytes key_len ++ (to_le_bytes value_len ++ (key ++ (value ++ later))))

abbrev pub envelope : Bytes → Result NativeStateError Bytes
envelope payload =
    if ltb max_envelope_bytes (9 + length payload)
    then err too_large
    else ok (magic ++ version ∷ (to_le_bytes (crc32 payload) ++ payload))

unfoldable pub encode_native_state : Map Text Bytes → Result NativeStateError Bytes
encode_native_state saved = try_u32 (length saved) >>? λ count.
    encode_records saved >>? λ records. envelope (to_le_bytes count ++ records)

abbrev pub prepend :
    ℕ → Result NativeStateError (Bytes × Bytes) → Result NativeStateError (Bytes × Bytes)
prepend byte (ok (value, rest)) = ok (byte ∷ value, rest)
prepend byte (err e) = err e

unfoldable pub take : ℕ → Bytes → Result NativeStateError (Bytes × Bytes)
take zero bytes = ok ([], bytes)
take (suc len) [] = err malformed
take (suc len) (byte ∷ bytes) = prepend byte (take len bytes)

abbrev pub from_le_bytes : Bytes → Result NativeStateError ℕ
from_le_bytes (a ∷ b ∷ c ∷ d ∷ []) = ok (a + 256 * b + 65536 * c + 16777216 * d)
from_le_bytes _ = err malformed

unfoldable pub read_u32 : Bytes → Result NativeStateError (ℕ × Bytes)
read_u32 bytes = take 4 bytes >>? λ (value, rest). from_le_bytes value >>? λ n. ok (n, rest)

abbrev pub same_bytes : Bytes → Bytes → Bool
same_bytes [] [] = true
same_bytes (x ∷ xs) (y ∷ ys) = if x == y then same_bytes xs ys else false
same_bytes _ _ = false

module _ (is_utf8 : Bytes → Bool) where
  -- The body of the loop of `decode_records`, from the end: what follows each read.
  abbrev pub with_value : Text → Bytes × Bytes → Result NativeStateError (Text × Bytes × Bytes)
  with_value key (value, bytes) = ok (key, value, bytes)

  abbrev pub with_key : ℕ → Bytes × Bytes → Result NativeStateError (Text × Bytes × Bytes)
  with_key value_len (key, bytes) =
      if is_utf8 key then take value_len bytes >>? with_value key else err malformed

  abbrev pub with_value_len : ℕ → ℕ × Bytes → Result NativeStateError (Text × Bytes × Bytes)
  with_value_len key_len (value_len, bytes) = take key_len bytes >>? with_key value_len

  abbrev pub with_key_len : ℕ × Bytes → Result NativeStateError (Text × Bytes × Bytes)
  with_key_len (key_len, bytes) = read_u32 bytes >>? with_value_len key_len

  unfoldable pub read_record : Bytes → Result NativeStateError (Text × Bytes × Bytes)
  read_record bytes = read_u32 bytes >>? with_key_len

  abbrev pub store :
      (Bytes → Map Text Bytes → Result NativeStateError (Bytes × Map Text Bytes))
      → Map Text Bytes
      → Text × Bytes × Bytes
      → Result NativeStateError (Bytes × Map Text Bytes)
  store go_on restored (key, value, later) =
      if contains_key key restored then err malformed else go_on later (insert key value restored)

  -- The loop of `decode_records`.
  unfoldable pub read_records :
      ℕ → Bytes → Map Text Bytes → Result NativeStateError (Bytes × Map Text Bytes)
  read_records zero bytes restored = ok (bytes, restored)
  read_records (suc count) bytes restored =
      read_record bytes >>? store (read_records count) restored

  abbrev pub all_read : Bytes × Map Text Bytes → Result NativeStateError (Map Text Bytes)
  all_read ([], restored) = ok restored
  all_read (byte ∷ bytes, restored) = err malformed

  abbrev pub read_all : ℕ × Bytes → Result NativeStateError (Map Text Bytes)
  read_all (count, bytes) = read_records count bytes [] >>? all_read

  unfoldable pub decode_records : Bytes → Result NativeStateError (Map Text Bytes)
  decode_records payload = read_u32 payload >>? read_all

  abbrev pub verify : ℕ × Bytes → Result NativeStateError (Map Text Bytes)
  verify (expected, payload) =
      if crc32 payload == expected then decode_records payload else err checksum_mismatch

  -- Behind the magic: the version, the checksum and the payload.
  abbrev pub decode_versioned : Bytes → Result NativeStateError (Map Text Bytes)
  decode_versioned [] = err malformed
  decode_versioned (v ∷ bytes) =
      if v == version then read_u32 bytes >>? verify else err (unsupported_version v)

  abbrev pub decode_magic : Bytes × Bytes → Result NativeStateError (Map Text Bytes)
  decode_magic (start, rest) =
      if same_bytes start legacy_magic
      then decode_records rest
      else if ltb (length rest) 5 || not (same_bytes start magic)
      then err malformed
      else decode_versioned rest

  unfoldable pub decode_native_state : Bytes → Result NativeStateError (Map Text Bytes)
  decode_native_state [] = ok []
  decode_native_state (byte ∷ bytes) =
      if ltb max_envelope_bytes (length (byte ∷ bytes)) || ltb (length (byte ∷ bytes)) 8
      then err malformed
      else (take 4 (byte ∷ bytes) >>? decode_magic)
