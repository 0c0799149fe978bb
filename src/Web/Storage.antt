-- ===== src/Web/Storage.antt =====
-- crates/essenty-web/src/storage.rs. Text is the list of its bytes. `prefix`, which the browser code
-- uses, is the start of a qualified key.
use essenty.Common.{
  ℕ, ◌+◌, ◌-◌, ◌*◌, ◌/◌, ◌%◌, ◌&&◌, Option, none, some, [], ◌∷◌, ◌++◌, if◌then◌else◌, leb, ltb,
}
use essenty.Common.Results.{◌>>=◌}
use essenty.Common.Order.{bytes_ord}
use essenty.Common.Map.{Map, insert}
use essenty.StateKeeper.Keeper.{Text, Bytes}

pub data StorageArea : Type 0 where
  session local : StorageArea

pub record StorageKey : Type 0 where
  pub area : StorageArea
  pub namespace : Text

-- `essenty:`, the namespace and a colon.
abbrev pub prefix : StorageKey → Text
prefix k = 101 ∷ 115 ∷ 115 ∷ 101 ∷ 110 ∷ 116 ∷ 121 ∷ 58 ∷ (k.namespace ++ 58 ∷ [])

abbrev pub qualified : StorageKey → Text → Text
qualified k key = prefix k ++ key

-- `collect` into a map inserts one entry after another.
unfoldable pub qualify_from : StorageKey → Map Text Bytes → Map Text Bytes → Map Text Bytes
qualify_from k [] out = out
qualify_from k ((key, value) ∷ rest) out = qualify_from k rest (insert (qualified k key) value out)

abbrev pub qualify_all : StorageKey → Map Text Bytes → Map Text Bytes
qualify_all k saved = qualify_from k saved []

-- The table `HEX`: the digits, and from ten on the letters.
abbrev pub hex : ℕ → ℕ
hex n = if ltb n 10 then 48 + n else 87 + n

unfoldable pub encode_bytes : Bytes → Text
encode_bytes [] = []
encode_bytes (byte ∷ bytes) = hex (byte / 16) ∷ hex (byte % 16) ∷ encode_bytes bytes

abbrev pub digit : ℕ → Option ℕ
digit byte =
    if leb 48 byte && leb byte 57
    then some (byte - 48)
    else if leb 97 byte && leb byte 102
    then some (byte - 97 + 10)
    else none

-- The chunks of two, and then the remainder, which must be empty.
unfoldable pub decode_bytes : Text → Option Bytes
decode_bytes [] = some []
decode_bytes (odd ∷ []) = none
decode_bytes (high ∷ low ∷ encoded) =
    let later = decode_bytes encoded in
    digit high >>= λ h. digit low >>= λ l. later >>= λ bytes. some ((h * 16 + l) ∷ bytes)
