-- ===== src/Web/Examples.antt =====
-- crates/essenty-web/src/storage.rs on concrete bytes.
use essenty.Common.{◌≡◌, refl, [], ◌∷◌, some, none}
use essenty.StateKeeper.Keeper.{Text, Bytes}
use essenty.Web.Storage.{StorageKey, session, encode_bytes, decode_bytes}
use essenty.Common.Order.{bytes_ord}
use essenty.Common.Map.{Map}

abbrev bytes : Bytes
bytes = 0 ∷ 175 ∷ 255 ∷ []

-- The text 00afff.
abbrev text : Text
text = 48 ∷ 48 ∷ 97 ∷ 102 ∷ 102 ∷ 102 ∷ []

encoded_text : encode_bytes bytes ≡ text
unfolding encode_bytes
encoded_text = refl

decoded_text : decode_bytes text ≡ some bytes
unfolding decode_bytes
decoded_text = refl

-- Uppercase digits are refused.
decoded_uppercase : decode_bytes (65 ∷ 48 ∷ []) ≡ none
unfolding decode_bytes
decoded_uppercase = refl

abbrev component : StorageKey
component = record { area = session; namespace = 97 ∷ [] }

abbrev counter : Text
counter = 98 ∷ []

abbrev saved : Map Text Bytes
saved = (counter, 1 ∷ []) ∷ (99 ∷ [], 2 ∷ []) ∷ []
