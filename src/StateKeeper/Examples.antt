-- ===== src/StateKeeper/Examples.antt =====
-- crates/essenty-state-keeper/src/keeper.rs on concrete keepers.
use essenty.Common.{ℕ, ◌≡◌, refl, false, [], ◌∷◌, none, if◌then◌else◌, ◌==◌}
use essenty.Common.Results.{Result, ok, err}
use essenty.Common.Order.{bytes_ord}
use essenty.Common.Map.{Map, contains_key, get, insert}
use essenty.StateKeeper.Keeper.{Text, Bytes, encode, StateKeeper, register_value, save, fill}
use essenty.StateKeeper.Saving.{Saves, save-Saves}

abbrev counter : Text
counter = 99 ∷ []

abbrev title : Text
title = 116 ∷ []

-- One byte per value; the value 256 has no byte.
abbrev encode_byte : ℕ → Result Text Bytes
encode_byte n = if n == 256 then err (63 ∷ []) else ok (n ∷ [])

abbrev decode_byte : Bytes → Result Text ℕ
decode_byte [] = err (63 ∷ [])
decode_byte (b ∷ bs) = ok b

-- A restored keeper with a provider that keeps quiet and one that speaks.
abbrev restored_keeper : StateKeeper ℕ
restored_keeper = record { restored = (title, 1 ∷ []) ∷ []; providers = (title, λ w. ok none) ∷ [] }

abbrev failing_keeper : StateKeeper ℕ
failing_keeper = record restored_keeper {
  providers = (counter, λ w. err (encode counter [])) ∷ (title, λ w. ok none) ∷ [];
}

abbrev saved_map : Map Text Bytes
saved_map = (counter, 7 ∷ []) ∷ (title, 1 ∷ []) ∷ []

saves_value : save (register_value counter (λ w. w) encode_byte restored_keeper).1 7 ≡ ok saved_map
unfolding save fill register_value get insert
saves_value = refl

save-Saves_example :
    Saves failing_keeper.providers failing_keeper.restored 7 (save failing_keeper 7)
save-Saves_example = save-Saves failing_keeper 7 (tt, (refl, tt))

-- The key is free.
free : contains_key counter restored_keeper.providers ≡ false
unfolding get
free = refl
