-- ===== src/Web/Hex.antt =====
-- crates/essenty-web/src/storage.rs: the text form of bytes in Web Storage.
use essenty.Common.{
  ℕ, ◌+◌, ◌*◌, ◌/◌, ◌%◌, ◌<◌, ◌≡◌, refl, sym, ap, ◌∙◌, Option, none, some, [], ◌∷◌, All, arith,
}
use mathlib.Core.Option.{some-injective}
use essenty.Common.Results.{◌>>=◌}
use essenty.StateKeeper.Keeper.{Text, Bytes}
use essenty.Web.Storage.{hex, encode_bytes, digit, decode_bytes}

digit-hex : (n : ℕ) → n < 16 → digit (hex n) ≡ some n
digit-hex n h = ground arith

-- Bytes that are encoded for Web Storage are decoded to the same bytes.
pub decode_bytes-encode_bytes :
    (bytes : Bytes) → All (λ b. b < 256) bytes → decode_bytes (encode_bytes bytes) ≡ some bytes
unfolding encode_bytes decode_bytes
decode_bytes-encode_bytes [] h = refl
decode_bytes-encode_bytes (b ∷ bytes) h =
    rw
      (
        digit-hex (b / 16) (omega arith),
        digit-hex (b % 16) (omega arith),
        decode_bytes-encode_bytes bytes h.1,
      )
      (ap (λ n. some (n ∷ bytes)) (omega arith))

hex-digit : (c n : ℕ) → digit c ≡ some n → (hex n ≡ c) × (n < 16)
hex-digit c n h = ground arith

bind-some :
    {A B : Type 0} (m : Option A) (f : A → Option B) {b : B}
    → (m >>= f) ≡ some b
    → (a : A) × (m ≡ some a) × (f a ≡ some b)
bind-some none f h = absurd (cc)
bind-some (some a) f h = (a, refl, h)

-- Text is decoded only if it is the encoding of the bytes that come out, so the decoder takes
-- lowercase digits in pairs and nothing else.
encode_bytes-decode_bytes :
    (encoded : Text) (bytes : Bytes)
    → decode_bytes encoded ≡ some bytes
    → encode_bytes bytes ≡ encoded
unfolding encode_bytes decode_bytes
encode_bytes-decode_bytes [] bytes h = ap encode_bytes (sym (some-injective _ _ h))
encode_bytes-decode_bytes (odd ∷ []) bytes h = absurd (cc)
encode_bytes-decode_bytes (high ∷ low ∷ encoded) bytes h =
    let (a, p, h1) = bind-some (digit high) _ h in
    let (b, q, h2) = bind-some (digit low) _ h1 in
    let (rest, r, h3) = bind-some (decode_bytes encoded) _ h2 in
    let ih = encode_bytes-decode_bytes encoded rest r in
    let x = hex-digit high a p in
    let y = hex-digit low b q in
    let up : (a * 16 + b) / 16 ≡ a = omega (arith, y.1) in
    let down : (a * 16 + b) % 16 ≡ b = omega (arith, y.1) in
    ap encode_bytes (sym (some-injective _ _ h3)) ∙ rw (up, down, x.0, y.0, ih) refl
