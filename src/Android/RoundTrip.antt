-- ===== src/Android/RoundTrip.antt =====
-- crates/essenty-android/src/native_state.rs: decoding a container gives back the state that was
-- encoded.
use Prim.Native.Nat.{Ordering}
use essenty.Common.{
  ℕ, suc, ◌+◌, ◌<◌, Bool, true, false, ◌||◌, ◌≡◌, refl, sym, ap, subst, ◌∙◌, [], ◌∷◌, ◌++◌,
  if◌then◌else◌, length, ltb, ◌==◌, ==_refl, arith, All, Bool-cases, inl, inr,
}
use mathlib.Core.List.{append_assoc, append-nil}
use essenty.Common.Bits.{u32_mod}
use essenty.Common.Results.{Result, ok, err}
use essenty.Common.Order.{bytes_ord}
use essenty.Common.Map.{Map, get, insert, contains_key, IsSorted, After, After-IsSorted}
use essenty.StateKeeper.Keeper.{Text, Bytes}
use essenty.Android.Container.{
  NativeStateError, malformed, too_large, unsupported_version, checksum_mismatch, ◌>>?◌, crc32,
  to_le_bytes, from_le_bytes, try_u32, encode_records, envelope, encode_native_state, take,
  read_u32, with_key, with_value, with_key_len, with_value_len, store, read_record, read_records,
  read_all, verify, magic, version, max_envelope_bytes, all_read, decode_records,
  decode_native_state,
}

digits : (n : ℕ) → n < u32_mod → from_le_bytes (to_le_bytes n) ≡ ok n
digits n h = ap ok (omega arith)

take-append : (value rest : Bytes) → take (length value) (value ++ rest) ≡ ok (value, rest)
unfolding take
take-append [] rest = refl
take-append (byte ∷ value) rest = rw (take-append value rest) refl

read_u32-append :
    (n : ℕ) (rest : Bytes) → n < u32_mod → read_u32 (to_le_bytes n ++ rest) ≡ ok (n, rest)
unfolding read_u32 take
read_u32-append n rest h = ap (λ m. ok (m, rest)) (omega arith)

-- The keys of a sorted list lie below the key that follows it.
below :
    (j k : Text) (v : Bytes) (out rest : Map Text Bytes)
    → After j (out ++ (k, v) ∷ rest)
    → bytes_ord.cmp j k ≡ Ordering.lt
below j k v [] rest a = a.0
below j k v ((i, w) ∷ out) rest a = bytes_ord.cmp_trans j i k a.0 (below i k v out rest a.1)

insert-last :
    (k : Text) (v : Bytes) (out rest : Map Text Bytes)
    → IsSorted (out ++ (k, v) ∷ rest)
    → (insert k v out ≡ out ++ (k, v) ∷ []) × (contains_key k out ≡ false)
unfolding insert get
insert-last k v [] rest s = (refl, refl)
insert-last k v ((j, w) ∷ out) rest s =
    let later = bytes_ord.cmp-lt j k (below j k v out rest s) in
    let more = insert-last k v out rest (After-IsSorted j (out ++ (k, v) ∷ rest) s) in
    (ground (arith, later, more.0), ground (arith, later, more.1))

-- What it takes for a step to give a result.
pub bind-ok :
    {A B : Type 0} (m : Result NativeStateError A) (f : A → Result NativeStateError B) {b : B}
    → (m >>? f) ≡ ok b
    → (a : A) × (m ≡ ok a) × (f a ≡ ok b)
bind-ok (ok a) f h = (a, refl, h)
bind-ok (err e) f h = absurd (cc)

try_u32-ok : (n m : ℕ) → try_u32 n ≡ ok m → (n < u32_mod) × (n ≡ m)
try_u32-ok n m h = ground arith

abbrev ok_or : {A : Type 0} → A → Result NativeStateError A → A
ok_or a (ok b) = b
ok_or a (err e) = a

ok-injective : {A : Type 0} {a b : A} → Path (Result NativeStateError A) (ok a) (ok b) → a ≡ b
ok-injective {A} {a} {b} h = ap (ok_or a) h

bind-eq :
    {A B : Type 0} {m : Result NativeStateError A} {a : A} (f : A → Result NativeStateError B)
    → m ≡ ok a
    → (m >>? f) ≡ f a
bind-eq f h = ap (λ m. m >>? f) h

framed-eq :
    (k a v b : ℕ) (tail body : Bytes)
    → k ≡ a
    → v ≡ b
    → Path (Result NativeStateError Bytes) (ok (to_le_bytes a ++ (to_le_bytes b ++ tail))) (ok body)
    → to_le_bytes k ++ (to_le_bytes v ++ tail) ≡ body
framed-eq k a v b tail body p q h = rw (p, q) (ok-injective h)

abbrev framed : Text → Bytes → Bytes → Bytes
framed key value more =
    to_le_bytes (length key) ++ (to_le_bytes (length value) ++ (key ++ (value ++ more)))

encode_records-cons :
    (key : Text) (value : Bytes) (rest : Map Text Bytes) (body : Bytes)
    → encode_records ((key, value) ∷ rest) ≡ ok body
    → (length key < u32_mod)
      × (length value < u32_mod)
      × ((later : Bytes) × (encode_records rest ≡ ok later) × (framed key value later ≡ body))
unfolding encode_records
encode_records-cons key value rest body h =
    let first = bind-ok (try_u32 (length key)) _ h in
    let k = try_u32-ok (length key) first.0 first.1 in
    let second = bind-ok (try_u32 (length value)) _ first.2 in
    let v = try_u32-ok (length value) second.0 second.1 in
    let third = bind-ok (encode_records rest) _ second.2 in
    (
      k.0,
      v.0,
      (
        third.0,
        third.1,
        framed-eq _ first.0 _ second.0 (key ++ (value ++ third.0)) body k.1 v.1 third.2,
      ),
    )

unless : {A : Type 0} {b : Bool} (x : A) {y : A} → b ≡ false → (if b then x else y) ≡ y
unless x h = rw h refl

framed-append :
    (key : Text) (value later rest : Bytes)
    → framed key value later ++ rest ≡ framed key value (later ++ rest)
framed-append key value later rest =
    ap (λ t. to_le_bytes (length key) ++ (to_le_bytes (length value) ++ t))
      (append_assoc key (value ++ later) rest ∙ ap (λ t. key ++ t) (append_assoc value later rest))

module _ (is_utf8 : Bytes → Bool) where
  read_record-framed :
      (key : Text) (value more : Bytes)
      → length key < u32_mod
      → length value < u32_mod
      → is_utf8 key ≡ true
      → read_record is_utf8 (framed key value more) ≡ ok (key, value, more)
  unfolding read_record
  read_record-framed key value more p q u =
      bind-eq (with_key_len is_utf8)
        (read_u32-append (length key) (to_le_bytes (length value) ++ (key ++ (value ++ more))) p)
      ∙ bind-eq (with_value_len is_utf8 (length key))
          (read_u32-append (length value) (key ++ (value ++ more)) q)
      ∙ bind-eq (with_key is_utf8 (length value)) (take-append key (value ++ more))
      ∙ ap
          (λ b.
            if b
            then take (length value) (value ++ more) >>? with_value is_utf8 key
            else err malformed)
          u
      ∙ bind-eq (with_value is_utf8 key) (take-append value more)

  read_records-cons :
      (n : ℕ) (key : Text) (value more : Bytes) (out : Map Text Bytes)
      → length key < u32_mod
      → length value < u32_mod
      → is_utf8 key ≡ true
      → contains_key key out ≡ false
      → read_records is_utf8 (suc n) (framed key value more) out
        ≡ read_records is_utf8 n more (insert key value out)
  unfolding read_records
  read_records-cons n key value more out p q u c =
      bind-eq (store is_utf8 (read_records is_utf8 n) out) (read_record-framed key value more p q u)
      ∙ ap (λ b. if b then err malformed else read_records is_utf8 n more (insert key value out)) c

  -- What the loop reads of the records that were written, behind which `rest` may follow.
  read-encode_records :
      (saved out : Map Text Bytes) (body rest : Bytes)
      → All (λ p. is_utf8 p.0 ≡ true) saved
      → IsSorted (out ++ saved)
      → encode_records saved ≡ ok body
      → read_records is_utf8 (length saved) (body ++ rest) out ≡ ok (rest, out ++ saved)
  unfolding read_records encode_records
  read-encode_records [] out body rest u s e =
      ap (λ b. ok (b ++ rest, out)) (sym (ok-injective e))
      ∙ ap (λ o. ok (rest, o)) (sym (append-nil out))
  read-encode_records ((key, value) ∷ saved) out body rest u s e =
      let (p, q, (later, f, b)) = encode_records-cons key value saved body e in
      let l = insert-last key value out saved s in
      let moved : (out ++ (key, value) ∷ []) ++ saved ≡ out ++ (key, value) ∷ saved =
        append_assoc out ((key, value) ∷ []) saved in
      let n = length saved in
      ap (λ x. read_records is_utf8 (suc n) (x ++ rest) out) (sym b)
      ∙ ap (λ x. read_records is_utf8 (suc n) x out) (framed-append key value later rest)
      ∙ read_records-cons n key value (later ++ rest) out p q u.0 l.1
      ∙ ap (read_records is_utf8 n (later ++ rest)) l.0
      ∙ read-encode_records saved (out ++ (key, value) ∷ []) later rest u.1
          (subst IsSorted (sym moved) s) f
      ∙ ap (λ o. ok (rest, o)) moved

  decode_records-encode :
      (saved : Map Text Bytes) (body : Bytes)
      → IsSorted saved
      → All (λ p. is_utf8 p.0 ≡ true) saved
      → length saved < u32_mod
      → encode_records saved ≡ ok body
      → decode_records is_utf8 (to_le_bytes (length saved) ++ body) ≡ ok saved
  unfolding decode_records
  decode_records-encode saved body s u h e =
      bind-eq (read_all is_utf8) (read_u32-append (length saved) body h)
      ∙ ap (λ b. read_records is_utf8 (length saved) b [] >>? all_read is_utf8)
          (sym (append-nil body))
      ∙ bind-eq (all_read is_utf8) (read-encode_records saved [] body [] u s e)

  -- A container of the current format that is not too long is refused by its version, then by its
  -- checksum; otherwise the result is that of its records.
  pub decode-container :
      (v c : ℕ) (payload : Bytes)
      → ltb max_envelope_bytes (9 + length payload) ≡ false
      → c < u32_mod
      → decode_native_state is_utf8 (magic ++ v ∷ (to_le_bytes c ++ payload)) ≡ (
          if v == version
          then (if crc32 payload == c
              then decode_records is_utf8 payload
              else err checksum_mismatch)
          else err (unsupported_version v))
  unfolding decode_native_state take
  decode-container v c payload h b =
      let rest = v ∷ (to_le_bytes c ++ payload) in
      let whole = magic ++ rest in
      let long_enough : (ltb max_envelope_bytes (length whole) || ltb (length whole) 8) ≡ false =
        ground (arith, h) in
      let has_header : (ltb (length rest) 5 || false) ≡ false = ground arith in
      unless (err malformed) long_enough
      ∙ unless (err malformed) has_header
      ∙ ap (λ r. if v == version then r else err (unsupported_version v))
          (bind-eq (verify is_utf8) (read_u32-append c payload b))

  decode-envelope :
      (payload : Bytes)
      → ltb max_envelope_bytes (9 + length payload) ≡ false
      → decode_native_state is_utf8 (magic ++ version ∷ (to_le_bytes (crc32 payload) ++ payload))
        ≡ decode_records is_utf8 payload
  decode-envelope payload h =
      decode-container version (crc32 payload) payload h (omega arith)
      ∙ ap (λ b. if b then decode_records is_utf8 payload else err checksum_mismatch)
          (==_refl (crc32 payload))

envelope-ok :
    (payload bytes : Bytes)
    → envelope payload ≡ ok bytes
    → (ltb max_envelope_bytes (9 + length payload) ≡ false)
      × (magic ++ version ∷ (to_le_bytes (crc32 payload) ++ payload) ≡ bytes)
envelope-ok payload bytes h = elim (Bool-cases (ltb max_envelope_bytes (9 + length payload))) [
  | inl t ↦ absurd (let refused : err too_large ≡ ok bytes = rw t at h in cc)
  | inr f ↦ (f, ok-injective (rw f at h))
]

-- When a map in the order of its keys, whose keys are valid UTF-8, is encoded, decoding the bytes
-- gives back that map.
pub decode-encode :
    (is_utf8 : Bytes → Bool) (saved : Map Text Bytes) (bytes : Bytes)
    → IsSorted saved
    → All (λ p. is_utf8 p.0 ≡ true) saved
    → encode_native_state saved ≡ ok bytes
    → decode_native_state is_utf8 bytes ≡ ok saved
unfolding encode_native_state
decode-encode is_utf8 saved bytes s u e =
    let first = bind-ok (try_u32 (length saved)) _ e in
    let n = try_u32-ok (length saved) first.0 first.1 in
    let second = bind-ok (encode_records saved) _ first.2 in
    let third = envelope-ok (to_le_bytes first.0 ++ second.0) bytes second.2 in
    let records = decode_records-encode is_utf8 saved second.0 s u n.0 second.1 in
    ap (decode_native_state is_utf8) (sym third.1)
    ∙ decode-envelope is_utf8 (to_le_bytes first.0 ++ second.0) third.0
    ∙ ap (λ c. decode_records is_utf8 (to_le_bytes c ++ second.0)) (sym n.1)
    ∙ records
