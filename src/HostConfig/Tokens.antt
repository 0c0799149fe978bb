-- ===== src/HostConfig/Tokens.antt =====
-- `parse_manifest_value` of crates/essenty-android/src/native_config.rs: what it
-- makes of any text.
use essenty.Common.{
  Bool, true, false, ◌||◌, ◌≡◌, refl, sym, ap, ◌∙◌, List, [], ◌∷◌, ◌++◌, map, if◌then◌else◌, arith,
  Bool-cases, inl, inr, Option, none, some,
}
use mathlib.Core.List.{append_assoc, append-nil}
use essenty.Common.Text.{Chars, same_text, same_text-eq, same_text_refl, is_empty, trim, split}
use essenty.HostConfig.Category
use essenty.HostConfig.Category.{NativeConfigCategory, bit, orientation}
use essenty.HostConfig.Set.{contains}
use essenty.HostConfig.Manifest.{
  ManifestParse, find, record_category, read_token, read_tokens, parse_manifest_value,
}
use essenty.HostConfig.Places.{same, same-eq, same_refl}
use essenty.HostConfig.Parsing.{fresh, find-manifest_value}
use essenty.HostConfig.Members.{contains-insert, contains-empty}

-- What reading means, token by token.
abbrev pub any_text : Chars → List Chars → Bool
any_text s [] = false
any_text s (token ∷ tokens) = same_text s token || any_text s tokens

abbrev pub named : Chars → List NativeConfigCategory → Bool
named token [] = false
named token (c ∷ cs) = same_text (Category.manifest_value c) token || named token cs

abbrev pub unknown_tokens : List Chars → List Chars
unknown_tokens [] = []
unknown_tokens (token ∷ tokens) =
    let rest = unknown_tokens tokens in
    if is_empty token || named token Category.all then rest else token ∷ rest

find_sound :
    (token : Chars) (cs : List NativeConfigCategory) (c : NativeConfigCategory)
    → find token cs ≡ some c
    → Category.manifest_value c ≡ token
unfolding find
find_sound token [] c h = cc
find_sound token (d ∷ ds) c h =
    ground (arith, same_text-eq (Category.manifest_value d) token, find_sound token ds c)

is_some : Option NativeConfigCategory → Bool
is_some none = false
is_some (some c) = true

find-named :
    (token : Chars) (cs : List NativeConfigCategory) → is_some (find token cs) ≡ named token cs
unfolding find is_some
find-named token [] = refl
find-named token (c ∷ cs) = ground (arith, find-named token cs)

abbrev is_found : NativeConfigCategory → Option NativeConfigCategory → Bool
is_found c none = false
is_found c (some d) = same c d

found_is_named :
    (token : Chars) (c : NativeConfigCategory) (o : Option NativeConfigCategory)
    → find token Category.all ≡ o
    → same_text (Category.manifest_value c) token ≡ false
    → false ≡ is_found c o
found_is_named token c none h q = refl
found_is_named token c (some d) h q = elim (Bool-cases (same c d)) [
  | inr r ↦ sym r
  | inl r ↦ cc (q, find_sound token Category.all d h, same-eq c d r, same_text_refl token)
]

find-same :
    (token : Chars) (c : NativeConfigCategory)
    → same_text (Category.manifest_value c) token ≡ is_found c (find token Category.all)
find-same token c = elim (Bool-cases (same_text (Category.manifest_value c) token)) [
  | inl q ↦
      q
      ∙ sym (
          ap (λ t. is_found c (find t Category.all))
            (sym (same_text-eq (Category.manifest_value c) token q))
          ∙ (ap (is_found c) (find-manifest_value c) ∙ same_refl c))
  | inr q ↦ q ∙ found_is_named token c (find token Category.all) refl q
]

empty_is_no_name : (c : NativeConfigCategory) → same_text (Category.manifest_value c) [] ≡ false
unfolding Category.manifest_value same_text
empty_is_no_name orientation = refl
empty_is_no_name _ = refl

contains-record :
    (token : Chars) (c : NativeConfigCategory) (p : ManifestParse) (o : Option NativeConfigCategory)
    → contains (record_category token o p).set c ≡ (contains p.set c || is_found c o)
contains-record token c p none = ground arith
contains-record token c p (some d) = ground (arith, contains-insert p.set c d)

contains-read_token :
    (token : Chars) (c : NativeConfigCategory) (p : ManifestParse)
    → contains (read_token token p).set c
      ≡ (contains p.set c || same_text (Category.manifest_value c) token)
unfolding read_token
contains-read_token [] c p = ground (arith, empty_is_no_name c)
contains-read_token (x ∷ token) c p =
    contains-record (x ∷ token) c p (find (x ∷ token) Category.all)
    ∙ ap (λ b. contains p.set c || b) (sym (find-same (x ∷ token) c))

or_assoc : (a b c : Bool) → ((a || b) || c) ≡ (a || (b || c))
or_assoc a b c = ground arith

contains-read_tokens :
    (tokens : List Chars) (c : NativeConfigCategory) (p : ManifestParse)
    → contains (read_tokens tokens p).set c
      ≡ (contains p.set c || any_text (Category.manifest_value c) (map trim tokens))
unfolding read_tokens
contains-read_tokens [] c p = ground arith
contains-read_tokens (token ∷ tokens) c p =
    contains-read_tokens tokens c (read_token (trim token) p)
    ∙ (ap (λ b. b || any_text (Category.manifest_value c) (map trim tokens))
          (contains-read_token (trim token) c p)
        ∙ or_assoc (contains p.set c) (same_text (Category.manifest_value c) (trim token))
            (any_text (Category.manifest_value c) (map trim tokens)))

-- What a token adds to those reported as unknown.
abbrev unread : Chars → List Chars
unread token = if is_empty token || named token Category.all then [] else token ∷ []

unknown-record :
    (token : Chars) (p : ManifestParse) (o : Option NativeConfigCategory)
    → (record_category token o p).unknown ≡ p.unknown ++ (if is_some o then [] else token ∷ [])
unfolding is_some
unknown-record token p none = refl
unknown-record token p (some c) = sym (append-nil p.unknown)

unknown-read_token :
    (token : Chars) (p : ManifestParse) → (read_token token p).unknown ≡ p.unknown ++ unread token
unfolding read_token
unknown-read_token [] p = sym (append-nil p.unknown)
unknown-read_token (x ∷ token) p =
    unknown-record (x ∷ token) p (find (x ∷ token) Category.all)
    ∙ ap (λ b. p.unknown ++ (if b then [] else (x ∷ token) ∷ []))
        (find-named (x ∷ token) Category.all)

unread-append :
    (token : Chars) (tokens : List Chars)
    → unread token ++ unknown_tokens tokens ≡ unknown_tokens (token ∷ tokens)
unread-append token tokens = ground arith

unknown-read_tokens :
    (tokens : List Chars) (p : ManifestParse)
    → (read_tokens tokens p).unknown ≡ p.unknown ++ unknown_tokens (map trim tokens)
unfolding read_tokens
unknown-read_tokens [] p = sym (append-nil p.unknown)
unknown-read_tokens (token ∷ tokens) p =
    unknown-read_tokens tokens (read_token (trim token) p)
    ∙ (ap (λ l. l ++ unknown_tokens (map trim tokens)) (unknown-read_token (trim token) p)
        ∙ (append_assoc p.unknown (unread (trim token)) (unknown_tokens (map trim tokens))
            ∙ ap (λ l. p.unknown ++ l) (unread-append (trim token) (map trim tokens))))

-- Of any text, the reader takes a category into the set exactly if one of the pieces between the bars,
-- less the white space at its ends, is the manifest name of the category; and it reports as unknown, in
-- their order, exactly the trimmed pieces that are not empty and name no category.
pub parse-tokens :
    (value : Chars) (c : NativeConfigCategory)
    → let tokens = map trim (split 124 value) in
      (contains (parse_manifest_value value).set c ≡ any_text (Category.manifest_value c) tokens)
      × ((parse_manifest_value value).unknown ≡ unknown_tokens tokens)
unfolding parse_manifest_value
parse-tokens value c = (
  contains-read_tokens (split 124 value) c fresh
      ∙ ap (λ b. b || any_text (Category.manifest_value c) (map trim (split 124 value)))
          (contains-empty c),
  unknown-read_tokens (split 124 value) fresh,
)
