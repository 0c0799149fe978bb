-- ===== src/HostConfig/Parsing.antt =====
-- `parse_manifest_value` of crates/essenty-android/src/native_config.rs: what it
-- makes of the text that `manifest_value` writes.
use essenty.Common.{false, ◌≡◌, refl, ap, ◌∙◌, List, [], ◌∷◌, map, All, some}
use essenty.Common.Bits.{and}
use essenty.Common.Text.{codes, same_text, is_empty, trim, split, join}
use essenty.Common.Pieces.{IsFree, is_free, split-join}
use essenty.HostConfig.Category
use essenty.HostConfig.Category.{NativeConfigCategory, bit, orientation}
use essenty.HostConfig.Set.{
  NativeConfigSet, empty, add_all, from_categories, all_recommended, insert, categories,
}
use essenty.HostConfig.Manifest.{
  ManifestParse, manifest_value, find, read_token, read_tokens, parse_manifest_value,
}
use essenty.HostConfig.Members.{from-categories}

-- What is special of the manifest texts.
manifest_value-IsFree : (c : NativeConfigCategory) → IsFree 124 (Category.manifest_value c)
unfolding Category.manifest_value is_free
manifest_value-IsFree orientation = refl
manifest_value-IsFree _ = refl

trim-manifest_value :
    (c : NativeConfigCategory) → trim (Category.manifest_value c) ≡ Category.manifest_value c
unfolding Category.manifest_value trim
trim-manifest_value orientation = refl
trim-manifest_value _ = refl

is_empty-manifest_value : (c : NativeConfigCategory) → is_empty (Category.manifest_value c) ≡ false
unfolding Category.manifest_value
is_empty-manifest_value orientation = refl
is_empty-manifest_value _ = refl

pub find-manifest_value :
    (c : NativeConfigCategory) → find (Category.manifest_value c) Category.all ≡ some c
unfolding Category.manifest_value find same_text
find-manifest_value orientation = refl
find-manifest_value _ = refl

read_token-manifest_value :
    (c : NativeConfigCategory) (p : ManifestParse)
    → read_token (trim (Category.manifest_value c)) p ≡ record p { set = insert p.set c }
unfolding read_token
read_token-manifest_value c p =
    rw (trim-manifest_value c, is_empty-manifest_value c, find-manifest_value c) refl

read_tokens-manifest_values :
    (cs : List NativeConfigCategory) (p : ManifestParse)
    → read_tokens (map Category.manifest_value cs) p
      ≡ record p { set = record { bits = add_all cs p.set.bits } }
unfolding read_tokens add_all insert
read_tokens-manifest_values [] p = refl
read_tokens-manifest_values (c ∷ cs) p =
    ap (read_tokens (map Category.manifest_value cs)) (read_token-manifest_value c p)
    ∙ read_tokens-manifest_values cs (record p { set = insert p.set c })

manifest_values-IsFree :
    (cs : List NativeConfigCategory) → All (IsFree 124) (map Category.manifest_value cs)
manifest_values-IsFree [] = tt
manifest_values-IsFree (c ∷ cs) = (manifest_value-IsFree c, manifest_values-IsFree cs)

abbrev pub fresh : ManifestParse
fresh = record { set = empty; unknown = [] }

parse-join :
    (cs : List NativeConfigCategory)
    → parse_manifest_value (join (codes "|") (map Category.manifest_value cs))
      ≡ record { set = from_categories cs; unknown = [] }
unfolding parse_manifest_value from_categories split join trim read_token read_tokens add_all
parse-join [] = refl
parse-join (c ∷ cs) =
    ap (λ tokens. read_tokens tokens fresh)
      (split-join 124 (Category.manifest_value c) (map Category.manifest_value cs)
        (manifest_values-IsFree (c ∷ cs)))
    ∙ read_tokens-manifest_values (c ∷ cs) fresh

-- Whatever the word of a set, reading the manifest text that it writes gives back exactly the bits that
-- stand for categories, and reports no token as unknown.
pub parse-manifest_value :
    (s : NativeConfigSet)
    → parse_manifest_value (manifest_value s)
      ≡ record { set = record { bits = and s.bits all_recommended.bits }; unknown = [] }
unfolding manifest_value
parse-manifest_value s =
    parse-join (categories s)
    ∙ ap (λ bits. record { set = record { bits = bits }; unknown = [] }) (from-categories s)
