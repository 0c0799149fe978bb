-- ===== src/HostConfig/Manifest.antt =====
-- crates/essenty-android/src/native_config.rs: the text of `android:configChanges`, written and read.
use essenty.Common.{Option, none, some, List, [], ◌∷◌, ◌++◌, map, if◌then◌else◌}
use essenty.Common.Text.{Chars, codes, same_text, is_empty, trim, split, join}
use essenty.HostConfig.Category
use essenty.HostConfig.Category.{NativeConfigCategory}
use essenty.HostConfig.Set
use essenty.HostConfig.Set.{NativeConfigSet, categories, insert, empty}

unfoldable pub manifest_value : NativeConfigSet → Chars
manifest_value s = join (codes "|") (map Category.manifest_value (categories s))

abbrev pub baseline_manifest_value : Chars
baseline_manifest_value = manifest_value Set.baseline

abbrev pub extended_manifest_value : Chars
extended_manifest_value = manifest_value Set.extended

abbrev pub recommended_manifest_value : Chars
recommended_manifest_value = manifest_value Set.all_recommended

pub record ManifestParse : Type 0 where
  pub set : NativeConfigSet
  pub unknown : List Chars

-- `find` over the categories.
unfoldable pub find : Chars → List NativeConfigCategory → Option NativeConfigCategory
find token [] = none
find token (c ∷ cs) =
    let later = find token cs in
    if same_text (Category.manifest_value c) token then some c else later

abbrev pub record_category : Chars → Option NativeConfigCategory → ManifestParse → ManifestParse
record_category token (some c) p = record p { set = insert p.set c }
record_category token none p = record p { unknown = p.unknown ++ token ∷ [] }

-- The body of the loop of `parse_manifest_value`, for a trimmed token.
unfoldable pub read_token : Chars → ManifestParse → ManifestParse
read_token token p = if is_empty token then p else record_category token (find token Category.all) p

unfoldable pub read_tokens : List Chars → ManifestParse → ManifestParse
read_tokens [] p = p
read_tokens (token ∷ tokens) p = read_tokens tokens (read_token (trim token) p)

unfoldable pub parse_manifest_value : Chars → ManifestParse
parse_manifest_value value = read_tokens (split b'|' value) (record { set = empty; unknown = [] })
