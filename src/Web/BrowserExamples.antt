-- ===== src/Web/BrowserExamples.antt =====
-- crates/essenty-web/src/wasm/browser_storage.rs over an area that is a list of entries.
use essenty.Common.{
  Option, none, some, List, [], ◌∷◌, ◌++◌, ◌≡◌, refl, ap, ◌∙◌, is_some, arith, length, get_elem?,
  if◌then◌else◌, ◌⊎◌,
}
use essenty.Common.Results.{ok, err}
use essenty.Common.Order.{bytes_ord}
use essenty.Common.Map.{Map, get, insert, get-insert}
use essenty.StateKeeper.Keeper.{Text, Bytes}
use essenty.Web.Storage.{StorageKey, session, prefix, encode_bytes, decode_bytes}
use essenty.Web.Browser.{
  WebStorage, access, strip_prefix, load, load_from, find_stale, remove_all, set_all, save,
  invalid_encoding,
}
use essenty.Web.Area.{Lawful, Calm, same_name, is_member}
use essenty.Web.Loading.{load-save, load-save_calm}

abbrev Entries : Type 0
Entries = Map Text Text

abbrev keys : Entries → List Text
keys [] = []
keys ((name, value) ∷ m) = name ∷ keys m

abbrev without : Text → Entries → Entries
without name [] = []
without name ((other, value) ∷ m) =
    let rest = without name m in if same_name other name then rest else (other, value) ∷ rest

is_member-keys : (m : Entries) (name : Text) → is_member name (keys m) ≡ is_some (get name m)
unfolding get
is_member-keys [] name = refl
is_member-keys ((other, value) ∷ m) name = ground (arith, is_member-keys m name)

get-without :
    (m : Entries) (name other : Text)
    → get other (without name m) ≡ (if same_name other name then none else get other m)
unfolding get
get-without [] name other = ground arith
get-without ((j, value) ∷ m) name other = ground (
  arith,
  get-without m name other,
  bytes_ord.cmp-eq j name,
  bytes_ord.cmp-eq other j,
  bytes_ord.cmp-eq other name,
  bytes_ord.cmp_refl name,
)

abbrev entries : WebStorage
entries = record {
  Area = Entries;
  names = keys;
  text_at = λ name m. get name m;
  area_length = λ m. some (length (keys m));
  area_key = λ i m. some (get_elem? (keys m) i);
  get_item = λ name m. some (get name m);
  set_item = λ name value m. some (insert name value m);
  remove_item = λ name m. some (without name m);
}

unwrap : {A : Type 0} (a b : A) → ◌≡◌ {A = Option A} (some a) (some b) → b ≡ a
unwrap a b h = ground arith

entries-Lawful : Lawful entries
entries-Lawful = record {
  is_member-names = is_member-keys;
  length_lem = λ s n h. unwrap (length (keys s)) n h;
  key_lem = λ s i o h. unwrap (get_elem? (keys s) i) o h;
  get_lem = λ s name o h. unwrap (get name s) o h;
  set_lem = λ s s' name value other h.
      ap (get other) (unwrap (insert name value s) s' h)
      ∙ get-insert ⦃o = bytes_ord⦄ other name value s;
  remove_lem =
      λ s s' name other h. ap (get other) (unwrap (without name s) s' h) ∙ get-without s name other;
}

entries-Calm : Calm entries
entries-Calm = record {
  area_length_lem = λ s. refl;
  area_key_lem = λ s i. refl;
  get_item_lem = λ s name. refl;
  set_item_lem = λ s name value. refl;
  remove_item_lem = λ s name. refl;
}

abbrev component : StorageKey
component = record { area = session; namespace = 97 ∷ [] }

abbrev saved : Map Text Bytes
saved = (98 ∷ [], 1 ∷ 255 ∷ []) ∷ (99 ∷ [], []) ∷ []

-- An entry of the namespace that the map does not have, and one outside of it.
abbrev before : Entries
before = (prefix component ++ 100 ∷ [], []) ∷ (120 ∷ [], 121 ∷ []) ∷ []

abbrev after : Entries
after = (save entries component saved before).1

stored : save entries component saved before ≡ (ok tt, after)
unfolding save find_stale strip_prefix remove_all set_all encode_bytes get insert
stored = refl

-- Text that is not the form of bytes is reported with its key.
refused :
    load entries component ((prefix component ++ 100 ∷ [], 65 ∷ []) ∷ [])
    ≡ err (invalid_encoding (100 ∷ []))
unfolding load load_from strip_prefix decode_bytes get
refused = refl

load-save_example :
    ((load entries component after ≡ ok saved)
      ⊎ ((load entries component after ≡ err access) × ¬ Calm entries))
    × ((other : Text)
        → strip_prefix (prefix component) other ≡ none
        → get other after ≡ get other before)
load-save_example =
    load-save entries entries-Lawful component saved before after (refl, tt)
      ((omega arith, (omega arith, tt)), (tt, tt)) stored

load-save_calm_example :
    (s' : Entries) × (save entries component saved before ≡ (ok tt, s'))
    × (load entries component s' ≡ ok saved)
load-save_calm_example =
    load-save_calm entries entries-Lawful component saved before (refl, tt)
      ((omega arith, (omega arith, tt)), (tt, tt)) entries-Calm
