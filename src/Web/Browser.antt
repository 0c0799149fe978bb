-- ===== src/Web/Browser.antt =====
-- crates/essenty-web/src/wasm/browser_storage.rs: `BrowserStorage` over an area of Web Storage, which is
-- a parameter. `none` of an operation of the area is an exception of the browser.
use essenty.Common.{
  ℕ, zero, suc, ◌+◌, Bool, false, not, Option, none, some, List, [], ◌∷◌, ◌++◌, if◌then◌else◌, ◌==◌,
}
use essenty.Common.Results.{Result, ok, err}
use essenty.Common.Order.{bytes_ord}
use essenty.Common.Map.{Map, insert, contains_key}
use essenty.StateKeeper.Keeper.{Text, Bytes, StateKeeper, StateKeeperError, with_restored}
use essenty.StateKeeper.Keeper
use essenty.Web.Storage.{StorageKey, prefix, qualified, encode_bytes, decode_bytes}

pub data BrowserStorageError : Type 0 where
  unavailable access : BrowserStorageError
  invalid_encoding : Text → BrowserStorageError
  state : StateKeeperError → BrowserStorageError

infixl 5 ◌>>!◌
abbrev pub ◌>>!◌ :
    {A B : Type 0}
    → Result BrowserStorageError A
    → (A → Result BrowserStorageError B)
    → Result BrowserStorageError B
ok a >>! f = f a
err e >>! f = err e

-- `map_err(|_| Access)?`.
abbrev pub accessed : {A : Type 0} → Option A → Result BrowserStorageError A
accessed none = err access
accessed (some a) = ok a

-- An area of Web Storage: `names` and `text_at` are what it holds, the others are its operations.
pub record WebStorage : Type 1 where
  pub Area : Type 0
  pub names : Area → List Text
  pub text_at : Text → Area → Option Text
  pub area_length : Area → Option ℕ
  pub area_key : ℕ → Area → Option (Option Text)
  pub get_item : Text → Area → Option (Option Text)
  pub set_item : Text → Text → Area → Option Area
  pub remove_item : Text → Area → Option Area

-- `str::strip_prefix`.
unfoldable pub strip_prefix : Text → Text → Option Text
strip_prefix [] text = some text
strip_prefix (p ∷ ps) [] = none
strip_prefix (p ∷ ps) (c ∷ cs) = if p == c then strip_prefix ps cs else none

-- The value that stands under a name with the prefix, if the entry is still there.
abbrev pub insert_decoded :
    Text → Map Text Bytes → Option Bytes → Result BrowserStorageError (Map Text Bytes)
insert_decoded key out none = err (invalid_encoding key)
insert_decoded key out (some bytes) = ok (insert key bytes out)

abbrev pub read_value :
    Text → Map Text Bytes → Option Text → Result BrowserStorageError (Map Text Bytes)
read_value key out none = ok out
read_value key out (some value) = insert_decoded key out (decode_bytes value)

-- Whether the first loop of `save` takes a name for stale.
abbrev pub is_absent : Map Text Bytes → Option Text → Bool
is_absent saved none = false
is_absent saved (some key) = not (contains_key key saved)

abbrev pub add_stale : StorageKey → Map Text Bytes → List Text → Option Text → List Text
add_stale k saved stale none = stale
add_stale k saved stale (some qualified) =
    if is_absent saved (strip_prefix (prefix k) qualified) then stale ++ qualified ∷ [] else stale

module _ (web : WebStorage) where
  open web use {Area, area_length, area_key, get_item, set_item, remove_item}

  abbrev pub read_stripped :
      Area → Text → Map Text Bytes → Option Text → Result BrowserStorageError (Map Text Bytes)
  read_stripped s qualified out none = ok out
  read_stripped s qualified out (some key) = accessed (get_item qualified s) >>! read_value key out

  -- The body of the loop of `load`, for the name at an index.
  abbrev pub read_named :
      StorageKey → Area → Map Text Bytes → Option Text → Result BrowserStorageError (Map Text Bytes)
  read_named k s out none = ok out
  read_named k s out (some qualified) =
      read_stripped s qualified out (strip_prefix (prefix k) qualified)

  -- The loop of `load`, with the rounds that are left.
  unfoldable pub load_from :
      StorageKey → ℕ → ℕ → Area → Map Text Bytes → Result BrowserStorageError (Map Text Bytes)
  load_from k zero index s out = ok out
  load_from k (suc left) index s out = accessed (area_key index s) >>! λ name.
      read_named k s out name >>! load_from k left (index + 1) s

  unfoldable pub load : StorageKey → Area → Result BrowserStorageError (Map Text Bytes)
  load k s = accessed (area_length s) >>! λ n. load_from k n 0 s []

  unfoldable pub load_keeper :
      {W : Type 0} → StorageKey → Area → Result BrowserStorageError (StateKeeper W)
  load_keeper k s = load k s >>! λ restored. ok (with_restored restored)

  unfoldable pub find_stale :
      StorageKey
      → Map Text Bytes
      → ℕ
      → ℕ
      → Area
      → List Text
      → Result BrowserStorageError (List Text)
  find_stale k saved zero index s stale = ok stale
  find_stale k saved (suc left) index s stale = accessed (area_key index s) >>! λ name.
      find_stale k saved left (index + 1) s (add_stale k saved stale name)

  -- An operation that throws ends the loop, and what was written before it stays.
  abbrev pub Answer : Type 0
  Answer = Result BrowserStorageError (Unit {0}) × Area

  abbrev pub attempt : Option Area → Area → (Area → Answer) → Answer
  attempt none s go_on = (err access, s)
  attempt (some s') s go_on = go_on s'

  unfoldable pub remove_all : List Text → Area → Answer
  remove_all [] s = (ok tt, s)
  remove_all (name ∷ names) s = attempt (remove_item name s) s (remove_all names)

  unfoldable pub set_all : StorageKey → Map Text Bytes → Area → Answer
  set_all k [] s = (ok tt, s)
  set_all k ((key, bytes) ∷ rest) s =
      attempt (set_item (qualified k key) (encode_bytes bytes) s) s (set_all k rest)

  abbrev pub then_set : StorageKey → Map Text Bytes → Answer → Answer
  then_set k saved (err e, s) = (err e, s)
  then_set k saved (ok _, s) = set_all k saved s

  abbrev pub save_over :
      StorageKey → Map Text Bytes → Area → Result BrowserStorageError (List Text) → Answer
  save_over k saved s (err e) = (err e, s)
  save_over k saved s (ok stale) = then_set k saved (remove_all stale s)

  unfoldable pub save : StorageKey → Map Text Bytes → Area → Answer
  save k saved s =
      save_over k saved s (accessed (area_length s) >>! λ n. find_stale k saved n 0 s [])

  abbrev pub save_saved : StorageKey → Result StateKeeperError (Map Text Bytes) → Area → Answer
  save_saved k (err e) s = (err (state e), s)
  save_saved k (ok saved) s = save k saved s

  unfoldable pub save_keeper : {W : Type 0} → StorageKey → StateKeeper W → W → Area → Answer
  save_keeper k keeper w s = save_saved k (Keeper.save keeper w) s
