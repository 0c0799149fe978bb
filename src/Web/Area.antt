-- ===== src/Web/Area.antt =====
-- What crates/essenty-web/src/wasm/browser_storage.rs relies on of Web Storage, and the loops of `save`.
use essenty.Common.{
  ℕ, Bool, true, false, ◌||◌, Option, none, some, List, [], ◌∷◌, ◌++◌, if◌then◌else◌, length,
  get_elem?, ◌≡◌, refl, sym, ap, ◌∙◌, is_some, arith, Bool-cases, inl, inr,
}
use essenty.Common.Results.{ok}
use essenty.Common.Order.{bytes_ord}
use essenty.Common.Map.{Map, get, IsSorted, After, After-IsSorted, get-After, same, same-eq}
use essenty.Web.Names.{same-qualified}
use essenty.StateKeeper.Keeper.{Text, Bytes}
use essenty.Web.Storage.{StorageKey, prefix, qualified, encode_bytes}
use essenty.Web.Browser.{WebStorage, strip_prefix, remove_all, set_all, attempt, Answer}

abbrev pub same_name : Text → Text → Bool
same_name = same ⦃o = bytes_ord⦄

abbrev pub is_member : Text → List Text → Bool
is_member name [] = false
is_member name (other ∷ others) = same_name name other || is_member name others

-- What the standard says of operations that do not throw.
pub record Lawful (web : WebStorage) : Type 0 where
  pub is_member-names :
      (s : web.Area) (name : Text) → is_member name (web.names s) ≡ is_some (web.text_at name s)
  pub length_lem : (s : web.Area) (n : ℕ) → web.area_length s ≡ some n → n ≡ length (web.names s)
  pub key_lem :
      (s : web.Area) (i : ℕ) (o : Option Text)
      → web.area_key i s ≡ some o
      → o ≡ get_elem? (web.names s) i
  pub get_lem :
      (s : web.Area) (name : Text) (o : Option Text)
      → web.get_item name s ≡ some o
      → o ≡ web.text_at name s
  pub set_lem :
      (s s' : web.Area) (name value other : Text)
      → web.set_item name value s ≡ some s'
      → web.text_at other s' ≡ (if same_name other name then some value else web.text_at other s)
  pub remove_lem :
      (s s' : web.Area) (name other : Text)
      → web.remove_item name s ≡ some s'
      → web.text_at other s' ≡ (if same_name other name then none else web.text_at other s)

abbrev pub encoded : Option Bytes → Option Text
encoded none = none
encoded (some bytes) = some (encode_bytes bytes)

abbrev pub or_else : Option Text → Option Text → Option Text
or_else none other = other
or_else (some v) other = some v

-- The browser never throws.
pub record Calm (web : WebStorage) : Type 0 where
  pub area_length_lem : (s : web.Area) → is_some (web.area_length s) ≡ true
  pub area_key_lem : (s : web.Area) (i : ℕ) → is_some (web.area_key i s) ≡ true
  pub get_item_lem : (s : web.Area) (name : Text) → is_some (web.get_item name s) ≡ true
  pub set_item_lem : (s : web.Area) (name value : Text) → is_some (web.set_item name value s) ≡ true
  pub remove_item_lem : (s : web.Area) (name : Text) → is_some (web.remove_item name s) ≡ true

pub absurd_none : {A : Type 0} (o : Option A) → o ≡ none → is_some o ≡ true → ⊥
absurd_none none n h = cc
absurd_none (some a) n h = cc

pub strip_prefix-eq : (p q key : Text) → strip_prefix p q ≡ some key → q ≡ p ++ key
unfolding strip_prefix
strip_prefix-eq [] q key h = ground arith
strip_prefix-eq (x ∷ p) [] key h = cc
strip_prefix-eq (x ∷ p) (y ∷ q) key h = ground (arith, strip_prefix-eq p q key)

pub strip_prefix-append : (p key : Text) → strip_prefix p (p ++ key) ≡ some key
unfolding strip_prefix
strip_prefix-append [] key = refl
strip_prefix-append (x ∷ p) key = ground (arith, strip_prefix-append p key)

-- What a map has for a key, as text.
abbrev pub text_for : Text → Map Text Bytes → Option Text
text_for key saved = encoded (get key saved)

-- A text that is set under the name of a key is what the map has for the key.
one_more :
    (k : StorageKey) (j key : Text) (bytes : Bytes) (rest : Map Text Bytes) (before : Option Text)
    → After j rest
    → or_else
        (text_for key rest)
        (if same_name (qualified k key) (qualified k j) then some (encode_bytes bytes) else before)
      ≡ or_else (text_for key ((j, bytes) ∷ rest)) before
unfolding get
one_more k j key bytes rest before o =
    ground
      (arith, same-qualified k key j, bytes_ord.cmp-eq key j, get-After ⦃o = bytes_ord⦄ j rest o)

module _ (web : WebStorage) (laws : Lawful web) where
  open web use {Area, text_at, set_item, remove_item}
  open laws use {set_lem, remove_lem}

  -- An attempt that succeeds was made and went on.
  attempted :
      (o : Option Area) (s s' : Area) (go_on : Area → Answer web)
      → attempt web o s go_on ≡ (ok tt, s')
      → (s1 : Area) × (o ≡ some s1) × (go_on s1 ≡ (ok tt, s'))
  attempted none s s' go_on h = cc (ap (λ p. p.0) h)
  attempted (some s1) s s' go_on h = (s1, refl, h)

  pub text_at-remove_all :
      (stale : List Text) (s s' : Area) (other : Text)
      → remove_all web stale s ≡ (ok tt, s')
      → text_at other s' ≡ (if is_member other stale then none else text_at other s)
  unfolding remove_all
  text_at-remove_all [] s s' other h = ap (text_at other) (sym (ap (λ p. p.1) h))
  text_at-remove_all (name ∷ stale) s s' other h =
      let (s1, e, h') = attempted (remove_item name s) s s' (remove_all web stale) h in
      ground (arith, text_at-remove_all stale s1 s' other h', remove_lem s s1 name other e)

  pub text_at-set_all :
      (k : StorageKey) (saved : Map Text Bytes) (s s' : Area) (key : Text)
      → IsSorted saved
      → set_all web k saved s ≡ (ok tt, s')
      → text_at (qualified k key) s' ≡ or_else (text_for key saved) (text_at (qualified k key) s)
  unfolding set_all get
  text_at-set_all k [] s s' key o h = ap (text_at (qualified k key)) (sym (ap (λ p. p.1) h))
  text_at-set_all k ((j, bytes) ∷ rest) s s' key o h =
      let q = qualified k key in
      let (s1, e, h') =
        attempted (set_item (qualified k j) (encode_bytes bytes) s) s s' (set_all web k rest) h in
      text_at-set_all k rest s1 s' key (After-IsSorted j rest o) h'
      ∙ (ap (or_else (text_for key rest)) (set_lem s s1 (qualified k j) (encode_bytes bytes) q e)
          ∙ one_more k j key bytes rest (text_at q s) o)

  foreign :
      (k : StorageKey) (j other : Text)
      → strip_prefix (prefix k) other ≡ none
      → same_name other (qualified k j) ≡ false
  foreign k j other n = elim (Bool-cases (same_name other (qualified k j))) [
    | inr q ↦ q
    | inl q ↦ cc (
      strip_prefix-append (prefix k) j,
      ap (strip_prefix (prefix k)) (same-eq ⦃o = bytes_ord⦄ other (qualified k j) q),
      n,
    )
  ]

  pub set_all-foreign :
      (k : StorageKey) (saved : Map Text Bytes) (s s' : Area) (other : Text)
      → strip_prefix (prefix k) other ≡ none
      → set_all web k saved s ≡ (ok tt, s')
      → text_at other s' ≡ text_at other s
  unfolding set_all
  set_all-foreign k [] s s' other n h = ap (text_at other) (sym (ap (λ p. p.1) h))
  set_all-foreign k ((j, bytes) ∷ rest) s s' other n h =
      let (s1, e, h') =
        attempted (set_item (qualified k j) (encode_bytes bytes) s) s s' (set_all web k rest) h in
      set_all-foreign k rest s1 s' other n h'
      ∙ (set_lem s s1 (qualified k j) (encode_bytes bytes) other e
          ∙ ap (λ b. if b then some (encode_bytes bytes) else text_at other s)
              (foreign k j other n))
