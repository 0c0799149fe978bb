-- ===== src/Web/Gathering.antt =====
-- The loop of `load` of crates/essenty-web/src/wasm/browser_storage.rs, over the names of an area that
-- holds a map: what it gathers is the map.
use essenty.Common.{
  ◌<◌, true, false, Option, none, some, List, [], ◌∷◌, if◌then◌else◌, ◌≡◌, refl, sym, ap, ◌∙◌,
  arith, Bool-cases, inl, inr, subst, All,
}
use essenty.Common.Order.{bytes_ord}
use essenty.Common.Map.{Map, get, insert, get-insert, insert-IsSorted, IsSorted, same-eq}
use essenty.StateKeeper.Keeper.{Text, Bytes}
use essenty.Web.Storage.{StorageKey, prefix, qualified}
use essenty.Web.Names.{same-qualified}
use essenty.Web.Browser.{strip_prefix}
use essenty.Web.Area.{same_name, is_member, strip_prefix-append, strip_prefix-eq}

-- The values of a map are bytes.
abbrev pub AreBytes : Map Text Bytes → Type 0
AreBytes saved = All (λ (p : Text × Bytes). All (λ b. b < 256) p.1) saved

pub get-AreBytes :
    (saved : Map Text Bytes) (key : Text) (bytes : Bytes)
    → AreBytes saved
    → get key saved ≡ some bytes
    → All (λ b. b < 256) bytes
unfolding get
get-AreBytes [] key bytes v h = cc
get-AreBytes ((j, other) ∷ saved) key bytes v h = elim (Bool-cases (same_name key j)) [
  | inl q ↦ subst (λ bs. All (λ b. b < 256) bs) (first j other saved key bytes q h) v.0
  | inr q ↦ get-AreBytes saved key bytes v.1 (later j other saved key bytes q h)
]
  where
    first :
        (j : Text) (other : Bytes) (saved : Map Text Bytes) (key : Text) (bytes : Bytes)
        → same_name key j ≡ true
        → get key ((j, other) ∷ saved) ≡ some bytes
        → other ≡ bytes
    first j other saved key bytes q h = ground arith

    later :
        (j : Text) (other : Bytes) (saved : Map Text Bytes) (key : Text) (bytes : Bytes)
        → same_name key j ≡ false
        → get key ((j, other) ∷ saved) ≡ some bytes
        → get key saved ≡ some bytes
    later j other saved key bytes q h = ground arith

-- What a name of the area adds to the map, if the area holds the map.
abbrev pub value_of : Text → Map Text Bytes → Option Bytes → Map Text Bytes
value_of key out none = out
value_of key out (some bytes) = insert key bytes out

module _ (k : StorageKey) (saved : Map Text Bytes) where
  abbrev pub taken : Map Text Bytes → Option Text → Map Text Bytes
  taken out none = out
  taken out (some key) = value_of key out (get key saved)

  abbrev pub take_all : List Text → Map Text Bytes → Map Text Bytes
  take_all [] out = out
  take_all (q ∷ names) out = take_all names (taken out (strip_prefix (prefix k) q))

  value_of-IsSorted :
      (key : Text) (out : Map Text Bytes) (o : Option Bytes)
      → IsSorted out
      → IsSorted (value_of key out o)
  value_of-IsSorted key out none s = s
  value_of-IsSorted key out (some bytes) s = insert-IsSorted key bytes out s

  taken-IsSorted : (out : Map Text Bytes) (o : Option Text) → IsSorted out → IsSorted (taken out o)
  taken-IsSorted out none s = s
  taken-IsSorted out (some key) s = value_of-IsSorted key out (get key saved) s

  pub take_all-IsSorted :
      (names : List Text) (out : Map Text Bytes) → IsSorted out → IsSorted (take_all names out)
  take_all-IsSorted [] out s = s
  take_all-IsSorted (q ∷ names) out s =
      take_all-IsSorted names (taken out (strip_prefix (prefix k) q))
        (taken-IsSorted out (strip_prefix (prefix k) q) s)

  abbrev pub orr : Option Bytes → Option Bytes → Option Bytes
  orr none other = other
  orr (some bytes) other = some bytes

  strip-qualified :
      (j q : Text) → same_name (qualified k j) q ≡ true → strip_prefix (prefix k) q ≡ some j
  strip-qualified j q h =
      ap (strip_prefix (prefix k)) (sym (same-eq ⦃o = bytes_ord⦄ (qualified k j) q h))
      ∙ strip_prefix-append (prefix k) j

  get-value_of :
      (j key : Text) (out : Map Text Bytes) (o : Option Bytes)
      → get key saved ≡ o
      → (same_name j key ≡ true → get j saved ≡ get key saved)
      → get j (value_of key out o)
        ≡ (if same_name j key then orr (get j saved) (get j out) else get j out)
  get-value_of j key out none e f = ground arith
  get-value_of j key out (some bytes) e f =
      get-insert ⦃o = bytes_ord⦄ j key bytes out ∙ ground arith

  at_same : (j key : Text) → same_name j key ≡ true → get j saved ≡ get key saved
  at_same j key h = ap (λ x. get x saved) (same-eq ⦃o = bytes_ord⦄ j key h)

  get-taken :
      (j q : Text) (out : Map Text Bytes) (o : Option Text)
      → strip_prefix (prefix k) q ≡ o
      → get j (taken out o)
        ≡ (if same_name (qualified k j) q then orr (get j saved) (get j out) else get j out)
  get-taken j q out none e = elim (Bool-cases (same_name (qualified k j) q)) [
    | inl h ↦ cc (strip-qualified j q h, e)
    | inr h ↦ rw h refl
  ]
  get-taken j q out (some key) e =
      get-value_of j key out (get key saved) refl (at_same j key)
      ∙ ap (λ b. if b then orr (get j saved) (get j out) else get j out)
          (sym (
            ap (same_name (qualified k j)) (strip_prefix-eq (prefix k) q key e)
            ∙ same-qualified k j key))

  pub get-take_all :
      (j : Text) (names : List Text) (out : Map Text Bytes)
      → get j (take_all names out)
        ≡ (if is_member (qualified k j) names then orr (get j saved) (get j out) else get j out)
  get-take_all j [] out = refl
  get-take_all j (q ∷ names) out = ground (
    arith,
    get-take_all j names (taken out (strip_prefix (prefix k) q)),
    get-taken j q out (strip_prefix (prefix k) q) refl,
  )
