-- ===== src/Web/Names.antt =====
-- crates/essenty-web/src/storage.rs: the entries of a state map under their qualified names.
use essenty.Common.{◌≡◌, refl, ◌∙◌, Option, none, some, [], ◌∷◌, ◌++◌, arith}
use essenty.Common.Order.{bytes_ord, cmp_bytes}
use essenty.Common.Map.{
  Map, get, insert, IsSorted, After, After-IsSorted, get-After, get-insert, same,
}
use essenty.StateKeeper.Keeper.{Text, Bytes}
use essenty.Web.Storage.{StorageKey, prefix, qualified, qualify_from, qualify_all}

cmp_bytes-append : (p a b : Text) → cmp_bytes (p ++ a) (p ++ b) ≡ cmp_bytes a b
cmp_bytes-append [] a b = refl
cmp_bytes-append (x ∷ p) a b = ground (arith, cmp_bytes-append p a b)

pub same-qualified :
    (k : StorageKey) (a b : Text)
    → same ⦃o = bytes_ord⦄ (qualified k a) (qualified k b) ≡ same ⦃o = bytes_ord⦄ a b
same-qualified k a b = ground (arith, cmp_bytes-append (prefix k) a b)

abbrev or_else : Option Bytes → Option Bytes → Option Bytes
or_else none other = other
or_else (some v) other = some v

-- Inserting under a name that stands for a key only if it stands for that key.
one_more :
    (key j q r : Text) (v : Bytes) (rest out : Map Text Bytes)
    → same ⦃o = bytes_ord⦄ q r ≡ same ⦃o = bytes_ord⦄ key j
    → After j rest
    → or_else (get key rest) (get q (insert r v out))
      ≡ or_else (get key ((j, v) ∷ rest)) (get q out)
unfolding get
one_more key j q r v rest out e s = ground (
  arith,
  e,
  get-insert ⦃o = bytes_ord⦄ q r v out,
  get-After ⦃o = bytes_ord⦄ j rest s,
  bytes_ord.cmp-eq key j,
)

get-qualify_from :
    (k : StorageKey) (key : Text) (m out : Map Text Bytes)
    → IsSorted m
    → get (qualified k key) (qualify_from k m out) ≡ or_else (get key m) (get (qualified k key) out)
unfolding qualify_from get
get-qualify_from k key [] out s = refl
get-qualify_from k key ((j, v) ∷ rest) out s =
    get-qualify_from k key rest (insert (qualified k j) v out) (After-IsSorted j rest s)
    ∙ one_more key j (qualified k key) (qualified k j) v rest out (same-qualified k key j) s

-- Qualifying the entries of a map in the order of its keys loses and mixes up none: under the
-- qualified name of a key stands what the map holds under the key.
pub get-qualify_all :
    (k : StorageKey) (key : Text) (saved : Map Text Bytes)
    → IsSorted saved
    → get (qualified k key) (qualify_all k saved) ≡ get key saved
unfolding get
get-qualify_all k key saved s = get-qualify_from k key saved [] s ∙ ground arith
