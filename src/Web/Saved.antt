-- ===== src/Web/Saved.antt =====
-- `save` of crates/essenty-web/src/wasm/browser_storage.rs: what the area holds afterwards.
use essenty.Common.{
  ℕ, suc, ◌+◌, Bool, true, false, ◌&&◌, ◌||◌, Option, none, some, List, [], ◌∷◌, ◌++◌, length,
  get_elem?, ◌≡◌, refl, sym, ap, ◌∙◌, arith, subst,
}
use essenty.Common.Results.{Result, ok, err}
use essenty.Common.Order.{bytes_ord}
use essenty.Common.Map.{Map, IsSorted, same-eq}
use essenty.StateKeeper.Keeper.{Text, Bytes}
use essenty.Web.Storage.{StorageKey, prefix, qualified}
use essenty.Web.Browser.{
  WebStorage, BrowserStorageError, accessed, ◌>>!◌, strip_prefix, is_absent, add_stale, find_stale,
  remove_all, set_all, save, save_over, then_set, Answer,
}
use essenty.Web.Area.{
  same_name, is_member, Lawful, strip_prefix-append, text_for, text_at-set_all, text_at-remove_all,
  set_all-foreign,
}

-- The names from an index on.
abbrev pub From : List Text → ℕ → List Text → Type 0
From all index rest = (i : ℕ) → get_elem? all (index + i) ≡ get_elem? rest i

pub From-tail :
    (all : List Text) (index : ℕ) (q : Text) (rest : List Text)
    → From all index (q ∷ rest)
    → From all (index + 1) rest
From-tail all index q rest f i = ap (get_elem? all) (shifted index i) ∙ f (suc i)
  where
    shifted : (m n : ℕ) → m + 1 + n ≡ m + suc n
    shifted m n = omega arith

pub From-head :
    (all : List Text) (index : ℕ) (q : Text) (rest : List Text)
    → From all index (q ∷ rest)
    → get_elem? all index ≡ some q
From-head all index q rest f = ap (get_elem? all) (plus_zero index) ∙ f 0
  where
    plus_zero : (m : ℕ) → m ≡ m + 0
    plus_zero m = omega arith

pub From-start : (all : List Text) → From all 0 all
From-start all i = ap (get_elem? all) (zero_plus i)
  where
    zero_plus : (m : ℕ) → 0 + m ≡ m
    zero_plus m = omega arith

pub accessed-ok :
    {A B : Type 0} (o : Option A) (f : A → Result BrowserStorageError B) {b : B}
    → (accessed o >>! f) ≡ ok b
    → (a : A) × (o ≡ some a) × (f a ≡ ok b)
accessed-ok none f h = cc
accessed-ok (some a) f h = (a, refl, h)

is_member-end :
    (q r : Text) (names : List Text)
    → is_member q (names ++ r ∷ []) ≡ (is_member q names || same_name q r)
is_member-end q r [] = ground arith
is_member-end q r (n ∷ names) = ground (arith, is_member-end q r names)

-- Whether a name is stale: it has the prefix, and the map does not have its key.
abbrev stale_name : StorageKey → Map Text Bytes → Text → Bool
stale_name k saved q = is_absent saved (strip_prefix (prefix k) q)

same-stale :
    (k : StorageKey) (saved : Map Text Bytes) (q r : Text)
    → same_name q r ≡ true
    → stale_name k saved q ≡ stale_name k saved r
same-stale k saved q r h = ap (stale_name k saved) (same-eq ⦃o = bytes_ord⦄ q r h)

is_member-add_stale :
    (k : StorageKey) (saved : Map Text Bytes) (q r : Text) (stale : List Text)
    → is_member q (add_stale k saved stale (some r))
      ≡ (is_member q stale || (same_name q r && stale_name k saved q))
is_member-add_stale k saved q r stale =
    ground (arith, is_member-end q r stale, same-stale k saved q r)

or_false : (a : Bool) → a ≡ (a || false)
or_false a = ground arith

ok_inj : (a b : List Text) → ◌≡◌ {A = Result BrowserStorageError (List Text)} (ok a) (ok b) → a ≡ b
ok_inj a b h = ground arith

regroup : (a b c d : Bool) → ((a || (b && d)) || (c && d)) ≡ (a || ((b || c) && d))
regroup a b c d = ground arith

module _ (web : WebStorage) (laws : Lawful web) where
  open web use {Area, names, text_at, area_key, area_length, remove_item}
  open laws use {is_member-names, length_lem, key_lem}

  find_stale_lem :
      (k : StorageKey) (saved : Map Text Bytes) (s : Area) (rest : List Text) (index : ℕ)
      (stale found : List Text) (q : Text)
      → From (names s) index rest
      → find_stale web k saved (length rest) index s stale ≡ ok found
      → is_member q found ≡ (is_member q stale || (is_member q rest && stale_name k saved q))
  unfolding find_stale
  find_stale_lem k saved s [] index stale found q f h =
      sym (ap (is_member q) (ok_inj stale found h)) ∙ or_false (is_member q stale)
  find_stale_lem k saved s (r ∷ rest) index stale found q f h =
      let (o, e, h') =
        accessed-ok (area_key index s)
          (λ name.
            find_stale web k saved (length rest) (index + 1) s (add_stale k saved stale name))
          h in
      let named = key_lem s index o e ∙ From-head (names s) index r rest f in
      find_stale_lem k saved s rest (index + 1) (add_stale k saved stale (some r)) found q
        (From-tail (names s) index r rest f)
        (subst
          (λ name.
            find_stale web k saved (length rest) (index + 1) s (add_stale k saved stale name)
            ≡ ok found)
          named h')
      ∙ (ap (λ b. b || (is_member q rest && stale_name k saved q))
            (is_member-add_stale k saved q r stale)
          ∙ regroup (is_member q stale) (same_name q r) (is_member q rest) (stale_name k saved q))

  -- The parts of a `save` that succeeded.
  abbrev Parts : StorageKey → Map Text Bytes → Area → Area → Type 0
  Parts k saved s s' =
      (stale : List Text) × (s1 : Area) × ((q : Text)
        → is_member q stale ≡ (is_member q (names s) && stale_name k saved q))
      × (remove_all web stale s ≡ (ok tt, s1))
      × (set_all web k saved s1 ≡ (ok tt, s'))

  save_over-ok :
      (k : StorageKey) (saved : Map Text Bytes) (s s' : Area)
      (r : Result BrowserStorageError (List Text))
      → save_over web k saved s r ≡ (ok tt, s')
      → (stale : List Text) × (r ≡ ok stale)
        × (then_set web k saved (remove_all web stale s) ≡ (ok tt, s'))
  save_over-ok k saved s s' (err e) h = cc (ap (λ p. p.0) h)
  save_over-ok k saved s s' (ok stale) h = (stale, refl, h)

  then_set-ok :
      (k : StorageKey) (saved : Map Text Bytes) (s' : Area) (a : Answer web)
      → then_set web k saved a ≡ (ok tt, s')
      → (s1 : Area) × (a ≡ (ok tt, s1)) × (set_all web k saved s1 ≡ (ok tt, s'))
  then_set-ok k saved s' (err e, s1) h = cc (ap (λ p. p.0) h)
  then_set-ok k saved s' (ok u, s1) h = (s1, refl, h)

  save-Parts :
      (k : StorageKey) (saved : Map Text Bytes) (s s' : Area)
      → save web k saved s ≡ (ok tt, s')
      → Parts k saved s s'
  unfolding save
  save-Parts k saved s s' h =
      let (stale, e, g) =
        save_over-ok k saved s s'
          (accessed (area_length s) >>! λ n. find_stale web k saved n 0 s []) h in
      let (n, l, e') = accessed-ok (area_length s) (λ n. find_stale web k saved n 0 s []) e in
      let (s1, r, w) = then_set-ok k saved s' (remove_all web stale s) g in
      (
        stale,
        s1,
        λ q.
            find_stale_lem k saved s (names s) 0 [] stale q (From-start (names s))
              (subst (λ m. find_stale web k saved m 0 s [] ≡ ok stale) (length_lem s n l) e'),
        r,
        w,
      )

  -- After a `save` that succeeded, the text under the name of a key is that of the map, and every entry
  -- outside the namespace is as it was.
  pub save_holds :
      (k : StorageKey) (saved : Map Text Bytes) (s s' : Area) (key : Text)
      → IsSorted saved
      → save web k saved s ≡ (ok tt, s')
      → text_at (qualified k key) s' ≡ text_for key saved
  save_holds k saved s s' key o h =
      let (stale, s1, m, r, w) = save-Parts k saved s s' h in
      let q = qualified k key in
      text_at-set_all web laws k saved s1 s' key o w
      ∙ ground (
        arith,
        text_at-remove_all web laws stale s s1 q r,
        m q,
        strip_prefix-append (prefix k) key,
        is_member-names s q,
      )

  pub save_keeps :
      (k : StorageKey) (saved : Map Text Bytes) (s s' : Area) (other : Text)
      → strip_prefix (prefix k) other ≡ none
      → save web k saved s ≡ (ok tt, s')
      → text_at other s' ≡ text_at other s
  save_keeps k saved s s' other n h =
      let (stale, s1, m, r, w) = save-Parts k saved s s' h in
      set_all-foreign web laws k saved s1 s' other n w
      ∙ ground (arith, text_at-remove_all web laws stale s s1 other r, m other, n)
