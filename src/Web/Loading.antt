-- ===== src/Web/Loading.antt =====
-- `load` of crates/essenty-web/src/wasm/browser_storage.rs after a `save`.
use essenty.Common.{
  ℕ, ◌+◌, ◌<◌, Bool, Option, none, some, List, [], ◌∷◌, if◌then◌else◌, length, ◌≡◌, refl, ap, ◌∙◌,
  is_some, arith, Option-cases, inl, inr, ◌⊎◌, All,
}
use essenty.Common.Results.{Result, ok, err}
use essenty.Common.Order.{bytes_ord}
use essenty.Common.Map.{Map, get, ext, IsSorted}
use essenty.StateKeeper.Keeper.{Text, Bytes}
use essenty.Web.Storage.{StorageKey, prefix, qualified}
use essenty.Web.Hex.{decode_bytes-encode_bytes}
use essenty.Web.Browser.{
  WebStorage, BrowserStorageError, access, accessed, ◌>>!◌, strip_prefix, read_value, read_stripped,
  read_named, load_from, load, save,
}
use essenty.Web.Area.{is_member, Lawful, Calm, absurd_none, strip_prefix-eq, text_for, encoded}
use essenty.Web.Saved.{From, From-head, From-tail, From-start, save_holds, save_keeps}
use essenty.Web.Calmly.{save-ok}
use essenty.Web.Gathering.{
  AreBytes, get-AreBytes, value_of, taken, take_all, take_all-IsSorted, orr, get-take_all,
}

module _ (web : WebStorage) (laws : Lawful web) (k : StorageKey) (saved : Map Text Bytes) where
  open web use {Area, names, text_at, area_key, area_length, get_item}
  open laws use {is_member-names, length_lem, key_lem, get_lem}

  -- The area holds the map.
  abbrev IsHeld : Area → Type 0
  IsHeld s = (key : Text) → text_at (qualified k key) s ≡ text_for key saved

  is_some-encoded : (o : Option Bytes) → is_some (encoded o) ≡ is_some o
  is_some-encoded none = refl
  is_some-encoded (some bytes) = refl

  found_all :
      (b : Bool) (o : Option Bytes) → b ≡ is_some o → (if b then orr k saved o none else none) ≡ o
  found_all b none h = ground arith
  found_all b (some bytes) h = ground arith

  take_all-names : (s : Area) → IsSorted saved → IsHeld s → take_all k saved (names s) [] ≡ saved
  unfolding get
  take_all-names s o held =
      ext (take_all k saved (names s) []) saved (take_all-IsSorted k saved (names s) [] tt) o (λ j.
        get-take_all k saved j (names s) []
        ∙ found_all (is_member (qualified k j) (names s)) (get j saved) (
            is_member-names s (qualified k j)
            ∙ (ap is_some (held j) ∙ is_some-encoded (get j saved))))

  -- What the browser does: it throws, or the code goes on with the result.
  abbrev OrThrows : {A : Type 0} → Result BrowserStorageError A → A → Type 0
  OrThrows r a = (r ≡ ok a) ⊎ ((r ≡ err access) × ¬ Calm web)

  read_value-held :
      (key : Text) (out : Map Text Bytes) (o : Option Bytes)
      → ((bytes : Bytes) → o ≡ some bytes → All (λ b. b < 256) bytes)
      → read_value key out (encoded o) ≡ ok (value_of key out o)
  read_value-held key out none v = refl
  read_value-held key out (some bytes) v = rw (decode_bytes-encode_bytes bytes (v bytes refl)) refl

  read_stripped-held :
      (s : Area) (q : Text) (out : Map Text Bytes) (o : Option Text)
      → IsHeld s
      → AreBytes saved
      → strip_prefix (prefix k) q ≡ o
      → OrThrows (read_stripped web s q out o) (taken k saved out o)
  read_stripped-held s q out none held v e = inl refl
  read_stripped-held s q out (some key) held v e = elim (Option-cases (get_item q s)) [
    | inl n ↦ inr (
      ap (λ r. accessed r >>! read_value key out) n,
      λ calm. absurd_none (get_item q s) n (calm.get_item_lem s q),
    )
    | inr (o, r) ↦
        let at_key : o ≡ text_for key saved =
          get_lem s q o r
          ∙ (ap (λ name. text_at name s) (strip_prefix-eq (prefix k) q key e) ∙ held key) in
        inl (
          ap (λ r'. accessed r' >>! read_value key out) r
          ∙ (ap (read_value key out) at_key
              ∙ read_value-held key out (get key saved) (λ bytes. get-AreBytes saved key bytes v)))
  ]

  load_from-held :
      (s : Area) (rest : List Text) (index : ℕ) (out : Map Text Bytes)
      → IsHeld s
      → AreBytes saved
      → From (names s) index rest
      → OrThrows (load_from web k (length rest) index s out) (take_all k saved rest out)
  unfolding load_from
  load_from-held s [] index out held v f = inl refl
  load_from-held s (q ∷ rest) index out held v f =
      let go_on = λ (name : Option Text).
        read_named web k s out name >>! load_from web k (length rest) (index + 1) s in
      let o' = strip_prefix (prefix k) q in
      elim (Option-cases (area_key index s)) [
        | inl n ↦ inr (
          ap (λ r. accessed r >>! go_on) n,
          λ calm. absurd_none (area_key index s) n (calm.area_key_lem s index),
        )
        | inr (o, r) ↦
            let named = key_lem s index o r ∙ From-head (names s) index q rest f in
            let here = ap (λ r'. accessed r' >>! go_on) r ∙ ap go_on named in
            elim (read_stripped-held s q out o' held v refl) [
              | inr (x, throws) ↦
                  inr (here ∙ ap (λ m. m >>! load_from web k (length rest) (index + 1) s) x, throws)
              | inl x ↦
                  let step = here ∙ ap (λ m. m >>! load_from web k (length rest) (index + 1) s) x in
                  elim (load_from-held s rest (index + 1) (taken k saved out o') held v
                    (From-tail (names s) index q rest f)) [
                      | inl y ↦ inl (step ∙ y)
                      | inr (y, throws) ↦ inr (step ∙ y, throws)
                    ]
            ]
      ]

  load-held :
      (s : Area) → IsHeld s → AreBytes saved → IsSorted saved → OrThrows (load web k s) saved
  unfolding load
  load-held s held v o = elim (Option-cases (area_length s)) [
    | inl n ↦ inr (
      ap (λ r. accessed r >>! λ n. load_from web k n 0 s []) n,
      λ calm. absurd_none (area_length s) n (calm.area_length_lem s),
    )
    | inr (n, r) ↦
        let here =
          ap (λ r'. accessed r' >>! λ m. load_from web k m 0 s []) r
          ∙ ap (λ m. load_from web k m 0 s []) (length_lem s n r) in
        elim (load_from-held s (names s) 0 [] held v (From-start (names s))) [
          | inl y ↦ inl (here ∙ (y ∙ ap ok (take_all-names s o held)))
          | inr (y, throws) ↦ inr (here ∙ y, throws)
        ]
  ]

  -- After a `save` of a map in key order that succeeded, whatever the area held before, a `load` gives
  -- back exactly that map, or fails with `Access`, and then the browser throws; and every entry outside
  -- the namespace is as it was.
  pub load-save :
      (s s' : Area)
      → IsSorted saved
      → AreBytes saved
      → save web k saved s ≡ (ok tt, s')
      → ((load web k s' ≡ ok saved) ⊎ ((load web k s' ≡ err access) × ¬ Calm web))
        × ((other : Text)
            → strip_prefix (prefix k) other ≡ none
            → text_at other s' ≡ text_at other s)
  load-save s s' o v h = (
    load-held s' (λ key. save_holds web laws k saved s s' key o h) v o,
    λ other n. save_keeps web laws k saved s s' other n h,
  )

  -- If the browser never throws, a `save` of a map in key order succeeds over whatever the area held, and
  -- a `load` after it gives back exactly that map.
  pub load-save_calm :
      (s : Area)
      → IsSorted saved
      → AreBytes saved
      → Calm web
      → (s' : Area) × (save web k saved s ≡ (ok tt, s')) × (load web k s' ≡ ok saved)
  load-save_calm s o v calm =
      let (s', h) = save-ok web calm k saved s in
      (s', h, elim (load-save s s' o v h).0 [ inl e ↦ e | inr (e, throws) ↦ absurd (throws calm) ])
