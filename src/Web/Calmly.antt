-- ===== src/Web/Calmly.antt =====
-- `save` of crates/essenty-web/src/wasm/browser_storage.rs in a browser that never throws.
use essenty.Common.{
  ℕ, zero, suc, ◌+◌, true, Option, none, some, List, [], ◌∷◌, ◌≡◌, refl, ap, ◌∙◌, is_some,
}
use essenty.Common.Results.{ok}
use essenty.Common.Map.{Map}
use essenty.StateKeeper.Keeper.{Text, Bytes}
use essenty.Web.Storage.{StorageKey, qualified, encode_bytes}
use essenty.Web.Browser.{
  WebStorage, accessed, ◌>>!◌, add_stale, find_stale, remove_all, set_all, then_set, save_over,
  save, attempt,
}
use essenty.Web.Area.{Calm}

given : {A : Type 0} (o : Option A) → is_some o ≡ true → (a : A) × (o ≡ some a)
given none h = cc
given (some a) h = (a, refl)

module _ (web : WebStorage) (calm : Calm web) where
  open web use {Area, area_length, area_key, set_item, remove_item}
  open calm use {area_length_lem, area_key_lem, set_item_lem, remove_item_lem}

  find_stale-ok :
      (k : StorageKey) (saved : Map Text Bytes) (left index : ℕ) (s : Area) (stale : List Text)
      → (found : List Text) × (find_stale web k saved left index s stale ≡ ok found)
  unfolding find_stale
  find_stale-ok k saved zero index s stale = (stale, refl)
  find_stale-ok k saved (suc left) index s stale =
      let (name, e) = given (area_key index s) (area_key_lem s index) in
      let (found, h) = find_stale-ok k saved left (index + 1) s (add_stale k saved stale name) in
      (
        found,
        ap
              (λ o. accessed o >>! λ name'.
                find_stale web k saved left (index + 1) s (add_stale k saved stale name'))
              e
            ∙ h,
      )

  remove_all-ok :
      (stale : List Text) (s : Area) → (s' : Area) × (remove_all web stale s ≡ (ok tt, s'))
  unfolding remove_all
  remove_all-ok [] s = (s, refl)
  remove_all-ok (name ∷ stale) s =
      let (s1, e) = given (remove_item name s) (remove_item_lem s name) in
      let (s', h) = remove_all-ok stale s1 in
      (s', ap (λ o. attempt web o s (remove_all web stale)) e ∙ h)

  set_all-ok :
      (k : StorageKey) (saved : Map Text Bytes) (s : Area)
      → (s' : Area) × (set_all web k saved s ≡ (ok tt, s'))
  unfolding set_all
  set_all-ok k [] s = (s, refl)
  set_all-ok k ((key, bytes) ∷ rest) s =
      let value = encode_bytes bytes in
      let (s1, e) =
        given (set_item (qualified k key) value s) (set_item_lem s (qualified k key) value) in
      let (s', h) = set_all-ok k rest s1 in
      (s', ap (λ o. attempt web o s (set_all web k rest)) e ∙ h)

  pub save-ok :
      (k : StorageKey) (saved : Map Text Bytes) (s : Area)
      → (s' : Area) × (save web k saved s ≡ (ok tt, s'))
  unfolding save
  save-ok k saved s =
      let (n, l) = given (area_length s) (area_length_lem s) in
      let (stale, f) = find_stale-ok k saved n 0 s [] in
      let (s1, r) = remove_all-ok stale s in
      let (s', w) = set_all-ok k saved s1 in
      (
        s',
        ap (λ o. save_over web k saved s (accessed o >>! λ m. find_stale web k saved m 0 s [])) l
            ∙ (ap (save_over web k saved s) f ∙ (ap (then_set web k saved) r ∙ w)),
      )
