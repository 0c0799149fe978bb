-- ===== src/Common/Map.antt =====
-- `std::collections::BTreeMap` as the list of its entries, in the order of the keys.
use Prim.Native.Nat.{Ordering}
use mathlib.Core.Path.{◌≡◌, refl}
use mathlib.Core.Bool.{Bool, true, false}
use mathlib.Core.List.{List, [], ◌∷◌}
use mathlib.Core.Option.{Option, none, some}
use native.Mathlib.Omega.{arith}
use essenty.Common.Tests.{if◌then◌else◌, is_some}
use essenty.Common.Order.{Ord}

abbrev pub Map {ℓ κ} : Type ℓ → Type κ → Type (ℓ ⊔ κ)
Map K V = List (K × V)

module _ {ℓ} {K : Type ℓ} ⦃o : Ord K⦄ where
  abbrev pub same : K → K → Bool
  same j k = elim (o.cmp j k) [ Ordering.eq ↦ true | _ ↦ false ]

  pub same-eq : (j k : K) → same j k ≡ true → j ≡ k
  same-eq j k h = ground (arith, o.cmp-eq j k)

  pub same_refl : (k : K) → same k k ≡ true
  same_refl k = ground (arith, o.cmp_refl k)

module _ {ℓ κ} {K : Type ℓ} {V : Type κ} ⦃o : Ord K⦄ where
  unfoldable pub get : K → Map K V → Option V
  get k [] = none
  get k ((j, v) ∷ m) = elim (o.cmp k j) [ Ordering.eq ↦ some v | _ ↦ get k m ]

  abbrev pub contains_key : K → Map K V → Bool
  contains_key k m = is_some (get k m)

  unfoldable pub insert : K → V → Map K V → Map K V
  insert k v [] = (k, v) ∷ []
  insert k v ((j, w) ∷ m) = elim (o.cmp k j) [
    | Ordering.lt ↦ (k, v) ∷ (j, w) ∷ m
    | Ordering.eq ↦ (k, v) ∷ m
    | Ordering.gt ↦ (j, w) ∷ insert k v m
  ]

  unfoldable pub remove : K → Map K V → Map K V
  remove k [] = []
  remove k ((j, v) ∷ m) = elim (o.cmp k j) [ Ordering.eq ↦ m | _ ↦ (j, v) ∷ remove k m ]

  -- The keys of `m` rise, and lie above `k`.
  abbrev pub After : K → Map K V → Type 0
  After k [] = Unit
  After k ((j, v) ∷ m) = (o.cmp k j ≡ Ordering.lt) × After j m

  -- The keys of `m` rise, so each stands once.
  abbrev pub IsSorted : Map K V → Type 0
  IsSorted [] = Unit
  IsSorted ((k, v) ∷ m) = After k m

  -- Looking up after an insertion, at any key.
  pub get-insert :
      (j k : K) (v : V) (m : Map K V)
      → get j (insert k v m) ≡ (if same j k then some v else get j m)
  unfolding get insert
  get-insert j k v [] = ground arith
  get-insert j k v ((i, w) ∷ m) =
      ground (arith, o.cmp-eq k i, o.cmp-eq j k, o.cmp-eq j i, get-insert j k v m)

  pub After-trans : (j k : K) (m : Map K V) → o.cmp j k ≡ Ordering.lt → After k m → After j m
  After-trans j k [] h a = tt
  After-trans j k ((i, v) ∷ m) h a = (o.cmp_trans j k i h a.0, a.1)

  -- A key below all keys is absent.
  pub get-After : (k : K) (m : Map K V) → After k m → get k m ≡ none
  unfolding get
  get-After k [] a = refl
  get-After k ((j, v) ∷ m) a = ground (arith, get-After k m (After-trans k j m a.0 a.1))

  pub After-IsSorted : (i : K) (m : Map K V) → After i m → IsSorted m
  After-IsSorted i [] a = tt
  After-IsSorted i ((j, v) ∷ m) a = a.1

  -- Looking up after a removal, at any key.
  pub get-remove :
      (j k : K) (m : Map K V)
      → IsSorted m
      → get j (remove k m) ≡ (if same j k then none else get j m)
  unfolding get remove
  get-remove j k [] s = ground arith
  get-remove j k ((i, w) ∷ m) s = ground (
    arith,
    o.cmp-eq k i,
    o.cmp-eq j k,
    o.cmp-eq j i,
    get-remove j k m (After-IsSorted i m s),
    get-After i m s,
  )

  insert-After :
      (i k : K) (v : V) (m : Map K V) → o.cmp i k ≡ Ordering.lt → After i m → After i (insert k v m)
  unfolding insert
  insert-After i k v [] h a = (h, tt)
  insert-After i k v ((j, w) ∷ m) h a =
      ground (arith, o.cmp-eq k j, o.cmp-gt k j, insert-After j k v m)

  pub insert-IsSorted : (k : K) (v : V) (m : Map K V) → IsSorted m → IsSorted (insert k v m)
  unfolding insert
  insert-IsSorted k v [] s = tt
  insert-IsSorted k v ((j, w) ∷ m) s =
      ground (arith, o.cmp-eq k j, o.cmp-gt k j, insert-After j k v m)

  remove-After : (i k : K) (m : Map K V) → After i m → After i (remove k m)
  unfolding remove
  remove-After i k [] a = tt
  remove-After i k ((j, w) ∷ m) a = ground (arith, remove-After j k m, After-trans i j m a.0 a.1)

  pub remove-IsSorted : (k : K) (m : Map K V) → IsSorted m → IsSorted (remove k m)
  unfolding remove
  remove-IsSorted k [] s = tt
  remove-IsSorted k ((j, w) ∷ m) s = ground (arith, remove-After j k m s, After-IsSorted j m s)

  -- Two maps that agree at every key have the same first key.
  ext-head :
      (i j : K) (v w : V) (m n : Map K V)
      → After i m
      → After j n
      → ((k : K) → get k ((i, v) ∷ m) ≡ get k ((j, w) ∷ n))
      → i ≡ j
  unfolding get
  ext-head i j v w m n s t h = ground (
    arith,
    o.cmp-eq i j,
    o.cmp-gt i j,
    o.cmp_refl i,
    o.cmp_refl j,
    h i,
    h j,
    get-After i n,
    get-After j m,
    After-trans i j n,
    After-trans j i m,
  )

  -- Two maps that agree at every key are the same list.
  pub ext : (m n : Map K V) → IsSorted m → IsSorted n → ((k : K) → get k m ≡ get k n) → m ≡ n
  unfolding get
  ext [] [] s t h = refl
  ext [] ((j, w) ∷ n) s t h = ground (arith, h j, o.cmp_refl j)
  ext ((i, v) ∷ m) [] s t h = ground (arith, h i, o.cmp_refl i)
  ext ((i, v) ∷ m) ((j, w) ∷ n) s t h =
      let e = ext-head i j v w m n s t h in
      ground (
        arith,
        e,
        h i,
        o.cmp_refl i,
        ext m n (After-IsSorted i m s) (After-IsSorted j n t)
            (λ k. ground (arith, e, h k, o.cmp-eq k i, get-After i m s, get-After j n t)),
      )
