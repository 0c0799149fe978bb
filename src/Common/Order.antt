-- ===== src/Common/Order.antt =====
-- `Ord` of the keys of an ordered map: an interface with its laws, and its instances for `u64` and
-- for the bytes of a `String`, which Rust compares lexicographically.
use Prim.Native.Nat.{ℕ, compare, Ordering}
use mathlib.Core.Path.{◌≡◌, refl}
use mathlib.Core.List.{List, [], ◌∷◌}
use native.Mathlib.Omega.{arith}

pub record Ord {ℓ} (K : Type ℓ) : Type ℓ where
  pub cmp : K → K → Ordering
  pub cmp-eq : (a b : K) → cmp a b ≡ Ordering.eq → a ≡ b
  pub cmp_refl : (a : K) → cmp a a ≡ Ordering.eq
  pub cmp-gt : (a b : K) → cmp a b ≡ Ordering.gt → cmp b a ≡ Ordering.lt
  pub cmp-lt : (a b : K) → cmp a b ≡ Ordering.lt → cmp b a ≡ Ordering.gt
  pub cmp_trans :
      (a b c : K) → cmp a b ≡ Ordering.lt → cmp b c ≡ Ordering.lt → cmp a c ≡ Ordering.lt

pub compare-eq : (a b : ℕ) → compare a b ≡ Ordering.eq → a ≡ b
compare-eq a b h = ground arith

pub compare_refl : (a : ℕ) → compare a a ≡ Ordering.eq
compare_refl a = ground arith

pub compare-gt : (a b : ℕ) → compare a b ≡ Ordering.gt → compare b a ≡ Ordering.lt
compare-gt a b h = ground arith

pub compare-lt : (a b : ℕ) → compare a b ≡ Ordering.lt → compare b a ≡ Ordering.gt
compare-lt a b h = ground arith

pub compare_trans :
    (a b c : ℕ) → compare a b ≡ Ordering.lt → compare b c ≡ Ordering.lt → compare a c ≡ Ordering.lt
compare_trans a b c h k = ground arith

instance abbrev pub ℕ_ord : Ord ℕ
ℕ_ord = record {
  cmp = compare;
  cmp-eq = compare-eq;
  cmp_refl = compare_refl;
  cmp-gt = compare-gt;
  cmp-lt = compare-lt;
  cmp_trans = compare_trans;
}

-- `String: Ord` compares the bytes lexicographically.
abbrev pub cmp_bytes : List ℕ → List ℕ → Ordering
cmp_bytes [] [] = Ordering.eq
cmp_bytes [] (y ∷ ys) = Ordering.lt
cmp_bytes (x ∷ xs) [] = Ordering.gt
cmp_bytes (x ∷ xs) (y ∷ ys) = elim (compare x y) [
  | Ordering.lt ↦ Ordering.lt
  | Ordering.eq ↦ cmp_bytes xs ys
  | Ordering.gt ↦ Ordering.gt
]

pub cmp_bytes-eq : (a b : List ℕ) → cmp_bytes a b ≡ Ordering.eq → a ≡ b
cmp_bytes-eq [] [] h = refl
cmp_bytes-eq [] (y ∷ ys) h = ground arith
cmp_bytes-eq (x ∷ xs) [] h = ground arith
cmp_bytes-eq (x ∷ xs) (y ∷ ys) h = ground (arith, cmp_bytes-eq xs ys)

pub cmp_bytes_refl : (a : List ℕ) → cmp_bytes a a ≡ Ordering.eq
cmp_bytes_refl [] = refl
cmp_bytes_refl (x ∷ xs) = ground (arith, cmp_bytes_refl xs)

pub cmp_bytes-gt : (a b : List ℕ) → cmp_bytes a b ≡ Ordering.gt → cmp_bytes b a ≡ Ordering.lt
cmp_bytes-gt [] [] h = ground arith
cmp_bytes-gt [] (y ∷ ys) h = ground arith
cmp_bytes-gt (x ∷ xs) [] h = refl
cmp_bytes-gt (x ∷ xs) (y ∷ ys) h = ground (arith, cmp_bytes-gt xs ys)

pub cmp_bytes-lt : (a b : List ℕ) → cmp_bytes a b ≡ Ordering.lt → cmp_bytes b a ≡ Ordering.gt
cmp_bytes-lt [] [] h = ground arith
cmp_bytes-lt [] (y ∷ ys) h = refl
cmp_bytes-lt (x ∷ xs) [] h = ground arith
cmp_bytes-lt (x ∷ xs) (y ∷ ys) h = ground (arith, cmp_bytes-lt xs ys)

pub cmp_bytes_trans :
    (a b c : List ℕ)
    → cmp_bytes a b ≡ Ordering.lt
    → cmp_bytes b c ≡ Ordering.lt
    → cmp_bytes a c ≡ Ordering.lt
cmp_bytes_trans [] [] c h k = ground arith
cmp_bytes_trans [] (y ∷ ys) [] h k = ground arith
cmp_bytes_trans [] (y ∷ ys) (z ∷ zs) h k = refl
cmp_bytes_trans (x ∷ xs) [] c h k = ground arith
cmp_bytes_trans (x ∷ xs) (y ∷ ys) [] h k = ground arith
cmp_bytes_trans (x ∷ xs) (y ∷ ys) (z ∷ zs) h k = ground (arith, cmp_bytes_trans xs ys zs)

instance abbrev pub bytes_ord : Ord (List ℕ)
bytes_ord = record {
  cmp = cmp_bytes;
  cmp-eq = cmp_bytes-eq;
  cmp_refl = cmp_bytes_refl;
  cmp-gt = cmp_bytes-gt;
  cmp-lt = cmp_bytes-lt;
  cmp_trans = cmp_bytes_trans;
}
