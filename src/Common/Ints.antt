-- ===== src/Common/Ints.antt =====
-- Signed integers by their order, which is all that the code uses of `i32` priorities.
use Prim.Native.Nat.{ℕ, compare, Ordering}

-- `negsuc n` is -(n + 1).
pub data ℤ : Type 0 where
  pos : ℕ → ℤ
  negsuc : ℕ → ℤ

abbrev pub cmp_ℤ : ℤ → ℤ → Ordering
cmp_ℤ (pos a) (pos b) = compare a b
cmp_ℤ (pos a) (negsuc b) = Ordering.gt
cmp_ℤ (negsuc a) (pos b) = Ordering.lt
cmp_ℤ (negsuc a) (negsuc b) = compare b a
