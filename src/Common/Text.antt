-- ===== src/Common/Text.antt =====
-- Texts as lists of characters: literals, equality, and what the standard library does to split at
-- a character, to trim white space and to join.
use Prim.Native.Nat.{ℕ}
use Prim.Native.Char.{code}
use Prim.Native.String.{String}
use mathlib.Core.Path.{◌≡◌, refl}
use mathlib.Core.Bool.{Bool, true, false, ◌&&◌, ◌||◌}
use mathlib.Core.List.{List, [], ◌∷◌, ◌++◌}
use native.Mathlib.Omega.{arith}
use essenty.Common.Tests.{◌==◌, leb, if◌then◌else◌}

abbrev pub Chars : Type 0
Chars = List ℕ

-- `String` has its own `[]` and `∷`.
abbrev pub codes : String → Chars
codes String.[] = []
codes (String.◌∷◌ c s) = code c ∷ codes s

unfoldable pub same_text : Chars → Chars → Bool
same_text [] [] = true
same_text (x ∷ xs) (y ∷ ys) = x == y && same_text xs ys
same_text _ _ = false

pub same_text-eq : (s t : Chars) → same_text s t ≡ true → s ≡ t
unfolding same_text
same_text-eq [] [] h = refl
same_text-eq [] (y ∷ ys) h = cc
same_text-eq (x ∷ xs) [] h = cc
same_text-eq (x ∷ xs) (y ∷ ys) h = ground (arith, same_text-eq xs ys)

pub same_text_refl : (s : Chars) → same_text s s ≡ true
unfolding same_text
same_text_refl [] = refl
same_text_refl (x ∷ xs) = ground (arith, same_text_refl xs)

abbrev pub is_empty : Chars → Bool
is_empty [] = true
is_empty (c ∷ s) = false

-- `char::is_whitespace`: the property White_Space of Unicode.
unfoldable pub is_whitespace : ℕ → Bool
is_whitespace c =
    (leb 9 c && leb c 13)
    || (c == 32)
    || (c == 133)
    || (c == 160)
    || (c == 5760)
    || (leb 8192 c && leb c 8202)
    || (c == 8232)
    || (c == 8233)
    || (c == 8239)
    || (c == 8287)
    || (c == 12288)

abbrev pub trim_start : Chars → Chars
trim_start [] = []
trim_start (c ∷ s) = let rest = trim_start s in if is_whitespace c then rest else c ∷ s

-- White space at the end: a character stays if it or one behind it is not white space.
abbrev pub keep_end : ℕ → Chars → Chars
keep_end c [] = if is_whitespace c then [] else c ∷ []
keep_end c (d ∷ s) = c ∷ d ∷ s

abbrev pub trim_end : Chars → Chars
trim_end [] = []
trim_end (c ∷ s) = keep_end c (trim_end s)

unfoldable pub trim : Chars → Chars
unfolding is_whitespace
trim s = trim_end (trim_start s)

-- The pieces between the separators; there is always one.
abbrev pub extend : ℕ → List Chars → List Chars
extend c [] = (c ∷ []) ∷ []
extend c (piece ∷ pieces) = (c ∷ piece) ∷ pieces

unfoldable pub split : ℕ → Chars → List Chars
split bar [] = [] ∷ []
split bar (c ∷ s) = if c == bar then [] ∷ split bar s else extend c (split bar s)

unfoldable pub join : Chars → List Chars → Chars
join bar [] = []
join bar (piece ∷ []) = piece
join bar (piece ∷ next ∷ pieces) = piece ++ (bar ++ join bar (next ∷ pieces))
