-- ===== src/Common/Pieces.antt =====
-- Splitting and joining of texts.
use Prim.Native.Nat.{ℕ}
use mathlib.Core.Path.{◌≡◌, refl, ap, ◌∙◌}
use mathlib.Core.Bool.{Bool, true, ◌&&◌, not}
use mathlib.Core.List.{List, [], ◌∷◌, ◌++◌}
use native.Mathlib.Omega.{arith}
use essenty.Common.Tests.{◌==◌, ==_refl}
use essenty.Common.Lists.{All}
use essenty.Common.Text.{Chars, split, join}

-- No character of the text is the separator.
unfoldable pub is_free : ℕ → Chars → Bool
is_free bar [] = true
is_free bar (c ∷ s) = not (c == bar) && is_free bar s

abbrev pub IsFree : ℕ → Chars → Type 0
IsFree bar s = is_free bar s ≡ true

split-free : (bar : ℕ) (s : Chars) → IsFree bar s → split bar s ≡ s ∷ []
unfolding split is_free
split-free bar [] h = refl
split-free bar (c ∷ s) h = ground (arith, split-free bar s)

split-append :
    (bar : ℕ) (s rest : Chars) → IsFree bar s → split bar (s ++ bar ∷ rest) ≡ s ∷ split bar rest
unfolding split is_free
split-append bar [] rest h = rw (==_refl bar) refl
split-append bar (c ∷ s) rest h = ground (arith, split-append bar s rest)

pub split-join :
    (bar : ℕ) (piece : Chars) (pieces : List Chars)
    → All (IsFree bar) (piece ∷ pieces)
    → split bar (join (bar ∷ []) (piece ∷ pieces)) ≡ piece ∷ pieces
unfolding join
split-join bar piece [] h = split-free bar piece h.0
split-join bar piece (next ∷ pieces) h =
    split-append bar piece (join (bar ∷ []) (next ∷ pieces)) h.0
    ∙ ap (λ l. piece ∷ l) (split-join bar next pieces h.1)
