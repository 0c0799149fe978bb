-- ===== src/HostConfig/Diagnosis.antt =====
-- `HostConfigurationReport` of crates/essenty-android/src/native_config.rs: what it reports against the
-- word that the host declares.
use essenty.Common.{
  ℕ, Bool, true, false, ◌&&◌, ◌||◌, not, ◌≡◌, refl, sym, ap, ◌∙◌, ◌↔◌, List, [], ◌∷◌, none, some,
  if◌then◌else◌, arith,
}
use essenty.Common.Bits.{and, on, on-and, word_ext, and-lt}
use essenty.Common.Text.{Chars}
use essenty.HostConfig.Category
use essenty.HostConfig.Category.{NativeConfigCategory}
use essenty.HostConfig.Places.{place, place-lt, same, same_refl}
use essenty.HostConfig.Set
use essenty.HostConfig.Set.{NativeConfigSet, from_categories, contains}
use essenty.HostConfig.Report.{
  from_bits, missing, none_of, meets_baseline, is_fully_declared, retention_warning,
}
use essenty.HostConfig.Members.{
  elem, elem-filter, any_at, any_at-place, on-from_categories, contains-on, contains-at,
  from_categories-lt,
}

-- No bit of the mask of the categories is lost.
abbrev pub Declares : ℕ → List NativeConfigCategory → Type 0
Declares bits cs = and bits (from_categories cs).bits ≡ (from_categories cs).bits

on-of_none :
    (s : NativeConfigSet) (k : ℕ) (cs : List NativeConfigCategory)
    → none_of (missing s cs) ≡ true
    → any_at k cs ≡ true
    → on k s.bits ≡ true
unfolding any_at
on-of_none s k [] h a = cc
on-of_none s k (c ∷ cs) h a = ground (arith, contains-at s k c, on-of_none s k cs)

masked : (a b : Bool) → (b ≡ true → a ≡ true) → (a && b) ≡ b
masked a b h = ground arith

unmasked : (a b : Bool) → (a && b) ≡ b → b ≡ true → a ≡ true
unmasked a b h q = ground arith

Declares-of_none :
    (bits : ℕ) (cs : List NativeConfigCategory)
    → none_of (missing (Set.from_bits bits) cs) ≡ true
    → Declares bits cs
Declares-of_none bits cs h =
    let mask = (from_categories cs).bits in
    word_ext (and bits mask) mask (and-lt bits mask) (from_categories-lt cs) (λ k l.
      on-and k bits mask l
      ∙ rw (on-from_categories k cs l)
          (masked (on k bits) (any_at k cs) (on-of_none (Set.from_bits bits) k cs h)))

contains-of_Declares :
    (bits : ℕ) (cs : List NativeConfigCategory) (c : NativeConfigCategory)
    → Declares bits cs
    → elem c cs ≡ true
    → contains (Set.from_bits bits) c ≡ true
contains-of_Declares bits cs c d e =
    let k = place c in
    let mask = (from_categories cs).bits in
    contains-on (Set.from_bits bits) c
    ∙ unmasked (on k bits) (on k mask) (sym (on-and k bits mask (place-lt c)) ∙ ap (on k) d)
        (on-from_categories k cs (place-lt c) ∙ (any_at-place c cs ∙ e))

or_right : (a b : Bool) → b ≡ true → (a || b) ≡ true
or_right a b h = ground arith

none_of_contained :
    (s : NativeConfigSet) (cs : List NativeConfigCategory)
    → ((c : NativeConfigCategory) → elem c cs ≡ true → contains s c ≡ true)
    → none_of (missing s cs) ≡ true
none_of_contained s [] h = refl
none_of_contained s (c ∷ cs) h =
    rw (h c (ap (λ b. b || elem c cs) (same_refl c)))
      (none_of_contained s cs (λ d e. h d (or_right (same d c) (elem d cs) e)))

-- The test of the report and the mask of the categories.
none_of-Declares :
    (bits : ℕ) (cs : List NativeConfigCategory)
    → (none_of (missing (Set.from_bits bits) cs) ≡ true) ↔ Declares bits cs
none_of-Declares bits cs = (
  Declares-of_none bits cs,
  λ d. none_of_contained (Set.from_bits bits) cs (λ c e. contains-of_Declares bits cs c d e),
)

-- A report says that a category is missing exactly if it is of the baseline, or of the extension, and
-- the declared word does not contain it.
pub missing-from_bits :
    (bits : ℕ) (c : NativeConfigCategory)
    → let r = from_bits bits in
      (elem c r.missing_baseline ≡ (not (contains r.declared c) && elem c Category.baseline))
      × (elem c r.missing_extended ≡ (not (contains r.declared c) && elem c Category.extended))
unfolding from_bits
missing-from_bits bits c =
    let s = Set.from_bits bits in
    (
      elem-filter (λ item. not (contains s item)) c Category.baseline,
      elem-filter (λ item. not (contains s item)) c Category.extended,
    )

both_true : (a b : Bool) → (a && b) ≡ true → (a ≡ true) × (b ≡ true)
both_true a b h = (ground arith, ground arith)

silent : (b : Bool) (text : Chars) → (if b then none else some text) ≡ none → b ≡ true
silent true text h = refl
silent false text h = cc

-- A host meets the baseline exactly if its word has every bit of the mask of the baseline, it is fully
-- declared exactly if it has also every bit of the mask of the extension, and no warning is given exactly
-- if the baseline is met.
pub meets-Declares :
    (bits : ℕ)
    → let r = from_bits bits in
      ((meets_baseline r ≡ true) ↔ Declares bits Category.baseline)
      × ((is_fully_declared r ≡ true)
          ↔ (Declares bits Category.baseline × Declares bits Category.extended))
      × ((retention_warning r ≡ none) ↔ Declares bits Category.baseline)
unfolding from_bits meets_baseline is_fully_declared retention_warning
meets-Declares bits =
    let b = none_of-Declares bits Category.baseline in
    let e = none_of-Declares bits Category.extended in
    let base = missing (Set.from_bits bits) Category.baseline in
    let more = missing (Set.from_bits bits) Category.extended in
    (
      b,
      (
        λ h. let (x, y) = both_true (none_of base) (none_of more) h in (b.0 x, e.0 y),
        λ h. rw (b.1 h.0, e.1 h.1) refl,
      ),
      (λ h. b.0 (silent (none_of base) _ h), λ h. rw (b.1 h) refl),
    )
