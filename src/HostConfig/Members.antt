-- ===== src/HostConfig/Members.antt =====
-- What `NativeConfigSet` of crates/essenty-android/src/native_config.rs represents: the word of a set
-- against the set of its categories.
use essenty.Common.{
  ℕ, ◌<◌, Bool, true, false, ◌&&◌, ◌||◌, not, ◌≡◌, refl, sym, ap, ◌∙◌, List, [], ◌∷◌, ◌++◌, ◌==◌,
  arith, ==_iff,
}
use essenty.Common.Bits.{
  u32_mod, and, or, complement, on, on-zero, on-power, on-and, on-or, on-complement, mask-on,
  word_ext, and-lt, or-lt,
}
use essenty.HostConfig.Category
use essenty.HostConfig.Category.{
  NativeConfigCategory, bit, orientation, screen_size, smallest_screen_size, screen_layout, ui_mode,
  density, font_scale, locale, layout_direction, keyboard, keyboard_hidden, navigation, touchscreen,
  mcc, mnc, color_mode, font_weight_adjustment, grammatical_gender,
}
use essenty.HostConfig.Places.{place, bit-power, place-lt, same, same-place, same-eq}
use essenty.HostConfig.Set.{
  NativeConfigSet, empty, add_all, from_categories, union, all_recommended, contains, insert,
  filter, categories, unknown_bits,
}

abbrev pub elem : NativeConfigCategory → List NativeConfigCategory → Bool
elem c [] = false
elem c (d ∷ ds) = same c d || elem c ds

unfoldable pub any_at : ℕ → List NativeConfigCategory → Bool
any_at k [] = false
any_at k (c ∷ cs) = k == place c || any_at k cs

pub any_at-place :
    (c : NativeConfigCategory) (cs : List NativeConfigCategory) → any_at (place c) cs ≡ elem c cs
unfolding any_at
any_at-place c [] = refl
any_at-place c (d ∷ ds) = rw (same-place c d, any_at-place c ds) refl

any_at-append :
    (k : ℕ) (cs ds : List NativeConfigCategory) → any_at k (cs ++ ds) ≡ (any_at k cs || any_at k ds)
unfolding any_at
any_at-append k [] ds = refl
any_at-append k (c ∷ cs) ds = ground (arith, any_at-append k cs ds)

on-bit : (k : ℕ) (c : NativeConfigCategory) → on k (bit c) ≡ (k == place c)
on-bit k c = ap (on k) (bit-power c) ∙ on-power k (place c)

on-add_all :
    (k : ℕ) (cs : List NativeConfigCategory) (bits : ℕ)
    → k < 32
    → on k (add_all cs bits) ≡ (on k bits || any_at k cs)
unfolding add_all any_at
on-add_all k [] bits l = ground arith
on-add_all k (c ∷ cs) bits l =
    ground (arith, on-add_all k cs (or bits (bit c)) l, on-or k bits (bit c) l, on-bit k c)

pub on-from_categories :
    (k : ℕ) (cs : List NativeConfigCategory) → k < 32 → on k (from_categories cs).bits ≡ any_at k cs
unfolding from_categories
on-from_categories k cs l = ground (arith, on-add_all k cs 0 l, on-zero k)

pub contains-on :
    (s : NativeConfigSet) (c : NativeConfigCategory) → contains s c ≡ on (place c) s.bits
unfolding contains
contains-on s c =
    ap (λ m. not (and s.bits m == 0)) (bit-power c) ∙ mask-on (place c) s.bits (place-lt c)

pub contains-insert :
    (s : NativeConfigSet) (c d : NativeConfigCategory)
    → contains (insert s d) c ≡ (same c d || contains s c)
unfolding insert
contains-insert s c d = ground (
  arith,
  contains-on s c,
  contains-on (record { bits = or s.bits (bit d) }) c,
  on-or (place c) s.bits (bit d) (place-lt c),
  on-bit (place c) d,
  same-place c d,
)

contains-union :
    (s t : NativeConfigSet) (c : NativeConfigCategory)
    → contains (union s t) c ≡ (contains s c || contains t c)
unfolding union
contains-union s t c =
    contains-on (record { bits = or s.bits t.bits }) c
    ∙ rw (contains-on s c, contains-on t c) (on-or (place c) s.bits t.bits (place-lt c))

pub contains-from_categories :
    (cs : List NativeConfigCategory) (c : NativeConfigCategory)
    → contains (from_categories cs) c ≡ elem c cs
contains-from_categories cs c =
    contains-on (from_categories cs) c
    ∙ (on-from_categories (place c) cs (place-lt c) ∙ any_at-place c cs)

pub contains-empty : (c : NativeConfigCategory) → contains empty c ≡ false
contains-empty c = contains-on empty c ∙ on-zero (place c)

test-same :
    (test : NativeConfigCategory → Bool) (c d : NativeConfigCategory)
    → same c d ≡ true
    → test c ≡ test d
test-same test c d h = ap test (same-eq c d h)

-- `filter` keeps a category exactly if the test lets it through.
pub elem-filter :
    (test : NativeConfigCategory → Bool) (c : NativeConfigCategory) (cs : List NativeConfigCategory)
    → elem c (filter test cs) ≡ (test c && elem c cs)
elem-filter test c [] = ground arith
elem-filter test c (d ∷ ds) = ground (arith, test-same test c d, elem-filter test c ds)

any_at-all : (c : NativeConfigCategory) → any_at (place c) Category.all ≡ true
unfolding any_at
any_at-all orientation = refl
any_at-all _ = refl

elem-all : (c : NativeConfigCategory) → elem c Category.all ≡ true
elem-all c = sym (any_at-place c Category.all) ∙ any_at-all c

pub elem-categories :
    (s : NativeConfigSet) (c : NativeConfigCategory) → elem c (categories s) ≡ contains s c
unfolding categories
elem-categories s c = ground (arith, elem-filter (contains s) c Category.all, elem-all c)

pub contains-at :
    (s : NativeConfigSet) (k : ℕ) (c : NativeConfigCategory)
    → (k == place c) ≡ true
    → contains s c ≡ on k s.bits
contains-at s k c h = contains-on s c ∙ ap (λ j. on j s.bits) (sym ((==_iff k (place c)).0 h))

any_at-filter :
    (s : NativeConfigSet) (k : ℕ) (cs : List NativeConfigCategory)
    → any_at k (filter (contains s) cs) ≡ (on k s.bits && any_at k cs)
unfolding any_at
any_at-filter s k [] = ground arith
any_at-filter s k (c ∷ cs) = ground (arith, contains-at s k c, any_at-filter s k cs)

on-categories :
    (s : NativeConfigSet) (k : ℕ)
    → k < 32
    → on k (from_categories (categories s)).bits ≡ (on k s.bits && any_at k Category.all)
unfolding categories
on-categories s k l =
    on-from_categories k (filter (contains s) Category.all) l ∙ any_at-filter s k Category.all

on-all_recommended : (k : ℕ) → k < 32 → on k all_recommended.bits ≡ any_at k Category.all
unfolding all_recommended union
on-all_recommended k l =
    on-or k (from_categories Category.baseline).bits (from_categories Category.extended).bits l
    ∙ rw (on-from_categories k Category.baseline l, on-from_categories k Category.extended l)
        (sym (any_at-append k Category.baseline Category.extended))

all_recommended-lt : all_recommended.bits < u32_mod
unfolding all_recommended union
all_recommended-lt =
    or-lt (from_categories Category.baseline).bits (from_categories Category.extended).bits

add_all-lt :
    (cs : List NativeConfigCategory) (bits : ℕ) → bits < u32_mod → add_all cs bits < u32_mod
unfolding add_all
add_all-lt [] bits h = h
add_all-lt (c ∷ cs) bits h = add_all-lt cs (or bits (bit c)) (or-lt bits (bit c))

pub from_categories-lt : (cs : List NativeConfigCategory) → (from_categories cs).bits < u32_mod
unfolding from_categories
from_categories-lt cs = add_all-lt cs 0 (omega arith)

-- What the set keeps of a word when it is written out by its categories.
pub from-categories :
    (s : NativeConfigSet) → (from_categories (categories s)).bits ≡ and s.bits all_recommended.bits
from-categories s =
    word_ext (from_categories (categories s)).bits (and s.bits all_recommended.bits)
      (from_categories-lt (categories s)) (and-lt s.bits all_recommended.bits)
      (λ k l.
        on-categories s k l
        ∙ sym (
            on-and k s.bits all_recommended.bits l
            ∙ ap (λ b. on k s.bits && b) (on-all_recommended k l)))

split_or : (a b : Bool) → ((a && b) || (a && not b)) ≡ a
split_or a b = ground arith

split_and : (a b : Bool) → ((a && b) && (a && not b)) ≡ false
split_and a b = ground arith

on-unknown :
    (s : NativeConfigSet) (k : ℕ)
    → k < 32
    → on k (unknown_bits s) ≡ (on k s.bits && not (any_at k Category.all))
unfolding unknown_bits
on-unknown s k l =
    on-and k s.bits (complement all_recommended.bits) l
    ∙ ap (λ b. on k s.bits && b)
        (on-complement k all_recommended.bits all_recommended-lt l
          ∙ ap not (on-all_recommended k l))

-- The categories of a set and its unknown bits make up its word, and share no bit of it.
pub known-unknown :
    (s : NativeConfigSet)
    → s.bits < u32_mod
    → (or (from_categories (categories s)).bits (unknown_bits s) ≡ s.bits)
      × (and (from_categories (categories s)).bits (unknown_bits s) ≡ 0)
known-unknown s h =
    let known = (from_categories (categories s)).bits in
    (
      word_ext (or known (unknown_bits s)) s.bits (or-lt known (unknown_bits s)) h (λ k l.
          on-or k known (unknown_bits s) l
          ∙ rw (on-categories s k l, on-unknown s k l)
              (split_or (on k s.bits) (any_at k Category.all))),
      word_ext (and known (unknown_bits s)) 0 (and-lt known (unknown_bits s)) (omega arith) (λ k l.
          on-and k known (unknown_bits s) l
          ∙ rw (on-categories s k l, on-unknown s k l)
              (split_and (on k s.bits) (any_at k Category.all) ∙ sym (on-zero k))),
    )

-- The word of a set represents the set of its categories: the empty set has none, `insert` adds one
-- category, `union` and `from_categories` have the categories of their arguments and no other, and
-- `categories` lists exactly those that `contains` finds.
pub set_refines :
    (s t : NativeConfigSet) (cs : List NativeConfigCategory) (c d : NativeConfigCategory)
    → (contains empty c ≡ false)
      × (contains (insert s d) c ≡ (same c d || contains s c))
      × (contains (union s t) c ≡ (contains s c || contains t c))
      × (contains (from_categories cs) c ≡ elem c cs)
      × (elem c (categories s) ≡ contains s c)
set_refines s t cs c d = (
  contains-empty c,
  contains-insert s c d,
  contains-union s t c,
  contains-from_categories cs c,
  elem-categories s c,
)
