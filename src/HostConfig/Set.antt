-- ===== src/HostConfig/Set.antt =====
-- crates/essenty-android/src/native_config.rs: `NativeConfigSet`, a set of categories as a word.
use essenty.Common.{ℕ, Bool, not, List, [], ◌∷◌, ◌==◌, if◌then◌else◌}
use essenty.Common.Bits.{and, or, complement}
use essenty.HostConfig.Category.{NativeConfigCategory, bit}
use essenty.HostConfig.Category

pub record NativeConfigSet : Type 0 where
  pub bits : ℕ

abbrev pub empty : NativeConfigSet
empty = record { bits = 0 }

-- The loop of `from_categories`, from the bits so far.
unfoldable pub add_all : List NativeConfigCategory → ℕ → ℕ
add_all [] bits = bits
add_all (c ∷ cs) bits = add_all cs (or bits (bit c))

unfoldable pub from_categories : List NativeConfigCategory → NativeConfigSet
from_categories cs = record { bits = add_all cs 0 }

unfoldable pub union : NativeConfigSet → NativeConfigSet → NativeConfigSet
union s t = record { bits = or s.bits t.bits }

abbrev pub baseline : NativeConfigSet
baseline = from_categories Category.baseline

abbrev pub extended : NativeConfigSet
extended = from_categories Category.extended

unfoldable pub all_recommended : NativeConfigSet
all_recommended = union baseline extended

abbrev pub from_bits : ℕ → NativeConfigSet
from_bits bits = record { bits = bits }

unfoldable pub contains : NativeConfigSet → NativeConfigCategory → Bool
contains s c = not (and s.bits (bit c) == 0)

unfoldable pub insert : NativeConfigSet → NativeConfigCategory → NativeConfigSet
insert s c = record s { bits = or s.bits (bit c) }

abbrev pub filter :
    (NativeConfigCategory → Bool) → List NativeConfigCategory → List NativeConfigCategory
filter test [] = []
filter test (c ∷ cs) = let kept = filter test cs in if test c then c ∷ kept else kept

unfoldable pub categories : NativeConfigSet → List NativeConfigCategory
categories s = filter (contains s) Category.all

unfoldable pub unknown_bits : NativeConfigSet → ℕ
unknown_bits s = and s.bits (complement all_recommended.bits)
