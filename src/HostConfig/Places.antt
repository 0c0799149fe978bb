-- ===== src/HostConfig/Places.antt =====
-- The categories of crates/essenty-android/src/native_config.rs have a bit each, at places of their own.
use essenty.Common.{
  ℕ, ◌<◌, Bool, true, false, ◌≡◌, refl, sym, ap, ◌∙◌, List, [], ◌∷◌, ◌==◌, if◌then◌else◌, arith,
  ==_iff, ==_refl, Bool-cases, inl, inr,
}
use essenty.Common.Bits.{power}
use essenty.HostConfig.Category
use essenty.HostConfig.Category.{
  NativeConfigCategory, bit, orientation, screen_size, smallest_screen_size, screen_layout, ui_mode,
  density, font_scale, locale, layout_direction, keyboard, keyboard_hidden, navigation, touchscreen,
  mcc, mnc, color_mode, font_weight_adjustment, grammatical_gender,
}

-- The place of the bit of a category.
abbrev pub place : NativeConfigCategory → ℕ
place mcc = 0
place mnc = 1
place locale = 2
place touchscreen = 3
place keyboard = 4
place keyboard_hidden = 5
place navigation = 6
place orientation = 7
place screen_layout = 8
place ui_mode = 9
place screen_size = 10
place smallest_screen_size = 11
place density = 12
place layout_direction = 13
place color_mode = 14
place grammatical_gender = 15
place font_weight_adjustment = 28
place font_scale = 30

pub bit-power : (c : NativeConfigCategory) → bit c ≡ power (place c)
unfolding bit
bit-power orientation = refl
bit-power _ = refl

pub place-lt : (c : NativeConfigCategory) → place c < 32
place-lt orientation = omega arith
place-lt _ = omega arith

pub NativeConfigCategory-discrete : Discrete NativeConfigCategory
NativeConfigCategory-discrete = hlevel

unfoldable pub same : NativeConfigCategory → NativeConfigCategory → Bool
same c d = elim (NativeConfigCategory-discrete c d) [ yes _ ↦ true | no _ ↦ false ]

-- The category at a place, from a list of them.
at : ℕ → List NativeConfigCategory → NativeConfigCategory
at k [] = orientation
at k (c ∷ cs) = if place c == k then c else at k cs

at-place : (c : NativeConfigCategory) → at (place c) Category.all ≡ c
unfolding at
at-place orientation = refl
at-place _ = refl

place-inj : (c d : NativeConfigCategory) → place c ≡ place d → c ≡ d
place-inj c d h = sym (at-place c) ∙ (ap (λ k. at k Category.all) h ∙ at-place d)

pub same-place : (c d : NativeConfigCategory) → same c d ≡ (place c == place d)
unfolding same
same-place c d =
    elim (NativeConfigCategory-discrete c d)
      as (λ x. (elim x [ yes _ ↦ true | no _ ↦ false ]) ≡ (place c == place d)) [
        | yes e ↦ ground (arith, ap place e)
        | no e ↦ elim (Bool-cases (place c == place d)) [
          | inl q ↦ absurd (e (place-inj c d ((==_iff (place c) (place d)).0 q)))
          | inr q ↦ sym q
        ]
      ]

pub same-eq : (c d : NativeConfigCategory) → same c d ≡ true → c ≡ d
same-eq c d h = place-inj c d ((==_iff (place c) (place d)).0 (sym (same-place c d) ∙ h))

pub same_refl : (c : NativeConfigCategory) → same c c ≡ true
same_refl c = same-place c c ∙ ==_refl (place c)
