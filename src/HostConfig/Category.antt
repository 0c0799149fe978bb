-- ===== src/HostConfig/Category.antt =====
-- crates/essenty-android/src/native_config.rs: `NativeConfigCategory`.
use essenty.Common.{ℕ, List, [], ◌∷◌}
use essenty.Common.Text.{Chars, codes}

pub data NativeConfigCategory : Type 0 where
  orientation screen_size smallest_screen_size screen_layout ui_mode : NativeConfigCategory
  density font_scale locale layout_direction : NativeConfigCategory
  keyboard keyboard_hidden navigation touchscreen mcc mnc : NativeConfigCategory
  color_mode font_weight_adjustment grammatical_gender : NativeConfigCategory

abbrev pub all : List NativeConfigCategory
all =
    orientation ∷ screen_size ∷ smallest_screen_size ∷ screen_layout ∷ ui_mode ∷ density
    ∷ font_scale ∷ locale ∷ layout_direction ∷ keyboard ∷ keyboard_hidden ∷ navigation ∷ touchscreen
    ∷ mcc ∷ mnc ∷ color_mode ∷ font_weight_adjustment ∷ grammatical_gender ∷ []

abbrev pub baseline : List NativeConfigCategory
baseline =
    orientation ∷ screen_size ∷ smallest_screen_size ∷ screen_layout ∷ ui_mode ∷ density
    ∷ font_scale ∷ locale ∷ layout_direction ∷ []

abbrev pub extended : List NativeConfigCategory
extended =
    keyboard ∷ keyboard_hidden ∷ navigation ∷ touchscreen ∷ mcc ∷ mnc ∷ color_mode
    ∷ font_weight_adjustment ∷ grammatical_gender ∷ []

unfoldable pub manifest_value : NativeConfigCategory → Chars
manifest_value orientation = codes "orientation"
manifest_value screen_size = codes "screenSize"
manifest_value smallest_screen_size = codes "smallestScreenSize"
manifest_value screen_layout = codes "screenLayout"
manifest_value ui_mode = codes "uiMode"
manifest_value density = codes "density"
manifest_value font_scale = codes "fontScale"
manifest_value locale = codes "locale"
manifest_value layout_direction = codes "layoutDirection"
manifest_value keyboard = codes "keyboard"
manifest_value keyboard_hidden = codes "keyboardHidden"
manifest_value navigation = codes "navigation"
manifest_value touchscreen = codes "touchscreen"
manifest_value mcc = codes "mcc"
manifest_value mnc = codes "mnc"
manifest_value color_mode = codes "colorMode"
manifest_value font_weight_adjustment = codes "fontWeightAdjustment"
manifest_value grammatical_gender = codes "grammaticalGender"

unfoldable pub bit : NativeConfigCategory → ℕ
bit mcc = 0x0001
bit mnc = 0x0002
bit locale = 0x0004
bit touchscreen = 0x0008
bit keyboard = 0x0010
bit keyboard_hidden = 0x0020
bit navigation = 0x0040
bit orientation = 0x0080
bit screen_layout = 0x0100
bit ui_mode = 0x0200
bit screen_size = 0x0400
bit smallest_screen_size = 0x0800
bit density = 0x1000
bit layout_direction = 0x2000
bit color_mode = 0x4000
bit grammatical_gender = 0x8000
bit font_weight_adjustment = 0x1000_0000
bit font_scale = 0x4000_0000

unfoldable pub since_api : NativeConfigCategory → ℕ
since_api orientation = 1
since_api font_scale = 1
since_api locale = 1
since_api keyboard = 1
since_api keyboard_hidden = 1
since_api navigation = 1
since_api touchscreen = 1
since_api mcc = 1
since_api mnc = 1
since_api screen_layout = 4
since_api ui_mode = 8
since_api screen_size = 13
since_api smallest_screen_size = 13
since_api layout_direction = 17
since_api density = 24
since_api color_mode = 26
since_api font_weight_adjustment = 31
since_api grammatical_gender = 34
