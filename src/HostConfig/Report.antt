-- ===== src/HostConfig/Report.antt =====
-- crates/essenty-android/src/native_config.rs: `HostConfigurationReport`. An `i32` is its word of 32
-- bits. `lower_hex` is the format `{:x}` of the standard library.
use essenty.Common.{
  ℕ, Bool, true, false, ◌&&◌, not, Option, none, some, List, [], ◌∷◌, ◌++◌, map, ◌==◌, length,
  if◌then◌else◌,
}
use essenty.Common.Text.{Chars, codes, is_empty, join}
use essenty.HostConfig.Category
use essenty.HostConfig.Category.{NativeConfigCategory}
use essenty.HostConfig.Set
use essenty.HostConfig.Set.{NativeConfigSet, contains, filter}
use essenty.HostConfig.Manifest.{manifest_value}

pub record HostConfigurationReport : Type 0 where
  pub declared_bits : ℕ
  pub declared : NativeConfigSet
  pub unknown_bits : ℕ
  pub missing_baseline : List NativeConfigCategory
  pub missing_extended : List NativeConfigCategory

abbrev pub missing : NativeConfigSet → List NativeConfigCategory → List NativeConfigCategory
missing declared = filter (λ item. not (contains declared item))

unfoldable pub from_bits : ℕ → HostConfigurationReport
from_bits bits =
    let declared = Set.from_bits bits in
    record {
      declared_bits = bits;
      declared = declared;
      unknown_bits = Set.unknown_bits declared;
      missing_baseline = missing declared Category.baseline;
      missing_extended = missing declared Category.extended;
    }

abbrev pub none_of : List NativeConfigCategory → Bool
none_of [] = true
none_of (c ∷ cs) = false

unfoldable pub meets_baseline : HostConfigurationReport → Bool
meets_baseline r = none_of r.missing_baseline

unfoldable pub is_fully_declared : HostConfigurationReport → Bool
is_fully_declared r = none_of r.missing_baseline && none_of r.missing_extended

abbrev pub joined : Chars → List NativeConfigCategory → Chars
joined bar cs = join bar (map Category.manifest_value cs)

unfoldable pub retention_warning : HostConfigurationReport → Option Chars
retention_warning r =
    if none_of r.missing_baseline
    then none
    else some (
        codes "Essenty Android: Activity recreation may reset InstanceKeeper because "
        ++ (joined (codes ", ") r.missing_baseline
            ++ (codes " "
                ++ ((if length r.missing_baseline == 1 then codes "is" else codes "are")
                    ++ codes " not handled by this Activity."))))

abbrev pub or_none : Chars → Chars
or_none s = if is_empty s then codes "(none)" else s

abbrev pub line : Chars → Chars → Chars
line label value = label ++ (value ++ 10 ∷ [])

module _ (lower_hex : ℕ → Chars) where
  unfoldable pub fmt : HostConfigurationReport → Chars
  fmt r =
      line (codes "declared: ") (or_none (manifest_value r.declared))
      ++ (line (codes "missing baseline: ") (or_none (joined (codes "|") r.missing_baseline))
          ++ (line (codes "missing extended: ") (or_none (joined (codes "|") r.missing_extended))
              ++ (codes "unknown bits: 0x" ++ lower_hex r.unknown_bits)))
