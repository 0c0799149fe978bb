-- ===== src/HostConfig/Examples.antt =====
-- crates/essenty-android/src/native_config.rs on concrete words and texts, some of them from its tests.
use essenty.Common.{ℕ, ◌+◌, Bool, true, false, ◌⊎◌, ◌||◌, ◌≡◌, refl, ◌↔◌, [], ◌∷◌, none, map}
use essenty.Common.Bits.{and, or}
use essenty.Common.Text.{Chars, codes, split, trim, join, same_text}
use essenty.HostConfig.Category
use essenty.HostConfig.Category.{orientation, screen_size, since_api, density}
use essenty.HostConfig.Places.{same}
use essenty.HostConfig.Set.{
  NativeConfigSet, add_all, empty, all_recommended, insert, union, contains, categories,
  from_categories,
}
use essenty.HostConfig.Manifest.{
  manifest_value, read_tokens, read_token, find, baseline_manifest_value, parse_manifest_value,
}
use essenty.HostConfig.Report.{from_bits, meets_baseline, is_fully_declared, retention_warning}
use essenty.HostConfig.Members.{elem, set_refines}
use essenty.HostConfig.Parsing.{parse-manifest_value}
use essenty.HostConfig.Tokens.{any_text, unknown_tokens, parse-tokens}
use essenty.Common.Results.{ok, err}
use essenty.HostConfig.Inspect.{
  Jni, read_bits, cleared, clear_pending_exception, inspect_host_configuration,
  log_host_configuration_warning,
}
use essenty.HostConfig.Inspecting.{Documented, Failed, inspect_host_configuration-Failed}
use essenty.HostConfig.Diagnosis.{Declares, meets-Declares}

-- `orientation`, `screenSize` and a bit of no category.
abbrev odd : NativeConfigSet
odd = record { bits = 0x2000_0480 }

baseline_text :
    baseline_manifest_value
    ≡ codes
        "orientation|screenSize|smallestScreenSize|screenLayout|uiMode|density|fontScale|locale|layoutDirection"
unfolding manifest_value from_categories add_all categories contains Category.bit and or
    Category.manifest_value join
baseline_text = refl

abbrev future : Chars
future = codes "orientation| someFutureFlag |screenSize|"

collected : (parse_manifest_value future).unknown ≡ codes "someFutureFlag" ∷ []
unfolding parse_manifest_value read_tokens read_token find split trim same_text
    Category.manifest_value
collected = refl

nothing_declared : meets_baseline (from_bits 0) ≡ false
unfolding from_bits meets_baseline contains and Category.bit
nothing_declared = refl

density_api : since_api density ≡ 24
unfolding since_api
density_api = refl

parse-manifest_value_example :
    parse_manifest_value (manifest_value odd)
    ≡ record { set = record { bits = and 0x2000_0480 all_recommended.bits }; unknown = [] }
parse-manifest_value_example = parse-manifest_value odd

parse-tokens_example :
    (contains (parse_manifest_value future).set screen_size
      ≡ any_text (Category.manifest_value screen_size) (map trim (split 124 future)))
    × ((parse_manifest_value future).unknown ≡ unknown_tokens (map trim (split 124 future)))
parse-tokens_example = parse-tokens future screen_size

set_refines_example :
    (contains empty orientation ≡ false)
    × (contains (insert odd density) orientation
        ≡ (same orientation density || contains odd orientation))
    × (contains (union odd empty) orientation
        ≡ (contains odd orientation || contains empty orientation))
    × (contains (from_categories Category.baseline) orientation
        ≡ elem orientation Category.baseline)
    × (elem orientation (categories odd) ≡ contains odd orientation)
set_refines_example = set_refines odd empty Category.baseline orientation density

meets-Declares_example :
    ((meets_baseline (from_bits 0x480) ≡ true) ↔ Declares 0x480 Category.baseline)
    × ((is_fully_declared (from_bits 0x480) ≡ true)
        ↔ (Declares 0x480 Category.baseline × Declares 0x480 Category.extended))
    × ((retention_warning (from_bits 0x480) ≡ none) ↔ Declares 0x480 Category.baseline)
meets-Declares_example = meets-Declares 0x480

-- An activity that declares `orientation` and `screenSize`, on a thread with an exception that may be
-- pending.
abbrev phone : Jni
phone = record {
  Env = Bool;
  Error = Chars;
  Object = ℕ;
  Value = ℕ;
  Signature = Chars;
  to_string = λ x. x;
  exception_check = λ e. e;
  exception_clear = λ e. false;
  activity = λ e. (ok 1, e);
  from_str = λ text. ok text;
  call_method = λ on name signature arguments e. (ok (on + 1), e);
  get_field = λ on name e. (ok 0x480, e);
  object = λ n. n;
  int = λ n. n;
  l = λ n. ok n;
  i = λ n. ok n;
  attach_current_thread = λ f e. f e;
  jni_with_env = λ f e. f e;
}

inspected_phone : inspect_host_configuration phone true ≡ (ok (from_bits 0x480), false)
unfolding inspect_host_configuration read_bits clear_pending_exception cleared
inspected_phone = refl

phone-Documented : Documented phone
phone-Documented = record {
  attach_runs = λ f e e' a h. (e, h);
  with_env_runs = λ f e e' a h. (e, h);
  check-clear = λ e. refl;
}

inspect_host_configuration-Failed_example :
    ((bits : ℕ) × (e0 : Bool) × (e1 : Bool) × (e2 : Bool) × (read_bits phone e0 ≡ (ok bits, e1))
      × (inspect_host_configuration phone true ≡ (ok (from_bits bits), e2))
      × (e2 ≡ false)
      × ((log_host_configuration_warning (from_bits bits) [] ≡ [])
          ↔ Declares bits Category.baseline))
    ⊎ ((x : Chars) × (e2 : Bool) × Failed phone true x
        × (inspect_host_configuration phone true
            ≡ (err (record { operation = codes "inspect"; detail = x }), e2)))
inspect_host_configuration-Failed_example =
    inspect_host_configuration-Failed phone phone-Documented true
