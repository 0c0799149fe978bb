-- ===== src/HostConfig/Inspect.antt =====
-- crates/essenty-android/src/native_config.rs: `inspect_host_configuration` and the warning that it may
-- lead to. What the crates jni and jni_min_helper do is a parameter.
use essenty.Common.{ℕ, Bool, Option, none, some, List, [], ◌∷◌, ◌++◌, if◌then◌else◌}
use essenty.Common.Results.{Result, ok, err}
use essenty.Common.Text.{Chars, codes}
use essenty.HostConfig.Report.{HostConfigurationReport, from_bits, retention_warning}

-- What a call leaves of the environment of the thread, and its result.
abbrev pub Call : Type 0 → Type 0 → Type 0 → Type 0
Call Env Error A = Env → Result Error A × Env

abbrev pub call_next :
    {Env Error A B : Type 0} → Result Error A × Env → (A → Call Env Error B) → Result Error B × Env
call_next (ok a, e) f = f a e
call_next (err x, e) f = (err x, e)

infixl 5 ◌>>~◌
abbrev pub ◌>>~◌ :
    {Env Error A B : Type 0} → Call Env Error A → (A → Call Env Error B) → Call Env Error B
(m >>~ f) e = call_next (m e) f

-- A result that the environment has no part in.
abbrev pub pure : {Env Error A : Type 0} → Result Error A → Call Env Error A
pure r e = (r, e)

pub record NativeConfigError : Type 0 where
  pub operation : Chars
  pub detail : Chars

-- The crates jni and jni_min_helper: what their calls return and leave of the thread's environment.
pub record Jni : Type 1 where
  pub Env : Type 0
  pub Error : Type 0
  pub Object : Type 0
  pub Value : Type 0
  pub Signature : Type 0
  pub to_string : Error → Chars
  pub exception_check : Env → Bool
  pub exception_clear : Env → Env
  -- `as_cast_raw` of the pointer to the activity.
  pub activity : Call Env Error Object
  pub from_str : Chars → Result Error Signature
  pub call_method : Object → Chars → Signature → List Value → Call Env Error Value
  pub get_field : Object → Chars → Call Env Error Value
  pub object : Object → Value
  pub int : ℕ → Value
  pub l : Value → Result Error Object
  pub i : Value → Result Error ℕ
  pub attach_current_thread : {A : Type 0} → Call Env Error A → Call Env Error A
  pub jni_with_env : {A : Type 0} → Call Env Error A → Call Env Error A

module _ (jni : Jni) where
  open jni use {
    Env, Error, Object, Value, to_string, exception_check, exception_clear, activity, from_str,
    call_method, get_field, object, int, l, i, attach_current_thread, jni_with_env,
  }

  -- `call_method` with the signature as a text, and the object that it returns.
  abbrev call_object : Object → Chars → Chars → List Value → Call Env Error Object
  call_object on name signature arguments = pure (from_str signature) >>~ λ parsed.
      (call_method on name parsed arguments >>~ λ value. pure (l value))

  -- The closure that `attach_current_thread` runs.
  unfoldable pub read_bits : Call Env Error ℕ
  read_bits = activity >>~ λ host.
      (call_object host (codes "getComponentName") (codes "()Landroid/content/ComponentName;") []
        >>~ λ component.
            (call_object host (codes "getPackageManager")
                (codes "()Landroid/content/pm/PackageManager;") []
              >>~ λ package_manager.
                  (call_object package_manager (codes "getActivityInfo")
                      (codes "(Landroid/content/ComponentName;I)Landroid/content/pm/ActivityInfo;")
                      (object component ∷ int 0 ∷ [])
                    >>~ λ info.
                        (get_field info (codes "configChanges") >>~ λ value. pure (i value)))))

  -- `map_err` with the error of the inspection.
  abbrev pub inspected : {A : Type 0} → Result Error A × Env → Result NativeConfigError A × Env
  inspected (ok a, e) = (ok a, e)
  inspected (err cause, e) =
      (err (record { operation = codes "inspect"; detail = to_string cause }), e)

  unfoldable pub cleared : Call Env Error (Unit {0})
  cleared e = (ok tt, if exception_check e then exception_clear e else e)

  unfoldable pub clear_pending_exception : Call Env NativeConfigError (Unit {0})
  clear_pending_exception e = inspected (jni_with_env cleared e)

  unfoldable pub inspect_host_configuration : Call Env NativeConfigError HostConfigurationReport
  inspect_host_configuration = (λ e. inspected (attach_current_thread read_bits e)) >>~ λ bits.
      (clear_pending_exception >>~ λ done. pure (ok (from_bits bits)))

abbrev pub warned : Option Chars → List Chars → List Chars
warned none lines = lines
warned (some warning) lines = lines ++ warning ∷ []

-- The lines at level warn of the log.
unfoldable pub log_host_configuration_warning : HostConfigurationReport → List Chars → List Chars
log_host_configuration_warning report lines = warned (retention_warning report) lines
