-- ===== src/HostConfig/Inspecting.antt =====
-- crates/essenty-android/src/native_config.rs: what an inspection of the host comes to.
use essenty.Common.{
  ℕ, false, ◌≡◌, refl, sym, ap, ◌∙◌, ◌⊎◌, ◌↔◌, inl, inr, Option, none, some, [], Bool-cases,
}
use essenty.Common.Results.{Result, ok, err}
use essenty.Common.Text.{Chars, codes}
use essenty.HostConfig.Category
use essenty.HostConfig.Report.{from_bits, retention_warning}
use essenty.HostConfig.Diagnosis.{Declares, meets-Declares}
use essenty.HostConfig.Inspect.{
  Jni, Call, read_bits, cleared, clear_pending_exception, inspect_host_configuration,
  log_host_configuration_warning, warned,
}

-- Both wrappers fail, or run the closure and return what it returned; a cleared exception is no longer
-- pending.
pub record Documented (jni : Jni) : Type 1 where
  pub attach_runs :
      {A : Type 0} (f : Call jni.Env jni.Error A) (e e' : jni.Env) (a : A)
      → jni.attach_current_thread f e ≡ (ok a, e')
      → (e0 : jni.Env) × (f e0 ≡ (ok a, e'))
  pub with_env_runs :
      {A : Type 0} (f : Call jni.Env jni.Error A) (e e' : jni.Env) (a : A)
      → jni.jni_with_env f e ≡ (ok a, e')
      → (e0 : jni.Env) × (f e0 ≡ (ok a, e'))
  pub check-clear : (e : jni.Env) → jni.exception_check (jni.exception_clear e) ≡ false

call-cases :
    {Env Error A : Type 0} (r : Result Error A × Env)
    → ((a : A) × (e : Env) × (r ≡ (ok a, e))) ⊎ ((x : Error) × (e : Env) × (r ≡ (err x, e)))
call-cases (ok a, e) = inl (a, e, refl)
call-cases (err x, e) = inr (x, e, refl)

-- The warning is logged exactly if there is one.
logged :
    (bits : ℕ)
    → (log_host_configuration_warning (from_bits bits) [] ≡ []) ↔ Declares bits Category.baseline
unfolding log_host_configuration_warning
logged bits =
    let m = (meets-Declares bits).2 in
    (λ h. m.0 (silent (retention_warning (from_bits bits)) h), λ d. ap (λ o. warned o []) (m.1 d))
  where
    silent : (o : Option Chars) → warned o [] ≡ [] → o ≡ none
    silent none h = refl
    silent (some warning) h = cc

module _ (jni : Jni) where
  -- What failed: attaching with the reads inside it, or else the call that clears.
  abbrev pub Failed : jni.Env → jni.Error → Type 0
  Failed e x =
      ((e' : jni.Env) × (jni.attach_current_thread (read_bits jni) e ≡ (err x, e')))
      ⊎ ((bits : ℕ) × (e1 : jni.Env) × (jni.attach_current_thread (read_bits jni) e ≡ (ok bits, e1))
          × (e' : jni.Env) × (jni.jni_with_env (cleared jni) e1 ≡ (err x, e')))

module _ (jni : Jni) (laws : Documented jni) where
  open jni use {Env, Error, to_string, exception_check, attach_current_thread, jni_with_env}

  cleared-check : (e e' : Env) → cleared jni e ≡ (ok tt, e') → exception_check e' ≡ false
  unfolding cleared
  cleared-check e e' h = elim (Bool-cases (exception_check e)) [
    | inl p ↦ ap exception_check (sym (ap (λ r. r.1) h)) ∙ rw p (laws.check-clear e)
    | inr p ↦ ap exception_check (sym (ap (λ r. r.1) h)) ∙ rw p p
  ]

  -- An inspection returns the report of the word that reading the activity's field gave, with no
  -- exception pending, and then logs a warning exactly if that word misses a bit of the baseline; or it
  -- returns an error of the operation `inspect` with the text of the call that failed.
  pub inspect_host_configuration-Failed :
      (e : Env)
      → ((bits : ℕ) × (e0 : Env) × (e1 : Env) × (e2 : Env) × (read_bits jni e0 ≡ (ok bits, e1))
          × (inspect_host_configuration jni e ≡ (ok (from_bits bits), e2))
          × (exception_check e2 ≡ false)
          × ((log_host_configuration_warning (from_bits bits) [] ≡ [])
              ↔ Declares bits Category.baseline))
        ⊎ ((x : Error) × (e2 : Env) × Failed jni e x
            × (inspect_host_configuration jni e
                ≡ (err (record { operation = codes "inspect"; detail = to_string x }), e2)))
  unfolding inspect_host_configuration clear_pending_exception
  inspect_host_configuration-Failed e =
      elim (call-cases (attach_current_thread (read_bits jni) e)) [
        | inr (x, e1, p) ↦ inr (x, e1, inl (e1, p), rw p refl)
        | inl (bits, e1, p) ↦ elim (call-cases (jni_with_env (cleared jni) e1)) [
          | inr (x, e2, q) ↦ inr (x, e2, inr (bits, e1, p, e2, q), rw (p, q) refl)
          | inl (done, e2, q) ↦
              let (e0, r) = laws.attach_runs (read_bits jni) e e1 bits p in
              let (e3, s) = laws.with_env_runs (cleared jni) e1 e2 done q in
              inl (bits, e0, e1, e2, r, rw (p, q) refl, cleared-check e3 e2 s, logged bits)
        ]
      ]
