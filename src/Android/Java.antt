-- ===== src/Android/Java.antt =====
-- What crates/essenty-android/src/back_handler/platform.rs relies on of Java: the calls that its jobs
-- make on the main thread, each of which may fail, and which proxies Java calls on a back event.
use essenty.Common.{ℕ, Bool, true, false, ◌&&◌, ◌||◌, not, Option, some, if◌then◌else◌, ◌==◌, ◌≡◌}
use essenty.Android.BackHandler.{AndroidBackStrategy}

pub record JavaCalls : Type 1 where
  pub Java : Type 0
  -- The proxy was built, and Java calls it on a back event.
  pub known : ℕ → Java → Bool
  pub listens : ℕ → Java → Bool
  -- The thread can be attached and knows the activity.
  pub attached : Java → Bool
  -- `getOnBackInvokedDispatcher` with the global reference, and `DynamicProxy::build`.
  pub get_dispatcher : Java → Option ℕ × Java
  pub build_proxy : AndroidBackStrategy → Java → Option ℕ × Java
  -- `registerOnBackInvokedCallback` and `unregisterOnBackInvokedCallback`, and whether they succeed.
  pub register : ℕ → ℕ → Java → Bool × Java
  pub unregister : ℕ → ℕ → Java → Bool × Java
  pub listens-known : (p : ℕ) (j : Java) → listens p j ≡ true → known p j ≡ true
  pub build_proxy-new :
      (s : AndroidBackStrategy) (p : ℕ) (j : Java)
      → (build_proxy s j).0 ≡ some p
      → (known p j ≡ false) × (known p (build_proxy s j).1 ≡ true)
  pub known-get_dispatcher :
      (p : ℕ) (j : Java) → known p j ≡ true → known p (get_dispatcher j).1 ≡ true
  pub known-build_proxy :
      (s : AndroidBackStrategy) (p : ℕ) (j : Java)
      → known p j ≡ true
      → known p (build_proxy s j).1 ≡ true
  pub listens-get_dispatcher : (p : ℕ) (j : Java) → listens p (get_dispatcher j).1 ≡ listens p j
  pub listens-build_proxy :
      (s : AndroidBackStrategy) (p : ℕ) (j : Java) → listens p (build_proxy s j).1 ≡ listens p j
  pub listens-register :
      (d p q : ℕ) (j : Java)
      → listens q (register d p j).1
        ≡ (if (register d p j).0 then q == p || listens q j else listens q j)
  pub listens-unregister :
      (d p q : ℕ) (j : Java)
      → listens q (unregister d p j).1
        ≡ (if (unregister d p j).0 then not (q == p) && listens q j else listens q j)
