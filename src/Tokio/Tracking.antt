-- ===== src/Tokio/Tracking.antt =====
-- crates/essenty-lifecycle-tokio/src/scope.rs: the list of handles that a scope keeps does not outgrow the
-- tasks that run.
use essenty.Common.{ℕ, Bool, true, ◌&&◌, ◌≡◌, List, [], ◌∷◌, not, if◌then◌else◌, ◌==◌}
use essenty.Tokio.Runtime.{Tokio}
use essenty.Tokio.Scope.{Tasks, cancel, spawned}
use essenty.Tokio.Children.{is_launched}

-- No handle stands twice in the list.
abbrev pub distinct : List ℕ → Bool
distinct [] = true
distinct (x ∷ xs) = not (is_launched x xs) && distinct xs

abbrev without : ℕ → List ℕ → List ℕ
without x [] = []
without x (y ∷ ys) = let rest = without x ys in if x == y then ys else y ∷ rest

module _ (tokio : Tokio) where
  open tokio use {
    Runtime, known, alive, next, spawn, abort, Progress, known-next, known-spawn, known-abort,
    known-Progress, alive-spawn,
  }

  -- The handles of a scope are distinct, and of tasks that were spawned.
  pub record Tracks (m : Tasks tokio) : Type 0 where
    pub no_double : distinct m.tasks ≡ true
    pub all_known : (id : ℕ) → is_launched id m.tasks ≡ true → known id m.runtime ≡ true

  -- The steps of a scope and of the runtime that it spawns on.
  pub data Use (m : Tasks tokio) : Tasks tokio → Type 0 where
    spawning :
        (meanwhile : Runtime → Runtime)
        → Progress (spawn m.runtime) (meanwhile (spawn m.runtime))
        → Use m (spawned tokio meanwhile m)
    cancelling : Use m (cancel tokio m)
    running : (r : Runtime) → Progress m.runtime r → Use m (record m { runtime = r })

  pub data Uses (m : Tasks tokio) : Tasks tokio → Type 0 where
    start : Uses m m
    more : {n o : Tasks tokio} → Uses m n → Use n o → Uses m o
