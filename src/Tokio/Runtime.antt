-- ===== src/Tokio/Runtime.antt =====
-- What crates/essenty-lifecycle-tokio relies on of Tokio: tasks that are spawned, asked to abort, and
-- run by themselves in between.
use essenty.Common.{ℕ, Bool, true, false, ◌||◌, ◌≡◌, ◌==◌}

pub record Tokio : Type 1 where
  pub Runtime : Type 0
  -- The task was spawned at some time, by this crate or by others.
  pub known : ℕ → Runtime → Bool
  -- The task was spawned and has not terminated.
  pub alive : ℕ → Runtime → Bool
  -- The task was asked to abort.
  pub requested : ℕ → Runtime → Bool
  -- The identity of the task that the next `spawn` starts.
  pub next : Runtime → ℕ
  pub spawn : Runtime → Runtime
  pub abort : ℕ → Runtime → Runtime
  -- What happens between two calls: tasks may return, panic or stop, and others may be spawned.
  pub Progress : Runtime → Runtime → Type 0
  -- A runtime that runs an aborted task to its end.
  pub settle : ℕ → Runtime → Runtime
  pub known-next : (r : Runtime) → known (next r) r ≡ false
  pub known-spawn : (id : ℕ) (r : Runtime) → known id (spawn r) ≡ (id == next r || known id r)
  pub known-abort : (id other : ℕ) (r : Runtime) → known id (abort other r) ≡ known id r
  pub known-Progress :
      (id : ℕ) (r r' : Runtime) → Progress r r' → known id r ≡ true → known id r' ≡ true
  pub alive-spawn : (id : ℕ) (r : Runtime) → alive id (spawn r) ≡ (id == next r || alive id r)
  pub alive-abort :
      (id other : ℕ) (r : Runtime) → alive id (abort other r) ≡ true → alive id r ≡ true
  pub alive-Progress :
      (id : ℕ) (r r' : Runtime)
      → Progress r r'
      → known id r ≡ true
      → alive id r' ≡ true
      → alive id r ≡ true
  pub requested-spawn :
      (id : ℕ) (r : Runtime) → requested id r ≡ true → requested id (spawn r) ≡ true
  pub requested-abort :
      (id other : ℕ) (r : Runtime) → requested id (abort other r) ≡ (id == other || requested id r)
  pub requested-Progress :
      (id : ℕ) (r r' : Runtime) → Progress r r' → requested id r ≡ true → requested id r' ≡ true
  pub settle-Progress : (id : ℕ) (r : Runtime) → Progress r (settle id r)
  pub alive-settle : (id : ℕ) (r : Runtime) → requested id r ≡ true → alive id (settle id r) ≡ false
