-- ===== src/Tokio/Steps.antt =====
-- The steps of crates/essenty-lifecycle-tokio/src/repeat.rs, in any order with those of the runtime: the
-- loop receives states, waits for a child to stop, finds the channel closed, or is dropped.
use essenty.Common.{◌≡◌}
use essenty.Lifecycle.State.{LifecycleState}
use essenty.Tokio.Runtime.{Tokio}
use essenty.Tokio.Repeat.{Repeat, receiving, poll, on_state, on_closed, drop}

module _ (tokio : Tokio) (min_state : LifecycleState) where
  open tokio use {Runtime, Progress, spawn}

  -- `receive` takes any state: the sender chooses. A finished future is not polled again.
  pub data Step (s : Repeat tokio) : Repeat tokio → Type 0 where
    receive :
        (state : LifecycleState) → s.control ≡ receiving → Step s (on_state tokio min_state state s)
    close : s.control ≡ receiving → Step s (on_closed tokio s)
    wait : Step s (poll tokio s)
    cancel : Step s (drop tokio s)
    progress : (r : Runtime) → Progress s.runtime r → Step s (record s { runtime = r })

  pub data Reach (s : Repeat tokio) : Repeat tokio → Type 0 where
    here : Reach s s
    later : {t u : Repeat tokio} → Reach s t → Step t u → Reach s u
