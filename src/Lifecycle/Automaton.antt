-- ===== src/Lifecycle/Automaton.antt =====
-- The automaton that the registry of crates/essenty-lifecycle/src/registry.rs promises to follow,
-- whatever its observers do: the transitions between states, and what they can reach.
use essenty.Common.{
  true, false, ◌≡◌, ◌≢◌, refl, List, [], ◌∷◌, arith, ℕ, suc, ◌-◌, ◌+◌, ltb, ◌≤◌, if◌then◌else◌,
}
use essenty.Lifecycle.State.{
  LifecycleState, initialized, created, started, resumed, destroyed, is_destroyed, rank, from_rank,
  eq_state,
}

pub data Moves : LifecycleState → LifecycleState → Type 0 where
  creates : Moves initialized created
  starts : Moves created started
  resumes : Moves started resumed
  pauses : Moves resumed started
  stops : Moves started created
  ends : Moves created destroyed
  aborts : Moves initialized destroyed

pub data Reach (s : LifecycleState) : LifecycleState → Type 0 where
  here : Reach s s
  next : {t u : LifecycleState} → Reach s t → Moves t u → Reach s u

-- The states entered, newest first, form a path of the automaton from `initialized`.
abbrev pub current : List LifecycleState → LifecycleState
current [] = initialized
current (s ∷ rest) = s

abbrev pub IsPath : List LifecycleState → Type 0
IsPath [] = Unit
IsPath (s ∷ rest) = Moves (current rest) s × IsPath rest

-- How often a state stands in a list.
abbrev pub count : LifecycleState → List LifecycleState → ℕ
count s [] = 0
count s (t ∷ rest) = elim (eq_state s t) [ true ↦ suc (count s rest) | false ↦ count s rest ]

pub Moves-destroyed : {s t : LifecycleState} → Moves s t → s ≢ destroyed
Moves-destroyed creates = λ e. cc
Moves-destroyed starts = λ e. cc
Moves-destroyed resumes = λ e. cc
Moves-destroyed pauses = λ e. cc
Moves-destroyed stops = λ e. cc
Moves-destroyed ends = λ e. cc
Moves-destroyed aborts = λ e. cc

pub Moves-initialized : {s t : LifecycleState} → Moves s t → t ≢ initialized
Moves-initialized creates = λ e. cc
Moves-initialized starts = λ e. cc
Moves-initialized resumes = λ e. cc
Moves-initialized pauses = λ e. cc
Moves-initialized stops = λ e. cc
Moves-initialized ends = λ e. cc
Moves-initialized aborts = λ e. cc

pub Reach-destroyed : {s t : LifecycleState} → s ≡ destroyed → Reach s t → t ≡ destroyed
Reach-destroyed e here = e
Reach-destroyed e (next r m) = absurd (Moves-destroyed m (Reach-destroyed e r))

-- A path enters `destroyed` only at its end.
count-destroyed :
    (h : List LifecycleState) → IsPath h → current h ≢ destroyed → count destroyed h ≡ 0
count-destroyed [] p n = refl
count-destroyed (s ∷ rest) p n = ground (arith, n, count-destroyed rest p.1 (Moves-destroyed p.0))

pub IsPath-destroyed : (h : List LifecycleState) → IsPath h → count destroyed h ≤ 1
IsPath-destroyed [] p = omega arith
IsPath-destroyed (s ∷ rest) p = ground (arith, count-destroyed rest p.1 (Moves-destroyed p.0))

-- A round of the loop of `move_to` makes a move of the automaton.
pub walk-Moves :
    (s target : LifecycleState)
    → eq_state s target ≡ false
    → is_destroyed s ≡ false
    → is_destroyed target ≡ false
    → eq_state target initialized ≡ false
    → Moves s (from_rank (if ltb (rank s) (rank target) then rank s + 1 else rank s - 1))
walk-Moves initialized created p q r t = creates
walk-Moves initialized started p q r t = creates
walk-Moves initialized resumed p q r t = creates
walk-Moves created started p q r t = starts
walk-Moves created resumed p q r t = starts
walk-Moves started created p q r t = stops
walk-Moves started resumed p q r t = resumes
walk-Moves resumed created p q r t = pauses
walk-Moves resumed started p q r t = pauses
walk-Moves destroyed target p q r t = absurd (cc)
walk-Moves initialized initialized p q r t = absurd (cc)
walk-Moves created created p q r t = absurd (cc)
walk-Moves started started p q r t = absurd (cc)
walk-Moves resumed resumed p q r t = absurd (cc)
walk-Moves created initialized p q r t = absurd (cc)
walk-Moves started initialized p q r t = absurd (cc)
walk-Moves resumed initialized p q r t = absurd (cc)
walk-Moves initialized destroyed p q r t = absurd (cc)
walk-Moves created destroyed p q r t = absurd (cc)
walk-Moves started destroyed p q r t = absurd (cc)
walk-Moves resumed destroyed p q r t = absurd (cc)
