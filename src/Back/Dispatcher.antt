-- ===== src/Back/Dispatcher.antt =====
-- crates/essenty-back-handler/src/dispatcher.rs: the dispatcher and its operations. A callback is a
-- function of the event and of the memory that it captured; it answers with the new memory and the
-- commands that it queued. Callbacks and listeners hold no reference to the dispatcher, which is
-- mutably borrowed while they run.
use Prim.Native.Nat.{Ordering, compare}
use essenty.Common.{
  ℕ, ◌+◌, ◌%◌, Bool, true, false, ◌||◌, not, Option, none, some, List, [], ◌∷◌, ◌++◌, if◌then◌else◌,
  length, u64_mod,
}
use essenty.Common.Ints.{ℤ, cmp_ℤ}
use essenty.Common.Order.{ℕ_ord}
use essenty.Common.Map.{Map, get, insert, remove, contains_key}
use essenty.Back.Event.{BackEvent}

-- What a callback does with its `BackCommands` before it returns.
pub data Reaction (F W : Type 0) : Type 0 where
  return : W → Reaction F W
  register : ℤ → Bool → (BackEvent F → W → Reaction F W) → (ℕ → Reaction F W) → Reaction F W
  unregister : ℕ → Reaction F W → Reaction F W
  set_enabled : ℕ → Bool → Reaction F W → Reaction F W

abbrev pub Callback : Type 0 → Type 0 → Type 0
Callback F W = BackEvent F → W → Reaction F W

pub data BackCommand (F W : Type 0) : Type 0 where
  register : ℕ → ℤ → Bool → Callback F W → BackCommand F W
  unregister : ℕ → BackCommand F W
  set_enabled : ℕ → Bool → BackCommand F W

pub record Entry (F W : Type 0) : Type 0 where
  pub priority : ℤ
  pub enabled : Bool
  pub callback : Callback F W

abbrev pub EnabledListener : Type 0 → Type 0
EnabledListener W = Bool → W → W

pub record BackDispatcher (F W : Type 0) : Type 0 where
  pub entries : Map ℕ (Entry F W)
  pub next_id : ℕ
  pub active_gesture : Option ℕ
  pub gesture_in_flight : Bool
  pub gesture_start_event : Option (BackEvent F)
  pub enabled_listeners : Map ℕ (EnabledListener W)
  pub next_listener_id : ℕ
  pub has_enabled : Bool

-- The dispatcher beside the memory that callbacks and listeners share.
pub record Scene (F W : Type 0) : Type 0 where
  pub dispatcher : BackDispatcher F W
  pub open dispatcher use *
  pub memory : W

-- Keys `(priority, id)` in the order by which `max_by_key` chooses.
abbrev pub cmp_key : ℤ × ℕ → ℤ × ℕ → Ordering
cmp_key a b = elim (cmp_ℤ a.0 b.0) [
  | Ordering.lt ↦ Ordering.lt
  | Ordering.eq ↦ compare a.1 b.1
  | Ordering.gt ↦ Ordering.gt
]

-- The better of two keys; of equal ones `max_by_key` takes the later.
abbrev pub better : Option (ℤ × ℕ) → ℤ × ℕ → ℤ × ℕ
better none key = key
better (some best) key = elim (cmp_key best key) [ Ordering.gt ↦ best | _ ↦ key ]

abbrev pub id_of : Option (ℤ × ℕ) → Option ℕ
id_of none = none
id_of (some key) = some key.1

unfoldable pub tell : {W : Type 0} → Map ℕ (EnabledListener W) → Bool → W → W
tell [] now m = m
tell ((id, listener) ∷ rest) now m = tell rest now (listener now m)

abbrev pub same_flag : Bool → Bool → Bool
same_flag true b = b
same_flag false b = not b

module _ {F W : Type 0} where
  unfoldable pub new : W → Scene F W
  new memory = record {
    dispatcher = record {
      entries = [];
      next_id = 0;
      active_gesture = none;
      gesture_in_flight = false;
      gesture_start_event = none;
      enabled_listeners = [];
      next_listener_id = 0;
      has_enabled = false;
    };
    memory = memory;
  }

  abbrev pub any_enabled : Map ℕ (Entry F W) → Bool
  any_enabled [] = false
  any_enabled ((id, entry) ∷ rest) = entry.enabled || any_enabled rest

  abbrev pub can_handle : Scene F W → Bool
  can_handle s = any_enabled s.entries

  abbrev pub handler_count : Scene F W → ℕ
  handler_count s = length s.entries

  abbrev pub has_active_gesture : Scene F W → Bool
  has_active_gesture s = s.gesture_in_flight

  abbrev pub best_key : Option (ℤ × ℕ) → Map ℕ (Entry F W) → Option (ℤ × ℕ)
  best_key best [] = best
  best_key best ((id, entry) ∷ rest) =
      best_key (if entry.enabled then some (better best (entry.priority, id)) else best) rest

  unfoldable pub winner : Scene F W → Option ℕ
  winner s = id_of (best_key none s.entries)

  unfoldable pub notify_enabled_changed : Scene F W → Scene F W
  notify_enabled_changed s =
      let now = can_handle s in
      if same_flag now s.has_enabled then s else record s {
        dispatcher = record s.dispatcher { has_enabled = now };
        memory = tell s.enabled_listeners now s.memory;
      }

  abbrev pub put_entry : ℕ → Entry F W → Scene F W → Scene F W
  put_entry id entry s = record s {
    dispatcher = record s.dispatcher { entries = insert id entry s.entries };
  }

  unfoldable pub add_enabled_changed_listener : EnabledListener W → Scene F W → ℕ × Scene F W
  add_enabled_changed_listener listener s =
      let id = s.next_listener_id in
      (
        id,
        record s {
          dispatcher = record s.dispatcher {
            next_listener_id = (id + 1) % u64_mod;
            enabled_listeners = insert id listener s.enabled_listeners;
          };
        },
      )

  unfoldable pub remove_enabled_changed_listener : ℕ → Scene F W → Bool × Scene F W
  remove_enabled_changed_listener id s = (
    contains_key id s.enabled_listeners,
    record s {
      dispatcher = record s.dispatcher { enabled_listeners = remove id s.enabled_listeners };
    },
  )

  unfoldable pub register_reentrant : ℤ → Bool → Callback F W → Scene F W → ℕ × Scene F W
  register_reentrant priority enabled callback s =
      let id = s.next_id in
      let counted = record s {
        dispatcher = record s.dispatcher { next_id = (id + 1) % u64_mod };
      } in
      let entry : Entry F W = record {
        priority = priority;
        enabled = enabled;
        callback = callback;
      } in
      (id, notify_enabled_changed (put_entry id entry counted))

  -- A callback that queues nothing.
  unfoldable pub register_plain : ℤ → Bool → (BackEvent F → W → W) → Scene F W → ℕ × Scene F W
  register_plain priority enabled callback =
      register_reentrant priority enabled (λ event m. return (callback event m))

  abbrev pub enable_found : ℕ → Bool → Option (Entry F W) → Scene F W → Bool × Scene F W
  enable_found id enabled none s = (false, s)
  enable_found id enabled (some entry) s =
      (true, notify_enabled_changed (put_entry id (record entry { enabled = enabled }) s))

  unfoldable pub set_entry_enabled : ℕ → Bool → Scene F W → Bool × Scene F W
  set_entry_enabled id enabled s = enable_found id enabled (get id s.entries) s

  abbrev pub prioritise_found : ℕ → ℤ → Option (Entry F W) → Scene F W → Bool × Scene F W
  prioritise_found id priority none s = (false, s)
  prioritise_found id priority (some entry) s =
      (true, put_entry id (record entry { priority = priority }) s)

  unfoldable pub set_priority : ℕ → ℤ → Scene F W → Bool × Scene F W
  set_priority id priority s = prioritise_found id priority (get id s.entries) s

  abbrev pub priority_of : ℕ → Scene F W → Option ℤ
  priority_of id s = elim (get id s.entries) [ none ↦ none | some entry ↦ some entry.priority ]

  abbrev pub is_enabled : ℕ → Scene F W → Bool
  is_enabled id s = elim (get id s.entries) [ none ↦ false | some entry ↦ entry.enabled ]

  -- The commands that a callback queues, in order, with the ids that it is given.
  unfoldable pub collect :
      Reaction F W → ℕ → List (BackCommand F W) → W × ℕ × List (BackCommand F W)
  collect (return m) next pending = (m, next, pending)
  collect (Reaction.register priority enabled callback k) next pending =
      collect (k next) ((next + 1) % u64_mod)
        (pending ++ BackCommand.register next priority enabled callback ∷ [])
  collect (Reaction.unregister id k) next pending =
      collect k next (pending ++ BackCommand.unregister id ∷ [])
  collect (Reaction.set_enabled id enabled k) next pending =
      collect k next (pending ++ BackCommand.set_enabled id enabled ∷ [])

  -- The callback of an entry runs and leaves its pending commands.
  abbrev pub call_entry :
      BackEvent F
      → Bool
      → Option (Entry F W)
      → Scene F W
      → Bool × Scene F W × List (BackCommand F W)
  call_entry event force none s = (false, s, [])
  call_entry event force (some entry) s =
      if entry.enabled || force
      then (let (m, next, pending) = collect (entry.callback event s.memory) s.next_id [] in
          (
            true,
            record s { dispatcher = record s.dispatcher { next_id = next }; memory = m },
            pending,
          ))
      else (false, s, [])

  -- The first half of `dispatch_to`.
  unfoldable pub call_back :
      ℕ → BackEvent F → Bool → Scene F W → Bool × Scene F W × List (BackCommand F W)
  call_back id event force s = call_entry event force (get id s.entries) s
