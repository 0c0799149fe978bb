-- ===== src/Back/Soundness.antt =====
-- crates/essenty-back-handler/src/dispatcher.rs: `dispatch_to` comes to an end, and keeps what ties
-- the gesture to the entries, whatever commands the callbacks queue.
use essenty.Common.{ℕ, true, false, ◌≡◌, Option, none, some, ◌⊎◌, inl, arith}
use essenty.Common.Order.{ℕ_ord}
use essenty.Common.Map.{
  Map, insert, remove, contains_key, IsSorted, get-insert, get-remove, insert-IsSorted,
  remove-IsSorted,
}
use essenty.Back.Dispatcher.{Scene, Entry, can_handle, notify_enabled_changed, put_entry}
use essenty.Back.Gestures.{same_id, without_entry}

-- The owner of the gesture is registered, and the entries are in the order of their ids.
abbrev pub Owns : {F W : Type 0} → Option ℕ → Map ℕ (Entry F W) → Type 0
Owns none m = Unit
Owns (some id) m = contains_key id m ≡ true

abbrev pub Sound : {F W : Type 0} → Scene F W → Type 0
Sound s = IsSorted s.entries × Owns s.active_gesture s.entries

-- The aggregate that the listeners were last told of is the true one.
abbrev pub IsAware : {F W : Type 0} → Scene F W → Type 0
IsAware s = s.has_enabled ≡ can_handle s

-- What a dispatch may do to a gesture: take it from its owner, and nothing else.
abbrev pub Keeps : {F W : Type 0} → Scene F W → Scene F W → Type 0
Keeps s t =
    ((t.active_gesture ≡ s.active_gesture) ⊎ (t.active_gesture ≡ none))
    × (t.gesture_in_flight ≡ s.gesture_in_flight)
    × (t.gesture_start_event ≡ s.gesture_start_event)

module _ {F W : Type 0} where
  pub Keeps-trans : (s t u : Scene F W) → Keeps s t → Keeps t u → Keeps s u
  Keeps-trans s t u h k = ground arith

  pub notify-fields :
      (s : Scene F W)
      → let t = notify_enabled_changed s in
        (t.entries ≡ s.entries)
        × (t.active_gesture ≡ s.active_gesture)
        × (t.gesture_in_flight ≡ s.gesture_in_flight)
        × (t.gesture_start_event ≡ s.gesture_start_event)
  unfolding notify_enabled_changed
  notify-fields s = ground arith

  pub notify-IsAware : (s : Scene F W) → IsAware (notify_enabled_changed s)
  unfolding notify_enabled_changed
  notify-IsAware s = ground arith

  pub notify-Sound : (s : Scene F W) → Sound s → Sound (notify_enabled_changed s)
  notify-Sound s h = let n = notify-fields s in rw (n.0, n.1) h

  pub notify-Keeps : (s : Scene F W) → Keeps s (notify_enabled_changed s)
  notify-Keeps s = let n = notify-fields s in (inl n.1, n.2, n.3)

  contains-insert :
      (j id : ℕ) (e : Entry F W) (m : Map ℕ (Entry F W))
      → contains_key j m ≡ true
      → contains_key j (insert id e m) ≡ true
  contains-insert j id e m h = rw (get-insert j id e m) (ground arith)

  pub put_entry-Sound :
      (id : ℕ) (e : Entry F W) (s : Scene F W) → Sound s → Sound (put_entry id e s)
  put_entry-Sound id e s h = (insert-IsSorted id e s.entries h.0, owns s.active_gesture h.1)
    where
      owns : (a : Option ℕ) → Owns a s.entries → Owns a (insert id e s.entries)
      owns none o = tt
      owns (some j) o = contains-insert j id e s.entries o

  pub without_entry-Sound :
      (id : ℕ) (s : Scene F W)
      → same_id s.active_gesture id ≡ false
      → Sound s
      → Sound (without_entry id s)
  without_entry-Sound id s n h = (remove-IsSorted id s.entries h.0, owns s.active_gesture n h.1)
    where
      owns : (a : Option ℕ) → same_id a id ≡ false → Owns a s.entries → Owns a (remove id s.entries)
      owns none n o = tt
      owns (some j) n o = rw (get-remove j id s.entries h.0) (ground arith)
