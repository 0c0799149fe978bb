-- ===== src/Back/Telling.antt =====
-- crates/essenty-back-handler/src/dispatcher.rs: what the listeners make of the memory that they share with
-- the callbacks, whatever the callbacks queue.
use Prim.Native.Nat.{Ordering}
use essenty.Common.{
  ℕ, zero, suc, Bool, true, not, Option, none, some, List, [], ◌∷◌, ◌++◌, ◌⊎◌, inl, inr, Bool-cases,
  u64_mod, ◌+◌, ◌%◌, ◌||◌,
}
use essenty.Common.Results.{Holds, Holds-bind, Holds-if}
use essenty.Common.Order.{ℕ_ord}
use essenty.Common.Map.{Map, get, insert, remove, contains_key}
use essenty.Back.Event.{BackEvent, cancelled_event}
use essenty.Back.Dispatcher.{
  Reaction, return, Callback, BackCommand, Entry, EnabledListener, Scene, tell, same_flag,
  can_handle, notify_enabled_changed, put_entry, set_entry_enabled, enable_found, collect,
  call_entry, call_back,
}
use essenty.Back.Gestures.{
  Dispatch, same_id, put_active, without_entry, release, unregister_by, run_command, run_commands,
  dispatch_to,
}

-- `Knows b m`: the memory `m` tells that some callback is enabled, or that none is, by `b`.
module _ {W : Type 0} (Knows : Bool → W → Type 0) where
  abbrev pub Establishes : EnabledListener W → Type 0
  Establishes listener = (b : Bool) (m : W) → Knows b (listener b m)

  abbrev pub Leaves : Map ℕ (EnabledListener W) → Type 0
  Leaves [] = Unit
  Leaves ((id, listener) ∷ rest) =
      ((b : Bool) (m : W) → Knows b m → Knows b (listener b m)) × Leaves rest

  -- One of the listeners makes the memory know what it is told, and those after it leave that so.
  -- Without listeners the memory knows it anyway.
  abbrev pub Informs : Map ℕ (EnabledListener W) → Type 0
  Informs [] = (b : Bool) (m : W) → Knows b m
  Informs ((id, listener) ∷ rest) = (Establishes listener × Leaves rest) ⊎ Informs rest

  tell-leaves :
      (ls : Map ℕ (EnabledListener W)) (b : Bool) (m : W)
      → Leaves ls
      → Knows b m
      → Knows b (tell ls b m)
  unfolding tell
  tell-leaves [] b m h k = k
  tell-leaves ((id, listener) ∷ rest) b m h k = tell-leaves rest b (listener b m) h.1 (h.0 b m k)

  tell-Knows :
      (ls : Map ℕ (EnabledListener W)) (b : Bool) (m : W) → Informs ls → Knows b (tell ls b m)
  unfolding tell
  tell-Knows [] b m h = h b m
  tell-Knows ((id, listener) ∷ rest) b m (inl h) = tell-leaves rest b (listener b m) h.1 (h.0 b m)
  tell-Knows ((id, listener) ∷ rest) b m (inr h) = tell-Knows rest b (listener b m) h

module _ {F W : Type 0} (Knows : Bool → W → Type 0) where
  -- What a callback does, and what those do that it registers, leaves what the memory knows.
  abbrev pub Spares : Bool → Reaction F W → Type 0
  Spares b (return m) = Knows b m
  Spares b (Reaction.register priority enabled callback k) =
      ((c : Bool) (event : BackEvent F) (m : W) → Knows c m → Spares c (callback event m))
      × ((n : ℕ) → Spares b (k n))
  Spares b (Reaction.unregister id k) = Spares b k
  Spares b (Reaction.set_enabled id enabled k) = Spares b k

  abbrev pub IsSparing : Callback F W → Type 0
  IsSparing callback =
      (c : Bool) (event : BackEvent F) (m : W) → Knows c m → Spares c (callback event m)

  abbrev pub AreSparing : Map ℕ (Entry F W) → Type 0
  AreSparing [] = Unit
  AreSparing ((id, entry) ∷ rest) = IsSparing entry.callback × AreSparing rest

  abbrev pub Registers : List (BackCommand F W) → Type 0
  Registers [] = Unit
  Registers (BackCommand.register id priority enabled callback ∷ cs) =
      IsSparing callback × Registers cs
  Registers (BackCommand.unregister id ∷ cs) = Registers cs
  Registers (BackCommand.set_enabled id enabled ∷ cs) = Registers cs

  -- The memory knows the aggregate that was told last.
  abbrev pub Heard : Scene F W → Type 0
  Heard s = Informs Knows s.enabled_listeners × AreSparing s.entries × Knows s.has_enabled s.memory

  pub notify-Heard : (s : Scene F W) → Heard s → Heard (notify_enabled_changed s)
  unfolding notify_enabled_changed
  notify-Heard s h = elim (Bool-cases (same_flag (can_handle s) s.has_enabled)) [
    | inl q ↦ rw q h
    | inr q ↦ rw q (h.0, h.1, tell-Knows Knows s.enabled_listeners (can_handle s) s.memory h.0)
  ]

  insert-AreSparing :
      (id : ℕ) (e : Entry F W) (m : Map ℕ (Entry F W))
      → IsSparing e.callback
      → AreSparing m
      → AreSparing (insert id e m)
  unfolding insert
  insert-AreSparing id e [] c h = (c, tt)
  insert-AreSparing id e ((j, x) ∷ m) c h = go (insert-AreSparing id e m c h.1) (ℕ_ord.cmp id j)
    where
      go :
          AreSparing (insert id e m)
          → (o : Ordering)
          → AreSparing (elim o [
            | Ordering.lt ↦ (id, e) ∷ (j, x) ∷ m
            | Ordering.eq ↦ (id, e) ∷ m
            | Ordering.gt ↦ (j, x) ∷ insert id e m
          ])
      go r Ordering.lt = (c, h)
      go r Ordering.eq = (c, h.1)
      go r Ordering.gt = (h.0, r)

  remove-AreSparing : (id : ℕ) (m : Map ℕ (Entry F W)) → AreSparing m → AreSparing (remove id m)
  unfolding remove
  remove-AreSparing id [] h = tt
  remove-AreSparing id ((j, x) ∷ m) h = go (remove-AreSparing id m h.1) (ℕ_ord.cmp id j)
    where
      go :
          AreSparing (remove id m)
          → (o : Ordering) → AreSparing (elim o [ Ordering.eq ↦ m | _ ↦ (j, x) ∷ remove id m ])
      go r Ordering.lt = (h.0, r)
      go r Ordering.eq = h.1
      go r Ordering.gt = (h.0, r)

  abbrev pub Found : Option (Entry F W) → Type 0
  Found none = Unit
  Found (some e) = IsSparing e.callback

  pub get-AreSparing : (id : ℕ) (m : Map ℕ (Entry F W)) → AreSparing m → Found (get id m)
  unfolding get
  get-AreSparing id [] h = tt
  get-AreSparing id ((j, x) ∷ m) h = go (get-AreSparing id m h.1) (ℕ_ord.cmp id j)
    where
      go :
          Found (get id m) → (o : Ordering) → Found (elim o [ Ordering.eq ↦ some x | _ ↦ get id m ])
      go r Ordering.lt = r
      go r Ordering.eq = h.0
      go r Ordering.gt = r

  Registers-end :
      (cs ds : List (BackCommand F W)) → Registers cs → Registers ds → Registers (cs ++ ds)
  Registers-end [] ds h k = k
  Registers-end (BackCommand.register id p e cb ∷ cs) ds h k = (h.0, Registers-end cs ds h.1 k)
  Registers-end (BackCommand.unregister id ∷ cs) ds h k = Registers-end cs ds h k
  Registers-end (BackCommand.set_enabled id e ∷ cs) ds h k = Registers-end cs ds h k

  -- What a callback leaves: the memory, and the callbacks among its commands.
  collect-Spares :
      (b : Bool) (reaction : Reaction F W) (next : ℕ) (pending : List (BackCommand F W))
      → Spares b reaction
      → Registers pending
      → let r = collect reaction next pending in Knows b r.0 × Registers r.2
  unfolding collect
  collect-Spares b (return m) next pending h k = (h, k)
  collect-Spares b (Reaction.register p e cb f) next pending h k =
      collect-Spares b (f next) ((next + 1) % u64_mod) _ (h.1 next)
        (Registers-end pending (BackCommand.register next p e cb ∷ []) k (h.0, tt))
  collect-Spares b (Reaction.unregister id f) next pending h k =
      collect-Spares b f next _ h (Registers-end pending (BackCommand.unregister id ∷ []) k tt)
  collect-Spares b (Reaction.set_enabled id e f) next pending h k =
      collect-Spares b f next _ h (Registers-end pending (BackCommand.set_enabled id e ∷ []) k tt)

  called :
      (event : BackEvent F) (force : Bool) (o : Option (Entry F W)) (s : Scene F W)
      → Found o
      → Heard s
      → let r = call_entry event force o s in Heard r.1 × Registers r.2
  called event force none s f h = (h, tt)
  called event force (some entry) s f h = elim (Bool-cases (entry.enabled || force)) [
    | inr q ↦ rw q (h, tt)
    | inl q ↦
        let c =
          collect-Spares s.has_enabled (entry.callback event s.memory) s.next_id []
            (f s.has_enabled event s.memory h.2) tt in
        rw q ((h.0, h.1, c.0), c.1)
  ]

  pub put_entry-Heard :
      (id : ℕ) (e : Entry F W) (s : Scene F W)
      → IsSparing e.callback
      → Heard s
      → Heard (put_entry id e s)
  put_entry-Heard id e s c h = (h.0, insert-AreSparing id e s.entries c h.1, h.2)

  pub enable_found-Heard :
      (id : ℕ) (enabled : Bool) (o : Option (Entry F W)) (s : Scene F W)
      → Found o
      → Heard s
      → Heard (enable_found id enabled o s).1
  enable_found-Heard id enabled none s f h = h
  enable_found-Heard id enabled (some entry) s f h =
      notify-Heard _ (put_entry-Heard id (record entry { enabled = enabled }) s f h)

  abbrev pub Relays : Dispatch F W → Type 0
  Relays dispatch =
      (id : ℕ) (event : BackEvent F) (force : Bool) (s : Scene F W)
      → Heard s
      → Holds (λ r. Heard r.1) (dispatch id event force s)

  release-Heard :
      (dispatch : Dispatch F W) (id : ℕ) (s : Scene F W)
      → Relays dispatch
      → Heard s
      → Holds Heard (release dispatch id s)
  unfolding release
  release-Heard dispatch id s d h =
      Holds-if Heard (same_id s.active_gesture id) _ _
        (λ _.
          Holds-bind (λ r. Heard r.1) Heard _ _ (d id cancelled_event true (put_active none s) h)
            (λ r k. k))
        (λ _. h)

  pub unregister_by-Heard :
      (dispatch : Dispatch F W) (id : ℕ) (s : Scene F W)
      → Relays dispatch
      → Heard s
      → Holds (λ r. Heard r.1) (unregister_by dispatch id s)
  unfolding unregister_by
  unregister_by-Heard dispatch id s d h =
      Holds-if (λ r. Heard r.1) (not (contains_key id s.entries)) _ _ (λ _. h)
        λ _.
          Holds-bind Heard (λ r. Heard r.1) _ _ (release-Heard dispatch id s d h)
            λ t k. notify-Heard (without_entry id t) (k.0, remove-AreSparing id t.entries k.1, k.2)

  run_commands-Heard :
      (dispatch : Dispatch F W) (cs : List (BackCommand F W)) (s : Scene F W)
      → Relays dispatch
      → Registers cs
      → Heard s
      → Holds Heard (run_commands dispatch cs s)
  unfolding run_commands run_command set_entry_enabled
  run_commands-Heard dispatch [] s d c h = h
  run_commands-Heard dispatch (BackCommand.register id p e cb ∷ cs) s d c h =
      run_commands-Heard dispatch cs _ d c.1
        (put_entry-Heard id (record { priority = p; enabled = e; callback = cb }) s c.0 h)
  run_commands-Heard dispatch (BackCommand.unregister id ∷ cs) s d c h =
      Holds-bind Heard Heard _ (run_commands dispatch cs)
        (Holds-bind (λ r. Heard r.1) Heard _ _ (unregister_by-Heard dispatch id s d h) (λ r k. k))
        (λ t k. run_commands-Heard dispatch cs t d c k)
  run_commands-Heard dispatch (BackCommand.set_enabled id e ∷ cs) s d c h =
      run_commands-Heard dispatch cs _ d c
        (enable_found-Heard id e (get id s.entries) s (get-AreSparing id s.entries h.1) h)

  pub dispatch_to-Relays : (depth : ℕ) → Relays (dispatch_to depth)
  unfolding dispatch_to call_back
  dispatch_to-Relays zero id event force s h = tt
  dispatch_to-Relays (suc depth) id event force s h =
      let o = get id s.entries in
      let c = called event force o s (get-AreSparing id s.entries h.1) h in
      Holds-bind Heard (λ r. Heard r.1) _ _
        (run_commands-Heard (dispatch_to depth) (call_entry event force o s).2 _
          (dispatch_to-Relays depth) c.1 c.0)
        (λ t k. notify-Heard t k)
