-- ===== src/InstanceKeeper/Ending.antt =====
-- crates/essenty-instance-keeper/src/keeper.rs: what releases an instance, and what a call can still
-- do once the scope has ended.
use essenty.Common.{
  ℕ, Bool, true, false, ◌≡◌, refl, ◌∙◌, Option, none, some, List, [], ◌∷◌, if◌then◌else◌, ◌==◌,
  arith,
}
use essenty.Common.Results.{err}
use essenty.Common.Order.{bytes_ord}
use essenty.Common.Map.{
  Map, insert, IsSorted, get-insert, get-remove, same, same_refl, same-eq, contains_key,
}
use essenty.Common.Map
use essenty.InstanceKeeper.Keeper.{
  Text, destroyed, Rc, InstanceKeeper, Program, put_back, remove, get_or_create, put, destroy,
  clear, destroy_all,
}
use essenty.InstanceKeeper.Calls.{
  Call, to_get_or_create, to_put, to_remove, to_destroy, to_clear, to_destroy_all, call, calls,
  IsKeeper, call-IsKeeper, calls-IsKeeper,
}

module _ {V : Type 0} where
  put_back-Holds :
      (key j : Text) (u : ℕ) (rc : Rc V) (found : Option (Rc V)) (k : InstanceKeeper V)
      → IsSorted k.instances
      → (if same key j then rc.type_id == u else false) ≡ false
      → Map.get key k.instances ≡ some rc
      → Map.get j k.instances ≡ found
      → Map.get key
          (put_back j u found (record k { instances = Map.remove j k.instances })).instances
        ≡ some rc
  put_back-Holds key j u rc none k s r h e = ground (
    arith,
    r,
    h,
    e,
    get-remove ⦃o = bytes_ord⦄ key j k.instances s,
    same-eq ⦃o = bytes_ord⦄ key j,
  )
  put_back-Holds key j u rc (some held) k s r h e = ground (
    arith,
    r,
    h,
    e,
    get-remove ⦃o = bytes_ord⦄ key j k.instances s,
    get-insert ⦃o = bytes_ord⦄ key j held (Map.remove j k.instances),
    same-eq ⦃o = bytes_ord⦄ key j,
  )

  put_back-destroyed :
      (j : Text) (u : ℕ) (found : Option (Rc V)) (k : InstanceKeeper V)
      → k.destroyed ≡ true
      → (put_back j u found k).destroyed ≡ true
  put_back-destroyed j u none k h = h
  put_back-destroyed j u (some held) k h = ground (arith, h)

  destroy_all-destroyed : (k : InstanceKeeper V) → (destroy_all k).destroyed ≡ true
  unfolding destroy_all clear
  destroy_all-destroyed k = ground arith

module _ {V W : Type 0} where
  -- Whether the call can release what is retained under the key at the type.
  abbrev releases : Text → ℕ → Call V W → Bool
  releases key t (to_get_or_create j u create) = false
  releases key t (to_put j u v) = false
  releases key t (to_remove j u) = if same key j then t == u else false
  releases key t (to_destroy j) = same key j
  releases key t to_clear = true
  releases key t to_destroy_all = true

  abbrev Spares : Text → ℕ → List (Call V W) → Type 0
  Spares key t [] = Unit
  Spares key t (c ∷ cs) = (releases key t c ≡ false) × Spares key t cs

  abbrev Holds : Text → Rc V → Program V W → Type 0
  Holds key rc p = Map.get key p.keeper.instances ≡ some rc

  call-Holds :
      (key : Text) (rc : Rc V) (c : Call V W) (p : Program V W)
      → IsSorted p.keeper.instances
      → releases key rc.type_id c ≡ false
      → Holds key rc p
      → Holds key rc (call c p)
  unfolding get_or_create put destroy clear destroy_all remove
  call-Holds key rc (to_get_or_create j u create) p s r h =
      let made = create p.world in
      let fresh : Rc V = record { address = p.next; type_id = u; value = made.0 } in
      ground (
        arith,
        h,
        get-insert ⦃o = bytes_ord⦄ key j fresh p.keeper.instances,
        same-eq ⦃o = bytes_ord⦄ key j,
      )
  call-Holds key rc (to_put j u v) p s r h =
      let fresh : Rc V = record { address = p.next; type_id = u; value = v } in
      ground (
        arith,
        h,
        get-insert ⦃o = bytes_ord⦄ key j fresh p.keeper.instances,
        same-eq ⦃o = bytes_ord⦄ key j,
      )
  call-Holds key rc (to_remove j u) p s r h =
      put_back-Holds key j u rc (Map.get j p.keeper.instances) p.keeper s r h refl
  call-Holds key rc (to_destroy j) p s r h =
      get-remove ⦃o = bytes_ord⦄ key j p.keeper.instances s ∙ ground (arith, r, h)
  call-Holds key rc to_clear p s r h = ground (arith, r)
  call-Holds key rc to_destroy_all p s r h = ground (arith, r)

  -- An instance retained under a key stays retained there through any sequence of calls, as the very
  -- same `Rc`, when no call in it destroys that key, removes it at the type of the instance, clears
  -- the keeper or ends its scope.
  pub calls-Holds :
      (key : Text) (rc : Rc V) (cs : List (Call V W)) (p : Program V W)
      → IsKeeper p.keeper
      → Spares key rc.type_id cs
      → Holds key rc p
      → Holds key rc (calls cs p)
  calls-Holds key rc [] p k r h = h
  calls-Holds key rc (c ∷ cs) p k r h =
      calls-Holds key rc cs (call c p) (call-IsKeeper c p k) r.1 (call-Holds key rc c p k.0 r.0 h)

  call-destroyed :
      (c : Call V W) (p : Program V W)
      → p.keeper.destroyed ≡ true
      → ((call c p).keeper.destroyed ≡ true) × ((call c p).world ≡ p.world)
  unfolding get_or_create put destroy clear destroy_all remove
  call-destroyed (to_get_or_create j u create) p h = ground (arith, h)
  call-destroyed (to_put j u v) p h = ground (arith, h)
  call-destroyed (to_remove j u) p h =
      (put_back-destroyed j u (Map.get j p.keeper.instances) _ h, refl)
  call-destroyed (to_destroy j) p h = (h, refl)
  call-destroyed to_clear p h = (h, refl)
  call-destroyed to_destroy_all p h = ground (arith, h)

  calls-destroyed :
      (cs : List (Call V W)) (p : Program V W)
      → p.keeper.destroyed ≡ true
      → ((calls cs p).keeper.destroyed ≡ true) × ((calls cs p).world ≡ p.world)
  calls-destroyed [] p h = (h, refl)
  calls-destroyed (c ∷ cs) p h =
      let one = call-destroyed c p h in
      let rest = calls-destroyed cs (call c p) one.0 in (rest.0, rest.1 ∙ one.1)

  -- Once the scope of a keeper has ended, every later sequence of calls leaves it ended and empty and
  -- runs no factory, and a call to create or to put after it is refused as destroyed.
  pub ended-calls :
      (cs : List (Call V W)) (p : Program V W) (key : Text) (t : ℕ) (create : W → V × W) (v : V)
      → IsKeeper p.keeper
      → let q = calls cs (call to_destroy_all p) in
        (q.keeper.destroyed ≡ true)
        × (q.keeper.instances ≡ [])
        × (q.world ≡ p.world)
        × (get_or_create key t create q ≡ (err destroyed, q))
        × (put key t v q ≡ (err destroyed, q))
  unfolding get_or_create put
  ended-calls cs p key t create v h =
      let ends = destroy_all-destroyed p.keeper in
      let keeper = call-IsKeeper to_destroy_all p h in
      let later = calls-destroyed cs (call to_destroy_all p) ends in
      (
        later.0,
        (calls-IsKeeper cs (call to_destroy_all p) keeper).1 later.0,
        later.1,
        ground (arith, later.0),
        ground (arith, later.0),
      )
