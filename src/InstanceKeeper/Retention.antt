-- ===== src/InstanceKeeper/Retention.antt =====
-- crates/essenty-instance-keeper/src/keeper.rs: what stays retained under a key.
use essenty.Common.{ℕ, false, ◌≡◌, some, ◌==◌, arith, ==_refl}
use essenty.Common.Results.{ok, err}
use essenty.Common.Order.{bytes_ord}
use essenty.Common.Map.{
  Map, insert, IsSorted, get-insert, get-remove, insert-IsSorted, remove-IsSorted, same, same_refl,
  same-eq, ext,
}
use essenty.Common.Map
use essenty.InstanceKeeper.Keeper.{
  Text, type_mismatch, Rc, InstanceKeeper, Program, remove, get_or_create,
}

module _ {V : Type 0} where
  -- Taking out an entry and putting it back gives the map that was there.
  pub insert-remove :
      (key : Text) (rc : Rc V) (m : Map Text (Rc V))
      → IsSorted m
      → Map.get key m ≡ some rc
      → insert key rc (Map.remove key m) ≡ m
  insert-remove key rc m s h =
      ext (insert key rc (Map.remove key m)) m
        (insert-IsSorted key rc (Map.remove key m) (remove-IsSorted key m s)) s
        (λ j. ground (
          arith,
          h,
          get-insert ⦃o = bytes_ord⦄ j key rc (Map.remove key m),
          get-remove ⦃o = bytes_ord⦄ j key m s,
          same-eq ⦃o = bytes_ord⦄ j key,
        ))

  -- Asking to release a key at a type that is not the type of what it holds is an error and leaves
  -- the keeper exactly as it was, although the code takes the entry out first.
  pub remove-mismatch :
      (key : Text) (t : ℕ) (rc : Rc V) (k : InstanceKeeper V)
      → IsSorted k.instances
      → Map.get key k.instances ≡ some rc
      → (rc.type_id == t) ≡ false
      → remove key t k ≡ (err (type_mismatch key), k)
  unfolding remove
  remove-mismatch key t rc k s h x = ground (arith, h, x, insert-remove key rc k.instances s h)

module _ {V W : Type 0} where
  -- When `get_or_create` has returned an instance, a second call with the same key and type returns
  -- the very same instance and changes nothing: the second factory is not run.
  pub get_or_create-twice :
      (key : Text) (t : ℕ) (create again : W → V × W) (p : Program V W) (rc : Rc V)
      → (get_or_create key t create p).0 ≡ ok rc
      → let q = (get_or_create key t create p).1 in get_or_create key t again q ≡ (ok rc, q)
  unfolding get_or_create
  get_or_create-twice key t create again p rc h =
      let made = create p.world in
      let fresh : Rc V = record { address = p.next; type_id = t; value = made.0 } in
      ground (
        arith,
        h,
        get-insert ⦃o = bytes_ord⦄ key key fresh p.keeper.instances,
        same_refl ⦃o = bytes_ord⦄ key,
        ==_refl t,
      )
