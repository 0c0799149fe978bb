-- ===== src/InstanceKeeper/Calls.antt =====
-- crates/essenty-instance-keeper/src/keeper.rs: sequences of the calls that change a keeper, and the
-- form of the keeper that they keep.
use essenty.Common.{
  ℕ, Bool, true, false, ◌≡◌, refl, subst, ap, Option, none, some, List, [], ◌∷◌, if◌then◌else◌,
  ◌==◌, arith,
}
use essenty.Common.Order.{bytes_ord}
use essenty.Common.Map.{
  Map, insert, IsSorted, get-insert, get-remove, insert-IsSorted, remove-IsSorted, same, same_refl,
  same-eq, ext, contains_key,
}
use essenty.Common.Map
use essenty.InstanceKeeper.Keeper.{
  Text, Rc, InstanceKeeper, Program, put_back, remove, retain, existing_or, get_or_create, put,
  destroy, clear, destroy_all,
}
use essenty.InstanceKeeper.Retention.{insert-remove}

-- A call that changes the keeper, with its arguments.
pub data Call (V W : Type 0) : Type 0 where
  to_get_or_create : Text → ℕ → (W → V × W) → Call V W
  to_put : Text → ℕ → V → Call V W
  to_remove : Text → ℕ → Call V W
  to_destroy : Text → Call V W
  to_clear : Call V W
  to_destroy_all : Call V W

module _ {V : Type 0} where
  -- Once ended, a scope retains nothing.
  abbrev pub IsEmpty : InstanceKeeper V → Type 0
  IsEmpty k = k.destroyed ≡ true → k.instances ≡ []

  abbrev pub IsKeeper : InstanceKeeper V → Type 0
  IsKeeper k = IsSorted k.instances × IsEmpty k

  if-IsKeeper :
      (b : Bool) (x y : InstanceKeeper V) → IsKeeper x → IsKeeper y → IsKeeper (if b then x else y)
  if-IsKeeper true x y h j = h
  if-IsKeeper false x y h j = j

  -- Inserting into a keeper whose scope is open.
  insert-IsKeeper :
      (key : Text) (rc : Rc V) (k : InstanceKeeper V)
      → IsKeeper k
      → k.destroyed ≡ false
      → IsKeeper (record k { instances = insert key rc k.instances })
  insert-IsKeeper key rc k h o = (insert-IsSorted key rc k.instances h.0, λ e. ground (arith, e, o))

  removed-IsKeeper :
      (key : Text) (k : InstanceKeeper V)
      → IsKeeper k
      → IsKeeper (record k { instances = Map.remove key k.instances })
  unfolding Map.remove
  removed-IsKeeper key k h = (remove-IsSorted key k.instances h.0, λ e. ap (Map.remove key) (h.1 e))

  put_back-IsKeeper :
      (key : Text) (t : ℕ) (found : Option (Rc V)) (k : InstanceKeeper V)
      → IsKeeper k
      → Map.get key k.instances ≡ found
      → IsKeeper (put_back key t found (record k { instances = Map.remove key k.instances }))
  put_back-IsKeeper key t none k h e = removed-IsKeeper key k h
  put_back-IsKeeper key t (some rc) k h e =
      if-IsKeeper (rc.type_id == t) _ _ (removed-IsKeeper key k h)
        (subst IsKeeper (ground (arith, insert-remove key rc k.instances h.0 e)) h)

  remove-IsKeeper :
      (key : Text) (t : ℕ) (k : InstanceKeeper V) → IsKeeper k → IsKeeper (remove key t k).1
  unfolding remove
  remove-IsKeeper key t k h = put_back-IsKeeper key t (Map.get key k.instances) k h refl

  destroy_all-IsKeeper : (k : InstanceKeeper V) → IsKeeper k → IsKeeper (destroy_all k)
  unfolding destroy_all clear
  destroy_all-IsKeeper k h = if-IsKeeper k.destroyed k _ h (tt, λ e. refl)

module _ {V W : Type 0} where
  abbrev pub call : Call V W → Program V W → Program V W
  call (to_get_or_create key t create) p = (get_or_create key t create p).1
  call (to_put key t v) p = (put key t v p).1
  call (to_remove key t) p = record p { keeper = (remove key t p.keeper).1 }
  call (to_destroy key) p = record p { keeper = (destroy key p.keeper).1 }
  call to_clear p = record p { keeper = clear p.keeper }
  call to_destroy_all p = record p { keeper = destroy_all p.keeper }

  abbrev pub calls : List (Call V W) → Program V W → Program V W
  calls [] p = p
  calls (c ∷ cs) p = calls cs (call c p)

  retain-IsKeeper :
      (key : Text) (t : ℕ) (v : V) (w : W) (p : Program V W)
      → IsKeeper p.keeper
      → p.keeper.destroyed ≡ false
      → IsKeeper (retain key t v w p).1.keeper
  retain-IsKeeper key t v w p h o =
      insert-IsKeeper key (record { address = p.next; type_id = t; value = v }) p.keeper h o

  existing_or-IsKeeper :
      (key : Text) (t : ℕ) (create : W → V × W) (found : Option (Rc V)) (p : Program V W)
      → IsKeeper p.keeper
      → p.keeper.destroyed ≡ false
      → IsKeeper (existing_or key t create found p).1.keeper
  existing_or-IsKeeper key t create none p h o =
      retain-IsKeeper key t (create p.world).0 (create p.world).1 p h o
  existing_or-IsKeeper key t create (some rc) p h o = h

  unless-IsKeeper :
      {A : Type 0} (b : Bool) (x y : A × Program V W)
      → IsKeeper x.1.keeper
      → (b ≡ false → IsKeeper y.1.keeper)
      → IsKeeper (if b then x else y).1.keeper
  unless-IsKeeper true x y h f = h
  unless-IsKeeper false x y h f = f refl

  pub call-IsKeeper :
      (c : Call V W) (p : Program V W) → IsKeeper p.keeper → IsKeeper (call c p).keeper
  unfolding get_or_create put destroy clear destroy_all
  call-IsKeeper (to_get_or_create j u create) p h =
      unless-IsKeeper p.keeper.destroyed _ _ h
        (existing_or-IsKeeper j u create (Map.get j p.keeper.instances) p h)
  call-IsKeeper (to_put j u v) p h = unless-IsKeeper p.keeper.destroyed _ _ h (λ o.
      unless-IsKeeper (contains_key j p.keeper.instances) _ _ h
        (λ free. retain-IsKeeper j u v p.world p h o))
  call-IsKeeper (to_remove j u) p h = remove-IsKeeper j u p.keeper h
  call-IsKeeper (to_destroy j) p h = removed-IsKeeper j p.keeper h
  call-IsKeeper to_clear p h = (tt, λ e. refl)
  call-IsKeeper to_destroy_all p h = destroy_all-IsKeeper p.keeper h

  pub calls-IsKeeper :
      (cs : List (Call V W)) (p : Program V W) → IsKeeper p.keeper → IsKeeper (calls cs p).keeper
  calls-IsKeeper [] p h = h
  calls-IsKeeper (c ∷ cs) p h = calls-IsKeeper cs (call c p) (call-IsKeeper c p h)
