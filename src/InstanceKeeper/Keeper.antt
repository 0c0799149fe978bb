-- ===== src/InstanceKeeper/Keeper.antt =====
-- crates/essenty-instance-keeper/src/keeper.rs and error.rs. An `Rc<dyn Any>` is the address of its
-- allocation, the id of the type behind it and the value; two clones of one `Rc` are equal, and two
-- allocations differ in the address.
use essenty.Common.{
  ℕ, Bool, true, false, Option, none, some, List, [], if◌then◌else◌, ◌==◌, ◌+◌, length,
}
use essenty.Common.Results.{Result, ok, err}
use essenty.Common.Order.{bytes_ord}
use essenty.Common.Map.{Map, insert, contains_key}
use essenty.Common.Map

abbrev pub Text : Type 0
Text = List ℕ

pub data InstanceKeeperError : Type 0 where
  type_mismatch : Text → InstanceKeeperError
  duplicate_key : Text → InstanceKeeperError
  destroyed : InstanceKeeperError

pub record Rc (V : Type 0) : Type 0 where
  pub address : ℕ
  pub type_id : ℕ
  pub value : V

pub record InstanceKeeper (V : Type 0) : Type 0 where
  pub instances : Map Text (Rc V)
  pub destroyed : Bool

-- A keeper among what its callers' factories change, and the allocator's next address.
pub record Program (V W : Type 0) : Type 0 where
  pub keeper : InstanceKeeper V
  pub world : W
  pub next : ℕ

-- `Rc::downcast::<T>`, with the id of `T`.
abbrev pub downcast : {V : Type 0} → ℕ → Rc V → Option (Rc V)
downcast t rc = if rc.type_id == t then some rc else none

abbrev pub or_mismatch : {A : Type 0} → Text → Option A → Result InstanceKeeperError A
or_mismatch key none = err (type_mismatch key)
or_mismatch key (some a) = ok a

abbrev pub found_as :
    {V : Type 0} → Text → ℕ → Option (Rc V) → Result InstanceKeeperError (Option (Rc V))
found_as key t none = ok none
found_as key t (some rc) = or_mismatch key (if rc.type_id == t then some (some rc) else none)

module _ {V : Type 0} where
  unfoldable pub new : InstanceKeeper V
  new = record { instances = []; destroyed = false }

  abbrev pub len : InstanceKeeper V → ℕ
  len k = length k.instances

  abbrev pub contains : Text → InstanceKeeper V → Bool
  contains key k = contains_key key k.instances

  abbrev pub get : Text → ℕ → InstanceKeeper V → Result InstanceKeeperError (Option (Rc V))
  get key t k = found_as key t (Map.get key k.instances)

  -- `remove` takes the entry out before it looks at the type, and puts it back on a mismatch.
  abbrev pub put_back : Text → ℕ → Option (Rc V) → InstanceKeeper V → InstanceKeeper V
  put_back key t none k = k
  put_back key t (some rc) k =
      if rc.type_id == t then k else record k { instances = insert key rc k.instances }

  unfoldable pub remove :
      Text → ℕ → InstanceKeeper V → Result InstanceKeeperError (Option (Rc V)) × InstanceKeeper V
  remove key t k =
      let existing = Map.get key k.instances in
      (
        found_as key t existing,
        put_back key t existing (record k { instances = Map.remove key k.instances }),
      )

  unfoldable pub destroy : Text → InstanceKeeper V → Bool × InstanceKeeper V
  destroy key k = (contains key k, record k { instances = Map.remove key k.instances })

  unfoldable pub clear : InstanceKeeper V → InstanceKeeper V
  clear k = record k { instances = [] }

  unfoldable pub destroy_all : InstanceKeeper V → InstanceKeeper V
  destroy_all k = if k.destroyed then k else clear (record k { destroyed = true })

module _ {V W : Type 0} where
  -- `Rc::new` and the insertion of a clone.
  abbrev pub retain :
      Text → ℕ → V → W → Program V W → Result InstanceKeeperError (Rc V) × Program V W
  retain key t v w p =
      let rc : Rc V = record { address = p.next; type_id = t; value = v } in
      (
        ok rc,
        record p {
          keeper = record p.keeper { instances = insert key rc p.keeper.instances };
          world = w;
          next = 1 + p.next;
        },
      )

  abbrev pub existing_or :
      Text
      → ℕ
      → (W → V × W)
      → Option (Rc V)
      → Program V W
      → Result InstanceKeeperError (Rc V) × Program V W
  existing_or key t create none p = let made = create p.world in retain key t made.0 made.1 p
  existing_or key t create (some rc) p = (or_mismatch key (downcast t rc), p)

  unfoldable pub get_or_create :
      Text → ℕ → (W → V × W) → Program V W → Result InstanceKeeperError (Rc V) × Program V W
  get_or_create key t create p =
      if p.keeper.destroyed
      then (err destroyed, p)
      else existing_or key t create (Map.get key p.keeper.instances) p

  unfoldable pub put : Text → ℕ → V → Program V W → Result InstanceKeeperError (Rc V) × Program V W
  put key t v p =
      if p.keeper.destroyed
      then (err destroyed, p)
      else if contains key p.keeper
      then (err (duplicate_key key), p)
      else retain key t v p.world p
