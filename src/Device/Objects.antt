-- ===== src/Device/Objects.antt =====
-- src/binder_object.rs: the local side. `BinderObject`, `BorrowedBinderObject`, `BinderObjectRef`
-- and `WeakBinderObject`, with the registration of src/device.rs. A handle is a value, and its
-- `Drop` a function; a test of refs going to zero is the current value of the `watch`.
pub mod Raised
pub mod Downcast
pub mod Guards
pub mod Ledger
pub mod Service
pub mod Waits
use binderbinder.Base.{
  ℕ, ◌+◌, ◌%◌, Bool, true, false, not, ◌||◌, Option, none, some, ◌==◌, if◌then◌else◌, Run, ok,
  panic, Cmd, pure, fail, ◌>>=◌, ◌>>◌, Map, insert, remove,
}
use binderbinder.Base.Words.{usize_mod}
use binderbinder.Refcount.{ObjectId, ObjectRefState, new, increase_local, decrease_local, hit_zero}
use binderbinder.Device.{Device, Handler, same_id, on_refcount}

-- `BinderObject<T>`, the registration itself.
pub record BinderObject : Type 0 where
  pub id : ObjectId
  pub handler : Handler

-- `BorrowedBinderObject`, a strong ref that may have found no refcount to raise.
pub record Borrowed : Type 0 where
  pub id : ObjectId
  pub handler : Handler
  pub increased_local_ref : Bool

-- `BinderObjectRef<H>`, the typed strong ref.
pub record ObjectRef : Type 0 where
  pub id : ObjectId
  pub handler : Handler

-- `register_object`: `fetch_add` wraps.
unfoldable pub register_object : Handler → Cmd Device BinderObject
unfolding new
register_object handler d =
    let id : ObjectId = record { id = d.object_id_counter; cookie = 0 } in
    ok (record { id = id; handler = handler })
      (record d {
        object_id_counter = (d.object_id_counter + 1) % usize_mod;
        objects = insert (same_id id) handler d.objects;
        object_refcounts = insert (same_id id) (new id) d.object_refcounts;
      })

-- `remove_binder_object`, which is all that `BinderObject`'s `Drop` does.
unfoldable pub remove_binder_object : ObjectId → Cmd Device (Unit {0})
remove_binder_object id d = ok tt (record d {
  objects = remove (same_id id) d.objects;
  object_refcounts = remove (same_id id) d.object_refcounts;
})

module _ (checks : Bool) where
  module _ (id : ObjectId) (handler : Handler) where
    -- The tail of `clone`, `from_id` and `to_binder_object_or_ref`.
    pub borrow : Cmd Device Borrowed
    unfolding on_refcount
    borrow = do
      increased ← on_refcount (increase_local checks) id
      pure (record { id = id; handler = handler; increased_local_ref = increased })

  unfoldable pub borrow_from_id : ObjectId → Cmd Device (Option Borrowed)
  unfolding borrow
  borrow_from_id id d = elim (d.objects id) [
    | none ↦ ok none d
    | some handler ↦ (borrow id handler >>= λ b. pure (some b)) d
  ]

  unfoldable pub clone_borrowed : Borrowed → Cmd Device Borrowed
  unfolding borrow
  clone_borrowed b = borrow b.id b.handler

  unfoldable pub drop_borrowed : Borrowed → Cmd Device (Unit {0})
  unfolding on_refcount
  drop_borrowed b =
      if b.increased_local_ref
      then (on_refcount (decrease_local checks) b.id >> pure tt)
      else pure tt

  -- `BinderObject::to_binder_object_or_ref`.
  unfoldable pub object_to_borrowed : BinderObject → Cmd Device Borrowed
  unfolding borrow
  object_to_borrowed o = borrow o.id o.handler

  -- The tail of `from_id`: without refcounts there is no ref.
  counted_ref : ObjectId → Handler → Bool → Cmd Device (Option ObjectRef)
  counted_ref id handler true = pure (some (record { id = id; handler = handler }))
  counted_ref id handler false = pure none

  -- `BinderObjectRef::<H>::from_id`, where `type_id` is that of `H`.
  unfoldable pub ref_from_id : ℕ → ObjectId → Cmd Device (Option ObjectRef)
  unfolding counted_ref on_refcount
  ref_from_id type_id id d = elim (d.objects id) [
    | none ↦ ok none d
    | some handler ↦
        (if handler.type_id == type_id
            then on_refcount (increase_local checks) id >>= counted_ref id handler
            else pure none)
          d
  ]

  unfoldable pub clone_ref : ObjectRef → Cmd Device ObjectRef
  unfolding on_refcount
  clone_ref r = on_refcount (increase_local checks) r.id >> pure r

  unfoldable pub drop_ref : ObjectRef → Cmd Device (Unit {0})
  unfolding on_refcount
  drop_ref r = on_refcount (decrease_local checks) r.id >> pure tt

  -- `as_erased`, with its `expect`.
  unfoldable pub as_erased : ObjectRef → Cmd Device Borrowed
  unfolding borrow_from_id
  as_erased r = do b ← borrow_from_id r.id; (elim b [ none ↦ fail | some b ↦ pure b ])
