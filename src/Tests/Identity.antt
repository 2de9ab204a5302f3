-- ===== src/Tests/Identity.antt =====
-- Concrete runs of the comparison and the downcasts of local objects.
use binderbinder.Base.{ℕ, ◌+◌, ◌<◌, false, ◌≡◌, ◌↔◌, ◌≢◌, ◌⊎◌, true, none, some, ok, insert, arith}
use binderbinder.Tests.{driver, first_id, handler}
use binderbinder.Refcount.{ObjectRefState, new}
use binderbinder.Refcount.History.{IsSound, sum}
use binderbinder.Base.Words.{u32_mod}
use binderbinder.Device.{Device, Handler, same_id, opened}
use binderbinder.Device.Objects.{Borrowed}
use binderbinder.Device.Objects.Downcast.{downcast, downcast_handler, Registered, downcast_lem}
use binderbinder.Device.Objects.Raised.{raised}
use binderbinder.Device.ObjectOrRef.{object, get_flat_binder_object}
use binderbinder.Device.Identity.{eq, hash, eq_lem}

abbrev borrowed : Borrowed
borrowed = record { id = first_id; handler = handler; increased_local_ref = true }

-- A ref that found no refcount, to the same object.
abbrev uncounted : Borrowed
uncounted = record borrowed { increased_local_ref = false }

abbrev address : ℕ
address = 64

abbrev heap : ℕ → Device
heap p = opened

eq_lem_example :
    ((eq heap address address (object borrowed) (object uncounted) ≡ true) ↔ (
      (address ≡ address)
      × (get_flat_binder_object driver opened (object borrowed)
          ≡ get_flat_binder_object driver opened (object uncounted))))
    × ((eq heap address address (object borrowed) (object uncounted) ≡ true)
        ↔ (hash heap address (object borrowed) ≡ hash heap address (object uncounted)))
eq_lem_example = eq_lem heap driver address address (object borrowed) (object uncounted)

abbrev registered : Device
registered = record opened {
  objects = insert (same_id first_id) handler opened.objects;
  object_refcounts = insert (same_id first_id) (new first_id) opened.object_refcounts;
}

room :
    (r : ObjectRefState)
    → registered.object_refcounts first_id ≡ some r
    → IsSound r × (sum r.counts + 1 < u32_mod)
unfolding new
room r e = ground (arith, e)

downcast_lem_example :
    ((h : Handler) × (r : ObjectRefState) × Registered first_id h r registered
      × (h.type_id ≡ 3)
      × (downcast true 3 borrowed registered
          ≡ ok (some (record { id = first_id; handler = h })) (raised first_id r registered))
      × (handler ≡ h → downcast_handler 3 borrowed ≡ some h))
    ⊎ ((downcast true 3 borrowed registered ≡ ok none registered)
        × ((h : Handler) (r : ObjectRefState) → Registered first_id h r registered → h.type_id ≢ 3))
downcast_lem_example = downcast_lem true 3 borrowed registered room
