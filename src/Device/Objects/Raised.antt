-- ===== src/Device/Objects/Raised.antt =====
-- src/device.rs: one more local ref to a counted object, on the device.
use binderbinder.Base.{◌+◌, ◌<◌, ◌≡◌, refl, Bool, true, some, ok, insert, arith}
use binderbinder.Base.Words.{u32_mod}
use binderbinder.Refcount.{ObjectId, ObjectRefState, increase_local}
use binderbinder.Refcount.History.{IsSound, sum, up_local, call, call-effect, after}
use binderbinder.Device.{Device, same_id, on_refcount}

abbrev pub raised : ObjectId → ObjectRefState → Device → Device
raised id r d = record d {
  object_refcounts = insert (same_id id) (after up_local r) d.object_refcounts;
}

pub counted-up :
    (checks : Bool) (id : ObjectId) (r : ObjectRefState) (d : Device)
    → d.object_refcounts id ≡ some r
    → IsSound r
    → sum r.counts + 1 < u32_mod
    → on_refcount (increase_local checks) id d ≡ ok true (raised id r d)
unfolding on_refcount call
counted-up checks id r d e sound room =
    rw (on_refcount, e, call-effect checks up_local r sound (omega (arith, room))) refl
