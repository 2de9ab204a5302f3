-- ===== src/Device/Objects/Service/Race.antt =====
-- src/binder_object.rs: the clean-up task of `to_service` looks at the count, and then removes the
-- object, with nothing to keep another thread from taking a ref in between.
use binderbinder.Base.{◌≡◌, Bool, true, none, some, ok, arith}
use binderbinder.Device.{Device, Handler, same_id_self}
use binderbinder.Device.Objects.{Borrowed, borrow, borrow_from_id}
use binderbinder.Device.Objects.Service.{is_over, release_service}
use binderbinder.Device.Objects.Service.Lifecycle.{
  next_id, IsFresh, used, serving, task, raise_lem, over_zero, release_lem,
}

module _ (checks : Bool) (d : Device) (h : Handler) where
  abbrev pub upgraded : Borrowed
  upgraded = record { id = next_id d; handler = h; increased_local_ref = true }

  upgrade_lem :
      borrow_from_id checks (next_id d) (serving d h 0) ≡ ok (some upgraded) (serving d h 1)
  unfolding borrow_from_id borrow
  upgrade_lem =
      rw (same_id_self (next_id d), borrow_from_id, borrow, raise_lem checks d h 0 (omega arith))

  -- The count of a service is zero, and the task has seen it. If a `WeakBinderObject` is upgraded
  -- before the task goes on, the upgrade succeeds and counts, and the task then removes the object
  -- all the same: the new strong ref is live, and no handler is found under its id.
  pub late_upgrade_lost :
      IsFresh d
      → (is_over (task checks d h) (serving d h 0) ≡ true)
        × (borrow_from_id checks (next_id d) (serving d h 0) ≡ ok (some upgraded) (serving d h 1))
        × (release_service (next_id d) (serving d h 1) ≡ ok tt (used d))
        × ((used d).objects upgraded.id ≡ none)
  late_upgrade_lost f = (over_zero checks d h, upgrade_lem, release_lem checks d h 1 f, f.objects)
