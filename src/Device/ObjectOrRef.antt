-- ===== src/Device/ObjectOrRef.antt =====
-- src/binder_object.rs: `BinderObjectOrRef`, which a payload carries, and its flat form. A ref is the
-- address of its allocation.
use binderbinder.Base.{ℕ, Bool, true, Cmd, pure, ◌>>=◌}
use binderbinder.Refcount.{ObjectId}
use binderbinder.Sys.Structs.{FlatObject, with_low}
use binderbinder.Sys.ObjectType
use binderbinder.Device.{Device}
use binderbinder.Device.Driver.{Driver}
use binderbinder.Device.Objects.{Borrowed, clone_borrowed, drop_borrowed}
use binderbinder.Device.Handles.{retain_ref, retain_weak, drop_weak, is_alive}
use binderbinder.Device.Handles

pub data BinderObjectOrRef : Type 0 where
  object : Borrowed → BinderObjectOrRef
  weak_object : ObjectId → BinderObjectOrRef
  ref weak_ref : ℕ → BinderObjectOrRef

-- `FlatBinderFlags::ACCEPTS_FDS`.
abbrev pub accepts_fds : ℕ
accepts_fds = 0x100

-- `get_flat_binder_object`, of each of the four.
unfoldable pub get_flat_binder_object : Driver → Device → BinderObjectOrRef → FlatObject
get_flat_binder_object driver d (object b) = record {
  type_ = ObjectType.binder;
  flags = accepts_fds;
  bits = b.id.id;
  cookie = b.id.cookie;
}
get_flat_binder_object driver d (weak_object id) = record {
  type_ = ObjectType.weak_binder;
  flags = accepts_fds;
  bits = id.id;
  cookie = id.cookie;
}
get_flat_binder_object driver d (ref a) = record {
  type_ = ObjectType.handle;
  flags = accepts_fds;
  bits = with_low driver.padding (d.weak_cells (d.ref_cells a).weak).handle;
  cookie = 0;
}
get_flat_binder_object driver d (weak_ref a) = record {
  type_ = ObjectType.weak_handle;
  flags = accepts_fds;
  bits = with_low driver.padding (d.weak_cells a).handle;
  cookie = 0;
}

-- `alive`.
unfoldable pub alive : Device → BinderObjectOrRef → Bool
alive d (object b) = true
alive d (weak_object id) = true
alive d (ref a) = is_alive (d.ref_cells a).weak d
alive d (weak_ref a) = is_alive a d

module _ (driver : Driver) where
  -- `to_binder_object_or_ref`, which is also what `clone` does.
  unfoldable pub clone : BinderObjectOrRef → Cmd Device BinderObjectOrRef
  clone (object b) = clone_borrowed driver.checks b >>= λ c. pure (object c)
  clone (weak_object id) = pure (weak_object id)
  clone (ref a) = retain_ref a >>= λ b. pure (ref b)
  clone (weak_ref a) = retain_weak a >>= λ b. pure (weak_ref b)

  -- The drop of the value.
  unfoldable pub drop_either : BinderObjectOrRef → Cmd Device (Unit {0})
  drop_either (object b) = drop_borrowed driver.checks b
  drop_either (weak_object id) = pure tt
  drop_either (ref a) = Handles.drop_ref driver a
  drop_either (weak_ref a) = drop_weak driver a
