-- ===== src/Device/Objects/Service.antt =====
-- src/binder_object.rs: `to_service`, and the task that it spawns, which removes the object once its
-- strong count is zero. The task looks at the count and removes the object in two steps.
pub mod Lifecycle
pub mod Race
use binderbinder.Base.{
  ℕ, Bool, true, false, not, ◌||◌, Option, none, some, ◌==◌, if◌then◌else◌, Run, ok, panic, Cmd,
  pure, fail, ◌>>=◌, ◌>>◌, insert, remove, ◌≡◌, refl, ==_refl,
}
use binderbinder.Refcount.{ObjectId, ObjectRefState, increase_local, hit_zero}
use binderbinder.Device.{Device, Handler, same_id, on_refcount}
use binderbinder.Device.Objects.{
  BinderObject, ObjectRef, remove_binder_object, ref_from_id, counted_ref,
}

-- The spawned task: its object, and whether there was a count to watch when it was made.
pub record Cleanup : Type 0 where
  pub id : ObjectId
  pub watching : Bool

abbrev pub retained : BinderObject → Device → Device
retained o d = record d { retained_services = insert (same_id o.id) o.handler d.retained_services }

-- `retained_services.insert`: a guard that it replaces is dropped.
pub retain : BinderObject → Cmd Device (Unit {0})
unfolding remove_binder_object
retain o d = elim (d.retained_services o.id) [
  | none ↦ ok tt (retained o d)
  | some old ↦ remove_binder_object o.id (retained o d)
]

pub watch : ObjectId → Cmd Device Cleanup
watch id d =
    ok
      (record { id = id; watching = elim (d.object_refcounts id) [ none ↦ false | some r ↦ true ] })
      d

pub expect : {A : Type 0} → Option A → Cmd Device A
expect none = fail
expect (some a) = pure a

unfoldable pub to_service : Bool → BinderObject → Cmd Device (ObjectRef × Cleanup)
unfolding retain watch expect ref_from_id
to_service checks o = do
  retain o
  found ← ref_from_id checks o.handler.type_id o.id
  r ← expect found
  c ← watch o.id
  pure (r, c)

-- `wait_for(|count| *count == 0)` is over: at zero, or if the watched object is gone.
unfoldable pub is_over : Cleanup → Device → Bool
unfolding hit_zero
is_over c d = not c.watching || elim (d.object_refcounts c.id) [ none ↦ true | some r ↦ hit_zero r ]

-- `retained_services.remove`, which drops the guard that it held.
unfoldable pub release_service : ObjectId → Cmd Device (Unit {0})
unfolding remove_binder_object
release_service id d = elim (d.retained_services id) [
  | none ↦ ok tt d
  | some h ↦
      remove_binder_object id
        (record d { retained_services = remove (same_id id) d.retained_services })
]

-- One turn of the task with nothing in between; the answer is whether it has finished.
unfoldable pub poll : Cleanup → Cmd Device Bool
unfolding is_over release_service
poll c d = if is_over c d then (release_service c.id >> pure true) d else ok false d

-- `to_service` of an object that is registered and counted, and not a service.
pub to_service_steps :
    (checks : Bool) (o : BinderObject) (d u : Device) (r : ObjectRefState)
    → d.retained_services o.id ≡ none
    → d.objects o.id ≡ some o.handler
    → on_refcount (increase_local checks) o.id (retained o d) ≡ ok true u
    → u.object_refcounts o.id ≡ some r
    → to_service checks o d
      ≡ ok (record { id = o.id; handler = o.handler }, record { id = o.id; watching = true }) u
unfolding to_service counted_ref
to_service_steps checks o d u r unserved object raised counted =
    rw (unserved, retain, object, ref_from_id, ==_refl o.handler.type_id, raised, counted, watch)

pub release_found :
    (id : ObjectId) (d : Device) (h : Handler)
    → d.retained_services id ≡ some h
    → release_service id d
      ≡ ok tt (record d {
        retained_services = remove (same_id id) d.retained_services;
        objects = remove (same_id id) d.objects;
        object_refcounts = remove (same_id id) d.object_refcounts;
      })
unfolding release_service
release_found id d h e = rw (e, release_service)
