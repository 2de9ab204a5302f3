-- ===== src/Transact/Embedded.antt =====
-- src/device.rs: the objects that an outgoing transaction carries, marked before it is sent and
-- unmarked when that fails.
pub mod Credits
pub mod Exact
use binderbinder.Base.{
  ℕ, ◌+◌, Bool, Option, none, some, List, [], ◌∷◌, ◌==◌, if◌then◌else◌, Run, ok, panic, Cmd, pure,
  ◌>>=◌, ◌>>◌,
}
use binderbinder.Base.Bytes.{slice, from_bytes}
use binderbinder.Sys.Structs.{FlatObject, read_flat}
use binderbinder.Sys.ObjectType
use binderbinder.Sys.Layout.{binder_object_header, flat_binder_object}
use binderbinder.Refcount.{ObjectId, mark_pending_remote, clear_pending_remote}
use binderbinder.Device.{Device, Outgoing, on_refcount}

-- The turn for one offset: outer `none` is a panic, inner `none` another type of object.
unfoldable pub embedded_at : List ℕ → ℕ → Option (Option ObjectId)
unfolding slice from_bytes read_flat binder_object_header flat_binder_object
embedded_at main_data offset = elim (slice main_data offset binder_object_header.size) [
  | none ↦ none
  | some header ↦
      if from_bytes header == ObjectType.binder
      then (elim (slice main_data offset flat_binder_object.size) [
        | none ↦ none
        | some bytes ↦
            let o = read_flat bytes in some (some (record { id = o.bits; cookie = o.cookie }))
      ])
      else some none
]

unfoldable pub for_each_at :
    (ObjectId → Cmd Device (Unit {0})) → List ℕ → List ℕ → Cmd Device (Unit {0})
unfolding embedded_at
for_each_at f main_data [] d = ok tt d
for_each_at f main_data (offset ∷ offsets) d = elim (embedded_at main_data offset) [
  | none ↦ panic d
  | some none ↦ for_each_at f main_data offsets d
  | some (some id) ↦ (f id >> for_each_at f main_data offsets) d
]

-- `for_each_embedded_binder_object`.
unfoldable pub for_each_embedded_binder_object :
    Outgoing → (ObjectId → Cmd Device (Unit {0})) → Cmd Device (Unit {0})
unfolding for_each_at
for_each_embedded_binder_object t f = for_each_at f t.payload t.offsets

module _ (checks : Bool) where
  unfoldable pub mark_objects_as_pending_remote : Outgoing → Cmd Device (Unit {0})
  unfolding for_each_embedded_binder_object on_refcount
  mark_objects_as_pending_remote t =
      for_each_embedded_binder_object t λ id. on_refcount (mark_pending_remote checks) id >> pure tt

  unfoldable pub unmark_objects_as_pending_remote : Outgoing → Cmd Device (Unit {0})
  unfolding for_each_embedded_binder_object on_refcount
  unmark_objects_as_pending_remote t =
      for_each_embedded_binder_object t
        λ id. on_refcount (clear_pending_remote checks) id >> pure tt
