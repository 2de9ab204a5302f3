-- ===== src/Payload/Reader/Ends.antt =====
-- src/payload.rs: how a reader begins (`from_kernel_raw`, `from_builder`) and ends (its `Drop`).
use binderbinder.Base.{
  ℕ, zero, suc, ◌+◌, ◌/◌, ◌^◌, ◌==◌, Bool, true, false, Option, none, some, List, [], ◌∷◌, ◌++◌,
  if◌then◌else◌, length, take, drop, ok, Cmd, pure, ◌>>=◌, ◌>>◌,
}
use binderbinder.Base.Bytes.{slice, from_bytes}
use binderbinder.Sys.Structs.{read_flat, flat_bytes, low_half, with_low}
use binderbinder.Sys.Layout.{binder_object_header, binder_fd_object}
use binderbinder.Device.{free_buffer}
use binderbinder.Device.Driver.{Driver, write_command}
use binderbinder.Device.ObjectOrRef.{BinderObjectOrRef, drop_either}
use binderbinder.Payload.Builder.{PayloadBuilder}
use binderbinder.Payload.Reader.{
  PayloadReader, Reading, with_reader, on_device, Result, success, failure, BinderObjectType,
  binder_object, weak_binder_object, binder_ref, weak_binder_ref, fd, fd_array, buffer, object_type,
  next_object_type, read_binder_ref, read_fd,
}

-- `from_kernel_raw`: what is mapped at the two pointers.
unfoldable pub from_kernel_raw : Driver → ℕ → ℕ → ℕ → ℕ → PayloadReader
from_kernel_raw driver data_ptr data_len offsets_ptr offsets_len = record {
  data_ = driver.memory data_ptr data_len;
  mapped = some data_ptr;
  offsets = if offsets_ptr == 0 then none else some (driver.words offsets_ptr offsets_len);
  binder_objects = [];
  next_offset_index = 0;
  next_data_index = 0;
}

-- `bytes` with those at the offset replaced.
unfoldable pub splice : ℕ → List ℕ → List ℕ → List ℕ
splice offset new bytes = take offset bytes ++ (new ++ drop (offset + length new) bytes)

unfoldable pub bind_option : {A B : Type 0} → Option A → (A → Option B) → Option B
bind_option none f = none
bind_option (some a) f = f a

-- The turn of `from_builder` for one offset. `dup` is `try_clone_to_owned`, which is asked at some moment:
-- it may give another number each time, or refuse. `none` is a panic: a slice out of range, a refused
-- `dup`, or a `todo!`.
module _ (dup : ℕ → ℕ → Option ℕ) where
  unfoldable pub clone_fd : ℕ → ℕ → List ℕ → Option (List ℕ)
  clone_fd moment offset bytes = elim (slice bytes offset binder_fd_object.size) [
    | none ↦ none
    | some fd_bytes ↦
        let o = read_flat fd_bytes in
        elim (dup moment (low_half o.bits)) [
          | none ↦ none
          | some new_fd ↦ some (
              splice offset (flat_bytes (record o { bits = with_low (o.bits / 2 ^ 32) new_fd }))
                bytes)
        ]
  ]

  unfoldable pub clone_object : Option BinderObjectType → ℕ → ℕ → List ℕ → Option (List ℕ)
  unfolding clone_fd
  clone_object (some fd) moment offset bytes = clone_fd moment offset bytes
  clone_object (some fd_array) moment offset bytes = none
  clone_object (some buffer) moment offset bytes = none
  clone_object (some binder_object) moment offset bytes = some bytes
  clone_object (some weak_binder_object) moment offset bytes = some bytes
  clone_object (some binder_ref) moment offset bytes = some bytes
  clone_object (some weak_binder_ref) moment offset bytes = some bytes
  clone_object none moment offset bytes = some bytes

  -- Each turn is a moment.
  unfoldable pub clone_objects : ℕ → List ℕ → List ℕ → Option (List ℕ)
  unfolding bind_option slice clone_object object_type binder_object_header
  clone_objects moment [] bytes = some bytes
  clone_objects moment (offset ∷ offsets) bytes =
      bind_option (slice bytes offset binder_object_header.size) λ header.
        bind_option (clone_object (object_type (from_bytes header)) moment offset bytes)
          (clone_objects (suc moment) offsets)

  -- The clones of the builder's objects are made before, by `clone_all`.
  unfoldable pub from_builder : ℕ → PayloadBuilder → List BinderObjectOrRef → Option PayloadReader
  unfolding bind_option clone_objects
  from_builder moment b objects = bind_option (clone_objects moment b.obj_offsets b.data_) λ bytes.
      some (record {
        data_ = bytes;
        mapped = none;
        offsets = some b.obj_offsets;
        binder_objects = objects;
        next_offset_index = 0;
        next_data_index = 0;
      })

module _ (driver : Driver) where
  -- `self.next_offset_index += 1`.
  unfoldable pub skip : Cmd Reading (Unit {0})
  skip s =
      ok tt (with_reader (record s.reader { next_offset_index = s.reader.next_offset_index + 1 }) s)

  -- The result of `read_binder_ref`, dropped at the end of the turn.
  unfoldable pub discard : Result BinderObjectOrRef → Cmd Reading (Unit {0})
  unfolding on_device skip
  discard (success v) = on_device (drop_either driver v)
  discard (failure e) = skip

  -- One turn of the loop of `drop`.
  unfoldable pub drain : BinderObjectType → Cmd Reading (Unit {0})
  unfolding discard
  drain binder_object = read_binder_ref driver >>= discard
  drain weak_binder_object = read_binder_ref driver >>= discard
  drain binder_ref = read_binder_ref driver >>= discard
  drain weak_binder_ref = read_binder_ref driver >>= discard
  drain fd = read_fd >> pure tt
  drain fd_array = pure tt
  drain buffer = pure tt

  -- The loop; `false` is that the fuel ran out.
  unfoldable pub drain_all : ℕ → Cmd Reading Bool
  unfolding drain
  drain_all zero = pure false
  drain_all (suc fuel) = do
    next ← next_object_type
    (elim next [ none ↦ pure true | some t ↦ drain t >> drain_all fuel ])

  drop_each : List BinderObjectOrRef → Cmd Reading (Unit {0})
  unfolding on_device
  drop_each [] = pure tt
  drop_each (o ∷ os) = on_device (drop_either driver o) >> drop_each os

  unfoldable pub free : Cmd Reading (Unit {0})
  unfolding on_device write_command
  free s = elim s.reader.mapped [
    | none ↦ ok tt s
    | some address ↦ on_device (write_command driver (free_buffer address)) s
  ]

  -- `Drop`, and then the drop of the fields.
  unfoldable pub drop_reader : ℕ → Cmd Reading Bool
  unfolding drain_all free drop_each
  drop_reader fuel = do
    ended ← drain_all fuel
    (if ended
        then (free >> (λ s. drop_each s.reader.binder_objects s) >> pure true)
        else pure false)
