-- ===== src/Payload/Builder.antt =====
-- src/payload.rs: `PayloadBuilder`. The lifetime of what is borrowed is not represented.
use binderbinder.Base.{ℕ, zero, suc, ◌%◌, List, [], ◌∷◌, ◌++◌, ◌==◌, if◌then◌else◌, length}
use binderbinder.Sys.Structs.{FlatObject, flat_bytes, encode, with_low}
use binderbinder.Sys.ObjectType
use binderbinder.Sys.Layout.{
  flat_binder_object, binder_fd_object, binder_buffer_object, binder_fd_array_object,
}
use binderbinder.Device.{Device}
use binderbinder.Device.Driver.{Driver}
use binderbinder.Device.ObjectOrRef.{BinderObjectOrRef, get_flat_binder_object}

pub record PayloadBuilder : Type 0 where
  pub data_ : List ℕ
  pub obj_offsets : List ℕ
  pub owned_fds : List ℕ
  pub binder_objects : List BinderObjectOrRef

-- `new`.
abbrev pub blank : PayloadBuilder
blank = record { data_ = []; obj_offsets = []; owned_fds = []; binder_objects = [] }

-- The loop of `align`, on fuel: `a` turns are enough.
unfoldable pub pad : ℕ → ℕ → List ℕ → List ℕ
pad zero a bytes = bytes
pad (suc fuel) a bytes =
    let rest = pad fuel a (bytes ++ (0 ∷ [])) in if length bytes % a == 0 then bytes else rest

unfoldable pub align : ℕ → PayloadBuilder → PayloadBuilder
unfolding pad
align a b = record b { data_ = pad a a b.data_ }

unfoldable pub push_bytes : List ℕ → PayloadBuilder → PayloadBuilder
push_bytes bytes b = record b { data_ = b.data_ ++ bytes }

-- The end of each of the functions that push an object: its offset, and its bytes.
unfoldable pub push_object : ℕ → List ℕ → PayloadBuilder → PayloadBuilder
unfolding align
push_object a bytes b =
    let b' = align a b in
    record b' { obj_offsets = b'.obj_offsets ++ (length b'.data_ ∷ []); data_ = b'.data_ ++ bytes }

module _ (driver : Driver) where
  -- The object that `to_binder_object_or_ref` made.
  unfoldable pub push_binder_ref : Device → BinderObjectOrRef → PayloadBuilder → PayloadBuilder
  unfolding push_object flat_binder_object
  push_binder_ref d port b =
      let b' =
        push_object flat_binder_object.align (flat_bytes (get_flat_binder_object driver d port))
          b in
      record b' { binder_objects = b'.binder_objects ++ (port ∷ []) }

  unfoldable pub fd_object : ℕ → ℕ → FlatObject
  fd_object fd cookie = record {
    type_ = ObjectType.fd;
    flags = 0;
    bits = with_low driver.padding fd;
    cookie = cookie;
  }

  unfoldable pub push_fd : ℕ → ℕ → PayloadBuilder → PayloadBuilder
  unfolding push_object binder_fd_object fd_object
  push_fd fd cookie = push_object binder_fd_object.align (flat_bytes (fd_object fd cookie))

  unfoldable pub push_owned_fd : ℕ → ℕ → PayloadBuilder → PayloadBuilder
  unfolding push_object binder_fd_object fd_object
  push_owned_fd fd cookie b =
      let b' = push_object binder_fd_object.align (flat_bytes (fd_object fd cookie)) b in
      record b' { owned_fds = b'.owned_fds ++ (fd ∷ []) }

-- `push_buffer` has 0 for both, `push_child_buffer` the arguments. A buffer is its address and
-- length. The value is the offset.
unfoldable pub push_child_buffer : ℕ → ℕ → ℕ → ℕ → PayloadBuilder → ℕ × PayloadBuilder
unfolding align push_object binder_buffer_object
push_child_buffer address len parent parent_ptr_offset b = (
  length (align binder_buffer_object.align b).data_,
  push_object binder_buffer_object.align
      (encode (
        (4, ObjectType.ptr)
        ∷ (4, 0)
        ∷ (8, address)
        ∷ (8, len)
        ∷ (8, parent)
        ∷ (8, parent_ptr_offset)
        ∷ []))
      b,
)

unfoldable pub push_buffer : ℕ → ℕ → PayloadBuilder → ℕ × PayloadBuilder
unfolding push_child_buffer
push_buffer address len = push_child_buffer address len 0 0

unfoldable pub push_fd_array : ℕ → ℕ → ℕ → PayloadBuilder → PayloadBuilder
unfolding push_object binder_fd_array_object
push_fd_array num_fds parent parent_ptr_offset = push_object binder_fd_array_object.align (
    encode
      ((4, ObjectType.fda) ∷ (4, 0) ∷ (8, num_fds) ∷ (8, parent) ∷ (8, parent_ptr_offset) ∷ []))
