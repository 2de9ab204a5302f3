-- ===== src/Payload/Reader.antt =====
-- src/payload.rs: `PayloadReader`.
pub mod Ends
pub mod Reads
pub mod Drain
pub mod Ending
use binderbinder.Base.{
  ℕ, zero, suc, ◌+◌, ◌-◌, ◌%◌, Bool, true, false, ◌&&◌, ◌||◌, not, Option, none, some, List, [],
  ◌∷◌, ◌++◌, ◌==◌, ltb, leb, if◌then◌else◌, length, get_elem?, Run, ok, panic, Cmd, pure, fail,
  ◌>>=◌, ◌>>◌,
}
use binderbinder.Base.Words.{usize_mod}
use binderbinder.Base.Bytes.{slice, from_bytes}
use binderbinder.Sys.Structs.{FlatObject, read_flat, low_half}
use binderbinder.Sys.ObjectType
use binderbinder.Sys.Layout.{binder_object_header, flat_binder_object, binder_fd_object}
use binderbinder.Refcount.{ObjectId}
use binderbinder.Device.{Device}
use binderbinder.Device.Driver.{Driver}
use binderbinder.Device.Objects.{Borrowed, borrow_from_id}
use binderbinder.Device.Handles.{get_ref, get_weak}
use binderbinder.Device.ObjectOrRef.{BinderObjectOrRef, object, weak_object, ref, weak_ref}

-- `mapped` is the address of a kernel buffer, which the drop of the reader frees.
pub record PayloadReader : Type 0 where
  pub data_ : List ℕ
  pub mapped : Option ℕ
  pub offsets : Option (List ℕ)
  pub binder_objects : List BinderObjectOrRef
  pub next_offset_index : ℕ
  pub next_data_index : ℕ

-- The three error types of the reader's operations.
pub data ReadError : Type 0 where
  incorrect_object unknown_binder_object no_more : ReadError
  reading_into_object out_of_bounds : ReadError

pub data Result (A : Type 0) : Type 0 where
  success : A → Result A
  failure : ReadError → Result A

-- A reader with its device.
pub record Reading : Type 0 where
  pub reader : PayloadReader
  pub device : Device

abbrev pub with_reader : PayloadReader → Reading → Reading
with_reader r s = record s { reader = r }

-- An action of the device.
unfoldable pub on_device : {A : Type 0} → Cmd Device A → Cmd Reading A
on_device m s = elim (m s.device) [
  | ok a d ↦ ok a (record s { device = d })
  | panic d ↦ panic (record s { device = d })
]

-- `v.iter().find(|v| **v > index)`.
unfoldable pub first_after : ℕ → List ℕ → Option ℕ
first_after index [] = none
first_after index (o ∷ os) = if ltb index o then some o else first_after index os

unfoldable pub next_after : PayloadReader → Option ℕ
unfolding first_after
next_after r = elim r.offsets [ none ↦ none | some os ↦ first_after r.next_data_index os ]

unfoldable pub add_usize : Bool → ℕ → ℕ → Option ℕ
add_usize checks a b =
    if ltb (a + b) usize_mod
    then some (a + b)
    else if checks
    then none
    else some ((a + b) % usize_mod)

-- `data.get(start..end)`.
unfoldable pub get_range : List ℕ → ℕ → ℕ → Option (List ℕ)
unfolding slice
get_range bytes start end = if leb start end then slice bytes start (end - start) else none

-- `is_none_or(|v| end <= *v)`, of what `find` gives.
unfoldable pub stops_before : ℕ → Option ℕ → Bool
stops_before end none = true
stops_before end (some o) = leb end o

module _ (driver : Driver) where
  -- Both additions are the same one, and overflow alike.
  unfoldable pub read_bytes : ℕ → Cmd Reading (Result (List ℕ))
  unfolding next_after add_usize get_range stops_before
  read_bytes num_bytes s =
      let r = s.reader in
      elim (add_usize driver.checks r.next_data_index num_bytes) [
        | none ↦ panic s
        | some end ↦
            if not (stops_before end (next_after r))
            then ok (failure reading_into_object) s
            else elim (get_range r.data_ r.next_data_index end) [
              | none ↦ ok (failure out_of_bounds) s
              | some bytes ↦ ok (success bytes) (with_reader (record r { next_data_index = end }) s)
            ]
      ]

-- The offset that is read next.
unfoldable pub next_offset : PayloadReader → Option ℕ
next_offset r = elim r.offsets [ none ↦ none | some os ↦ get_elem? os r.next_offset_index ]

-- `&data[offset..offset + n]`, which panics out of range.
unfoldable pub slice_at : ℕ → ℕ → Cmd Reading (List ℕ)
unfolding slice
slice_at offset n s = elim (slice s.reader.data_ offset n) [
  | none ↦ panic s
  | some bytes ↦ ok bytes s
]

unfoldable pub advance : ℕ → PayloadReader → PayloadReader
advance end r = record r { next_offset_index = r.next_offset_index + 1; next_data_index = end }

unfoldable pub moved : {A : Type 0} → ℕ → Result A → Cmd Reading (Result A)
unfolding advance
moved end (failure e) s = ok (failure e) s
moved end (success a) s = ok (success a) (with_reader (advance end s.reader) s)

-- The start of `read_binder_ref` and `read_fd`, which differ in the types that they take and in
-- what they make of the object: then it is read and the reader moves on.
unfoldable pub read_object :
    {A : Type 0} → (ℕ → Bool) → ℕ → (FlatObject → Cmd Device (Result A)) → Cmd Reading (Result A)
unfolding next_offset slice_at on_device moved read_flat binder_object_header
read_object {A} takes size convert s = elim (next_offset s.reader) [
  | none ↦ ok (failure no_more) s
  | some offset ↦
      (slice_at offset binder_object_header.size >>= λ header.
      if not (takes (from_bytes header))
      then pure (failure incorrect_object)
      else slice_at offset size >>= λ bytes.
          on_device (convert (read_flat bytes)) >>= moved (offset + size))
        s
]

abbrev pub is_binder_ref : ℕ → Bool
is_binder_ref t =
    (t == ObjectType.binder)
    || ((t == ObjectType.handle)
        || ((t == ObjectType.weak_binder) || (t == ObjectType.weak_handle)))

abbrev pub is_fd : ℕ → Bool
is_fd t = t == ObjectType.fd

unfoldable pub found : Option Borrowed → Result BinderObjectOrRef
found none = failure unknown_binder_object
found (some b) = success (object b)

module _ (driver : Driver) where
  -- The match on the type of the flat object; no other type reaches it.
  unfoldable pub resolve : FlatObject → Cmd Device (Result BinderObjectOrRef)
  unfolding found
  resolve o =
      let id : ObjectId = record { id = o.bits; cookie = o.cookie } in
      if o.type_ == ObjectType.binder
      then (borrow_from_id driver.checks id >>= λ b. pure (found b))
      else (if o.type_ == ObjectType.weak_binder
          then pure (success (weak_object id))
          else (if o.type_ == ObjectType.handle
              then (get_ref driver (low_half o.bits) >>= λ a. pure (success (ref a)))
              else (if o.type_ == ObjectType.weak_handle
                  then (get_weak driver (low_half o.bits) >>= λ a. pure (success (weak_ref a)))
                  else fail)))

  unfoldable pub read_binder_ref : Cmd Reading (Result BinderObjectOrRef)
  unfolding read_object flat_binder_object resolve
  read_binder_ref = read_object is_binder_ref flat_binder_object.size resolve

-- The descriptor, now the caller's, and the cookie.
unfoldable pub read_fd : Cmd Reading (Result (ℕ × ℕ))
unfolding read_object binder_fd_object
read_fd = read_object is_fd binder_fd_object.size λ o. pure (success (low_half o.bits, o.cookie))

pub data BinderObjectType : Type 0 where
  binder_object weak_binder_object binder_ref weak_binder_ref : BinderObjectType
  fd fd_array buffer : BinderObjectType

unfoldable pub object_type : ℕ → Option BinderObjectType
object_type t =
    if t == ObjectType.binder
    then some binder_object
    else if t == ObjectType.handle
    then some binder_ref
    else if t == ObjectType.weak_binder
    then some weak_binder_object
    else if t == ObjectType.weak_handle
    then some weak_binder_ref
    else if t == ObjectType.fd
    then some fd
    else if t == ObjectType.fda
    then some fd_array
    else if t == ObjectType.ptr
    then some buffer
    else none

unfoldable pub next_object_type : Cmd Reading (Option BinderObjectType)
unfolding next_offset slice_at binder_object_header object_type
next_object_type s = elim (next_offset s.reader) [
  | none ↦ ok none s
  | some offset ↦
      (slice_at offset binder_object_header.size >>= λ header.
      pure (object_type (from_bytes header)))
        s
]

-- The position is never after the end of the data, or after the next offset.
unfoldable pub bytes_until_next_obj : PayloadReader → ℕ
unfolding next_after
bytes_until_next_obj r = elim (next_after r) [
  | none ↦ length r.data_ - r.next_data_index
  | some o ↦ o - r.next_data_index
]
