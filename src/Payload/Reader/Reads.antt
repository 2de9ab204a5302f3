-- ===== src/Payload/Reader/Reads.antt =====
-- src/payload.rs: when the operations of `PayloadReader` succeed.
use binderbinder.Base.{
  ℕ, ◌+◌, ◌-◌, ◌<◌, ◌≡◌, Bool, true, some, List, ltb, leb, arith, ok, Cmd, ◌>>=◌,
}
use binderbinder.Base.Words.{usize_mod}
use binderbinder.Base.Bytes.{slice, from_bytes}
use binderbinder.Sys.Structs.{FlatObject, read_flat}
use binderbinder.Sys.Layout.{binder_object_header}
use binderbinder.Device.{Device}
use binderbinder.Device.Driver.{Driver}
use binderbinder.Payload.Reader.{
  Reading, with_reader, on_device, Result, success, next_after, stops_before, add_usize, get_range,
  read_bytes, next_offset, slice_at, moved, read_object,
}

pub read_bytes-success :
    (driver : Driver) (n : ℕ) (s : Reading) (xs : List ℕ)
    → s.reader.next_data_index + n < usize_mod
    → stops_before (s.reader.next_data_index + n) (next_after s.reader) ≡ true
    → slice s.reader.data_ s.reader.next_data_index n ≡ some xs
    → read_bytes driver n s
      ≡ ok
          (success xs)
          (with_reader (record s.reader { next_data_index = s.reader.next_data_index + n }) s)
unfolding read_bytes add_usize get_range
read_bytes-success driver n s xs small clear found =
    let i = s.reader.next_data_index in
    let fits : ltb (i + n) usize_mod ≡ true = ground arith in
    let order : leb i (i + n) ≡ true = ground arith in
    let width : i + n - i ≡ n = omega arith in
    rw (read_bytes, add_usize, fits, clear, get_range, order, width, found)

pub read_object-lands :
    {A : Type 0} (takes : ℕ → Bool) (size : ℕ) (convert : FlatObject → Cmd Device (Result A))
    (s : Reading) (offset : ℕ) (header bytes : List ℕ)
    → next_offset s.reader ≡ some offset
    → slice s.reader.data_ offset 4 ≡ some header
    → takes (from_bytes header) ≡ true
    → slice s.reader.data_ offset size ≡ some bytes
    → read_object takes size convert s
      ≡ (on_device (convert (read_flat bytes)) >>= moved (offset + size)) s
unfolding read_object slice_at binder_object_header
read_object-lands takes size convert s offset header bytes here top right whole =
    rw (read_object, here, slice_at, top, right, slice_at, whole)
