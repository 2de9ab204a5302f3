-- ===== src/Payload/RoundTrip/Overlap.antt =====
-- src/payload.rs: `read_bytes` at the very offset of an object.
use binderbinder.Base.{
  ℕ, ◌+◌, ◌%◌, ◌<◌, ◌≡◌, sym, ap, ◌∙◌, Option, none, some, List, [], ◌∷◌, ◌++◌, length,
  length-append, arith, ok, ltb, false,
}
use binderbinder.Base.Words.{usize_mod}
use binderbinder.Base.Bytes.{slice, slice-append}
use binderbinder.Sys.Structs.{FlatObject, flat_bytes, length-flat_bytes}
use binderbinder.Device.{Device}
use binderbinder.Device.Driver.{Driver}
use binderbinder.Device.ObjectOrRef.{BinderObjectOrRef}
use binderbinder.Payload.Builder.{PayloadBuilder}
use binderbinder.Payload.Reader.{
  Reading, with_reader, success, read_bytes, first_after, next_after, stops_before,
  bytes_until_next_obj,
}
use binderbinder.Payload.Reader.Reads.{read_bytes-success}
use binderbinder.Payload.Layout.{slot, padded, pushed, length-padded, IsOrdered}
use binderbinder.Payload.RoundTrip.{first_after-low}
use binderbinder.Payload.RoundTrip.Reads.{at_part}
use mathlib.Core.List.{append-nil}

module _ (mapped : Option ℕ) (objects : List BinderObjectOrRef) (d : Device) (o : FlatObject)
    (b : PayloadBuilder) where
  -- The reader that has read all before the last object, which starts where it is.
  abbrev pub at_object : Reading
  at_object = at_part mapped objects d b (pushed (flat_bytes o) b)

  none_ahead :
      IsOrdered b
      → length b.data_ % 8 ≡ 0
      → first_after (length b.data_) (pushed (flat_bytes o) b).obj_offsets ≡ none
  unfolding first_after
  none_ahead l even =
      let here : slot (length b.data_) ≡ length b.data_ = omega (arith, even) in
      let passed : ltb (length b.data_) (slot (length b.data_)) ≡ false = ground (arith, here) in
      first_after-low 0 b.obj_offsets (slot (length b.data_) ∷ []) (length b.data_) _ l
        (omega arith)
      ∙ rw passed

  -- `read_bytes` is not refused at an object that starts exactly where the reader stands, as the last
  -- one of any ordered payload may: it gives the 24 bytes of the object out as plain bytes.
  -- `bytes_until_next_obj` counts them as bytes before the next object.
  pub read_bytes-over_object :
      (driver : Driver)
      → IsOrdered b
      → length b.data_ % 8 ≡ 0
      → length b.data_ + 24 < usize_mod
      → (read_bytes driver 24 at_object
          ≡ ok (success (flat_bytes o)) (
              with_reader
                (record at_object.reader { next_data_index = length b.data_ + 24 })
                at_object))
        × (bytes_until_next_obj at_object.reader ≡ 24)
  unfolding next_after stops_before bytes_until_next_obj
  read_bytes-over_object driver l even small =
      let none_left = none_ahead l even in
      let here : length b.data_ ≡ length (padded b.data_) =
        omega (arith, even, length-padded b.data_) in
      let found : slice (padded b.data_ ++ flat_bytes o) (length b.data_) 24 ≡ some (flat_bytes o) =
        ap (λ x. slice (padded b.data_ ++ x) (length b.data_) 24) (sym (append-nil (flat_bytes o)))
        ∙ slice-append (padded b.data_) (flat_bytes o) [] here (sym (length-flat_bytes o)) in
      (
        read_bytes-success driver 24 at_object (flat_bytes o) small
            (ap (stops_before (length b.data_ + 24)) none_left) found,
        rw (bytes_until_next_obj, next_after, none_left)
            (omega
              (arith, here, length-append (padded b.data_) (flat_bytes o), length-flat_bytes o)),
      )
