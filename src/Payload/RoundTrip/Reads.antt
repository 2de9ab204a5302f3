-- ===== src/Payload/RoundTrip/Reads.antt =====
-- src/payload.rs: a reader over the bytes and offsets of a builder, at one piece.
use binderbinder.Base.{
  ℕ, ◌+◌, ◌<◌, ◌≡◌, refl, sym, ap, ◌∙◌, subst, Bool, true, Option, some, List, [], ◌∷◌, ◌++◌, ltb,
  length, length-append, get_elem?-append, get_elem?, arith, Bool-cases, inl, inr, ok, Cmd, ◌>>=◌,
}
use binderbinder.Base.Words.{usize_mod}
use binderbinder.Base.Bytes.{
  slice, slice-append, from_bytes, from_bytes-to_bytes, to_bytes, length-to_bytes,
}
use binderbinder.Sys.Structs.{
  FlatObject, flat_bytes, encode, length-flat_bytes, read_flat-flat_bytes, AllFit, flat_fields,
}
use binderbinder.Device.{Device}
use binderbinder.Device.Driver.{Driver}
use binderbinder.Device.ObjectOrRef.{BinderObjectOrRef}
use binderbinder.Payload.Builder.{PayloadBuilder, push_bytes}
use binderbinder.Payload.Reader.{
  PayloadReader, Reading, Result, success, first_after, next_after, read_bytes, next_offset,
  read_object, stops_before, moved, on_device,
}
use binderbinder.Payload.Reader.Reads.{read_bytes-success, read_object-lands}
use binderbinder.Payload.Layout.{slot, padded, pushed, length-padded, IsLaidOut, IsOrdered}
use binderbinder.Payload.RoundTrip.{Grows, first_after-low}
use mathlib.Core.List.{append_assoc}

-- The reader of `c`'s bytes that has read what `b` holds.
abbrev pub after_part :
    Option ℕ → List BinderObjectOrRef → PayloadBuilder → PayloadBuilder → PayloadReader
after_part mapped objects b c = record {
  data_ = c.data_;
  mapped = mapped;
  offsets = some c.obj_offsets;
  binder_objects = objects;
  next_offset_index = length b.obj_offsets;
  next_data_index = length b.data_;
}

pub header_lem :
    (o : FlatObject) (bytes more : List ℕ)
    → slice (bytes ++ (flat_bytes o ++ more)) (length bytes) 4 ≡ some (to_bytes 4 o.type_)
unfolding flat_bytes encode
header_lem o bytes more =
    ap (λ x. slice (bytes ++ x) (length bytes) 4) (append_assoc (to_bytes 4 o.type_) _ more)
    ∙ slice-append bytes (to_bytes 4 o.type_) _ refl (sym (length-to_bytes 4 o.type_))

module _ (mapped : Option ℕ) (objects : List BinderObjectOrRef) (d : Device) where
  abbrev pub at_part : PayloadBuilder → PayloadBuilder → Reading
  at_part b c = record { reader = after_part mapped objects b c; device = d }

  self_ahead : (start : ℕ) (qs : List ℕ) → stops_before start (first_after start qs) ≡ true
  unfolding first_after stops_before
  self_ahead start [] = refl
  self_ahead start (q ∷ qs) = elim (Bool-cases (ltb start q)) [
    | inl lower ↦ rw lower (ground arith)
    | inr reached ↦ rw reached (self_ahead start qs)
  ]

  free_ahead :
      (n : ℕ) (os qs : List ℕ) (start end : ℕ)
      → IsLaidOut (start + n) qs end
      → IsLaidOut 0 os start
      → stops_before (start + n) (first_after start (os ++ qs)) ≡ true
  unfolding first_after stops_before
  free_ahead n os [] start end l r = rw (first_after-low 0 os [] start start r (omega arith))
  free_ahead n os (q ∷ qs) start end l r =
      rw (first_after-low 0 os (q ∷ qs) start start r (omega arith))
        (elim (Bool-cases (ltb start q)) [
          | inl lower ↦ rw lower (ground (arith, l.0))
          | inr reached ↦
              let same : start + n ≡ start = ground (arith, l.0) in
              rw (reached, same) (self_ahead start qs)
        ])

  pub read_bytes-put :
      (driver : Driver) (xs : List ℕ) (b c : PayloadBuilder)
      → IsOrdered b
      → Grows (push_bytes xs b) c
      → length b.data_ + length xs < usize_mod
      → read_bytes driver (length xs) (at_part b c) ≡ ok (success xs) (at_part (push_bytes xs b) c)
  unfolding push_bytes next_after
  read_bytes-put driver xs b c l g small =
      let whole = length-append b.data_ xs in
      let found : slice c.data_ (length b.data_) (length xs) ≡ some xs =
        ap (λ x. slice x (length b.data_) (length xs)) (g.data_lem ∙ append_assoc b.data_ xs g.more)
        ∙ slice-append b.data_ xs g.more refl refl in
      let ahead : IsLaidOut (length b.data_ + length xs) g.later (length c.data_) =
        subst (λ n. IsLaidOut n g.later (length c.data_)) whole g.after in
      let clear : stops_before (length b.data_ + length xs)
            (first_after (length b.data_) c.obj_offsets)
          ≡ true =
        ap (λ os. stops_before (length b.data_ + length xs) (first_after (length b.data_) os))
          g.offsets_lem
        ∙ free_ahead (length xs) b.obj_offsets g.later (length b.data_) _ ahead l in
      read_bytes-success driver (length xs) (at_part b c) xs small clear found
      ∙ ap
          (λ n. ok (success xs) (record {
            reader = record (after_part mapped objects b c) { next_data_index = n };
            device = d;
          }))
          (sym whole)

  pub read_object-put :
      {A : Type 0} (takes : ℕ → Bool) (convert : FlatObject → Cmd Device (Result A))
      (o : FlatObject) (b c : PayloadBuilder)
      → Grows (pushed (flat_bytes o) b) c
      → AllFit (flat_fields o)
      → takes o.type_ ≡ true
      → read_object takes 24 convert (at_part b c)
        ≡ (on_device (convert o) >>= moved (length (pushed (flat_bytes o) b).data_)) (at_part b c)
  unfolding next_offset
  read_object-put takes convert o b c g fit right =
      let bytes = padded b.data_ in
      let at : slot (length b.data_) ≡ length bytes = sym (length-padded b.data_) in
      let whole : c.data_ ≡ bytes ++ (flat_bytes o ++ g.more) =
        g.data_lem ∙ append_assoc bytes (flat_bytes o) g.more in
      let here : next_offset (after_part mapped objects b c) ≡ some (slot (length b.data_)) =
        ap (λ os. get_elem? os (length b.obj_offsets))
          (g.offsets_lem ∙ append_assoc b.obj_offsets (slot (length b.data_) ∷ []) g.later)
        ∙ get_elem?-append b.obj_offsets g.later (slot (length b.data_)) in
      let top : slice c.data_ (slot (length b.data_)) 4 ≡ some (to_bytes 4 o.type_) =
        rw (whole, at) (header_lem o bytes g.more) in
      let all : slice c.data_ (slot (length b.data_)) 24 ≡ some (flat_bytes o) =
        rw (whole, at)
          (slice-append bytes (flat_bytes o) g.more refl (sym (length-flat_bytes o))) in
      let back : from_bytes (to_bytes 4 o.type_) ≡ o.type_ = from_bytes-to_bytes 4 o.type_ fit.0 in
      let end : slot (length b.data_) + 24 ≡ length (bytes ++ flat_bytes o) =
        omega (arith, length-append bytes (flat_bytes o), length-flat_bytes o, at) in
      read_object-lands takes 24 convert (at_part b c) _ _ _ here top (ap takes back ∙ right) all
      ∙ rw (read_flat-flat_bytes o fit, end)
