-- ===== src/Payload/RoundTrip/Local.antt =====
-- src/payload.rs: what the reader of `from_builder` reads, which is what was pushed, with the
-- duplicates of its descriptors.
use binderbinder.Base.{
  suc, true, ℕ, ◌^◌, ◌<◌, ◌≡◌, ap, ◌∙◌, Option, none, some, List, [], ◌∷◌, map, arith, length,
  Bool-cases, inl, inr,
}
use binderbinder.Base.Words.{usize_mod}
use binderbinder.Sys.Structs.{low_half, FlatObject}
use binderbinder.Device.{Device}
use binderbinder.Device.Driver.{Driver}
use binderbinder.Device.ObjectOrRef.{BinderObjectOrRef}
use binderbinder.Payload.Builder.{PayloadBuilder, blank}
use binderbinder.Payload.Reader.{PayloadReader, is_fd}
use binderbinder.Payload.Reader.Ends.{from_builder}
use binderbinder.Payload.Layout.{Content}
use binderbinder.Payload.RoundTrip.{Piece, bytes_piece, flat_piece, put_all}
use binderbinder.Payload.RoundTrip.Reads.{after_part}
use binderbinder.Payload.RoundTrip.Copies.{
  copied_object, copy_all, Duplicates, length-copies, from_builder-copies,
}
use binderbinder.Payload.RoundTrip.Program.{
  each, read_piece, meaning, view, IsReadable, AllReadable, each_lem,
}
use binderbinder.Payload.RoundTrip.Pushed.{
  piece, push_contents, AllFits, all_readable, strip-push_contents,
}

module _ (given : ℕ → ℕ → ℕ) (driver : Driver) (cs : List Content) (d : Device) where
  -- The pieces of the copy, whose turns begin at the moment 0.
  abbrev pub copies : List Piece
  copies = copy_all given 0 (map (piece driver d) cs)

  abbrev pub copied_reader : List BinderObjectOrRef → PayloadReader
  copied_reader objects = after_part none objects blank (put_all copies blank)

module _ (dup : ℕ → ℕ → Option ℕ) (given : ℕ → ℕ → ℕ) where
  copied-IsReadable :
      (moment : ℕ) (o : FlatObject)
      → IsReadable (flat_piece o)
      → (is_fd o.type_ ≡ true → given moment (low_half o.bits) < 2 ^ 32)
      → IsReadable (flat_piece (copied_object (given moment) o))
  copied-IsReadable moment o r narrow = elim (Bool-cases (is_fd o.type_)) [
    | inl e ↦
        let high : o.bits < 2 ^ 64 = r.0.1.1.0 in
        rw e ((r.0.0, (r.0.1.0, (omega (arith, narrow e, high), r.0.1.1.1))), r.1)
    | inr e ↦ rw e r
  ]

  copies-AllReadable :
      (moment : ℕ) (ps : List Piece)
      → AllReadable ps
      → Duplicates dup given moment ps
      → AllReadable (copy_all given moment ps)
  copies-AllReadable moment [] r works = r
  copies-AllReadable moment (bytes_piece xs ∷ ps) r works =
      (r.0, copies-AllReadable moment ps r.1 works)
  copies-AllReadable moment (flat_piece o ∷ ps) r works = (
    copied-IsReadable moment o r.0 (λ e. (works.0 e).1),
    copies-AllReadable (suc moment) ps r.1 works.1,
  )

  module _ (driver : Driver) (cs : List Content) (d : Device)
      (works : Duplicates dup given 0 (map (piece driver d) cs)) where
    pub from_builder-pushed :
        (objects : List BinderObjectOrRef)
        → AllFits driver d cs
        → from_builder dup 0 (push_contents driver d cs blank) objects
          ≡ some (copied_reader given driver cs d objects)
    unfolding from_builder
    from_builder-pushed objects fits =
        ap (λ b. from_builder dup 0 b objects) (strip-push_contents driver d cs blank)
        ∙ from_builder-copies dup given 0 (map (piece driver d) cs) objects
            (all_readable driver d cs fits) works

    pub copied_reader-reads :
        (objects : List BinderObjectOrRef) (on : Device)
        → AllFits driver d cs
        → length (push_contents driver d cs blank).data_ < usize_mod
        → view (
            each
              (read_piece driver)
              (copies given driver cs d)
              (record { reader = copied_reader given driver cs d objects; device = on }))
          ≡ each (meaning driver) (copies given driver cs d) on
    copied_reader-reads objects on fits small =
        let ps = map (piece driver d) cs in
        let same : (push_contents driver d cs blank).data_ ≡ (put_all ps blank).data_ =
          ap (λ (b : PayloadBuilder). b.data_) (strip-push_contents driver d cs blank) in
        let short : length (put_all (copies given driver cs d) blank).data_ < usize_mod =
          omega (arith, length-copies dup given 0 ps, ap {A = List ℕ} length same, small) in
        each_lem driver none objects (copies given driver cs d) blank on (omega arith)
          (copies-AllReadable 0 ps (all_readable driver d cs fits) works) short
