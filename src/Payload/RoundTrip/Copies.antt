-- ===== src/Payload/RoundTrip/Copies.antt =====
-- src/payload.rs: `from_builder`, the payload of a call to an object of the process, with descriptors of
-- its own.
use mathlib.Core.List.{append_assoc, append-nil}
use binderbinder.Base.{
  suc, ◌<◌, ℕ, ◌+◌, ◌/◌, ◌^◌, ◌≡◌, refl, sym, ap, ◌∙◌, subst, true, ◌||◌, Option, none, some, List,
  [], ◌∷◌, ◌++◌, if◌then◌else◌, length, length-append, drop, replicate, length-replicate, arith,
  Bool-cases, inl, inr, take-append, drop-append_of_length,
}
use binderbinder.Base.Bytes.{slice, slice-append, to_bytes, from_bytes-to_bytes}
use binderbinder.Sys.Structs.{
  FlatObject, flat_bytes, with_low, low_half, length-flat_bytes, read_flat-flat_bytes,
}
use binderbinder.Sys.ObjectType
use binderbinder.Sys.Layout.{binder_object_header, binder_fd_object}
use binderbinder.Device.ObjectOrRef.{BinderObjectOrRef}
use binderbinder.Payload.Builder.{PayloadBuilder, blank, push_bytes}
use binderbinder.Payload.Reader.{is_fd, is_binder_ref, object_type, fd}
use binderbinder.Payload.Reader.Ends.{
  clone_object, clone_objects, clone_fd, from_builder, splice, bind_option,
}
use binderbinder.Payload.Layout.{slot, pads, padded, pushed, push_object_lem, length-padded}
use binderbinder.Payload.RoundTrip.{Piece, bytes_piece, flat_piece, put_all}
use binderbinder.Payload.RoundTrip.Reads.{header_lem, after_part}
use binderbinder.Payload.RoundTrip.Program.{IsReadable, AllReadable}

-- What some pieces add to a builder with `n` bytes.
abbrev added : ℕ → List Piece → List ℕ
added n [] = []
added n (bytes_piece xs ∷ ps) = xs ++ added (n + length xs) ps
added n (flat_piece o ∷ ps) = replicate (pads n) 0 ++ (flat_bytes o ++ added (slot n + 24) ps)

abbrev slots : ℕ → List Piece → List ℕ
slots n [] = []
slots n (bytes_piece xs ∷ ps) = slots (n + length xs) ps
slots n (flat_piece o ∷ ps) = slot n ∷ slots (slot n + 24) ps

length-pushed :
    (o : FlatObject) (b : PayloadBuilder)
    → length (pushed (flat_bytes o) b).data_ ≡ slot (length b.data_) + 24
length-pushed o b = omega (
  arith,
  length-append (padded b.data_) (flat_bytes o),
  length-padded b.data_,
  length-flat_bytes o,
)

put_all-added :
    (ps : List Piece) (b : PayloadBuilder)
    → (put_all ps b).data_ ≡ b.data_ ++ added (length b.data_) ps
unfolding push_bytes
put_all-added [] b = sym (append-nil b.data_)
put_all-added (bytes_piece xs ∷ ps) b =
    put_all-added ps (push_bytes xs b) ∙ rw (length-append b.data_ xs) (append_assoc b.data_ xs _)
put_all-added (flat_piece o ∷ ps) b =
    ap (λ b'. (put_all ps b').data_) (push_object_lem (flat_bytes o) b)
    ∙ put_all-added ps (pushed (flat_bytes o) b)
    ∙ rw (length-pushed o b) (
        append_assoc (padded b.data_) (flat_bytes o) _
        ∙ append_assoc b.data_ (replicate (pads (length b.data_)) 0) _)

put_all-slots :
    (ps : List Piece) (b : PayloadBuilder)
    → (put_all ps b).obj_offsets ≡ b.obj_offsets ++ slots (length b.data_) ps
unfolding push_bytes
put_all-slots [] b = sym (append-nil b.obj_offsets)
put_all-slots (bytes_piece xs ∷ ps) b =
    put_all-slots ps (push_bytes xs b) ∙ rw (length-append b.data_ xs)
put_all-slots (flat_piece o ∷ ps) b =
    ap (λ b'. (put_all ps b').obj_offsets) (push_object_lem (flat_bytes o) b)
    ∙ put_all-slots ps (pushed (flat_bytes o) b)
    ∙ rw (length-pushed o b) (append_assoc b.obj_offsets (slot (length b.data_) ∷ []) _)

-- The piece with the descriptor that stands for its own.
abbrev pub copied_object : (ℕ → ℕ) → FlatObject → FlatObject
copied_object given o =
    if is_fd o.type_
    then record o { bits = with_low (o.bits / 2 ^ 32) (given (low_half o.bits)) }
    else o

-- The pieces with the duplicates that are given from a moment on; each object takes one.
abbrev pub copy_all : (ℕ → ℕ → ℕ) → ℕ → List Piece → List Piece
copy_all given moment [] = []
copy_all given moment (bytes_piece xs ∷ ps) = bytes_piece xs ∷ copy_all given moment ps
copy_all given moment (flat_piece o ∷ ps) =
    flat_piece (copied_object (given moment) o) ∷ copy_all given (suc moment) ps

-- Each descriptor that is among the pieces can be duplicated when its turn comes, into one of 32 bits.
abbrev pub Duplicates : (ℕ → ℕ → Option ℕ) → (ℕ → ℕ → ℕ) → ℕ → List Piece → Type 0
Duplicates dup given moment [] = Unit
Duplicates dup given moment (bytes_piece xs ∷ ps) = Duplicates dup given moment ps
Duplicates dup given moment (flat_piece o ∷ ps) =
    (is_fd o.type_ ≡ true
      → (dup moment (low_half o.bits) ≡ some (given moment (low_half o.bits)))
        × (given moment (low_half o.bits) < 2 ^ 32))
    × Duplicates dup given (suc moment) ps

module _ (dup : ℕ → ℕ → Option ℕ) (given : ℕ → ℕ → ℕ) where
  kept_object :
      (t moment offset : ℕ) (bytes : List ℕ)
      → is_binder_ref t ≡ true
      → clone_object dup (object_type t) moment offset bytes ≡ some bytes
  unfolding clone_object object_type
  kept_object t moment offset bytes h = ground arith

  object_type-fd : object_type ObjectType.fd ≡ some fd
  unfolding object_type ObjectType.fd ObjectType.binder ObjectType.weak_binder ObjectType.handle
      ObjectType.weak_handle
  object_type-fd = refl

  -- The bytes of an object in the middle, replaced.
  splice-middle :
      (front xs ys rest : List ℕ)
      → length xs ≡ length ys
      → splice (length front) ys (front ++ (xs ++ rest)) ≡ front ++ (ys ++ rest)
  unfolding splice
  splice-middle front xs ys rest same =
      let long : length (front ++ xs) ≡ length front + length ys =
        omega (arith, length-append front xs) in
      let back : drop (length front + length ys) (front ++ (xs ++ rest)) ≡ rest =
        ap (drop (length front + length ys)) (sym (append_assoc front xs rest))
        ∙ drop-append_of_length (length front + length ys) (front ++ xs) rest long in
      rw (take-append front (xs ++ rest), back)

  -- The turn for one object.
  clone_object-flat :
      (moment : ℕ) (o : FlatObject) (front rest : List ℕ)
      → IsReadable (flat_piece o)
      → (is_fd o.type_ ≡ true
          → dup moment (low_half o.bits) ≡ some (given moment (low_half o.bits)))
      → clone_object dup
          (object_type o.type_)
          moment
          (length front)
          (front ++ (flat_bytes o ++ rest))
        ≡ some (front ++ (flat_bytes (copied_object (given moment) o) ++ rest))
  unfolding clone_object clone_fd binder_fd_object
  clone_object-flat moment o front rest r works = elim (Bool-cases (is_fd o.type_)) [
    | inl yes_fd ↦
        let e : o.type_ ≡ ObjectType.fd = ground arith in
        let all : slice (front ++ (flat_bytes o ++ rest)) (length front) 24 ≡ some (flat_bytes o) =
          slice-append front (flat_bytes o) rest refl (sym (length-flat_bytes o)) in
        rw
          (
            yes_fd,
            ap object_type e,
            object_type-fd,
            clone_fd,
            all,
            read_flat-flat_bytes o r.0,
            works yes_fd,
            read_flat-flat_bytes o r.0,
          )
          (ap some (
            splice-middle front (flat_bytes o) _ rest
              (length-flat_bytes o ∙ sym (length-flat_bytes _))))
    | inr other ↦
        let right : is_binder_ref o.type_ ≡ true =
          subst (λ t. (t || is_binder_ref o.type_) ≡ true) other r.1 in
        rw (other)
          (kept_object o.type_ moment (length front) (front ++ (flat_bytes o ++ rest)) right)
  ]

  header_of :
      (o : FlatObject) (front rest : List ℕ)
      → IsReadable (flat_piece o)
      → slice (front ++ (flat_bytes o ++ rest)) (length front) binder_object_header.size
        ≡ some (to_bytes 4 o.type_)
  unfolding binder_object_header
  header_of o front rest r = header_lem o front rest

  -- One turn, for an object at the end of `front`.
  clone_objects-turn :
      (moment : ℕ) (o : FlatObject) (front rest : List ℕ) (offsets : List ℕ)
      → IsReadable (flat_piece o)
      → (is_fd o.type_ ≡ true
          → dup moment (low_half o.bits) ≡ some (given moment (low_half o.bits)))
      → clone_objects dup moment (length front ∷ offsets) (front ++ (flat_bytes o ++ rest))
        ≡ clone_objects dup
            (suc moment)
            offsets
            (front ++ (flat_bytes (copied_object (given moment) o) ++ rest))
  unfolding clone_objects bind_option
  clone_objects-turn moment o front rest offsets r works = rw (
    header_of o front rest r,
    from_bytes-to_bytes 4 o.type_ r.0.0,
    clone_object-flat moment o front rest r works,
  )

  -- The loop, over what some pieces added behind `front`.
  clone_objects-added :
      (moment : ℕ) (ps : List Piece) (n : ℕ) (front : List ℕ)
      → length front ≡ n
      → AllReadable ps
      → Duplicates dup given moment ps
      → clone_objects dup moment (slots n ps) (front ++ added n ps)
        ≡ some (front ++ added n (copy_all given moment ps))
  unfolding clone_objects
  clone_objects-added moment [] n front long r works = refl
  clone_objects-added moment (bytes_piece xs ∷ ps) n front long r works =
      let longer : length (front ++ xs) ≡ n + length xs =
        omega (arith, long, length-append front xs) in
      ap (clone_objects dup moment (slots (n + length xs) ps)) (sym (append_assoc front xs _))
      ∙ clone_objects-added moment ps (n + length xs) (front ++ xs) longer r.1 works
      ∙ ap some (append_assoc front xs _)
  clone_objects-added moment (flat_piece o ∷ ps) n front long r works =
      let front' = front ++ replicate (pads n) 0 in
      let o' = copied_object (given moment) o in
      let at : length front' ≡ slot n = omega (
        arith,
        long,
        length-append front (replicate (pads n) 0),
        length-replicate {A = ℕ} (pads n) 0,
      ) in
      let next = front' ++ flat_bytes o' in
      let longer : length next ≡ slot n + 24 =
        omega (arith, at, length-append front' (flat_bytes o'), length-flat_bytes o') in
      let rest = added (slot n + 24) ps in
      let end = added (slot n + 24) (copy_all given (suc moment) ps) in
      ap (clone_objects dup moment (slots n (flat_piece o ∷ ps)))
        (sym (append_assoc front (replicate (pads n) 0) (flat_bytes o ++ rest)))
      ∙ ap
          (λ k.
            clone_objects dup moment (k ∷ slots (slot n + 24) ps)
              (front' ++ (flat_bytes o ++ rest)))
          (sym at)
      ∙ clone_objects-turn moment o front' rest (slots (slot n + 24) ps) r.0 (λ f. (works.0 f).0)
      ∙ ap (clone_objects dup (suc moment) (slots (slot n + 24) ps))
          (sym (append_assoc front' (flat_bytes o') rest))
      ∙ clone_objects-added (suc moment) ps (slot n + 24) next longer r.1 works.1
      ∙ ap some
          (append_assoc front' (flat_bytes o') end ∙ append_assoc front (replicate (pads n) 0) _)

  same_slots :
      (moment : ℕ) (ps : List Piece) (n : ℕ) → slots n (copy_all given moment ps) ≡ slots n ps
  same_slots moment [] n = refl
  same_slots moment (bytes_piece xs ∷ ps) n = same_slots moment ps (n + length xs)
  same_slots moment (flat_piece o ∷ ps) n =
      ap (◌∷◌ (slot n)) (same_slots (suc moment) ps (slot n + 24))

  length-added :
      (moment : ℕ) (ps : List Piece) (n : ℕ)
      → length (added n (copy_all given moment ps)) ≡ length (added n ps)
  length-added moment [] n = refl
  length-added moment (bytes_piece xs ∷ ps) n =
      let next = length-added moment ps (n + length xs) in
      omega (
        arith,
        length-append xs (added (n + length xs) (copy_all given moment ps)),
        length-append xs (added (n + length xs) ps),
        next,
      )
  length-added moment (flat_piece o ∷ ps) n =
      let rest = added (slot n + 24) ps in
      let o' = copied_object (given moment) o in
      let end = added (slot n + 24) (copy_all given (suc moment) ps) in
      let pad : List ℕ = replicate (pads n) 0 in
      omega (
        arith,
        length-append pad (flat_bytes o ++ rest),
        length-append pad (flat_bytes o' ++ end),
        length-append (flat_bytes o) rest,
        length-append (flat_bytes o') end,
        length-flat_bytes o,
        length-flat_bytes o',
        length-added (suc moment) ps (slot n + 24),
      )

  pub length-copies :
      (moment : ℕ) (ps : List Piece)
      → length (put_all (copy_all given moment ps) blank).data_ ≡ length (put_all ps blank).data_
  length-copies moment ps =
      ap length (put_all-added (copy_all given moment ps) blank)
      ∙ length-added moment ps 0
      ∙ sym (ap length (put_all-added ps blank))

  -- The reader that `from_builder` makes is one over what a builder would have that had been pushed
  -- the duplicates.
  pub from_builder-copies :
      (moment : ℕ) (ps : List Piece) (objects : List BinderObjectOrRef)
      → AllReadable ps
      → Duplicates dup given moment ps
      → from_builder dup moment (put_all ps blank) objects
        ≡ some (after_part none objects blank (put_all (copy_all given moment ps) blank))
  unfolding from_builder bind_option
  from_builder-copies moment ps objects r works = rw (
    put_all-slots ps blank,
    put_all-added ps blank,
    clone_objects-added moment ps 0 [] refl r works,
    put_all-added (copy_all given moment ps) blank,
    put_all-slots (copy_all given moment ps) blank,
    same_slots moment ps 0,
  )
