-- ===== src/Bench/Block.antt =====
-- examples/bench.rs: the bytes of a message before its first object, which `echo_into` reads first.
use binderbinder.Base.{
  ℕ, ◌^◌, ◌<◌, ◌≡◌, refl, sym, ap, ◌∙◌, subst, true, false, Option, some, List, [], ◌∷◌, ◌++◌,
  replicate, length, length-append, take, drop, take-append_of_length, drop-append_of_length, arith,
  ltb,
}
use binderbinder.Base.Bytes.{to_bytes, length-to_bytes, from_bytes-to_bytes}
use binderbinder.Sys.Structs.{FlatObject, flat_bytes}
use binderbinder.Device.ObjectOrRef.{BinderObjectOrRef}
use binderbinder.Payload.Builder.{PayloadBuilder, blank}
use binderbinder.Payload.Reader.{PayloadReader, bytes_until_next_obj, next_after, first_after}
use binderbinder.Payload.Layout.{pushed, push_object_lem, pads, slot, padded, length-padded}
use binderbinder.Payload.RoundTrip.{
  Piece, bytes_piece, flat_piece, put, put_all, Grows, put_all-Grows,
}
use binderbinder.Payload.RoundTrip.Reads.{after_part}
use binderbinder.Bench.{header_counts}
use mathlib.Core.List.{append_assoc, append-nil}

-- What the client writes before the objects.
abbrev pub header : ℕ → ℕ → List ℕ → List ℕ
header refs fds payload = to_bytes 4 refs ++ (to_bytes 4 fds ++ payload)

-- A builder of bytes only.
abbrev pub plain : List ℕ → PayloadBuilder
plain bytes = record blank { data_ = bytes }

pub put_all-append :
    (ps qs : List Piece) (b : PayloadBuilder) → put_all (ps ++ qs) b ≡ put_all qs (put_all ps b)
put_all-append [] qs b = refl
put_all-append (p ∷ ps) qs b = put_all-append ps qs (put p b)

pads-slot : (n : ℕ) → pads (slot n) ≡ 0
pads-slot n = omega arith

padded-padded : (bytes : List ℕ) → padded (padded bytes) ≡ padded bytes
padded-padded bytes = rw (length-padded bytes, pads-slot (length bytes)) (append-nil (padded bytes))

-- The padding before an object may as well have been pushed.
put-padded :
    (o : FlatObject) (bytes : List ℕ)
    → put (flat_piece o) (plain bytes) ≡ put (flat_piece o) (plain (padded bytes))
put-padded o bytes =
    let same_slot : slot (length bytes) ≡ slot (length (padded bytes)) =
      omega (arith, length-padded bytes) in
    push_object_lem (flat_bytes o) (plain bytes)
    ∙ ap {B = PayloadBuilder}
        (λ x. record blank { data_ = x ++ flat_bytes o; obj_offsets = slot (length bytes) ∷ [] })
        (sym (padded-padded bytes))
    ∙ ap {B = PayloadBuilder}
        (λ n. record blank { data_ = padded (padded bytes) ++ flat_bytes o; obj_offsets = n ∷ [] })
        same_slot
    ∙ sym (push_object_lem (flat_bytes o) (plain (padded bytes)))

abbrev pub StartsFlat : List Piece → Type 0
StartsFlat [] = Unit
StartsFlat (bytes_piece xs ∷ ps) = ⊥
StartsFlat (flat_piece o ∷ ps) = Unit

-- The bytes before the first object.
abbrev pub block : List Piece → List ℕ → List ℕ
block [] bytes = bytes
block (p ∷ ps) bytes = padded bytes

pub put_all-block :
    (ps : List Piece) (bytes : List ℕ)
    → StartsFlat ps
    → put_all ps (plain bytes) ≡ put_all ps (plain (block ps bytes))
put_all-block [] bytes flat = refl
put_all-block (bytes_piece xs ∷ ps) bytes flat = absurd flat
put_all-block (flat_piece o ∷ ps) bytes flat = ap (put_all ps) (put-padded o bytes)

pub block-append :
    (ps : List Piece) (bytes : List ℕ) → (more : List ℕ) × (block ps bytes ≡ bytes ++ more)
block-append [] bytes = ([], sym (append-nil bytes))
block-append (p ∷ ps) bytes = (replicate (pads (length bytes)) 0, refl)

abbrev pub at_start : List ℕ → List ℕ → Option ℕ → List BinderObjectOrRef → PayloadReader
at_start bytes offsets mapped objects = record {
  data_ = bytes;
  mapped = mapped;
  offsets = some offsets;
  binder_objects = objects;
  next_offset_index = 0;
  next_data_index = 0;
}

until_first :
    (bytes : List ℕ) (o : ℕ) (os : List ℕ) (mapped : Option ℕ) (objects : List BinderObjectOrRef)
    → 0 < o
    → bytes_until_next_obj (at_start bytes (o ∷ os) mapped objects) ≡ o
unfolding bytes_until_next_obj next_after first_after
until_first bytes o os mapped objects some_bytes =
    let past : ltb 0 o ≡ true = ground arith in rw (past, bytes_until_next_obj) (omega arith)

-- `bytes_until_next_obj` gives that block, at the start of a payload.
pub until_block :
    (ps : List Piece) (bytes : List ℕ) (mapped : Option ℕ) (objects : List BinderObjectOrRef)
    → StartsFlat ps
    → 0 < length bytes
    → bytes_until_next_obj (after_part mapped objects blank (put_all ps (plain (block ps bytes))))
      ≡ length (block ps bytes)
unfolding bytes_until_next_obj next_after first_after
until_block [] bytes mapped objects flat some_bytes = omega arith
until_block (bytes_piece xs ∷ ps) bytes mapped objects flat some_bytes = absurd flat
until_block (flat_piece o ∷ ps) bytes mapped objects flat some_bytes =
    let start = plain (padded bytes) in
    let g : Grows (pushed (flat_bytes o) start) (put_all (flat_piece o ∷ ps) start) =
      subst (λ x. Grows x (put_all (flat_piece o ∷ ps) start))
        (push_object_lem (flat_bytes o) start) (put_all-Grows ps (put (flat_piece o) start)) in
    let here : slot (length (padded bytes)) ≡ length (padded bytes) =
      omega (arith, length-padded bytes) in
    let c = put_all (flat_piece o ∷ ps) start in
    ap (λ os. bytes_until_next_obj (at_start c.data_ os mapped objects)) g.offsets_lem
    ∙ until_first c.data_ (slot (length (padded bytes))) g.later mapped objects
        (omega (arith, length-padded bytes))
    ∙ here

pub header_counts-header :
    (refs fds : ℕ) (payload more : List ℕ)
    → refs < 2 ^ 32
    → fds < 2 ^ 32
    → header_counts (header refs fds payload ++ more) ≡ record { refs = refs; fds = fds }
unfolding header_counts
header_counts-header refs fds payload more few_refs few_fds =
    let rest = payload ++ more in
    let whole : header refs fds payload ++ more ≡ to_bytes 4 refs ++ (to_bytes 4 fds ++ rest) =
      append_assoc (to_bytes 4 refs) (to_bytes 4 fds ++ payload) more
      ∙ ap (λ x. to_bytes 4 refs ++ x) (append_assoc (to_bytes 4 fds) payload more) in
    let first : take 4 (to_bytes 4 refs ++ (to_bytes 4 fds ++ rest)) ≡ to_bytes 4 refs =
      take-append_of_length 4 (to_bytes 4 refs) _ (length-to_bytes 4 refs) in
    let after : drop 4 (to_bytes 4 refs ++ (to_bytes 4 fds ++ rest)) ≡ to_bytes 4 fds ++ rest =
      drop-append_of_length 4 (to_bytes 4 refs) _ (length-to_bytes 4 refs) in
    let second : take 4 (to_bytes 4 fds ++ rest) ≡ to_bytes 4 fds =
      take-append_of_length 4 (to_bytes 4 fds) _ (length-to_bytes 4 fds) in
    let long : ltb (length (to_bytes 4 refs ++ (to_bytes 4 fds ++ rest))) 8 ≡ false = ground (
      arith,
      length-append (to_bytes 4 refs) (to_bytes 4 fds ++ rest),
      length-append (to_bytes 4 fds) rest,
      length-to_bytes 4 refs,
      length-to_bytes 4 fds,
    ) in
    rw
      (
        whole,
        long,
        first,
        after,
        second,
        from_bytes-to_bytes 4 refs few_refs,
        from_bytes-to_bytes 4 fds few_fds,
      )
      refl
