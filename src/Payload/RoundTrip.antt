-- ===== src/Payload/RoundTrip.antt =====
-- src/payload.rs: a builder that is pushed to only grows at its end.
pub mod Reads
pub mod Program
pub mod Pushed
pub mod Overlap
pub mod Copies
pub mod Local
use binderbinder.Base.{
  ℕ, zero, suc, ◌+◌, ◌-◌, ◌*◌, ◌%◌, ◌^◌, ◌≤◌, ◌<◌, ◌≡◌, refl, sym, ap, ◌∙◌, subst, Bool, true,
  false, ◌||◌, not, Option, none, some, List, [], ◌∷◌, ◌++◌, ◌==◌, ==_refl, if◌then◌else◌, ltb, leb,
  length, length-append, get_elem?-append, get_elem?, replicate, arith, Bool-cases, inl, inr, Run,
  ok, panic, Cmd, pure, ◌>>=◌, ◌>>◌, take, drop,
}
use binderbinder.Base.Words.{usize_mod}
use binderbinder.Base.Bytes.{slice, slice-append, from_bytes, from_bytes-to_bytes, pow256}
use binderbinder.Sys.Structs.{
  FlatObject, flat_bytes, read_flat, with_low, low_half, length-flat_bytes, read_flat-flat_bytes,
  AllFit, flat_fields,
}
use binderbinder.Sys.ObjectType
use binderbinder.Device.{Device}
use binderbinder.Device.Driver.{Driver}
use binderbinder.Device.ObjectOrRef.{BinderObjectOrRef, get_flat_binder_object}
use binderbinder.Payload.Builder.{
  PayloadBuilder, blank, push_bytes, push_object, push_binder_ref, push_fd,
}
use binderbinder.Payload.Reader.{
  PayloadReader, Reading, with_reader, Result, success, failure, first_after, next_after,
  read_bytes, next_offset, read_object, stops_before, get_range, add_usize, moved, on_device,
}
use binderbinder.Payload.Reader.Reads.{read_bytes-success, read_object-lands}
use binderbinder.Payload.Layout.{
  slot, padded, pushed, push_object_lem, length-padded, IsLaidOut, IsOrdered, pushed-IsOrdered,
  pads, laid_out-append,
}
use mathlib.Core.List.{append_assoc, append-nil}

-- Bytes, or an object in its flat form.
pub data Piece : Type 0 where
  bytes_piece : List ℕ → Piece
  flat_piece : FlatObject → Piece

abbrev pub put : Piece → PayloadBuilder → PayloadBuilder
put (bytes_piece xs) b = push_bytes xs b
put (flat_piece o) b = push_object 8 (flat_bytes o) b

abbrev pub put_all : List Piece → PayloadBuilder → PayloadBuilder
put_all [] b = b
put_all (p ∷ ps) b = put_all ps (put p b)

-- The builder's data only grows at the end, and the offsets that are added are at its old end or
-- after it.
pub record Grows (b c : PayloadBuilder) : Type 0 where
  pub more : List ℕ
  pub data_lem : c.data_ ≡ b.data_ ++ more
  pub later : List ℕ
  pub offsets_lem : c.obj_offsets ≡ b.obj_offsets ++ later
  pub after : IsLaidOut (length b.data_) later (length c.data_)

pub pushed-Grows : (o : FlatObject) (b : PayloadBuilder) → Grows b (pushed (flat_bytes o) b)
pushed-Grows o b =
    let size = length-append (padded b.data_) (flat_bytes o) in
    record {
      more = replicate (pads (length b.data_)) 0 ++ flat_bytes o;
      data_lem = append_assoc b.data_ (replicate (pads (length b.data_)) 0) (flat_bytes o);
      later = slot (length b.data_) ∷ [];
      offsets_lem = refl;
      after = (
        omega arith,
        omega arith,
        omega (arith, size, length-padded b.data_, length-flat_bytes o),
      );
    }

pub put-Grows : (p : Piece) (b : PayloadBuilder) → Grows b (put p b)
unfolding push_bytes
put-Grows (bytes_piece xs) b = record {
  more = xs;
  data_lem = refl;
  later = [];
  offsets_lem = sym (append-nil b.obj_offsets);
  after = omega (arith, length-append b.data_ xs);
}
put-Grows (flat_piece o) b =
    subst (Grows b) (sym (push_object_lem (flat_bytes o) b)) (pushed-Grows o b)

laid_out-trans :
    (start : ℕ) (os : List ℕ) (middle : ℕ) (qs : List ℕ) (end : ℕ)
    → IsLaidOut start os middle
    → IsLaidOut middle qs end
    → IsLaidOut start (os ++ qs) end
laid_out-trans start [] middle [] end l r = omega (arith, l, r)
laid_out-trans start [] middle (q ∷ qs) end l r = (omega (arith, l, r.0), r.1, r.2)
laid_out-trans start (o ∷ os) middle qs end l r =
    (l.0, l.1, laid_out-trans (o + 24) os middle qs end l.2 r)

pub Grows-trans : {b c e : PayloadBuilder} → Grows b c → Grows c e → Grows b e
Grows-trans {b} {c} {e} f g = record {
  more = f.more ++ g.more;
  data_lem = g.data_lem ∙ ap (λ x. x ++ g.more) f.data_lem ∙ append_assoc b.data_ f.more g.more;
  later = f.later ++ g.later;
  offsets_lem =
      g.offsets_lem
      ∙ ap (λ x. x ++ g.later) f.offsets_lem
      ∙ append_assoc b.obj_offsets f.later g.later;
  after =
      laid_out-trans (length b.data_) f.later (length c.data_) g.later (length e.data_) f.after
        g.after;
}

pub put_all-Grows : (ps : List Piece) (b : PayloadBuilder) → Grows b (put_all ps b)
put_all-Grows [] b = record {
  more = [];
  data_lem = sym (append-nil b.data_);
  later = [];
  offsets_lem = sym (append-nil b.obj_offsets);
  after = omega arith;
}
put_all-Grows (p ∷ ps) b = Grows-trans (put-Grows p b) (put_all-Grows ps (put p b))

below : (start : ℕ) (os : List ℕ) (middle : ℕ) → IsLaidOut start os middle → start ≤ middle
below start [] middle l = l
below start (o ∷ os) middle l = omega (arith, l.0, below (o + 24) os middle l.2)

pub first_after-low :
    (start : ℕ) (os qs : List ℕ) (middle index : ℕ)
    → IsLaidOut start os middle
    → middle ≤ index
    → first_after index (os ++ qs) ≡ first_after index qs
unfolding first_after
first_after-low start [] qs middle index l h = refl
first_after-low start (o ∷ os) qs middle index l h =
    let passed : ltb index o ≡ false = ground (arith, below (o + 24) os middle l.2) in
    rw passed (first_after-low (o + 24) os qs middle index l.2 h)
