-- ===== src/Payload/RoundTrip/Pushed.antt =====
-- src/payload.rs: the calls of the builder, and the reads that answer them.
use binderbinder.Base.{ℕ, ◌<◌, ◌≡◌, refl, ap, ◌∙◌, subst, Option, List, [], ◌∷◌, map, arith, length}
use binderbinder.Base.Words.{usize_mod}
use binderbinder.Sys.ObjectType
use binderbinder.Device.{Device}
use binderbinder.Device.Driver.{Driver}
use binderbinder.Device.ObjectOrRef.{
  BinderObjectOrRef, object, weak_object, ref, weak_ref, get_flat_binder_object,
}
use binderbinder.Sys.Layout.{flat_binder_object, binder_fd_object}
use binderbinder.Payload.Builder.{
  PayloadBuilder, blank, fd_object, push_bytes, push_binder_ref, push_fd, push_owned_fd,
  push_object,
}
use binderbinder.Payload.Layout.{Content, raw, descriptor, owned_descriptor, carried, push_content}
use binderbinder.Payload.RoundTrip.{Piece, bytes_piece, flat_piece, put, put_all}
use binderbinder.Payload.RoundTrip.Reads.{after_part}
use binderbinder.Payload.RoundTrip.Program.{
  each, read_piece, meaning, view, IsReadable, AllReadable, each_lem,
}

module _ (driver : Driver) (d : Device) where
  -- What the builder writes for a content, padding aside.
  abbrev pub piece : Content → Piece
  piece (raw bytes) = bytes_piece bytes
  piece (descriptor fd cookie) = flat_piece (fd_object driver fd cookie)
  piece (owned_descriptor fd cookie) = flat_piece (fd_object driver fd cookie)
  piece (carried o) = flat_piece (get_flat_binder_object driver d o)

  abbrev pub push_contents : List Content → PayloadBuilder → PayloadBuilder
  push_contents [] b = b
  push_contents (c ∷ cs) b = push_contents cs (push_content driver d c b)

  -- The numbers of an object are in the range of their fields.
  abbrev pub Fits : Piece → Type 0
  Fits (bytes_piece xs) = Unit
  Fits (flat_piece o) = (o.bits < usize_mod) × (o.cookie < usize_mod)

  abbrev pub AllFits : List Content → Type 0
  AllFits [] = Unit
  AllFits (c ∷ cs) = Fits (piece c) × AllFits cs

  readable : (c : Content) → Fits (piece c) → IsReadable (piece c)
  unfolding fd_object get_flat_binder_object ObjectType.fd ObjectType.binder ObjectType.weak_binder
      ObjectType.handle ObjectType.weak_handle
  readable (raw bytes) f = f
  readable (descriptor fd cookie) f =
      ((omega arith, (omega arith, (omega (arith, f.0), (omega (arith, f.1), tt)))), refl)
  readable (owned_descriptor fd cookie) f =
      ((omega arith, (omega arith, (omega (arith, f.0), (omega (arith, f.1), tt)))), refl)
  readable (carried (object b)) f =
      ((omega arith, (omega arith, (omega (arith, f.0), (omega (arith, f.1), tt)))), refl)
  readable (carried (weak_object id)) f =
      ((omega arith, (omega arith, (omega (arith, f.0), (omega (arith, f.1), tt)))), refl)
  readable (carried (ref a)) f =
      ((omega arith, (omega arith, (omega (arith, f.0), (omega (arith, f.1), tt)))), refl)
  readable (carried (weak_ref a)) f =
      ((omega arith, (omega arith, (omega (arith, f.0), (omega (arith, f.1), tt)))), refl)

  pub all_readable : (cs : List Content) → AllFits cs → AllReadable (map piece cs)
  all_readable [] f = tt
  all_readable (c ∷ cs) f = (readable c f.0, all_readable cs f.1)

  -- The builder without what it only keeps alive.
  abbrev pub strip : PayloadBuilder → PayloadBuilder
  strip b = record b { owned_fds = []; binder_objects = [] }

  strip-push :
      (c : Content) (b : PayloadBuilder)
      → strip (push_content driver d c b) ≡ put (piece c) (strip b)
  unfolding push_bytes push_binder_ref push_fd push_owned_fd push_object flat_binder_object
      binder_fd_object
  strip-push (raw bytes) b = refl
  strip-push (descriptor fd cookie) b = refl
  strip-push (owned_descriptor fd cookie) b = refl
  strip-push (carried o) b = refl

  pub strip-push_contents :
      (cs : List Content) (b : PayloadBuilder)
      → strip (push_contents cs b) ≡ put_all (map piece cs) (strip b)
  strip-push_contents [] b = refl
  strip-push_contents (c ∷ cs) b =
      strip-push_contents cs (push_content driver d c b)
      ∙ ap (put_all (map piece cs)) (strip-push c b)

  -- A reader over the bytes and the offsets of a builder, read call by call as the builder was
  -- called, gives each content back and never more than it: the same bytes, the same descriptors and
  -- cookies, and of each object what `resolve` makes of its flat form on the reader's device, in
  -- order, up to the first object that this device does not know. The payload is shorter than 2^64.
  pub push_read :
      (mapped : Option ℕ) (objects : List BinderObjectOrRef) (cs : List Content) (on : Device)
      → AllFits cs
      → length (push_contents cs blank).data_ < usize_mod
      → view (
          each (read_piece driver) (map piece cs) (record {
            reader = after_part mapped objects blank (push_contents cs blank);
            device = on;
          }))
        ≡ each (meaning driver) (map piece cs) on
  push_read mapped objects cs on fits small =
      let same : strip (push_contents cs blank) ≡ put_all (map piece cs) blank =
        strip-push_contents cs blank in
      let short : length (put_all (map piece cs) blank).data_ < usize_mod =
        subst (λ (b : PayloadBuilder). length b.data_ < usize_mod) same small in
      ap
        (λ b. view (
          each (read_piece driver) (map piece cs)
            (record { reader = after_part mapped objects blank b; device = on })))
        same
      ∙ each_lem driver mapped objects (map piece cs) blank on (omega arith) (all_readable cs fits)
          short
