-- ===== src/Bench/Echo.antt =====
-- examples/bench.rs: what `echo_into` makes of a message of the client.
use binderbinder.Base.{
  ℕ, zero, suc, ◌^◌, ◌<◌, ◌≡◌, refl, sym, ap, ◌∙◌, true, Option, List, [], ◌∷◌, ◌++◌, replicate,
  length, length-append, arith, ok,
}
use binderbinder.Base.Words.{usize_mod}
use binderbinder.Base.Bytes.{to_bytes, length-to_bytes}
use binderbinder.Sys.Structs.{FlatObject, AllFit, flat_fields}
use binderbinder.Device.{Device}
use binderbinder.Device.Driver.{Driver}
use binderbinder.Device.ObjectOrRef.{BinderObjectOrRef}
use binderbinder.Payload.Builder.{PayloadBuilder, blank, push_bytes}
use binderbinder.Payload.Reader.{Reading, success, read_bytes, is_binder_ref, bytes_until_next_obj}
use binderbinder.Payload.RoundTrip.{
  Piece, bytes_piece, flat_piece, put_all, Grows-trans, put_all-Grows,
}
use binderbinder.Payload.RoundTrip.Reads.{at_part, after_part, read_bytes-put}
use binderbinder.Bench.{whole, header_counts, HeaderCounts, echo_into, echo_refs, echo_fds}
use binderbinder.Bench.Reads.{
  Carries, bare, echo_refs_lem, echo_fds_lem, fd_pieces, AllNarrow, push_owned, push_owned_lem,
}
use binderbinder.Bench.Block.{
  header, plain, put_all-append, StartsFlat, block, put_all-block, block-append, until_block,
  header_counts-header,
}

echo_steps :
    (driver : Driver) (bytes : List ℕ) (e e' e'' : PayloadBuilder) (s s1 s2 s3 : Reading)
    → read_bytes driver (bytes_until_next_obj s.reader) s ≡ ok (success bytes) s1
    → echo_refs driver (header_counts bytes).refs (push_bytes bytes e) s1 ≡ ok (whole e') s2
    → echo_fds driver (header_counts bytes).fds e' s2 ≡ ok (whole e'') s3
    → echo_into driver e s ≡ ok (whole e'') s3
unfolding echo_into
echo_steps driver bytes e e' e'' s s1 s2 s3 read refs fds = rw (read, refs, fds) refl

module _ (driver : Driver) where
  -- The objects of a message.
  abbrev pub carried_pieces : FlatObject → ℕ → List ℕ → List Piece
  carried_pieces o refs fds = replicate refs (flat_piece o) ++ fd_pieces driver fds

  abbrev pub message_pieces : FlatObject → ℕ → List ℕ → List ℕ → List Piece
  message_pieces o refs fds payload =
      bytes_piece (header refs (length fds) payload) ∷ carried_pieces o refs fds

  carried-StartsFlat :
      (o : FlatObject) (refs : ℕ) (fds : List ℕ) → StartsFlat (carried_pieces o refs fds)
  carried-StartsFlat o zero [] = tt
  carried-StartsFlat o zero (fd ∷ fds) = tt
  carried-StartsFlat o (suc refs) fds = tt

  -- The same for every object.
  block-carried :
      (o o' : FlatObject) (refs : ℕ) (fds bytes : List ℕ)
      → block (carried_pieces o refs fds) bytes ≡ block (carried_pieces o' refs fds) bytes
  block-carried o o' zero [] bytes = refl
  block-carried o o' zero (fd ∷ fds) bytes = refl
  block-carried o o' (suc refs) fds bytes = refl

  -- The builder of a message whose bytes were pushed with their padding.
  abbrev padded_message : FlatObject → ℕ → List ℕ → List ℕ → PayloadBuilder
  padded_message o refs fds bytes =
      put_all (fd_pieces driver fds)
        (put_all (replicate refs (flat_piece o)) (push_bytes bytes blank))

  message-padded :
      (o o' : FlatObject) (refs : ℕ) (fds payload : List ℕ)
      → put_all (message_pieces o refs fds payload) blank
        ≡ padded_message o refs fds
            (block (carried_pieces o' refs fds) (header refs (length fds) payload))
  unfolding push_bytes
  message-padded o o' refs fds payload =
      let head = header refs (length fds) payload in
      put_all-block (carried_pieces o refs fds) head (carried-StartsFlat o refs fds)
      ∙ ap (λ x. put_all (carried_pieces o refs fds) (plain x)) (block-carried o o' refs fds head)
      ∙ put_all-append (replicate refs (flat_piece o)) (fd_pieces driver fds) _

  module _ (o o' : FlatObject) (P : ℕ → Device → Type 0) (carries : Carries driver o o' P)
      (fit : AllFit (flat_fields o)) (right : is_binder_ref o.type_ ≡ true) where
    -- What the service sends back, and that it has read the whole message.
    pub record Echoed (refs : ℕ) (fds : List ℕ) (c c' : PayloadBuilder) (mapped : Option ℕ)
        (objects : List BinderObjectOrRef) (d : Device) : Type 0 where
      pub builder : PayloadBuilder
      pub device : Device
      pub runs :
          echo_into driver blank (at_part mapped objects d blank c)
          ≡ ok (whole builder) (at_part mapped objects device c c)
      pub bytes : bare builder ≡ c'
      pub owned : builder.owned_fds ≡ fds
      pub kept : length builder.binder_objects ≡ refs
      pub left : P 0 device

    echo_padded :
        (refs : ℕ) (fds bytes : List ℕ) (mapped : Option ℕ) (objects : List BinderObjectOrRef)
        (d : Device)
        → P refs d
        → AllNarrow fds
        → driver.padding < 2 ^ 32
        → header_counts bytes ≡ record { refs = refs; fds = length fds }
        → bytes_until_next_obj (after_part mapped objects blank (padded_message o refs fds bytes))
          ≡ length bytes
        → length bytes < usize_mod
        → Echoed refs fds
            (padded_message o refs fds bytes)
            (padded_message o' refs fds bytes)
            mapped
            objects
            d
    unfolding push_bytes
    echo_padded refs fds bytes mapped objects d p narrow padding counts until small =
        let b = push_bytes bytes blank in
        let b' = put_all (replicate refs (flat_piece o)) b in
        let c = put_all (fd_pieces driver fds) b' in
        let tail = put_all-Grows (fd_pieces driver fds) b' in
        let refs_read =
          echo_refs_lem driver mapped objects o o' P carries fit right refs b c b d tail p in
        let fds_read =
          echo_fds_lem driver mapped objects fds b' c refs_read.builder refs_read.device
            (put_all-Grows [] c) narrow padding in
        let (same, owned, kept) = push_owned_lem driver mapped objects fds refs_read.builder in
        let bytes_read =
          read_bytes-put mapped objects d driver bytes blank c (omega arith)
            (Grows-trans (put_all-Grows (replicate refs (flat_piece o)) b) tail)
            (omega (arith, small)) in
        record {
          builder = push_owned driver fds refs_read.builder;
          device = refs_read.device;
          runs =
              echo_steps driver bytes blank refs_read.builder
                (push_owned driver fds refs_read.builder) (at_part mapped objects d blank c)
                (at_part mapped objects d b c) (at_part mapped objects refs_read.device b' c)
                (at_part mapped objects refs_read.device c c)
                (ap (λ n. read_bytes driver n (at_part mapped objects d blank c)) until
                  ∙ bytes_read)
                (ap (λ (k : HeaderCounts). echo_refs driver k.refs b (at_part mapped objects d b c))
                    counts
                  ∙ refs_read.runs)
                (ap
                    (λ (k : HeaderCounts).
                      echo_fds driver k.fds refs_read.builder
                        (at_part mapped objects refs_read.device b' c))
                    counts
                  ∙ fds_read);
          bytes = same ∙ ap (put_all (fd_pieces driver fds)) refs_read.bytes;
          owned = owned ∙ ap (λ x. x ++ fds) refs_read.owned;
          kept = ap length kept ∙ refs_read.kept ∙ omega arith;
          left = refs_read.left;
        }

    -- The reader of the message that the client writes: `refs` refs whose flat form on arrival is `o`,
    -- and `fds` descriptors. It is shorter than 2^64 and no count leaves its field. The service reads
    -- all of it, and what it builds is the message itself, bytes and offsets, with the flat forms of
    -- its own refs and the descriptors that it was given; it keeps each of them for the reply. Each ref
    -- can be resolved, cloned and dropped, in turn.
    pub echo_message :
        (refs : ℕ) (fds payload : List ℕ) (mapped : Option ℕ) (objects : List BinderObjectOrRef)
        (d : Device)
        → P refs d
        → refs < 2 ^ 32
        → length fds < 2 ^ 32
        → AllNarrow fds
        → driver.padding < 2 ^ 32
        → length (put_all (message_pieces o refs fds payload) blank).data_ < usize_mod
        → Echoed refs fds
            (put_all (message_pieces o refs fds payload) blank)
            (put_all (message_pieces o' refs fds payload) blank)
            mapped
            objects
            d
    unfolding push_bytes
    echo_message refs fds payload mapped objects d p few_refs few_fds narrow padding small =
        let head = header refs (length fds) payload in
        let objs = carried_pieces o refs fds in
        let bytes = block objs head in
        let long : 0 < length head = omega (
          arith,
          length-append (to_bytes 4 refs) (to_bytes 4 (length fds) ++ payload),
          length-to_bytes 4 refs,
        ) in
        let (more, split) = block-append objs head in
        let counts : header_counts bytes ≡ record { refs = refs; fds = length fds } =
          ap header_counts split
          ∙ header_counts-header refs (length fds) payload more few_refs few_fds in
        let sent = message-padded o o refs fds payload in
        let whole =
          put_all-append (replicate refs (flat_piece o)) (fd_pieces driver fds) (plain bytes) in
        let until : bytes_until_next_obj
              (after_part mapped objects blank (padded_message o refs fds bytes))
            ≡ length bytes =
          ap (λ x. bytes_until_next_obj (after_part mapped objects blank x)) (sym whole)
          ∙ until_block objs head mapped objects (carried-StartsFlat o refs fds) long in
        let g = put_all-Grows objs (plain bytes) in
        let short : length bytes < usize_mod = omega (
          arith,
          small,
          ap {A = PayloadBuilder} (λ x. length x.data_) (sent ∙ sym whole),
          ap {A = List ℕ} length g.data_lem,
          length-append bytes g.more,
        ) in
        rw (sent, message-padded o' o refs fds payload)
          (echo_padded refs fds bytes mapped objects d p narrow padding counts until short)
