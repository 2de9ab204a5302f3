-- ===== src/Bench/Reads.antt =====
-- examples/bench.rs: the loops of `echo_into`, over what a builder has put at the end of a payload.
use binderbinder.Base.{
  ℕ, zero, suc, ◌+◌, ◌*◌, ◌%◌, ◌^◌, Cmd, ◌<◌, ◌≡◌, refl, sym, ap, ◌∙◌, subst, true, Option, List,
  [], ◌∷◌, ◌++◌, replicate, length, length-append, arith, ok,
}
use binderbinder.Sys.Structs.{FlatObject, flat_bytes, AllFit, flat_fields}
use binderbinder.Sys.ObjectType
use binderbinder.Device.{Device}
use binderbinder.Device.Driver.{Driver}
use binderbinder.Device.ObjectOrRef.{BinderObjectOrRef, get_flat_binder_object, clone, drop_either}
use binderbinder.Payload.Builder.{
  PayloadBuilder, fd_object, push_binder_ref, push_owned_fd, push_object,
}
use binderbinder.Payload.Reader.{
  Reading, success, on_device, moved, resolve, read_binder_ref, read_fd, is_binder_ref,
}
use binderbinder.Payload.Layout.{pushed, push_object_lem}
use binderbinder.Payload.RoundTrip.{
  Piece, flat_piece, put, put_all, Grows, Grows-trans, put_all-Grows,
}
use binderbinder.Payload.RoundTrip.Reads.{at_part}
use binderbinder.Payload.RoundTrip.Program.{moved_lem, read_binder_ref-put, read_fd-put}
use binderbinder.Bench.{whole, echo_ref, echo_refs, echo_fds}
use mathlib.Core.List.{append_assoc, append-nil}
use binderbinder.Sys.Layout.{flat_binder_object, binder_fd_object}

-- A builder's bytes and offsets.
abbrev pub bare : PayloadBuilder → PayloadBuilder
bare b = record b { owned_fds = []; binder_objects = [] }

-- What one turn does with a ref whose flat form is `o`: it resolves, its clone has the flat form `o'`,
-- and it can be dropped. `P n` holds of a device that has `n` such turns before it.
pub record Turn (driver : Driver) (o o' : FlatObject) (P : ℕ → Device → Type 0) (n : ℕ) (d : Device)
    : Type 0 where
  pub port : BinderObjectOrRef
  pub copy : BinderObjectOrRef
  pub resolved : Device
  pub cloned : Device
  pub dropped : Device
  pub resolves : resolve driver o d ≡ ok (success port) resolved
  pub clones : clone driver port resolved ≡ ok copy cloned
  pub flat : get_flat_binder_object driver cloned copy ≡ o'
  pub drops : drop_either driver port cloned ≡ ok tt dropped
  pub next : P n dropped

abbrev pub Carries : Driver → FlatObject → FlatObject → (ℕ → Device → Type 0) → Type 0
Carries driver o o' P = (n : ℕ) (d : Device) → P (suc n) d → Turn driver o o' P n d

abbrev pub AllNarrow : List ℕ → Type 0
AllNarrow [] = Unit
AllNarrow (fd ∷ fds) = (fd < 2 ^ 32) × AllNarrow fds

module _ (driver : Driver) where
  -- The descriptors that come with a message, each with the cookie 0.
  abbrev pub fd_pieces : List ℕ → List Piece
  fd_pieces [] = []
  fd_pieces (fd ∷ fds) = flat_piece (fd_object driver fd 0) ∷ fd_pieces fds

  abbrev pub push_owned : List ℕ → PayloadBuilder → PayloadBuilder
  push_owned [] b = b
  push_owned (fd ∷ fds) b = push_owned fds (push_owned_fd driver fd 0 b)

on_device_lem :
    {A : Type 0} (m : Cmd Device A) (s : Reading) (a : A) (d : Device)
    → m s.device ≡ ok a d
    → on_device m s ≡ ok a (record s { device = d })
unfolding on_device
on_device_lem m s a d e = rw (e, on_device) refl

module _ (driver : Driver) (mapped : Option ℕ) (objects : List BinderObjectOrRef) where
  grown :
      (o : FlatObject) (ps : List Piece) (b c : PayloadBuilder)
      → Grows (put_all ps (put (flat_piece o) b)) c
      → Grows (pushed (flat_bytes o) b) c
  grown o ps b c g =
      subst (λ x. Grows x c) (push_object_lem (flat_bytes o) b)
        (Grows-trans (put_all-Grows ps (put (flat_piece o) b)) g)

  read_one :
      (o : FlatObject) (b c : PayloadBuilder) (d e : Device) (port : BinderObjectOrRef)
      → Grows (pushed (flat_bytes o) b) c
      → AllFit (flat_fields o)
      → is_binder_ref o.type_ ≡ true
      → resolve driver o d ≡ ok (success port) e
      → read_binder_ref driver (at_part mapped objects d b c)
        ≡ ok (success port) (at_part mapped objects e (put (flat_piece o) b) c)
  unfolding moved
  read_one o b c d e port g fit right resolves =
      read_binder_ref-put driver mapped objects o b c d g fit right
      ∙ rw (on_device_lem (resolve driver o) (at_part mapped objects d b c) _ e resolves) (
          ap (ok (success port)) (
            moved_lem driver mapped objects o b c e
            ∙ ap (λ x. at_part mapped objects e x c) (sym (push_object_lem (flat_bytes o) b))))

  pushed_bare :
      (o' : FlatObject) (d : Device) (copy : BinderObjectOrRef) (e : PayloadBuilder)
      → get_flat_binder_object driver d copy ≡ o'
      → bare (push_binder_ref driver d copy e) ≡ put (flat_piece o') (bare e)
  unfolding push_binder_ref push_object flat_binder_object
  pushed_bare o' d copy e flat = ap (λ x. put (flat_piece x) (bare e)) flat

  pushed_keeps :
      (d : Device) (copy : BinderObjectOrRef) (e : PayloadBuilder)
      → ((push_binder_ref driver d copy e).owned_fds ≡ e.owned_fds)
        × (length (push_binder_ref driver d copy e).binder_objects ≡ suc (length e.binder_objects))
  unfolding push_binder_ref push_object
  pushed_keeps d copy e = (refl, omega (arith, length-append e.binder_objects (copy ∷ [])))

  module _ (o o' : FlatObject) (P : ℕ → Device → Type 0) (carries : Carries driver o o' P)
      (fit : AllFit (flat_fields o)) (right : is_binder_ref o.type_ ≡ true) where
    echo_ref_lem :
        (n : ℕ) (d : Device) (t : Turn driver o o' P n d) (b c e : PayloadBuilder)
        → echo_ref driver t.port e (at_part mapped objects t.resolved b c)
          ≡ ok (push_binder_ref driver t.cloned t.copy e) (at_part mapped objects t.dropped b c)
    unfolding echo_ref
    echo_ref_lem n d t b c e =
        rw
          (
            on_device_lem (clone driver t.port) (at_part mapped objects t.resolved b c) _ _
                t.clones,
            on_device_lem (drop_either driver t.port) (at_part mapped objects t.cloned b c) _ _
                t.drops,
          )
          refl

    -- What the loop over the refs leads to.
    pub record EchoedRefs (n : ℕ) (b c e : PayloadBuilder) (d : Device) : Type 0 where
      pub builder : PayloadBuilder
      pub device : Device
      pub runs :
          echo_refs driver n e (at_part mapped objects d b c)
          ≡ ok
              (whole builder)
              (at_part mapped objects device (put_all (replicate n (flat_piece o)) b) c)
      pub bytes : bare builder ≡ put_all (replicate n (flat_piece o')) (bare e)
      pub owned : builder.owned_fds ≡ e.owned_fds
      pub kept : length builder.binder_objects ≡ n + length e.binder_objects
      pub left : P 0 device

    pub echo_refs_lem :
        (n : ℕ) (b c e : PayloadBuilder) (d : Device)
        → Grows (put_all (replicate n (flat_piece o)) b) c
        → P n d
        → EchoedRefs n b c e d
    unfolding echo_refs
    echo_refs_lem zero b c e d g p = record {
      builder = e;
      device = d;
      runs = refl;
      bytes = refl;
      owned = refl;
      kept = omega arith;
      left = p;
    }
    echo_refs_lem (suc n) b c e d g p =
        let t = carries n d p in
        let e' = push_binder_ref driver t.cloned t.copy e in
        let b' = put (flat_piece o) b in
        let rest = echo_refs_lem n b' c e' t.dropped g t.next in
        let read =
          read_one o b c d t.resolved t.port (grown o (replicate n (flat_piece o)) b c g) fit right
            t.resolves in
        record {
          builder = rest.builder;
          device = rest.device;
          runs = rw (read, echo_ref_lem n d t b' c e) rest.runs;
          bytes =
              rest.bytes
              ∙ ap (put_all (replicate n (flat_piece o')))
                  (pushed_bare o' t.cloned t.copy e t.flat);
          owned = rest.owned ∙ (pushed_keeps t.cloned t.copy e).0;
          kept = omega (arith, rest.kept, (pushed_keeps t.cloned t.copy e).1);
          left = rest.left;
        }

  read_one_fd :
      (fd : ℕ) (b c : PayloadBuilder) (d : Device)
      → Grows (pushed (flat_bytes (fd_object driver fd 0)) b) c
      → fd < 2 ^ 32
      → driver.padding < 2 ^ 32
      → read_fd (at_part mapped objects d b c)
        ≡ ok
            (success (fd, 0))
            (at_part mapped objects d (put (flat_piece (fd_object driver fd 0)) b) c)
  unfolding on_device moved fd_object ObjectType.fd
  read_one_fd fd b c d g narrow padding =
      let o = fd_object driver fd 0 in
      let bits : (fd + driver.padding * 2 ^ 32) % 2 ^ 32 ≡ fd = omega arith in
      read_fd-put driver mapped objects o b c d g
        (omega arith, (omega arith, (omega arith, (omega arith, tt)))) refl
      ∙ rw bits (
          ap (ok (success (fd, 0))) (
            moved_lem driver mapped objects o b c d
            ∙ ap (λ x. at_part mapped objects d x c) (sym (push_object_lem (flat_bytes o) b))))

  pub echo_fds_lem :
      (fds : List ℕ) (b c e : PayloadBuilder) (d : Device)
      → Grows (put_all (fd_pieces driver fds) b) c
      → AllNarrow fds
      → driver.padding < 2 ^ 32
      → echo_fds driver (length fds) e (at_part mapped objects d b c)
        ≡ ok
            (whole (push_owned driver fds e))
            (at_part mapped objects d (put_all (fd_pieces driver fds) b) c)
  unfolding echo_fds
  echo_fds_lem [] b c e d g narrow padding = refl
  echo_fds_lem (fd ∷ fds) b c e d g narrow padding =
      rw
        (read_one_fd fd b c d (grown (fd_object driver fd 0) (fd_pieces driver fds) b c g) narrow.0
          padding)
        (echo_fds_lem fds (put (flat_piece (fd_object driver fd 0)) b) c
          (push_owned_fd driver fd 0 e) d g narrow.1 padding)

  pub push_owned_lem :
      (fds : List ℕ) (b : PayloadBuilder)
      → (bare (push_owned driver fds b) ≡ put_all (fd_pieces driver fds) (bare b))
        × ((push_owned driver fds b).owned_fds ≡ b.owned_fds ++ fds)
        × ((push_owned driver fds b).binder_objects ≡ b.binder_objects)
  unfolding push_owned_fd push_object binder_fd_object
  push_owned_lem [] b = (refl, sym (append-nil b.owned_fds), refl)
  push_owned_lem (fd ∷ fds) b =
      let (bytes, owned, kept) = push_owned_lem fds (push_owned_fd driver fd 0 b) in
      (bytes, owned ∙ append_assoc b.owned_fds (fd ∷ []) fds, kept)
