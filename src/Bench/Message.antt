-- ===== src/Bench/Message.antt =====
-- examples/bench.rs: what the client writes.
use binderbinder.Base.{
  none, ◌∷◌, [], ℕ, zero, suc, ◌+◌, ◌<◌, ◌≡◌, inl, inr, refl, sym, ap, ◌∙◌, some, List, ◌++◌,
  replicate, length-replicate, ok, arith, Bool, Option-cases, subst, true, false,
}
use binderbinder.Base.Words.{u32_mod}
use binderbinder.Base.Bytes.{to_bytes}
use binderbinder.Sys.Structs.{FlatObject}
use binderbinder.Sys.ObjectType
use binderbinder.Refcount.{ObjectId, ObjectRefState}
use binderbinder.Refcount.History.{IsSound, sum, up_local, after, after-IsSound}
use binderbinder.Device.{same_id, Device, same_id_self, on_refcount}
use binderbinder.Device.Driver.{Driver}
use binderbinder.Device.Objects.Raised.{raised, counted-up}
use binderbinder.Device.Objects.{BinderObject, Borrowed, object_to_borrowed}
use binderbinder.Device.ObjectOrRef.{BinderObjectOrRef, object, accepts_fds, get_flat_binder_object}
use binderbinder.Sys.Layout.{flat_binder_object, binder_fd_object}
use binderbinder.Payload.Builder.{
  PayloadBuilder, blank, push_bytes, push_binder_ref, push_fd, push_object,
}
use binderbinder.Payload.RoundTrip.{flat_piece, put, put_all}
use binderbinder.Bench.{push_refs, push_fds, message}
use binderbinder.Bench.Reads.{bare, fd_pieces}
use binderbinder.Bench.Block.{header, put_all-append}
use binderbinder.Bench.Echo.{message_pieces}
use mathlib.Core.List.{append_assoc, append-nil}

-- The client's own object, as it is sent.
abbrev pub object_flat : ObjectId → FlatObject
object_flat id = record {
  type_ = ObjectType.binder;
  flags = accepts_fds;
  bits = id.id;
  cookie = id.cookie;
}

-- If the object is counted, `n` more refs fit.
abbrev pub HasRoom : ObjectId → ℕ → Device → Type 0
HasRoom id n d =
    (r : ObjectRefState) → d.object_refcounts id ≡ some r → IsSound r × (sum r.counts + n < u32_mod)

raised-HasRoom :
    (id : ObjectId) (n : ℕ) (r : ObjectRefState) (d : Device)
    → IsSound r
    → sum r.counts + suc n < u32_mod
    → HasRoom id n (raised id r d)
raised-HasRoom id n r d sound room q e =
    let same : after up_local r ≡ q = ground (arith, same_id_self id, e) in
    subst (λ x. IsSound x × (sum x.counts + n < u32_mod)) same
      (after-IsSound up_local r sound (omega (arith, room)), omega (arith, room))

-- The guard that `&BinderObject` makes: it counts if the object is counted.
abbrev pub guard_of : BinderObject → Device → Borrowed
guard_of o d = record {
  id = o.id;
  handler = o.handler;
  increased_local_ref = elim (d.object_refcounts o.id) [ none ↦ false | some r ↦ true ];
}

-- `n` local refs to the object were counted between the two devices, if it is counted at all.
pub record Lent (n : ℕ) (id : ObjectId) (d d' : Device) : Type 0 where
  pub counted :
      (r : ObjectRefState)
      → d.object_refcounts id ≡ some r
      → (r' : ObjectRefState) × (d'.object_refcounts id ≡ some r')
        × (r'.counts.local ≡ r.counts.local + n)
        × (r'.counts.remote ≡ r.counts.remote)
        × (r'.counts.pending ≡ r.counts.pending)
        × IsSound r'
  pub uncounted : d.object_refcounts id ≡ none → d' ≡ d
  pub others : (k : ObjectId) → same_id id k ≡ false → d'.object_refcounts k ≡ d.object_refcounts k
  pub rest : d' ≡ record d { object_refcounts = d'.object_refcounts }

none-Lent : (id : ObjectId) (n : ℕ) (d : Device) → HasRoom id n d → Lent 0 id d d
none-Lent id n d room = record {
  counted = λ r e. (r, e, omega arith, refl, refl, (room r e).0);
  uncounted = λ e. refl;
  others = λ k e. refl;
  rest = refl;
}

one-Lent :
    (id : ObjectId) (n : ℕ) (r : ObjectRefState) (d d' : Device)
    → d.object_refcounts id ≡ some r
    → Lent n id (raised id r d) d'
    → Lent (suc n) id d d'
one-Lent id n r d d' e more = record {
  counted = λ q f.
      let (r', there, local, remote, pending, sound) =
        more.counted (after up_local r) (ground (arith, same_id_self id)) in
      let same : r ≡ q = ground (arith, e, f) in
      let counts : r.counts ≡ q.counts = ap (λ (x : ObjectRefState). x.counts) same in
      (
        r',
        there,
        ground (arith, local, counts),
        ground (arith, remote, counts),
        ground (arith, pending, counts),
        sound,
      );
  uncounted = λ f. absurd (ground (arith, e, f));
  others = λ k f. more.others k f ∙ ground (arith, f);
  rest = more.rest;
}

unlent :
    (id : ObjectId) (n : ℕ) (d d' : Device)
    → d.object_refcounts id ≡ none
    → Lent n id d d'
    → Lent (suc n) id d d'
unlent id n d d' e more = record {
  counted = λ r f. absurd (ground (arith, e, f));
  uncounted = more.uncounted;
  others = more.others;
  rest = more.rest;
}

borrow_one :
    (checks : Bool) (o : BinderObject) (n : ℕ) (d : Device)
    → HasRoom o.id (suc n) d
    → (d1 : Device) × (object_to_borrowed checks o d ≡ ok (guard_of o d) d1)
      × HasRoom o.id n d1
      × (guard_of o d1 ≡ guard_of o d)
      × ((d' : Device) → Lent n o.id d1 d' → Lent (suc n) o.id d d')
unfolding object_to_borrowed
borrow_one checks o n d room = elim (Option-cases (d.object_refcounts o.id)) [
  | inl e ↦ (
    d,
    rw (e, on_refcount) refl,
    λ r found. ground (arith, e, found),
    refl,
    λ d' more. unlent o.id n d d' e more,
  )
  | inr (r, e) ↦ (
    raised o.id r d,
    rw (e, counted-up checks o.id r d e (room r e).0 (omega (arith, (room r e).1))) refl,
    raised-HasRoom o.id n r d (room r e).0 (room r e).1,
    rw (e, same_id_self o.id) refl,
    λ d' more. one-Lent o.id n r d d' e more,
  )
]

module _ (driver : Driver) where
  pushed_one :
      (d : Device) (b : Borrowed) (id : ObjectId) (e : PayloadBuilder)
      → b.id ≡ id
      → bare (push_binder_ref driver d (object b) e) ≡ put (flat_piece (object_flat id)) (bare e)
  unfolding push_binder_ref push_object flat_binder_object get_flat_binder_object
  pushed_one d b id e same = ap (λ x. put (flat_piece (object_flat x)) (bare e)) same

  pushed_guard :
      (d : Device) (b : Borrowed) (e : PayloadBuilder) (more : List BinderObjectOrRef)
      → (push_binder_ref driver d (object b) e).binder_objects ++ more
        ≡ e.binder_objects ++ (object b ∷ more)
  unfolding push_binder_ref push_object
  pushed_guard d b e more = append_assoc e.binder_objects (object b ∷ []) more

  push_refs_lem :
      (n : ℕ) (o : BinderObject) (e : PayloadBuilder) (d : Device)
      → HasRoom o.id n d
      → (b : PayloadBuilder) × (d' : Device) × (push_refs driver n o e d ≡ ok b d')
        × (bare b ≡ put_all (replicate n (flat_piece (object_flat o.id))) (bare e))
        × (b.binder_objects ≡ e.binder_objects ++ replicate n (object (guard_of o d)))
        × Lent n o.id d d'
  unfolding push_refs
  push_refs_lem zero o e d room =
      (e, d, refl, refl, sym (append-nil e.binder_objects), none-Lent o.id 0 d room)
  push_refs_lem (suc n) o e d room =
      let (d1, borrowed, room1, same, lent1) = borrow_one driver.checks o n d room in
      let port = guard_of o d in
      let (b, d2, rest, bytes, guards, lent) =
        push_refs_lem n o (push_binder_ref driver d1 (object port) e) d1 room1 in
      (
        b,
        d2,
        rw borrowed rest,
        bytes
            ∙ ap (put_all (replicate n (flat_piece (object_flat o.id))))
                (pushed_one d1 port o.id e refl),
        guards
            ∙ ap
                (λ (g : Borrowed).
                  (push_binder_ref driver d1 (object port) e).binder_objects
                  ++ replicate n (object g))
                same
            ∙ pushed_guard d1 port e (replicate n (object port)),
        lent1 d2 lent,
      )

  push_fds_lem :
      (n devnull : ℕ) (e : PayloadBuilder)
      → (bare (push_fds driver n devnull e)
          ≡ put_all (fd_pieces driver (replicate n devnull)) (bare e))
        × ((push_fds driver n devnull e).binder_objects ≡ e.binder_objects)
        × ((push_fds driver n devnull e).owned_fds ≡ e.owned_fds)
  unfolding push_fds push_fd push_object binder_fd_object
  push_fds_lem zero devnull e = (refl, refl, refl)
  push_fds_lem (suc n) devnull e = push_fds_lem n devnull (push_fd driver devnull 0 e)

  -- While the counts have room for the refs, a message of the client is the numbers of its refs and of
  -- its descriptors, the payload, and then that many flat forms of the client's object and of the
  -- descriptor. The message keeps a guard of the object for each ref, and if the object is counted then
  -- its local count is higher by that number, and its other counts, all other objects and all else of
  -- the device are as before; if it is not counted the guards count nothing and nothing changes.
  pub message_lem :
      (o : BinderObject) (devnull : ℕ) (payload : List ℕ) (refs fds : ℕ) (d : Device)
      → HasRoom o.id refs d
      → (b : PayloadBuilder) × (d' : Device) × (message driver o devnull payload refs fds d
          ≡ ok b d')
        × (bare b
            ≡ put_all
                (message_pieces driver (object_flat o.id) refs (replicate fds devnull) payload)
                blank)
        × (b.binder_objects ≡ replicate refs (object (guard_of o d)))
        × Lent refs o.id d d'
  unfolding message push_bytes
  message_lem o devnull payload refs fds d room =
      let e =
        push_bytes payload (push_bytes (to_bytes 4 fds) (push_bytes (to_bytes 4 refs) blank)) in
      let (b, d', pushed, bytes, guards, lent) = push_refs_lem refs o e d room in
      let objs = replicate refs (flat_piece (object_flat o.id)) in
      let sent = fd_pieces driver (replicate fds devnull) in
      let count = length-replicate {A = ℕ} fds devnull in
      let (fd_bytes, fd_guards, fd_owned) = push_fds_lem fds devnull b in
      (
        push_fds driver fds devnull b,
        d',
        rw pushed refl,
        fd_bytes
            ∙ ap (put_all sent) bytes
            ∙ sym (put_all-append objs sent (bare e))
            ∙ ap (λ xs. put_all (objs ++ sent) (record blank { data_ = xs }))
                (append_assoc (to_bytes 4 refs) (to_bytes 4 fds) payload)
            ∙ ap (λ n. put_all (objs ++ sent) (record blank { data_ = header refs n payload }))
                (sym count),
        fd_guards ∙ guards,
        lent,
      )
