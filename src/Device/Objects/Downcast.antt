-- ===== src/Device/Objects/Downcast.antt =====
-- src/binder_object.rs: the downcasts of a `BorrowedBinderObject`. A type is its `TypeId`.
use binderbinder.Base.{
  ℕ, ◌+◌, ◌<◌, ◌==◌, ◌≡◌, ◌≢◌, ◌⊎◌, inl, inr, refl, Bool, Bool-cases, Option, none, some,
  Option-cases, Cmd, ok, if◌then◌else◌, arith,
}
use binderbinder.Base.Words.{u32_mod}
use binderbinder.Refcount.{ObjectId, ObjectRefState}
use binderbinder.Refcount.History.{IsSound, sum}
use binderbinder.Device.{Device, Handler, on_refcount}
use binderbinder.Device.Objects.Raised.{raised, counted-up}
use binderbinder.Device.Objects.{Borrowed, ObjectRef, ref_from_id, counted_ref}

-- `downcast_handler`, and `downcast_handler_arc`, which is the same `Arc`.
unfoldable pub downcast_handler : ℕ → Borrowed → Option Handler
downcast_handler type_id b = if b.handler.type_id == type_id then some b.handler else none

unfoldable pub downcast : Bool → ℕ → Borrowed → Cmd Device (Option ObjectRef)
unfolding ref_from_id
downcast checks type_id b = ref_from_id checks type_id b.id

-- What is registered under the id, and its counts.
abbrev pub Registered : ObjectId → Handler → ObjectRefState → Device → Type 0
Registered id h r d = (d.objects id ≡ some h) × (d.object_refcounts id ≡ some r)

-- The counts of the object, if it has any, are in order and have room for one more. If a handler of the
-- type that is asked for is registered under the id with counts, then `downcast` gives a ref to
-- that handler and counts it. In all other cases it gives nothing and changes nothing, and no
-- handler of that type is registered with counts. If what the borrowed object holds is what is
-- registered, then the handler of the ref is the one that `downcast_handler` gives.
pub downcast_lem :
    (checks : Bool) (type_id : ℕ) (b : Borrowed) (d : Device)
    → ((r : ObjectRefState)
        → d.object_refcounts b.id ≡ some r
        → IsSound r × (sum r.counts + 1 < u32_mod))
    → ((h : Handler) × (r : ObjectRefState) × Registered b.id h r d
        × (h.type_id ≡ type_id)
        × (downcast checks type_id b d
            ≡ ok (some (record { id = b.id; handler = h })) (raised b.id r d))
        × (b.handler ≡ h → downcast_handler type_id b ≡ some h))
      ⊎ ((downcast checks type_id b d ≡ ok none d)
          × ((h : Handler) (r : ObjectRefState) → Registered b.id h r d → h.type_id ≢ type_id))
unfolding downcast downcast_handler ref_from_id counted_ref
downcast_lem checks type_id b d room = elim (Option-cases (d.objects b.id)) [
  | inl e ↦ inr (rw (ref_from_id, e) refl, λ h r at f. ground (arith, e, at.0))
  | inr (h, e) ↦ elim (Bool-cases (h.type_id == type_id)) [
    | inr other ↦
        inr (rw (ref_from_id, e, other) refl, λ h' r at f. ground (arith, e, at.0, f, other))
    | inl this ↦ elim (Option-cases (d.object_refcounts b.id)) [
      | inl gone ↦ inr (
        rw (ref_from_id, e, this, on_refcount, gone) refl,
        λ h' r at f. ground (arith, gone, at.1),
      )
      | inr (r, counted) ↦ inl (
        h,
        r,
        (e, counted),
        ground (arith, this),
        rw
            (
              ref_from_id,
              e,
              this,
              counted-up checks b.id r d counted (room r counted).0 (room r counted).1,
            )
            refl,
        λ same. rw (same, this) refl,
      )
    ]
  ]
]
