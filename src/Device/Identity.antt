-- ===== src/Device/Identity.antt =====
-- src/binder_object.rs: the `Eq` and `Hash` of `BinderObjectOrRef` and of what it holds. A device is
-- its address, `Arc::as_ptr`; `heap` has what stands there.
use binderbinder.Base.{
  ℕ, ◌==◌, ◌&&◌, ◌≡◌, ◌≢◌, ◌↔◌, ap, Bool, true, false, false≢true, List, [], ◌∷◌, arith,
}
use binderbinder.Refcount.{ObjectId}
use binderbinder.Sys.ObjectType
use binderbinder.Sys.Structs.{FlatObject, with_low}
use binderbinder.Device.{Device, same_id, same_id-eq}
use binderbinder.Device.Driver.{Driver}
use binderbinder.Device.Objects.{Borrowed}
use binderbinder.Device.Handles.Books.{handle_of}
use binderbinder.Device.ObjectOrRef.{
  BinderObjectOrRef, accepts_fds, object, weak_object, ref, weak_ref, get_flat_binder_object,
}

-- What a `Hasher` is fed: how many bytes, and their number.
abbrev pub Fed : Type 0
Fed = List (ℕ × ℕ)

abbrev pub hash_id : ObjectId → Fed
hash_id id = (8, id.id) ∷ (8, id.cookie) ∷ []

-- The `PartialEq` of each of the four, on the devices `p` and `q`, and its `Hash`.
abbrev pub eq_borrowed : ℕ → ℕ → Borrowed → Borrowed → Bool
eq_borrowed p q a b = (p == q) && same_id a.id b.id

abbrev pub hash_borrowed : ℕ → Borrowed → Fed
hash_borrowed p a = (8, p) ∷ hash_id a.id

abbrev pub eq_weak_object : ℕ → ℕ → ObjectId → ObjectId → Bool
eq_weak_object p q a b = (p == q) && same_id a b

abbrev pub hash_weak_object : ℕ → ObjectId → Fed
hash_weak_object p a = (8, p) ∷ hash_id a

module _ (heap : ℕ → Device) where
  abbrev pub eq_weak_ref : ℕ → ℕ → ℕ → ℕ → Bool
  eq_weak_ref p q a b =
      (p == q) && (((heap p).weak_cells a).handle == ((heap q).weak_cells b).handle)

  abbrev pub hash_weak_ref : ℕ → ℕ → Fed
  hash_weak_ref p a = (8, p) ∷ (4, ((heap p).weak_cells a).handle) ∷ []

  abbrev pub eq_ref : ℕ → ℕ → ℕ → ℕ → Bool
  eq_ref p q a b = (p == q) && (handle_of a (heap p) == handle_of b (heap q))

  -- Its device, and then its `WeakBinderRef`, which has the same device.
  abbrev pub hash_ref : ℕ → ℕ → Fed
  hash_ref p a = (8, p) ∷ hash_weak_ref p ((heap p).ref_cells a).weak

  -- The derived ones. An `Arc` compares and hashes what it points to.
  unfoldable pub eq : ℕ → ℕ → BinderObjectOrRef → BinderObjectOrRef → Bool
  eq p q (object a) (object b) = eq_borrowed p q a b
  eq p q (weak_object a) (weak_object b) = eq_weak_object p q a b
  eq p q (ref a) (ref b) = eq_ref p q a b
  eq p q (weak_ref a) (weak_ref b) = eq_weak_ref p q a b
  eq p q x y = false

  -- The discriminant comes first.
  unfoldable pub hash : ℕ → BinderObjectOrRef → Fed
  hash p (object a) = (8, 0) ∷ hash_borrowed p a
  hash p (weak_object a) = (8, 1) ∷ hash_weak_object p a
  hash p (ref a) = (8, 2) ∷ hash_ref p a
  hash p (weak_ref a) = (8, 3) ∷ hash_weak_ref p a

false_apart : {A P : Type 0} {a b : A} → a ≢ b → (false ≡ true) ↔ (P × (a ≡ b))
false_apart ne = (λ e. absurd (false≢true e), λ h. absurd (ne h.1))

other_type : {P : Type 0} {f g : FlatObject} → f.type_ ≢ g.type_ → (false ≡ true) ↔ (P × (f ≡ g))
other_type ne = false_apart (λ e. ne (ap (λ (x : FlatObject). x.type_) e))

flat_of : ℕ → ℕ → ℕ → FlatObject
flat_of t bits cookie = record { type_ = t; flags = accepts_fds; bits = bits; cookie = cookie }

flat_ids :
    (p q t : ℕ) (a b : ObjectId)
    → (((p == q) && same_id a b) ≡ true)
      ↔ ((p ≡ q) × (flat_of t a.id a.cookie ≡ flat_of t b.id b.cookie))
unfolding flat_of
flat_ids p q t a b = (
  λ e. (
    ground (arith, e),
    ap (λ (c : ObjectId). flat_of t c.id c.cookie) (same_id-eq a b (ground (arith, e))),
  ),
  λ h.
      (let i : a.id ≡ b.id = ap (λ (x : FlatObject). x.bits) h.1 in
        let k : a.cookie ≡ b.cookie = ap (λ (x : FlatObject). x.cookie) h.1 in
        ground (arith, h.0, i, k)),
)

flat_handles :
    (p q t padding m n : ℕ)
    → (((p == q) && (m == n)) ≡ true)
      ↔ ((p ≡ q) × (flat_of t (with_low padding m) 0 ≡ flat_of t (with_low padding n) 0))
unfolding flat_of
flat_handles p q t padding m n = (
  λ e. (ground (arith, e), ap (λ k. flat_of t (with_low padding k) 0) (ground (arith, e))),
  λ h.
      (let i : with_low padding m ≡ with_low padding n = ap (λ (x : FlatObject). x.bits) h.1 in
        ground (arith, h.0, i)),
)

hash_ids :
    (p q t : ℕ) (a b : ObjectId)
    → (((p == q) && same_id a b) ≡ true)
      ↔ ((8, t) ∷ (8, p) ∷ hash_id a ≡ (8, t) ∷ (8, q) ∷ hash_id b)
hash_ids p q t a b = (
  λ e. (let i : p ≡ q = ground (arith, e) in let k = same_id-eq a b (ground (arith, e)) in cc),
  λ h. ground (arith, h),
)

module _ (heap : ℕ → Device) (driver : Driver) where
  eq-sent :
      (p q : ℕ) (x y : BinderObjectOrRef)
      → (eq heap p q x y ≡ true) ↔ (
          (p ≡ q)
          × (get_flat_binder_object driver (heap p) x ≡ get_flat_binder_object driver (heap q) y))
  unfolding eq get_flat_binder_object flat_of ObjectType.binder ObjectType.handle
      ObjectType.weak_binder ObjectType.weak_handle
  eq-sent p q (object a) (object b) = flat_ids p q ObjectType.binder a.id b.id
  eq-sent p q (weak_object a) (weak_object b) = flat_ids p q ObjectType.weak_binder a b
  eq-sent p q (ref a) (ref b) = flat_handles p q ObjectType.handle driver.padding _ _
  eq-sent p q (weak_ref a) (weak_ref b) = flat_handles p q ObjectType.weak_handle driver.padding _ _
  eq-sent p q x y = other_type (omega arith)

  eq-hash :
      (p q : ℕ) (x y : BinderObjectOrRef)
      → (eq heap p q x y ≡ true) ↔ (hash heap p x ≡ hash heap q y)
  unfolding eq hash
  eq-hash p q (object a) (object b) = hash_ids p q 0 a.id b.id
  eq-hash p q (weak_object a) (weak_object b) = hash_ids p q 1 a b
  eq-hash p q x y = ground arith

  -- Of two values that hold the devices `p` and `q`: they are equal exactly when the devices are one
  -- and both are sent as the same flat object, and exactly when a hasher is fed the same.
  pub eq_lem :
      (p q : ℕ) (x y : BinderObjectOrRef)
      → ((eq heap p q x y ≡ true) ↔ (
          (p ≡ q)
          × (get_flat_binder_object driver (heap p) x ≡ get_flat_binder_object driver (heap q) y)))
        × ((eq heap p q x y ≡ true) ↔ (hash heap p x ≡ hash heap q y))
  eq_lem p q x y = (eq-sent p q x y, eq-hash p q x y)
