-- ===== src/Payload/Reader/Ending.antt =====
-- src/payload.rs: the loop of the reader's `Drop` comes to an end on what it can read.
use binderbinder.Base.{
  ℕ, zero, suc, ◌+◌, ◌-◌, ◌<◌, ◌≡◌, ◌≢◌, refl, sym, ap, ◌∙◌, subst, Bool, true, false, Option, none,
  some, List, [], ◌∷◌, length, get_elem?, arith, Run, ok, panic, Cmd, pure, ◌>>=◌, ◌>>◌, and_then,
  Bool-cases, Option-cases, inl, inr, ◌==◌, if◌then◌else◌,
}
use binderbinder.Base.Bytes.{slice, from_bytes}
use binderbinder.Sys.Structs.{FlatObject, read_flat}
use binderbinder.Sys.ObjectType
use binderbinder.Sys.Layout.{binder_object_header, flat_binder_object, binder_fd_object}
use binderbinder.Device.{Device}
use binderbinder.Device.Driver.{Driver}
use binderbinder.Device.ObjectOrRef.{BinderObjectOrRef, drop_either}
use binderbinder.Payload.Reader.{
  PayloadReader, Reading, Result, success, failure, BinderObjectType, binder_object,
  weak_binder_object, binder_ref, weak_binder_ref, fd, fd_array, buffer, object_type,
  next_object_type, read_binder_ref, read_fd, read_object, next_offset, slice_at, moved, advance,
  on_device, is_fd, is_binder_ref, resolve,
}
use binderbinder.Payload.Reader.Ends.{drain_all, drain, discard, skip}

-- The reader has moved on by one object, over the same bytes.
pub record StepTo (r q : PayloadReader) : Type 0 where
  pub bytes : q.data_ ≡ r.data_
  pub places : q.offsets ≡ r.offsets
  pub index : q.next_offset_index ≡ r.next_offset_index + 1

abbrev pub Steps : {A : Type 0} → PayloadReader → Run Reading A → Type 0
Steps r (panic s) = Unit
Steps r (ok a s) = StepTo r s.reader

-- A read moves on when it succeeds, and stays when it fails.
abbrev Reads : {A : Type 0} → PayloadReader → Run Reading (Result A) → Type 0
Reads r (panic s) = Unit
Reads r (ok (success a) s) = StepTo r s.reader
Reads r (ok (failure e) s) = s.reader ≡ r

moved-Reads :
    {A : Type 0} (x : Run Device (Result A)) (end : ℕ) (s : Reading)
    → Reads s.reader ((on_device (λ _. x) >>= moved end) s)
unfolding on_device moved advance
moved-Reads (ok (success a) d) end s = record { bytes = refl; places = refl; index = refl }
moved-Reads (ok (failure e) d) end s = refl
moved-Reads (panic d) end s = tt

read_object-Reads :
    {A : Type 0} (takes : ℕ → Bool) (size : ℕ) (convert : FlatObject → Cmd Device (Result A))
    (s : Reading)
    → Reads s.reader (read_object takes size convert s)
unfolding read_object slice_at on_device
read_object-Reads takes size convert s = elim (Option-cases (next_offset s.reader)) [
  | inl e ↦ rw (read_object, e) refl
  | inr (offset, e) ↦ elim (Option-cases (slice s.reader.data_ offset binder_object_header.size)) [
    | inl h ↦ rw (read_object, e, slice_at, h) tt
    | inr (header, h) ↦ elim (Bool-cases (takes (from_bytes header))) [
      | inr other ↦ rw (read_object, e, slice_at, h, other) refl
      | inl right ↦ elim (Option-cases (slice s.reader.data_ offset size)) [
        | inl l ↦ rw (read_object, e, slice_at, h, right, slice_at, l) tt
        | inr (bytes, l) ↦
            rw (read_object, e, slice_at, h, right, slice_at, l)
              (moved-Reads (convert (read_flat bytes) s.device) (offset + size) s)
      ]
    ]
  ]
]

discard-Steps :
    (driver : Driver) (r : PayloadReader) (x : Run Reading (Result BinderObjectOrRef))
    → Reads r x
    → Steps r (and_then x (discard driver))
unfolding discard on_device skip
discard-Steps driver r (panic s) h = tt
discard-Steps driver r (ok (failure e) s) h =
    subst (λ q. StepTo q (record s.reader { next_offset_index = s.reader.next_offset_index + 1 })) h
      (record { bytes = refl; places = refl; index = refl })
discard-Steps driver r (ok (success v) s) h = dropped (drop_either driver v s.device)
  where
    dropped : (y : Run Device (Unit {0})) → Steps r (on_device (λ _. y) s)
    dropped (ok a d) = h
    dropped (panic d) = tt

if_other : {A : Type 0} (test : Bool) (a b c : A) → (if test then a else b) ≡ c → a ≢ c → b ≡ c
if_other true a b c e h = absurd (h e)
if_other false a b c e h = e

is_fd-object_type : (t : ℕ) → object_type t ≡ some fd → is_fd t ≡ true
unfolding object_type
is_fd-object_type t e = elim (Bool-cases (is_fd t)) [
  | inl hit ↦ hit
  | inr miss ↦
      let e1 = if_other (t == ObjectType.binder) (some binder_object) _ (some fd) e λ x. cc in
      let e2 = if_other (t == ObjectType.handle) (some binder_ref) _ (some fd) e1 λ x. cc in
      let e3 =
        if_other (t == ObjectType.weak_binder) (some weak_binder_object) _ (some fd) e2 λ x. cc in
      let e4 =
        if_other (t == ObjectType.weak_handle) (some weak_binder_ref) _ (some fd) e3 λ x. cc in
      let e5 = rw miss at e4 in
      let e6 = if_other (t == ObjectType.fda) (some fd_array) _ (some fd) e5 λ x. cc in
      if_last (t == ObjectType.ptr) e6
]
  where
    if_last : (test : Bool) → (if test then some buffer else none) ≡ some fd → is_fd t ≡ true
    if_last true x = absurd (not_fd x)
      where
        not_fd : some buffer ≢ some fd
        not_fd y = cc
    if_last false x = cc

read_fd-Steps :
    (s : Reading) (offset : ℕ) (header : List ℕ)
    → next_offset s.reader ≡ some offset
    → slice s.reader.data_ offset 4 ≡ some header
    → is_fd (from_bytes header) ≡ true
    → Steps s.reader ((read_fd >> pure tt) s)
unfolding read_fd read_object slice_at on_device moved advance binder_object_header binder_fd_object
read_fd-Steps s offset header e h right = elim (Option-cases (slice s.reader.data_ offset 24)) [
  | inl l ↦ rw (read_object, e, slice_at, h, right, slice_at, l) tt
  | inr (bytes, l) ↦
      rw (read_object, e, slice_at, h, right, slice_at, l)
        (record { bytes = refl; places = refl; index = refl })
]

-- An object that the loop can drain.
abbrev pub IsDrainable : BinderObjectType → Type 0
IsDrainable fd_array = ⊥
IsDrainable buffer = ⊥
IsDrainable _ = Unit

module _ (driver : Driver) where
  binder-Steps : (s : Reading) → Steps s.reader ((read_binder_ref driver >>= discard driver) s)
  unfolding read_binder_ref
  binder-Steps s =
      discard-Steps driver s.reader (read_binder_ref driver s)
        (read_object-Reads is_binder_ref flat_binder_object.size (resolve driver) s)

  drain-Steps :
      (t : BinderObjectType) (s : Reading) (offset : ℕ) (header : List ℕ)
      → next_offset s.reader ≡ some offset
      → slice s.reader.data_ offset 4 ≡ some header
      → object_type (from_bytes header) ≡ some t
      → IsDrainable t
      → Steps s.reader (drain driver t s)
  unfolding drain
  drain-Steps binder_object s offset header e h k u = binder-Steps s
  drain-Steps weak_binder_object s offset header e h k u = binder-Steps s
  drain-Steps binder_ref s offset header e h k u = binder-Steps s
  drain-Steps weak_binder_ref s offset header e h k u = binder-Steps s
  drain-Steps fd s offset header e h k u =
      read_fd-Steps s offset header e h (is_fd-object_type (from_bytes header) k)
  drain-Steps fd_array s offset header e h k u = absurd u
  drain-Steps buffer s offset header e h k u = absurd u

abbrev offset_at : Option (List ℕ) → ℕ → Option ℕ
offset_at none i = none
offset_at (some os) i = get_elem? os i

-- None of the offsets is that of an object that the loop cannot drain.
abbrev pub AllDrainable : PayloadReader → Type 0
AllDrainable r =
    (i offset : ℕ) (header : List ℕ) (t : BinderObjectType)
    → offset_at r.offsets i ≡ some offset
    → slice r.data_ offset 4 ≡ some header
    → object_type (from_bytes header) ≡ some t
    → IsDrainable t

-- The offsets that are not read yet.
abbrev pub left_over : Option (List ℕ) → ℕ → ℕ
left_over none i = 0
left_over (some os) i = length os - i

in_range : (os : List ℕ) (i o : ℕ) → get_elem? os i ≡ some o → i < length os
in_range [] i o e = cc
in_range (x ∷ os) zero o e = omega arith
in_range (x ∷ os) (suc i) o e = omega (arith, in_range os i o e)

left_over-less :
    (os : Option (List ℕ)) (i o : ℕ)
    → offset_at os i ≡ some o
    → left_over os (i + 1) < left_over os i
left_over-less none i o e = cc
left_over-less (some os) i o e = omega (arith, in_range os i o e)

next_offset_lem : (r : PayloadReader) → next_offset r ≡ offset_at r.offsets r.next_offset_index
unfolding next_offset
next_offset_lem r = elim (Option-cases r.offsets) [
  | inl e ↦ rw (next_offset, e)
  | inr (os, e) ↦ rw (next_offset, e)
]

-- The loop has ended, by its test or by a panic.
abbrev pub Ends : Run Reading Bool → Type 0
Ends (panic s) = Unit
Ends (ok ended s) = ended ≡ true

Ends-and_then :
    (r : PayloadReader) (x : Run Reading (Unit {0})) (rest : Cmd Reading Bool)
    → Steps r x
    → ((u : Reading) → StepTo r u.reader → Ends (rest u))
    → Ends (and_then x (λ _. rest))
Ends-and_then r (panic s) rest h go = tt
Ends-and_then r (ok a s) rest h go = go s h

safe_after : (r q : PayloadReader) → StepTo r q → AllDrainable r → AllDrainable q
safe_after r q step safe i offset header t e g k =
    safe i offset header t (ap (λ os. offset_at os i) (sym step.places) ∙ e)
      (ap (λ x. slice x offset 4) (sym step.bytes) ∙ g) k

less_after :
    (r q : PayloadReader) (offset n : ℕ)
    → StepTo r q
    → offset_at r.offsets r.next_offset_index ≡ some offset
    → left_over r.offsets r.next_offset_index < suc n
    → left_over q.offsets q.next_offset_index < n
less_after r q offset n step here h =
    let same : left_over q.offsets q.next_offset_index
        ≡ left_over r.offsets (r.next_offset_index + 1) =
      ap (λ os. left_over os q.next_offset_index) step.places
      ∙ ap (left_over r.offsets) step.index in
    omega (arith, same, h, left_over-less r.offsets r.next_offset_index offset here)

module _ (driver : Driver) where
  -- The loop of `drop` comes to an end after at most one turn for each offset that is left and one
  -- more, by its own test or by a panic, whatever the device holds and whether the objects are known
  -- or not, if no offset is that of a buffer or of an array of descriptors.
  pub drain_all-Ends :
      (fuel : ℕ) (s : Reading)
      → AllDrainable s.reader
      → left_over s.reader.offsets s.reader.next_offset_index < fuel
      → Ends (drain_all driver fuel s)
  unfolding drain_all next_object_type slice_at binder_object_header
  drain_all-Ends zero s safe h = absurd (omega (arith, h))
  drain_all-Ends (suc n) s safe h = elim (Option-cases (next_offset s.reader)) [
    | inl e ↦ rw (next_object_type, e) refl
    | inr (offset, e) ↦ elim (Option-cases (slice s.reader.data_ offset 4)) [
      | inl g ↦ rw (next_object_type, e, slice_at, g) tt
      | inr (header, g) ↦ elim (Option-cases (object_type (from_bytes header))) [
        | inl k ↦ rw (next_object_type, e, slice_at, g, k) refl
        | inr (t, k) ↦
            let r = s.reader in
            let here : offset_at r.offsets r.next_offset_index ≡ some offset =
              sym (next_offset_lem r) ∙ e in
            let u = safe r.next_offset_index offset header t here g k in
            rw (next_object_type, e, slice_at, g, k)
              (Ends-and_then r (drain driver t s) (drain_all driver n)
                (drain-Steps driver t s offset header e g k u)
                (λ v step.
                  drain_all-Ends n v (safe_after r v.reader step safe)
                    (less_after r v.reader offset n step here h)))
      ]
    ]
  ]
