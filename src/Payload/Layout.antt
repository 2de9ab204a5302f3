-- ===== src/Payload/Layout.antt =====
-- src/payload.rs: where the builder puts what is pushed.
use binderbinder.Base.{
  ℕ, zero, suc, ◌+◌, ◌-◌, ◌%◌, ◌≤◌, ◌≡◌, refl, sym, ap, ◌∙◌, subst, true, false, List, [], ◌∷◌,
  ◌++◌, ◌==◌, length, length-append, arith, replicate, length-replicate,
}
use binderbinder.Sys.Structs.{length-flat_bytes, length-encode}
use binderbinder.Sys.Layout.{
  flat_binder_object, binder_fd_object, binder_buffer_object, binder_fd_array_object,
}
use binderbinder.Device.{Device}
use binderbinder.Device.Driver.{Driver}
use binderbinder.Device.ObjectOrRef.{BinderObjectOrRef}
use binderbinder.Payload.Builder.{
  PayloadBuilder, pad, align, push_bytes, push_object, push_binder_ref, push_fd, push_owned_fd,
  push_child_buffer, push_fd_array,
}
use mathlib.Core.List.{append_assoc, append-nil}

-- The padding of a length: `pads n` more bytes make it a multiple of 8.
abbrev pub pads : ℕ → ℕ
pads n = (8 - n % 8) % 8

pad_lem :
    (n k : ℕ) (bytes : List ℕ)
    → k ≤ n
    → pads (length bytes) ≡ k
    → pad n 8 bytes ≡ bytes ++ replicate k 0
unfolding pad
pad_lem zero zero bytes h e = sym (append-nil bytes)
pad_lem (suc n) zero bytes h e =
    let done : (length bytes % 8 == 0) ≡ true = ground arith in rw done (sym (append-nil bytes))
pad_lem zero (suc k) bytes h e = ground arith
pad_lem (suc n) (suc k) bytes h e =
    let more : (length bytes % 8 == 0) ≡ false = ground arith in
    let next : pads (length (bytes ++ (0 ∷ []))) ≡ k =
      omega (arith, length-append bytes (0 ∷ [])) in
    rw (more, pad_lem n k (bytes ++ (0 ∷ [])) (omega arith) next)
      (append_assoc bytes (0 ∷ []) (replicate k 0))

-- The offset of an object that is pushed next.
abbrev pub slot : ℕ → ℕ
slot n = n + pads n

abbrev pub padded : List ℕ → List ℕ
padded bytes = bytes ++ replicate (pads (length bytes)) 0

pub align_lem : (b : PayloadBuilder) → align 8 b ≡ record b { data_ = padded b.data_ }
unfolding align
align_lem b = ap (λ x. record b { data_ = x }) (pad_lem 8 _ b.data_ (omega arith) refl)

pub length-padded : (bytes : List ℕ) → length (padded bytes) ≡ slot (length bytes)
length-padded bytes = omega (
  arith,
  length-append bytes (replicate (pads (length bytes)) 0),
  length-replicate {A = ℕ} (pads (length bytes)) 0,
)

-- An object's offsets and bytes after a push.
abbrev pub pushed : List ℕ → PayloadBuilder → PayloadBuilder
pushed bytes b = record b {
  data_ = padded b.data_ ++ bytes;
  obj_offsets = b.obj_offsets ++ (slot (length b.data_) ∷ []);
}

pub push_object_lem : (bytes : List ℕ) (b : PayloadBuilder) → push_object 8 bytes b ≡ pushed bytes b
unfolding push_object
push_object_lem bytes b =
    ap {B = PayloadBuilder}
      (λ (b' : PayloadBuilder). record b' {
        obj_offsets = b'.obj_offsets ++ (length b'.data_ ∷ []);
        data_ = b'.data_ ++ bytes;
      })
      (align_lem b)
    ∙ ap {B = PayloadBuilder}
        (λ n. record b { data_ = padded b.data_ ++ bytes; obj_offsets = b.obj_offsets ++ (n ∷ []) })
        (length-padded b.data_)

-- One call of the builder, for what a reader can read, and for the rest.
pub data Content : Type 0 where
  raw : List ℕ → Content
  descriptor owned_descriptor : ℕ → ℕ → Content
  carried : BinderObjectOrRef → Content

pub data Push : Type 0 where
  content : Content → Push
  child_buffer : ℕ → ℕ → ℕ → ℕ → Push
  descriptors : ℕ → ℕ → ℕ → Push

abbrev pub push_content : Driver → Device → Content → PayloadBuilder → PayloadBuilder
push_content driver d (raw bytes) b = push_bytes bytes b
push_content driver d (descriptor fd cookie) b = push_fd driver fd cookie b
push_content driver d (owned_descriptor fd cookie) b = push_owned_fd driver fd cookie b
push_content driver d (carried o) b = push_binder_ref driver d o b

abbrev pub push : Driver → Device → Push → PayloadBuilder → PayloadBuilder
push driver d (content c) b = push_content driver d c b
push driver d (child_buffer address len parent at) b = (push_child_buffer address len parent at b).1
push driver d (descriptors n parent at) b = push_fd_array n parent at b

abbrev pub push_all : Driver → Device → List Push → PayloadBuilder → PayloadBuilder
push_all driver d [] b = b
push_all driver d (p ∷ ps) b = push_all driver d ps (push driver d p b)

-- Offsets from `start` on, each a multiple of 8 with at least 24 bytes of its own before the next,
-- and the last before `end`.
abbrev pub IsLaidOut : ℕ → List ℕ → ℕ → Type 0
IsLaidOut start [] end = start ≤ end
IsLaidOut start (o ∷ os) end = (start ≤ o) × (o % 8 ≡ 0) × IsLaidOut (o + 24) os end

pub laid_out-append :
    (start : ℕ) (os : List ℕ) (end o end' : ℕ)
    → IsLaidOut start os end
    → end ≤ o
    → o % 8 ≡ 0
    → o + 24 ≤ end'
    → IsLaidOut start (os ++ (o ∷ [])) end'
laid_out-append start [] end o end' l h m f = (omega (arith, l), m, f)
laid_out-append start (x ∷ os) end o end' l h m f =
    (l.0, l.1, laid_out-append (x + 24) os end o end' l.2 h m f)

pub laid_out-extend :
    (start : ℕ) (os : List ℕ) (end end' : ℕ)
    → IsLaidOut start os end
    → end ≤ end'
    → IsLaidOut start os end'
laid_out-extend start [] end end' l h = omega (arith, l)
laid_out-extend start (x ∷ os) end end' l h = (l.0, l.1, laid_out-extend (x + 24) os end end' l.2 h)

abbrev pub IsOrdered : PayloadBuilder → Type 0
IsOrdered b = IsLaidOut 0 b.obj_offsets (length b.data_)

pub pushed-IsOrdered :
    (bytes : List ℕ) (b : PayloadBuilder)
    → 24 ≤ length bytes
    → IsOrdered b
    → IsOrdered (pushed bytes b)
pushed-IsOrdered bytes b h l =
    let room = length-append (padded b.data_) bytes in
    laid_out-append 0 b.obj_offsets (length b.data_) _ _ l (omega arith) (omega arith)
      (omega (arith, h, room, length-padded b.data_))

push_object-IsOrdered :
    (bytes : List ℕ) (b : PayloadBuilder)
    → 24 ≤ length bytes
    → IsOrdered b
    → IsOrdered (push_object 8 bytes b)
push_object-IsOrdered bytes b h l =
    subst IsOrdered (sym (push_object_lem bytes b)) (pushed-IsOrdered bytes b h l)

module _ (driver : Driver) (d : Device) where
  pub push-IsOrdered : (p : Push) (b : PayloadBuilder) → IsOrdered b → IsOrdered (push driver d p b)
  unfolding push_bytes push_fd push_owned_fd push_binder_ref push_child_buffer push_fd_array
      flat_binder_object binder_fd_object binder_buffer_object binder_fd_array_object
  push-IsOrdered (content (raw bytes)) b l =
      laid_out-extend 0 b.obj_offsets _ _ l (omega (arith, length-append b.data_ bytes))
  push-IsOrdered (content (descriptor fd cookie)) b l =
      push_object-IsOrdered _ b (omega (arith, length-flat_bytes _)) l
  push-IsOrdered (content (owned_descriptor fd cookie)) b l =
      push_object-IsOrdered _ b (omega (arith, length-flat_bytes _)) l
  push-IsOrdered (content (carried o)) b l =
      push_object-IsOrdered _ b (omega (arith, length-flat_bytes _)) l
  push-IsOrdered (child_buffer address len parent at) b l =
      push_object-IsOrdered _ b (omega (arith, length-encode _)) l
  push-IsOrdered (descriptors n parent at) b l =
      push_object-IsOrdered _ b (omega (arith, length-encode _)) l

  -- After any calls of the builder, the offsets are multiples of 8, ascending, no two objects
  -- overlap in the 24 bytes that each has at least, and these end within the data.
  pub push_all-IsOrdered :
      (ps : List Push) (b : PayloadBuilder) → IsOrdered b → IsOrdered (push_all driver d ps b)
  push_all-IsOrdered [] b l = l
  push_all-IsOrdered (p ∷ ps) b l = push_all-IsOrdered ps _ (push-IsOrdered p b l)
