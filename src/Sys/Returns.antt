-- ===== src/Sys/Returns.antt =====
-- src/sys.rs: `BinderReturn`, and the choice of an arm by `binder_write_read` in src/device.rs.
use binderbinder.Base.{
  ℕ, ◌^◌, ◌<◌, ◌≡◌, refl, ◌∙◌, Bool, false, ◌&&◌, Option, none, some, List, [], ◌∷◌, arith, ◌==◌,
  if◌then◌else◌,
}
use binderbinder.Sys.Layout.{
  usize, binder_transaction_data, binder_transaction_data_sec_ctx, binder_ptr_cookie,
  binder_priority_ptr_cookie, binder_frozen_state_info,
}
use binderbinder.Sys.Opcodes.{Opcodes}

-- `BinderReturn`'s constants, in the source's order.
pub data BinderReturn : Type 0 where
  error ok transaction_sec_ctx transaction reply acquire_result dead_reply : BinderReturn
  transaction_complete increfs acquire release decrefs attempt_acquire noop : BinderReturn
  spawn_looper finished dead_binder clear_death_notification_done failed_reply : BinderReturn
  frozen_reply oneway_spam_suspect transaction_pending_frozen frozen_binder : BinderReturn
  clear_freeze_notification_done : BinderReturn

-- What an opcode is made of, in the group b'r'.
pub data Shape : Type 0 where
  none_of : ℕ → Shape
  read_of : ℕ → ℕ → Shape

unfoldable pub shape : BinderReturn → Shape
unfolding binder_transaction_data binder_transaction_data_sec_ctx binder_ptr_cookie
    binder_priority_ptr_cookie binder_frozen_state_info
shape BinderReturn.error = read_of 4 0
shape BinderReturn.ok = none_of 1
shape BinderReturn.transaction_sec_ctx = read_of binder_transaction_data_sec_ctx.size 2
shape BinderReturn.transaction = read_of binder_transaction_data.size 2
shape BinderReturn.reply = read_of binder_transaction_data.size 3
shape BinderReturn.acquire_result = read_of 4 4
shape BinderReturn.dead_reply = none_of 5
shape BinderReturn.transaction_complete = none_of 6
shape BinderReturn.increfs = read_of binder_ptr_cookie.size 7
shape BinderReturn.acquire = read_of binder_ptr_cookie.size 8
shape BinderReturn.release = read_of binder_ptr_cookie.size 9
shape BinderReturn.decrefs = read_of binder_ptr_cookie.size 10
shape BinderReturn.attempt_acquire = read_of binder_priority_ptr_cookie.size 11
shape BinderReturn.noop = none_of 12
shape BinderReturn.spawn_looper = none_of 13
shape BinderReturn.finished = none_of 14
shape BinderReturn.dead_binder = read_of usize.size 15
shape BinderReturn.clear_death_notification_done = read_of usize.size 16
shape BinderReturn.failed_reply = none_of 17
shape BinderReturn.frozen_reply = none_of 18
shape BinderReturn.oneway_spam_suspect = none_of 19
shape BinderReturn.transaction_pending_frozen = none_of 20
shape BinderReturn.frozen_binder = read_of binder_frozen_state_info.size 21
shape BinderReturn.clear_freeze_notification_done = read_of usize.size 22

abbrev shape_code : Opcodes → Shape → ℕ
shape_code ops (none_of n) = ops.no_data b'r' n
shape_code ops (read_of s n) = ops.read s b'r' n

unfoldable pub return_code : Opcodes → BinderReturn → ℕ
return_code ops r = shape_code ops (shape r)

-- The bytes that the driver sends behind the code.
unfoldable pub payload_size : BinderReturn → ℕ
payload_size r = elim (shape r) [ none_of n ↦ 0 | read_of s n ↦ s ]

-- The arms of the `match`, top to bottom.
abbrev arms : List BinderReturn
arms =
    BinderReturn.error ∷ BinderReturn.ok ∷ BinderReturn.transaction_sec_ctx
    ∷ BinderReturn.transaction ∷ BinderReturn.reply ∷ BinderReturn.acquire_result
    ∷ BinderReturn.dead_reply ∷ BinderReturn.transaction_complete ∷ BinderReturn.increfs
    ∷ BinderReturn.acquire ∷ BinderReturn.release ∷ BinderReturn.decrefs
    ∷ BinderReturn.attempt_acquire ∷ BinderReturn.noop ∷ BinderReturn.spawn_looper
    ∷ BinderReturn.finished ∷ BinderReturn.dead_binder ∷ BinderReturn.clear_death_notification_done
    ∷ BinderReturn.failed_reply ∷ BinderReturn.frozen_reply ∷ BinderReturn.oneway_spam_suspect
    ∷ BinderReturn.transaction_pending_frozen ∷ BinderReturn.frozen_binder
    ∷ BinderReturn.clear_freeze_notification_done ∷ []

first_arm : Opcodes → ℕ → List BinderReturn → Option BinderReturn
unfolding return_code shape
first_arm ops code [] = none
first_arm ops code (r ∷ rs) = if code == return_code ops r then some r else first_arm ops code rs

-- `BinderReturn::from_u32`, and the arm that it meets; `none` is the arm for unknown messages.
unfoldable pub from_u32 : Opcodes → ℕ → Option BinderReturn
unfolding first_arm
from_u32 ops code = first_arm ops code arms

abbrev same_shape : Shape → Shape → Bool
same_shape (none_of n) (none_of m) = n == m
same_shape (read_of s n) (read_of t m) = (s == t) && (n == m)
same_shape _ _ = false

abbrev IsSmall : Shape → Type 0
IsSmall (none_of n) = n < 256
IsSmall (read_of s n) = (s < 2 ^ 14) × (n < 256)

module _ (ops : Opcodes) where
  open ops use {no_data_inj, read_inj, no_data_ne_read}

  code-same_shape :
      (a b : Shape)
      → IsSmall a
      → IsSmall b
      → (shape_code ops a == shape_code ops b) ≡ same_shape a b
  code-same_shape (none_of n) (none_of m) h k =
      ground (arith, no_data_inj b'r' n b'r' m (omega arith) (omega arith))
  code-same_shape (none_of n) (read_of t m) h k =
      ground (arith, no_data_ne_read b'r' n t b'r' m (omega arith) (omega arith))
  code-same_shape (read_of s n) (none_of m) h k =
      ground (arith, no_data_ne_read b'r' m s b'r' n (omega arith) (omega arith))
  code-same_shape (read_of s n) (read_of t m) h k =
      ground (arith, read_inj s b'r' n t b'r' m (omega arith) (omega arith))

abbrev first_shape : Shape → List BinderReturn → Option BinderReturn
first_shape a [] = none
first_shape a (r ∷ rs) = if same_shape a (shape r) then some r else first_shape a rs

abbrev AllSmall : List BinderReturn → Type 0
AllSmall [] = Unit
AllSmall (r ∷ rs) = IsSmall (shape r) × AllSmall rs

first_arm-shape :
    (ops : Opcodes) (a : Shape) (rs : List BinderReturn)
    → IsSmall a
    → AllSmall rs
    → first_arm ops (shape_code ops a) rs ≡ first_shape a rs
unfolding first_arm return_code
first_arm-shape ops a [] h k = refl
first_arm-shape ops a (r ∷ rs) h k =
    ground (arith, code-same_shape ops a (shape r) h k.0, first_arm-shape ops a rs h k.1)

arms-AllSmall : AllSmall arms
unfolding shape
arms-AllSmall = omega arith

shape-IsSmall : (r : BinderReturn) → IsSmall (shape r)
unfolding shape
shape-IsSmall BinderReturn.error = omega arith
shape-IsSmall _ = omega arith

first_shape-arms : (r : BinderReturn) → first_shape (shape r) arms ≡ some r
unfolding shape
first_shape-arms BinderReturn.error = refl
first_shape-arms _ = refl

-- Every return of the protocol reaches its own arm: no constant of `BinderReturn` is equal to one
-- of an arm above it, though two of them share their number.
pub from_u32-return_code :
    (ops : Opcodes) (r : BinderReturn) → from_u32 ops (return_code ops r) ≡ some r
unfolding from_u32 return_code
from_u32-return_code ops r =
    first_arm-shape ops (shape r) arms (shape-IsSmall r) arms-AllSmall ∙ first_shape-arms r
