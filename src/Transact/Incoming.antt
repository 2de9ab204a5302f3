-- ===== src/Transact/Incoming.antt =====
-- src/device.rs: what `binder_write_read` reads and returns.
use binderbinder.Base.{
  ℕ, ◌-◌, ◌%◌, ◌^◌, Bool, Option, none, some, List, [], ◌∷◌, ◌==◌, take, drop, Cmd, pure,
}
use binderbinder.Base.Bytes.{from_bytes}
use binderbinder.Sys.Structs.{decode}
use binderbinder.Sys.Layout.{
  usize, binder_transaction_data, binder_transaction_data_sec_ctx, binder_ptr_cookie,
  binder_frozen_state_info,
}
use binderbinder.Sys.Returns.{BinderReturn}
use binderbinder.Refcount.{ObjectId}
use binderbinder.Device.{Device, Handler}
use binderbinder.Payload.Builder.{PayloadBuilder}
use binderbinder.Payload.Reader.{PayloadReader}

pub data WriteReadError : Type 0 where
  object_not_found dead_reply failed_reply frozen_reply async_buffer_full no_device : WriteReadError
  write_read_ioctl_failed : ℕ → WriteReadError

-- What the function returns; `unfinished` is that the fuel ran out, or that a reader that was
-- dropped does not come to an end.
pub data Outcome : Type 0 where
  nothing unfinished : Outcome
  replied : ℕ → PayloadReader → Outcome
  failed_with : WriteReadError → Outcome

-- Whether the loop goes on after a message.
pub data Control : Type 0 where
  go_on : Control
  leave : Outcome → Control

-- `BinderTransactionData` on its way in.
pub record Incoming : Type 0 where
  pub target : ObjectId
  pub code : ℕ
  pub flags : ℕ
  pub sender_pid : ℕ
  pub sender_euid : ℕ
  pub data_size : ℕ
  pub offsets_size : ℕ
  pub buffer : ℕ
  pub offsets : ℕ

-- `Transaction`, as a handler gets it.
pub record Transaction : Type 0 where
  pub code : ℕ
  pub payload : PayloadReader
  pub sender_pid : ℕ
  pub sender_euid : ℕ

-- The two methods of a `TransactionHandler`, which own the payload.
pub record Handlers : Type 0 where
  pub handle : Handler → Transaction → Cmd Device PayloadBuilder
  pub handle_one_way : Handler → Transaction → Cmd Device (Unit {0})

unfoldable pub incoming_of : List ℕ → Incoming
incoming_of (t ∷ c ∷ code ∷ fs ∷ pid ∷ euid ∷ size ∷ offs ∷ b ∷ o ∷ []) = record {
  target = record { id = t; cookie = c };
  code = code;
  flags = fs;
  sender_pid = pid;
  sender_euid = euid;
  data_size = size;
  offsets_size = offs;
  buffer = b;
  offsets = o;
}
incoming_of _ = record {
  target = record { id = 0; cookie = 0 };
  code = 0;
  flags = 0;
  sender_pid = 0;
  sender_euid = 0;
  data_size = 0;
  offsets_size = 0;
  buffer = 0;
  offsets = 0;
}

-- `read_from_slice::<BinderTransactionData>`, once the bytes are there.
unfoldable pub read_incoming : List ℕ → Incoming
unfolding incoming_of decode
read_incoming bytes = incoming_of (decode (8 ∷ 8 ∷ 4 ∷ 4 ∷ 4 ∷ 4 ∷ 8 ∷ 8 ∷ 8 ∷ 8 ∷ []) bytes)

unfoldable pub read_ptr_cookie : List ℕ → ObjectId
unfolding from_bytes
read_ptr_cookie bytes = record {
  id = from_bytes (take 8 bytes);
  cookie = from_bytes (take 8 (drop 8 bytes));
}

-- `flags.contains(TransactionFlags::ONE_WAY)`, which is bit 0.
abbrev pub is_one_way : ℕ → Bool
is_one_way flags = flags % 2 == 1

-- -ENOSPC, as the bits of an i32.
abbrev pub no_space : ℕ
no_space = 2 ^ 32 - 28

-- How many bytes each arm reads: the size of the struct that it asks `read_from_slice` for, and none
-- in an arm that does not call it. That of BR_ATTEMPT_ACQUIRE is not the one in its opcode.
unfoldable pub read_size : Option BinderReturn → ℕ
unfolding binder_transaction_data binder_transaction_data_sec_ctx binder_ptr_cookie
    binder_frozen_state_info
read_size (some BinderReturn.error) = 4
read_size (some BinderReturn.ok) = 0
read_size (some BinderReturn.transaction_sec_ctx) = binder_transaction_data_sec_ctx.size
read_size (some BinderReturn.transaction) = binder_transaction_data.size
read_size (some BinderReturn.reply) = binder_transaction_data.size
read_size (some BinderReturn.acquire_result) = 4
read_size (some BinderReturn.dead_reply) = 0
read_size (some BinderReturn.transaction_complete) = 0
read_size (some BinderReturn.increfs) = binder_ptr_cookie.size
read_size (some BinderReturn.acquire) = binder_ptr_cookie.size
read_size (some BinderReturn.release) = binder_ptr_cookie.size
read_size (some BinderReturn.decrefs) = binder_ptr_cookie.size
read_size (some BinderReturn.attempt_acquire) = binder_ptr_cookie.size
read_size (some BinderReturn.noop) = 0
read_size (some BinderReturn.spawn_looper) = 0
read_size (some BinderReturn.finished) = 0
read_size (some BinderReturn.dead_binder) = usize.size
read_size (some BinderReturn.clear_death_notification_done) = usize.size
read_size (some BinderReturn.failed_reply) = 0
read_size (some BinderReturn.frozen_reply) = 0
read_size (some BinderReturn.oneway_spam_suspect) = 0
read_size (some BinderReturn.transaction_pending_frozen) = 0
read_size (some BinderReturn.frozen_binder) = binder_frozen_state_info.size
read_size (some BinderReturn.clear_freeze_notification_done) = usize.size
read_size none = 0

-- The rest of the loop, after a message.
abbrev pub next : Cmd Device Outcome → Control → Cmd Device Outcome
next more go_on = more
next more (leave o) = pure o
