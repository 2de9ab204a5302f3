-- ===== src/Device/Wire.antt =====
-- src/device.rs and src/sys.rs: `write_binder_command` and `write_binder_struct_command`, the commands
-- as the bytes that the driver reads.
pub mod ReadBack
use binderbinder.Base.{
  ℕ, ◌+◌, ◌*◌, ◌/◌, Option, none, some, List, [], ◌∷◌, ◌++◌, length, take, drop,
}
use binderbinder.Base.Bytes.{to_bytes}
use binderbinder.Refcount.{ObjectId}
use binderbinder.Sys.Opcodes.{Opcodes}
use binderbinder.Sys.Commands.{BinderCommand, command_code}
use binderbinder.Sys.Structs.{encode, with_low}
use binderbinder.Device.{
  Outgoing, Command, transaction, reply, free_buffer, increfs, acquire, release, decrefs,
  increfs_done, acquire_done, register_looper, enter_looper, exit_looper,
  request_death_notification, clear_death_notification, dead_binder_done,
}

-- Where the two buffers of a transaction lie, and what its union of a handle and an address has in the
-- bytes beside the handle.
pub record Placement : Type 0 where
  pub buffer : Outgoing → ℕ
  pub offsets : Outgoing → ℕ
  pub padding : ℕ

-- The code that a command is written with.
unfoldable pub kind : Command → BinderCommand
kind (transaction o) = BinderCommand.transaction
kind (reply o) = BinderCommand.reply
kind (free_buffer p) = BinderCommand.free_buffer
kind (increfs h) = BinderCommand.increfs
kind (acquire h) = BinderCommand.acquire
kind (release h) = BinderCommand.release
kind (decrefs h) = BinderCommand.decrefs
kind (increfs_done id) = BinderCommand.increfs_done
kind (acquire_done id) = BinderCommand.acquire_done
kind register_looper = BinderCommand.register_looper
kind enter_looper = BinderCommand.enter_looper
kind exit_looper = BinderCommand.exit_looper
kind (request_death_notification h cookie) = BinderCommand.request_death_notification
kind (clear_death_notification h cookie) = BinderCommand.clear_death_notification
kind (dead_binder_done cookie) = BinderCommand.dead_binder_done

-- `BinderTransactionData`, from the bits of its target on. A reply sets the address in the union, and
-- a transaction the handle.
abbrev pub transaction_data : Placement → ℕ → Outgoing → List (ℕ × ℕ)
transaction_data p target o =
    (8, target)
    ∷ (8, 0)
    ∷ (4, o.code)
    ∷ (4, o.flags)
    ∷ (4, o.sender_pid)
    ∷ (4, o.sender_euid)
    ∷ (8, length o.payload)
    ∷ (8, length o.offsets * 8)
    ∷ (8, p.buffer o)
    ∷ (8, p.offsets o)
    ∷ []

-- `BinderPtrCookie`, and the packed `BinderHandleCookie`.
abbrev pub ptr_cookie : ObjectId → List (ℕ × ℕ)
ptr_cookie id = (8, id.id) ∷ (8, id.cookie) ∷ []

abbrev pub handle_cookie : ℕ → ℕ → List (ℕ × ℕ)
handle_cookie h cookie = (4, h) ∷ (8, cookie) ∷ []

-- The struct behind the code, by the widths and the values of its fields.
unfoldable pub fields : Placement → Command → List (ℕ × ℕ)
fields p (transaction o) = transaction_data p (with_low p.padding o.target) o
fields p (reply o) = transaction_data p o.target o
fields p (free_buffer ptr) = (8, ptr) ∷ []
fields p (increfs h) = (4, h) ∷ []
fields p (acquire h) = (4, h) ∷ []
fields p (release h) = (4, h) ∷ []
fields p (decrefs h) = (4, h) ∷ []
fields p (increfs_done id) = ptr_cookie id
fields p (acquire_done id) = ptr_cookie id
fields p register_looper = []
fields p enter_looper = []
fields p exit_looper = []
fields p (request_death_notification h cookie) = handle_cookie h cookie
fields p (clear_death_notification h cookie) = handle_cookie h cookie
fields p (dead_binder_done cookie) = (8, cookie) ∷ []

module _ (opcodes : Opcodes) (p : Placement) where
  unfoldable pub command_bytes : Command → List ℕ
  command_bytes c = to_bytes 4 (command_code opcodes (kind c)) ++ encode (fields p c)

  -- What `bytes` is filled with before the ioctl.
  unfoldable pub write_buffer : List Command → List ℕ
  unfolding command_bytes
  write_buffer [] = []
  write_buffer (c ∷ cs) = command_bytes c ++ write_buffer cs
