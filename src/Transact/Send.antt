-- ===== src/Transact/Send.antt =====
-- src/device.rs: sending a transaction, to a remote handle or to an object of the device itself, and
-- the loop of a looper thread.
pub mod Local
pub mod Failed
pub mod Retry
use binderbinder.Base.{
  ℕ, zero, suc, ◌+◌, Bool, true, false, Option, none, some, List, [], ◌∷◌, ◌==◌, if◌then◌else◌, Run,
  ok, panic, Cmd, pure, fail, ◌>>=◌, ◌>>◌,
}
use binderbinder.Refcount.{ObjectId}
use binderbinder.Device.{
  Device, Handler, Outgoing, Command, transaction, register_looper, enter_looper, exit_looper,
}
use binderbinder.Device.Driver.{Driver, write_command}
use binderbinder.Device.Objects.{BinderObject}
use binderbinder.Device.ObjectOrRef.{BinderObjectOrRef, object, weak_object, ref, weak_ref}
use binderbinder.Payload.Builder.{PayloadBuilder}
use binderbinder.Payload.Reader.{PayloadReader}
use binderbinder.Transact.Embedded.{
  mark_objects_as_pending_remote, unmark_objects_as_pending_remote,
}
use binderbinder.Transact.Incoming.{
  WriteReadError, object_not_found, dead_reply, failed_reply, frozen_reply, async_buffer_full,
  no_device, write_read_ioctl_failed, Outcome, nothing, unfinished, replied, failed_with, Handlers,
}
use binderbinder.Transact.Dispatch.{write_read, drop_payload, drop_builder}

-- The cases of `Error` that a transaction gives.
pub data Error : Type 0 where
  shutdown gone not_found frozen : Error
  unknown binder : ℕ → Error

-- What a call that sends gives back; `stuck` is that it was still going when the fuel ran out.
pub data Sent (A : Type 0) : Type 0 where
  delivered : A → Sent A
  refused : Error → Sent A
  stuck : Sent A

-- The error for each failure but a full buffer, which is tried again.
unfoldable pub to_error : WriteReadError → Option Error
to_error no_device = some shutdown
to_error dead_reply = some gone
to_error object_not_found = some not_found
to_error failed_reply = some (unknown 1)
to_error frozen_reply = some frozen
to_error (write_read_ioctl_failed errno) = some (binder errno)
to_error async_buffer_full = none

-- `TransactionFlags::ACCEPT_FDS`, and with `ONE_WAY`.
abbrev pub two_way_flags : ℕ
two_way_flags = 0x10

abbrev pub one_way_flags : ℕ
one_way_flags = 0x11

abbrev pub outgoing : ℕ → ℕ → ℕ → PayloadBuilder → Outgoing
outgoing flags handle code b = record {
  target = handle;
  code = code;
  flags = flags;
  sender_pid = 0;
  sender_euid = 0;
  payload = b.data_;
  offsets = b.obj_offsets;
}

abbrev pub framed : Outgoing → List Command
framed out = enter_looper ∷ transaction out ∷ exit_looper ∷ []

module _ (driver : Driver) (exchange : List Command → Cmd Device Outcome) where
  open driver use {checks}

  -- The match on an outcome, where `again` is the next turn of the loop.
  unfoldable pub after_turn :
      Outgoing
      → Cmd Device (Sent (ℕ × PayloadReader))
      → Outcome
      → Cmd Device (Sent (ℕ × PayloadReader))
  unfolding to_error unmark_objects_as_pending_remote
  after_turn out again (replied code r) = pure (delivered (code, r))
  after_turn out again nothing = again
  after_turn out again unfinished = pure stuck
  after_turn out again (failed_with e) = elim (to_error e) [
    | none ↦ again
    | some error ↦ unmark_objects_as_pending_remote checks out >> pure (refused error)
  ]

  -- The loop of `remote_transact_blocking`: `write_data.take()` leaves nothing for the next turn.
  unfoldable pub await_reply : ℕ → Outgoing → List Command → Cmd Device (Sent (ℕ × PayloadReader))
  unfolding after_turn
  await_reply zero out commands = pure stuck
  await_reply (suc fuel) out commands =
      exchange commands >>= after_turn out (await_reply fuel out [])

  -- A reply is dropped.
  unfoldable pub after_push :
      Outgoing → Cmd Device (Sent (Unit {0})) → Outcome → Cmd Device (Sent (Unit {0}))
  unfolding to_error unmark_objects_as_pending_remote drop_payload
  after_push out again (replied code r) =
      drop_payload driver r >>= λ ended. pure (if ended then delivered tt else stuck)
  after_push out again nothing = pure (delivered tt)
  after_push out again unfinished = pure stuck
  after_push out again (failed_with e) = elim (to_error e) [
    | none ↦ again
    | some error ↦ unmark_objects_as_pending_remote checks out >> pure (refused error)
  ]

  -- The loop of `remote_transact_one_way`, which writes everything again.
  unfoldable pub push_out : ℕ → Outgoing → List Command → Cmd Device (Sent (Unit {0}))
  unfolding after_push
  push_out zero out commands = pure stuck
  push_out (suc fuel) out commands =
      exchange commands >>= after_push out (push_out fuel out commands)

  -- Both own the builder, and drop it at the end.
  unfoldable pub remote_transact_blocking :
      ℕ → ℕ → ℕ → PayloadBuilder → Cmd Device (Sent (ℕ × PayloadReader))
  unfolding await_reply mark_objects_as_pending_remote drop_builder
  remote_transact_blocking fuel handle code b = do
    mark_objects_as_pending_remote checks (outgoing two_way_flags handle code b)
    sent ←
        await_reply fuel (outgoing two_way_flags handle code b)
          (framed (outgoing two_way_flags handle code b))
    drop_builder driver b
    pure sent

  unfoldable pub remote_transact_one_way : ℕ → ℕ → ℕ → PayloadBuilder → Cmd Device (Sent (Unit {0}))
  unfolding push_out mark_objects_as_pending_remote drop_builder
  remote_transact_one_way fuel handle code b = do
    mark_objects_as_pending_remote checks (outgoing one_way_flags handle code b)
    sent ←
        push_out fuel (outgoing one_way_flags handle code b)
          (framed (outgoing one_way_flags handle code b))
    drop_builder driver b
    pure sent

  -- The match of `looper`; the loop ends when the device is gone.
  unfoldable pub after_listen : Cmd Device Bool → Outcome → Cmd Device Bool
  unfolding drop_payload write_command
  after_listen again (replied code r) =
      drop_payload driver r >>= λ ended. if ended then again else pure false
  after_listen again nothing = again
  after_listen again unfinished = pure false
  after_listen again (failed_with no_device) = write_command driver exit_looper >> pure true
  after_listen again (failed_with _) = again

  -- `false` is that the fuel ran out.
  unfoldable pub listen : ℕ → List Command → Cmd Device Bool
  unfolding after_listen
  listen zero commands = pure false
  listen (suc fuel) commands = exchange commands >>= after_listen (listen fuel [])

  unfoldable pub looper : ℕ → Bool → Cmd Device Bool
  unfolding listen
  looper fuel spawned = listen fuel ((if spawned then register_looper else enter_looper) ∷ [])

-- `get_transaction_target_handle`.
pub data TargetHandle : Type 0 where
  local : ObjectId → TargetHandle
  remote : ℕ → TargetHandle

unfoldable pub target_of : Device → BinderObjectOrRef → TargetHandle
target_of d (object b) = local b.id
target_of d (weak_object id) = local id
target_of d (ref a) = remote (d.weak_cells (d.ref_cells a).weak).handle
target_of d (weak_ref a) = remote (d.weak_cells a).handle

-- `ContextManagerBinderRef`.
unfoldable pub context_manager_target : Device → TargetHandle
context_manager_target d =
    if d.ctx_manager == 0 then remote 0 else local (record { id = d.ctx_manager; cookie = 0 })

-- `set_context_manager`: the id is stored before the ioctl, whose success is the argument.
unfoldable pub set_context_manager : Bool → BinderObject → Cmd Device Bool
set_context_manager granted o d = ok granted (record d { ctx_manager = o.id.id })
