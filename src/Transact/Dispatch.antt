-- ===== src/Transact/Dispatch.antt =====
-- src/device.rs: `binder_write_read`. One ioctl, and then a turn for each message that it read. A
-- reply is sent by a nested call, so the function runs on fuel; the turns are bounded by the bytes.
pub mod Stream
pub mod Ends
pub mod Plain
pub mod Refuse
pub mod Death
pub mod Answer
pub mod Counting
use binderbinder.Base.{
  ℕ, zero, suc, ◌+◌, ◌-◌, ◌/◌, ◌%◌, ◌^◌, Bool, true, false, not, Option, none, some, List, [], ◌∷◌,
  ◌==◌, ltb, if◌then◌else◌, length, take, drop, Run, ok, panic, Cmd, pure, fail, ◌>>=◌, ◌>>◌,
  remove,
}
use binderbinder.Base.Bytes.{from_bytes}
use binderbinder.Sys.Structs.{decode}
use binderbinder.Sys.Layout.{binder_ptr_cookie}
use binderbinder.Sys.Returns.{BinderReturn, from_u32, payload_size}
use binderbinder.Refcount.{ObjectId, increase_remote, decrease_remote}
use binderbinder.Device.{
  Device, Handler, Outgoing, Command, reply, increfs_done, acquire_done, dead_binder_done,
  exchanged, spawned_looper, on_refcount,
}
use binderbinder.Device.Driver.{Driver, failed, received, logged, try_write, write_command}
use binderbinder.Device.ObjectOrRef.{BinderObjectOrRef, drop_either}
use binderbinder.Payload.Builder.{PayloadBuilder}
use binderbinder.Payload.Reader.{PayloadReader, Reading}
use binderbinder.Payload.Reader.Ends.{from_kernel_raw, drop_reader}
use binderbinder.Transact.Incoming.{
  Control, Handlers, Incoming, Outcome, Transaction, WriteReadError, async_buffer_full, dead_reply,
  failed_reply, failed_with, frozen_reply, go_on, is_one_way, leave, next, no_device, no_space,
  nothing, object_not_found, read_incoming, read_ptr_cookie, read_size, replied, unfinished,
  write_read_ioctl_failed,
}
use binderbinder.Transact.Embedded.{
  mark_objects_as_pending_remote, unmark_objects_as_pending_remote,
}

module _ (driver : Driver) where
  open driver use {checks, opcodes}

  unfoldable pub drop_payload : PayloadReader → Cmd Device Bool
  unfolding drop_reader
  drop_payload r d = elim (drop_reader driver fuel (record { reader = r; device = d })) [
    | ok ended s ↦ ok ended s.device
    | panic s ↦ panic s.device
  ]
    where
      fuel : ℕ
      fuel = elim r.offsets [ none ↦ 1 | some os ↦ suc (length os) ]

  unfoldable pub drop_objects : List BinderObjectOrRef → Cmd Device (Unit {0})
  drop_objects [] = pure tt
  drop_objects (o ∷ os) = drop_either driver o >> drop_objects os

  -- A builder's drop; its descriptors are closed, which the device does not see.
  unfoldable pub drop_builder : PayloadBuilder → Cmd Device (Unit {0})
  unfolding drop_objects
  drop_builder b = drop_objects b.binder_objects

  unfoldable pub reply_to : Incoming → List ℕ → List ℕ → Outgoing
  reply_to t payload offsets = record {
    target = 0;
    code = t.code;
    flags = t.flags;
    sender_pid = driver.pid;
    sender_euid = driver.uid;
    payload = payload;
    offsets = offsets;
  }

  unfoldable pub reader_of : Incoming → PayloadReader
  unfolding from_kernel_raw
  reader_of t = from_kernel_raw driver t.buffer t.data_size t.offsets (t.offsets_size / 8)

  unfoldable pub transaction_of : Incoming → Transaction
  unfolding reader_of
  transaction_of t = record {
    code = t.code;
    payload = reader_of t;
    sender_pid = t.sender_pid;
    sender_euid = t.sender_euid;
  }

  -- The arm for a transaction to an object that is not registered. The reader goes first.
  unfoldable pub refuse : Incoming → Cmd Device Control
  unfolding drop_payload reply_to reader_of write_command
  refuse t = do
    ended ← drop_payload (reader_of t)
    (if not ended
        then pure (leave unfinished)
        else (if is_one_way t.flags
            then pure (leave (failed_with object_not_found))
            else (write_command driver (reply (reply_to t [] []))
                >> pure (leave (failed_with object_not_found)))))

  module _ (handlers : Handlers) (nested : List Command → Cmd Device Outcome) where
    -- The match on what sending the reply returned.
    settle_reply : Outgoing → Outcome → Cmd Device Control
    unfolding drop_payload unmark_objects_as_pending_remote
    settle_reply out nothing = pure go_on
    settle_reply out unfinished = pure (leave unfinished)
    settle_reply out (replied code r) = do
      ended ← drop_payload r
      (if ended then pure go_on else pure (leave unfinished))
    settle_reply out (failed_with e) = unmark_objects_as_pending_remote checks out >> pure go_on

    unfoldable pub answer_two_way : Handler → Incoming → Cmd Device Control
    unfolding settle_reply reply_to transaction_of mark_objects_as_pending_remote drop_builder
    answer_two_way h t = do
      reply_data ← handlers.handle h (transaction_of t)
      mark_objects_as_pending_remote checks (reply_to t reply_data.data_ reply_data.obj_offsets)
      outcome ← nested (reply (reply_to t reply_data.data_ reply_data.obj_offsets) ∷ [])
      control ← settle_reply (reply_to t reply_data.data_ reply_data.obj_offsets) outcome
      drop_builder reply_data
      pure control

    unfoldable pub receive : Incoming → Cmd Device Control
    unfolding refuse answer_two_way transaction_of
    receive t d = elim (d.objects t.target) [
      | none ↦ refuse t d
      | some h ↦
          (if is_one_way t.flags
              then (handlers.handle_one_way h (transaction_of t) >> pure go_on)
              else answer_two_way h t)
            d
    ]

    -- `death_notifications.remove`, and the token cancelled.
    notice_death : ℕ → Cmd Device (Unit {0})
    notice_death cookie d = elim (d.death_notifications cookie) [
      | none ↦ ok tt d
      | some token ↦ ok tt (record d {
        death_notifications = remove (◌==◌ cookie) d.death_notifications;
        cancelled = λ t. if token == t then true else d.cancelled t;
      })
    ]

    -- The arms, on the bytes that each has read.
    unfoldable pub message : Option BinderReturn → List ℕ → Cmd Device Control
    unfolding notice_death
    message (some BinderReturn.transaction_sec_ctx) bytes = receive (read_incoming (take 64 bytes))
    message (some BinderReturn.transaction) bytes = receive (read_incoming bytes)
    message (some BinderReturn.reply) bytes =
        let t = read_incoming bytes in pure (leave (replied t.code (reader_of t)))
    message (some BinderReturn.dead_reply) bytes = pure (leave (failed_with dead_reply))
    message (some BinderReturn.increfs) bytes =
        try_write driver (increfs_done (read_ptr_cookie bytes) ∷ []) >> pure go_on
    message (some BinderReturn.acquire) bytes =
        on_refcount (increase_remote checks) (read_ptr_cookie bytes)
        >> try_write driver (acquire_done (read_ptr_cookie bytes) ∷ [])
        >> pure go_on
    message (some BinderReturn.release) bytes =
        on_refcount (decrease_remote checks) (read_ptr_cookie bytes) >> pure go_on
    message (some BinderReturn.spawn_looper) bytes = λ d. ok go_on (logged spawned_looper d)
    message (some BinderReturn.dead_binder) bytes =
        notice_death (from_bytes bytes)
        >> try_write driver (dead_binder_done (from_bytes bytes) ∷ [])
        >> pure go_on
    message (some BinderReturn.failed_reply) bytes = λ d.
        ok
          (leave (
            failed_with
              (if driver.error_param d.log == no_space then async_buffer_full else failed_reply)))
          d
    message (some BinderReturn.frozen_reply) bytes = pure (leave (failed_with frozen_reply))
    message _ bytes = pure go_on

    -- The rest of a turn, once the code is read: the payload, and then what is after it.
    unfoldable pub turn :
        Option BinderReturn → List ℕ → (List ℕ → Cmd Device Outcome) → Cmd Device Outcome
    turn ret rest more =
        if ltb (length rest) (read_size ret)
        then fail
        else (message ret (take (read_size ret) rest) >>= next (more (drop (read_size ret) rest)))

    -- The loop over what is left of the buffer; every turn takes a code of four bytes at least.
    unfoldable pub messages : ℕ → List ℕ → Cmd Device Outcome
    messages fuel [] = pure nothing
    messages zero (b ∷ bytes) = pure unfinished
    messages (suc fuel) (b ∷ bytes) =
        if ltb (length (b ∷ bytes)) 4
        then fail
        else turn (from_u32 opcodes (from_bytes (take 4 (b ∷ bytes)))) (drop 4 (b ∷ bytes))
            (messages fuel)

  -- `binder_write_read`: 256 bytes are read at most.
  unfoldable pub write_read : Handlers → ℕ → List Command → Cmd Device Outcome
  unfolding messages
  write_read handlers zero commands d = ok unfinished d
  write_read handlers (suc fuel) commands d =
      let asked = logged (exchanged commands) d in
      elim (driver.answer asked.log) [
        | failed errno ↦ ok (failed_with (write_read_ioctl_failed errno)) asked
        | received bytes ↦
            if asked.dropped
            then ok (failed_with no_device) asked
            else (if ltb 256 (length bytes)
                then panic asked
                else messages handlers (write_read handlers fuel) (length bytes) bytes asked)
      ]
