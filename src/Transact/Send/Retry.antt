-- ===== src/Transact/Send/Retry.antt =====
-- src/device.rs: a send that meets a full buffer, and is tried again.
use binderbinder.Base.{
  ℕ, suc, ◌^◌, ◌<◌, ◌≡◌, ◌≢◌, refl, false, List, [], ◌∷◌, ◌++◌, length, ok, pure, ◌>>◌, arith, ltb,
  length-append,
}
use binderbinder.Base.Bytes.{to_bytes, length-to_bytes}
use binderbinder.Refcount.{ObjectId}
use binderbinder.Sys.Returns.{BinderReturn, return_code, payload_size, shape}
use binderbinder.Device.{Device, Command, exchanged}
use binderbinder.Device.Driver.{Driver, failed, received, logged}
use binderbinder.Payload.Builder.{PayloadBuilder}
use binderbinder.Transact.Embedded.Exact.{Embeds, HasRoom, marked, mark_lem, unmark_lem}
use binderbinder.Transact.Incoming.{
  failed_with, write_read_ioctl_failed, async_buffer_full, no_space, Handlers,
}
use binderbinder.Transact.Dispatch.{write_read, message, drop_builder}
use binderbinder.Transact.Dispatch.Stream.{encoded, AllSent, messages-in_order}
use binderbinder.Transact.Send.{
  binder, refused, outgoing, two_way_flags, one_way_flags, framed, await_reply, push_out,
  remote_transact_blocking, remote_transact_one_way, to_error, after_turn, after_push,
}

-- The message that a send to a full buffer is answered with.
abbrev pub full_reply : Driver → List ℕ
full_reply driver = encoded driver.opcodes ((BinderReturn.failed_reply, []) ∷ [])

-- The driver has no space for the first exchange, and fails the second.
pub record IsFull (driver : Driver) (errno : ℕ) (first second : List Command) (d : Device)
    : Type 0 where
  pub open_ : d.dropped ≡ false
  pub code : return_code driver.opcodes BinderReturn.failed_reply < 2 ^ 32
  pub reply : driver.answer (exchanged first ∷ d.log) ≡ received (full_reply driver)
  pub cause : driver.error_param (exchanged first ∷ d.log) ≡ no_space
  pub last : driver.answer (exchanged second ∷ exchanged first ∷ d.log) ≡ failed errno

module _ (driver : Driver) (handlers : Handlers) (k : ℕ) where
  full_lem :
      (cs next : List Command) (errno : ℕ) (d : Device)
      → IsFull driver errno cs next d
      → write_read driver handlers (suc k) cs d
        ≡ ok (failed_with async_buffer_full) (logged (exchanged cs) d)
  unfolding write_read message payload_size shape
  full_lem cs next errno d full =
      let ms : List (BinderReturn × List ℕ) = (BinderReturn.failed_reply, []) ∷ [] in
      let code : ℕ = return_code driver.opcodes BinderReturn.failed_reply in
      let short : ltb 256 (length (full_reply driver)) ≡ false =
        ground (arith, length-append (to_bytes 4 code) ([] ++ []), length-to_bytes 4 code) in
      let apart : BinderReturn.failed_reply ≢ BinderReturn.attempt_acquire = λ e. cc in
      let sent : AllSent driver.opcodes ms = (((full.code, refl), apart), tt) in
      rw (
        write_read,
        full.reply,
        full.open_,
        short,
        messages-in_order driver handlers (write_read driver handlers k) ms sent,
        full.cause,
      )

  last_lem :
      (cs : List Command) (errno : ℕ) (d : Device)
      → driver.answer (exchanged cs ∷ d.log) ≡ failed errno
      → write_read driver handlers (suc k) cs d
        ≡ ok (failed_with (write_read_ioctl_failed errno)) (logged (exchanged cs) d)
  unfolding write_read
  last_lem cs errno d broken = rw (write_read, broken)

module _ (driver : Driver) (handlers : Handlers) (k n handle code errno : ℕ) (b : PayloadBuilder)
    (ids : List ObjectId) (d : Device) where
  open driver use {checks}

  -- When the driver has no space for a transaction, the call that waits for a reply goes on with an
  -- exchange that writes nothing: the transaction is not sent again, whatever becomes of the call,
  -- here an error of the second exchange. The counts are as they were before the call.
  pub blocking-full :
      Embeds b.data_ b.obj_offsets ids
      → HasRoom ids d
      → IsFull driver errno (framed (outgoing two_way_flags handle code b)) [] d
      → remote_transact_blocking driver
          (write_read driver handlers (suc k))
          (suc (suc n))
          handle
          code
          b
          d
        ≡ (drop_builder driver b >> pure (refused (binder errno))) (
            logged
              (exchanged [])
              (logged (exchanged (framed (outgoing two_way_flags handle code b))) d))
  unfolding remote_transact_blocking await_reply after_turn to_error
  blocking-full embeds room full =
      let out = outgoing two_way_flags handle code b in
      let u = logged (exchanged (framed out)) (marked ids d) in
      let full' : IsFull driver errno (framed out) [] (marked ids d) = record {
        open_ = full.open_;
        code = full.code;
        reply = full.reply;
        cause = full.cause;
        last = full.last;
      } in
      rw (
        mark_lem checks out ids embeds d room,
        full_lem driver handlers k (framed out) [] errno (marked ids d) full',
        last_lem driver handlers k [] errno u full.last,
        unmark_lem checks out ids embeds (logged (exchanged []) (logged (exchanged (framed out)) d))
            room,
      )

  -- The one that waits for none writes the whole transaction again.
  one_way-full :
      Embeds b.data_ b.obj_offsets ids
      → HasRoom ids d
      → IsFull driver errno
          (framed (outgoing one_way_flags handle code b))
          (framed (outgoing one_way_flags handle code b))
          d
      → remote_transact_one_way driver
          (write_read driver handlers (suc k))
          (suc (suc n))
          handle
          code
          b
          d
        ≡ (drop_builder driver b >> pure (refused (binder errno))) (
            logged
              (exchanged (framed (outgoing one_way_flags handle code b)))
              (logged (exchanged (framed (outgoing one_way_flags handle code b))) d))
  unfolding remote_transact_one_way push_out after_push to_error
  one_way-full embeds room full =
      let out = outgoing one_way_flags handle code b in
      let u = logged (exchanged (framed out)) (marked ids d) in
      let full' : IsFull driver errno (framed out) (framed out) (marked ids d) = record {
        open_ = full.open_;
        code = full.code;
        reply = full.reply;
        cause = full.cause;
        last = full.last;
      } in
      rw (
        mark_lem checks out ids embeds d room,
        full_lem driver handlers k (framed out) (framed out) errno (marked ids d) full',
        last_lem driver handlers k (framed out) errno u full.last,
        unmark_lem checks out ids embeds
            (logged (exchanged (framed out)) (logged (exchanged (framed out)) d)) room,
      )
