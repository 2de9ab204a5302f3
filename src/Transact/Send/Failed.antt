-- ===== src/Transact/Send/Failed.antt =====
-- src/device.rs: a send that the driver refuses.
use binderbinder.Base.{ℕ, suc, ◌≡◌, List, ◌∷◌, ok, pure, ◌>>◌}
use binderbinder.Refcount.{ObjectId}
use binderbinder.Device.{Device, Outgoing, exchanged}
use binderbinder.Device.Driver.{Driver, failed, logged}
use binderbinder.Payload.Builder.{PayloadBuilder}
use binderbinder.Transact.Embedded.Exact.{Embeds, HasRoom, marked, mark_lem, unmark_lem}
use binderbinder.Transact.Incoming.{failed_with, write_read_ioctl_failed, Handlers}
use binderbinder.Transact.Dispatch.{write_read, drop_builder}
use binderbinder.Transact.Send.{
  binder, refused, outgoing, two_way_flags, one_way_flags, framed, await_reply, push_out,
  remote_transact_blocking, remote_transact_one_way, to_error, after_turn, after_push,
}

module _ (driver : Driver) (handlers : Handlers) (k n handle code errno : ℕ) (b : PayloadBuilder)
    (ids : List ObjectId) (d : Device) where
  open driver use {checks}

  exchange_lem :
      (out : Outgoing) (u : Device)
      → driver.answer (exchanged (framed out) ∷ u.log) ≡ failed errno
      → write_read driver handlers (suc k) (framed out) u
        ≡ ok (failed_with (write_read_ioctl_failed errno)) (logged (exchanged (framed out)) u)
  unfolding write_read
  exchange_lem out u broken = rw (write_read, broken)

  -- An ioctl that fails is the caller's error, and the roll-back gives back every credit that the
  -- marking took: but for the log, the device goes on as if nothing had been sent, with the builder
  -- dropped. The counted objects are sound, with room for a credit for each place in the payload.
  pub blocking-failed :
      Embeds b.data_ b.obj_offsets ids
      → HasRoom ids d
      → driver.answer (exchanged (framed (outgoing two_way_flags handle code b)) ∷ d.log)
        ≡ failed errno
      → remote_transact_blocking driver (write_read driver handlers (suc k)) (suc n) handle code b d
        ≡ (drop_builder driver b >> pure (refused (binder errno)))
            (logged (exchanged (framed (outgoing two_way_flags handle code b))) d)
  unfolding remote_transact_blocking await_reply after_turn to_error
  blocking-failed embeds room broken =
      let out = outgoing two_way_flags handle code b in
      rw (
        mark_lem checks out ids embeds d room,
        exchange_lem out (marked ids d) broken,
        unmark_lem checks out ids embeds (logged (exchanged (framed out)) d) room,
      )

  -- The same for a transaction that no one waits for.
  one_way-failed :
      Embeds b.data_ b.obj_offsets ids
      → HasRoom ids d
      → driver.answer (exchanged (framed (outgoing one_way_flags handle code b)) ∷ d.log)
        ≡ failed errno
      → remote_transact_one_way driver (write_read driver handlers (suc k)) (suc n) handle code b d
        ≡ (drop_builder driver b >> pure (refused (binder errno)))
            (logged (exchanged (framed (outgoing one_way_flags handle code b))) d)
  unfolding remote_transact_one_way push_out after_push to_error
  one_way-failed embeds room broken =
      let out = outgoing one_way_flags handle code b in
      rw (
        mark_lem checks out ids embeds d room,
        exchange_lem out (marked ids d) broken,
        unmark_lem checks out ids embeds (logged (exchanged (framed out)) d) room,
      )
