-- ===== src/Transact/Dispatch/Refuse.antt =====
-- src/device.rs: a transaction to an object that is not registered.
use binderbinder.Base.{◌≡◌, none, List, [], ◌∷◌, if◌then◌else◌, ok, Cmd, Bool-cases, inl, inr}
use binderbinder.Device.{Device, Event, wrote, Command, free_buffer, reply}
use binderbinder.Device.Driver.{Driver, write_command, Accepts}
use binderbinder.Transact.Incoming.{
  Outcome, failed_with, object_not_found, leave, Handlers, Incoming, is_one_way,
}
use binderbinder.Transact.Dispatch.Plain.{freed, drop_plain}
use binderbinder.Transact.Dispatch.{receive, refuse, reply_to}

-- What is written: the buffer goes back, and then a caller that waits gets an empty reply.
abbrev pub refusal : Driver → Incoming → List Event → List Event
refusal driver t log =
    let freed = wrote (free_buffer t.buffer ∷ []) ∷ log in
    if is_one_way t.flags then freed else wrote (reply (reply_to driver t [] []) ∷ []) ∷ freed

module _ (driver : Driver) (yes_man : Accepts driver) (handlers : Handlers)
    (nested : List Command → Cmd Device Outcome) where
  -- A transaction to an object that is not registered, with no objects of its own, so that the
  -- offsets have no bytes, wherever they point: its buffer is
  -- freed first, then a caller that waits gets one empty reply and one that does not gets none; no
  -- handler runs, and nothing else of the device changes. The driver takes what is written.
  pub receive-unknown :
      (t : Incoming) (d : Device)
      → d.objects t.target ≡ none
      → t.offsets_size ≡ 0
      → receive driver handlers nested t d
        ≡ ok (leave (failed_with object_not_found)) (record d { log = refusal driver t d.log })
  unfolding receive refuse write_command freed
  receive-unknown t d unknown none_ = elim (Bool-cases (is_one_way t.flags)) [
    | inl quiet ↦ rw (receive, unknown, refuse, drop_plain driver yes_man t d none_, quiet)
    | inr waits ↦ rw (receive, unknown, refuse, drop_plain driver yes_man t d none_, waits, yes_man)
  ]
