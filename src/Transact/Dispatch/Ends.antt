-- ===== src/Transact/Dispatch/Ends.antt =====
-- src/device.rs: the loop of `binder_write_read` ends on every buffer.
use binderbinder.Base.{
  ℕ, ◌+◌, ◌≤◌, ◌<◌, ◌≡◌, List, [], length, take, drop, Run, ok, panic, Cmd, Option,
}
use binderbinder.Base.Bytes.{from_bytes}
use binderbinder.Sys.Returns.{BinderReturn, from_u32}
use binderbinder.Device.{Device, Command}
use binderbinder.Device.Driver.{Driver}
use binderbinder.Transact.Incoming.{Outcome, nothing, Handlers, go_on, leave, read_size}
use binderbinder.Transact.Dispatch.{message, messages}

module _ (driver : Driver) (handlers : Handlers) (nested : List Command → Cmd Device Outcome) where
  open driver use {opcodes}

  -- What stands at the front of a buffer: the kind, its payload, and what is after it.
  abbrev pub kind : List ℕ → Option BinderReturn
  kind bytes = from_u32 opcodes (from_bytes (take 4 bytes))

  abbrev pub payload : List ℕ → List ℕ
  payload bytes = take (read_size (kind bytes)) (drop 4 bytes)

  abbrev pub after : List ℕ → List ℕ
  after bytes = drop (read_size (kind bytes)) (drop 4 bytes)

  abbrev pub IsWhole : List ℕ → Type 0
  IsWhole bytes = 4 + read_size (kind bytes) ≤ length bytes

  -- A run of the loop, turn by turn, with no bound on their number: over a buffer and from a device it
  -- comes to a result.
  pub data Ends : List ℕ → Device → Run Device Outcome → Type 0 where
    finished : (d : Device) → Ends [] d (ok nothing d)
    cut :
        (bytes : List ℕ) (d : Device)
        → 0 < length bytes
        → length bytes < 4 + read_size (kind bytes)
        → Ends bytes d (panic d)
    panicked :
        (bytes : List ℕ) (d d' : Device)
        → IsWhole bytes
        → message driver handlers nested (kind bytes) (payload bytes) d ≡ panic d'
        → Ends bytes d (panic d')
    left :
        (bytes : List ℕ) (d d' : Device) (o : Outcome)
        → IsWhole bytes
        → message driver handlers nested (kind bytes) (payload bytes) d ≡ ok (leave o) d'
        → Ends bytes d (ok o d')
    went_on :
        (bytes : List ℕ) (d d' : Device) (r : Run Device Outcome)
        → IsWhole bytes
        → message driver handlers nested (kind bytes) (payload bytes) d ≡ ok go_on d'
        → Ends (after bytes) d' r
        → Ends bytes d r

  abbrev loop : ℕ → List ℕ → Cmd Device Outcome
  loop = messages driver handlers nested
