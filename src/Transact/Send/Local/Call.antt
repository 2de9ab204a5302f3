-- ===== src/Transact/Send/Local/Call.antt =====
-- src/device.rs: a call to an object of the process, from the builder of the caller to what the handler
-- reads.
use binderbinder.Base.{
  map, ℕ, ◌<◌, ◌≡◌, refl, Option, some, List, [], length, Run, ok, panic, and_then, Cmd, pure,
  ◌>>=◌, ◌>>◌,
}
use binderbinder.Base.Words.{usize_mod}
use binderbinder.Refcount.{ObjectId}
use binderbinder.Device.{Device, Handler}
use binderbinder.Device.Driver.{Driver}
use binderbinder.Device.ObjectOrRef.{BinderObjectOrRef}
use binderbinder.Payload.Builder.{PayloadBuilder, blank}
use binderbinder.Payload.Reader.{PayloadReader}
use binderbinder.Payload.Layout.{Content}
use binderbinder.Payload.RoundTrip.Program.{each, read_piece, meaning, view}
use binderbinder.Payload.RoundTrip.Pushed.{piece, push_contents, AllFits}
use binderbinder.Payload.RoundTrip.Copies.{Duplicates}
use binderbinder.Payload.RoundTrip.Local.{
  copies, copied_reader, from_builder-pushed, copied_reader-reads,
}
use binderbinder.Transact.Incoming.{Handlers}
use binderbinder.Transact.Dispatch.{drop_builder}
use binderbinder.Transact.Send.{delivered, Sent}
use binderbinder.Transact.Send.Local.{
  clone_each, read_back, transaction_for, call, self_transact_blocking,
}

then_pure :
    {A B C : Type 0} (x : Run Device A) (f : A → B) (g : B → Cmd Device C)
    → and_then (and_then x (λ a. pure (f a))) g ≡ and_then x (λ a. g (f a))
then_pure (ok a s) f g = refl
then_pure (panic s) f g = refl

module _ (driver : Driver) (handlers : Handlers) (dup : ℕ → ℕ → Option ℕ) (given : ℕ → ℕ → ℕ)
    (cs : List Content) (d : Device) where
  -- The caller's builder.
  abbrev pub built : PayloadBuilder
  built = push_contents driver d cs blank

  -- The call in steps, with a handler that is given `given`'s descriptors.
  abbrev pub handled_by : Handler → ℕ → Cmd Device (Sent (ℕ × PayloadReader))
  handled_by h code = do
    os ← clone_each driver handlers dup built.binder_objects
    reply ←
        handlers.handle h
          (transaction_for driver handlers dup code (copied_reader given driver cs d os))
    answer ← read_back driver handlers dup (length built.obj_offsets) reply
    drop_builder driver reply
    drop_builder driver built
    pure (delivered (code, answer))

  -- What the handler's payload reads, on any device.
  abbrev pub ReadsCopies : Type 0
  ReadsCopies =
      (os : List BinderObjectOrRef) (on : Device)
      → view (
          each (read_piece driver) (copies given driver cs d)
            (record { reader = copied_reader given driver cs d os; device = on }))
        ≡ each (meaning driver) (copies given driver cs d) on

module _ (driver : Driver) (handlers : Handlers) (dup : ℕ → ℕ → Option ℕ) (given : ℕ → ℕ → ℕ)
    (cs : List Content) (d : Device) (works : Duplicates dup given 0 (map (piece driver d) cs))
    (fits : AllFits driver d cs) where
  read_back_lem :
      (u : Device)
      → read_back driver handlers dup 0 (built driver handlers dup given cs d) u
        ≡ (clone_each driver handlers dup (built driver handlers dup given cs d).binder_objects
              >>= λ os. pure (copied_reader given driver cs d os))
            u
  unfolding read_back
  read_back_lem u = rw (read_back, from_builder-pushed dup given driver cs d works [] fits)

  -- A call to a registered object of the process: the payload is copied with clones of the objects
  -- that it carries, the handler runs once on it, its answer is copied back, and the two builders
  -- are dropped, the answer's first. What the handler is given reads, call by call as the
  -- caller pushed, as what was pushed: the same bytes, for each descriptor the duplicate that was given
  -- for it at its turn, with the same cookie, and of each object what `resolve` makes of it. Each
  -- descriptor that was pushed can be duplicated at its turn, into a number of 32 bits, and the payload
  -- is shorter than 2^64.
  pub local_call :
      (u : Device) (id : ObjectId) (h : Handler) (code : ℕ)
      → u.objects id ≡ some h
      → length (built driver handlers dup given cs d).data_ < usize_mod
      → (self_transact_blocking driver handlers dup id code (built driver handlers dup given cs d) u
          ≡ handled_by driver handlers dup given cs d h code u)
        × ReadsCopies driver handlers dup given cs d
  unfolding self_transact_blocking call
  local_call u id h code registered small =
      let os = (built driver handlers dup given cs d).binder_objects in
      (
        rw (self_transact_blocking, registered, call, read_back_lem u)
            (then_pure (clone_each driver handlers dup os u) (copied_reader given driver cs d) _),
        λ os on. copied_reader-reads dup given driver cs d works os on fits small,
      )
