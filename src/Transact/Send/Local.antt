-- ===== src/Transact/Send/Local.antt =====
-- src/device.rs: transactions to an object of the device itself, and the choice between the two ways.
pub mod Call
use binderbinder.Base.{
  length, ℕ, ◌≡◌, ◌≢◌, refl, Bool, Option, none, some, List, [], ◌∷◌, ◌==◌, ok, panic, Cmd, pure,
  ◌>>=◌, ◌>>◌, false, arith,
}
use binderbinder.Refcount.{ObjectId}
use binderbinder.Device.{Device, Handler, Command}
use binderbinder.Device.Driver.{Driver}
use binderbinder.Device.Objects.{BinderObject}
use binderbinder.Device.ObjectOrRef.{BinderObjectOrRef, clone}
use binderbinder.Payload.Builder.{PayloadBuilder}
use binderbinder.Payload.Reader.{PayloadReader}
use binderbinder.Payload.Reader.Ends.{from_builder}
use binderbinder.Transact.Incoming.{Outcome, Handlers, Transaction}
use binderbinder.Transact.Dispatch.{drop_builder}
use binderbinder.Transact.Send.{
  not_found, Sent, delivered, refused, TargetHandle, local, remote, context_manager_target,
  set_context_manager, remote_transact_blocking,
}

module _ (driver : Driver) (handlers : Handlers) (dup : ℕ → ℕ → Option ℕ) where
  unfoldable pub clone_each : List BinderObjectOrRef → Cmd Device (List BinderObjectOrRef)
  unfolding clone
  clone_each [] = pure []
  clone_each (o ∷ os) = do c ← clone driver o; cs ← clone_each os; pure (c ∷ cs)

  -- `PayloadReader::from_builder`, with the clones of the objects, whose first turn is at a moment.
  unfoldable pub read_back : ℕ → PayloadBuilder → Cmd Device PayloadReader
  unfolding from_builder clone_each
  read_back moment b d = elim (from_builder dup moment b []) [
    | none ↦ panic d
    | some r ↦ (clone_each b.binder_objects >>= λ os. pure (record r { binder_objects = os })) d
  ]

  unfoldable pub transaction_for : ℕ → PayloadReader → Transaction
  transaction_for code payload = record {
    code = code;
    payload = payload;
    sender_pid = driver.pid;
    sender_euid = driver.euid;
  }

  -- The reply is copied at moments after those of the argument. Its builder is dropped first, then the
  -- argument.
  unfoldable pub call : Handler → ℕ → PayloadBuilder → Cmd Device (Sent (ℕ × PayloadReader))
  unfolding read_back transaction_for drop_builder
  call h code b = do
    payload ← read_back 0 b
    reply ← handlers.handle h (transaction_for code payload)
    reader ← read_back (length b.obj_offsets) reply
    drop_builder driver reply
    drop_builder driver b
    pure (delivered (code, reader))

  unfoldable pub self_transact_blocking :
      ObjectId → ℕ → PayloadBuilder → Cmd Device (Sent (ℕ × PayloadReader))
  unfolding call
  self_transact_blocking id code b d = elim (d.objects id) [
    | none ↦ (drop_builder driver b >> pure (refused not_found)) d
    | some h ↦ call h code b d
  ]

  -- The handler runs in a task, which is what is delivered.
  unfoldable pub self_transact_one_way :
      ObjectId → ℕ → PayloadBuilder → Cmd Device (Sent (Handler × Transaction))
  unfolding read_back transaction_for drop_builder
  self_transact_one_way id code b d = elim (d.objects id) [
    | none ↦ (drop_builder driver b >> pure (refused not_found)) d
    | some h ↦
        (read_back 0 b >>= λ payload.
        drop_builder driver b >> pure (delivered (h, transaction_for code payload)))
          d
  ]

  unfoldable pub transact_blocking :
      (List Command → Cmd Device Outcome)
      → ℕ
      → TargetHandle
      → ℕ
      → PayloadBuilder
      → Cmd Device (Sent (ℕ × PayloadReader))
  unfolding self_transact_blocking remote_transact_blocking
  transact_blocking exchange fuel (local id) code b = self_transact_blocking id code b
  transact_blocking exchange fuel (remote handle) code b =
      remote_transact_blocking driver exchange fuel handle code b

-- Granted or not, an object that was made the context manager is where transactions to the context
-- manager go from then on: they stay in the process. The object's id is not 0, and its cookie is,
-- as for all objects that are registered.
pub set_context_manager-target :
    (granted : Bool) (o : BinderObject) (d : Device)
    → o.id.id ≢ 0
    → o.id.cookie ≡ 0
    → (after : Device) × (set_context_manager granted o d ≡ ok granted after)
      × (context_manager_target after ≡ local o.id)
unfolding set_context_manager context_manager_target
set_context_manager-target granted o d used plain =
    let test : (o.id.id == 0) ≡ false = ground (arith, used) in
    (record d { ctx_manager = o.id.id }, refl, rw (test, plain))
