-- ===== src/Device.antt =====
-- src/device.rs: `BinderDevice`, one open device, and the traffic with the driver. The driver, the
-- process ids and what uninitialised bytes hold are the environment, and parameters.
pub mod Objects
pub mod Driver
pub mod Handles
pub mod ObjectOrRef
pub mod Identity
pub mod Wire
use binderbinder.Base.{
  ℕ, ◌+◌, ◌≡◌, arith, Bool, true, false, ◌&&◌, Option, none, some, List, [], ◌∷◌, ◌==◌,
  if◌then◌else◌, Run, ok, panic, Cmd, pure, ◌>>=◌, ◌>>◌, Map, insert, remove, empty, length,
}
use binderbinder.Refcount.{ObjectId, ObjectRefState, RefCounts}

-- `Arc<dyn ErasedTransactionHandler>`: the allocation, and the concrete type behind it.
pub record Handler : Type 0 where
  pub address : ℕ
  pub type_id : ℕ

-- `BinderTransactionData` on its way out. The buffers stand in the place of the pointers to them.
pub record Outgoing : Type 0 where
  pub target : ℕ
  pub code : ℕ
  pub flags : ℕ
  pub sender_pid : ℕ
  pub sender_euid : ℕ
  pub payload : List ℕ
  pub offsets : List ℕ

-- What is written to the driver, with the structs behind the command codes.
pub data Command : Type 0 where
  transaction reply : Outgoing → Command
  free_buffer : ℕ → Command
  increfs acquire release decrefs : ℕ → Command
  increfs_done acquire_done : ObjectId → Command
  register_looper enter_looper exit_looper : Command
  request_death_notification clear_death_notification : ℕ → ℕ → Command
  dead_binder_done : ℕ → Command

-- The ioctls made, each with what it wrote, and the loopers started.
pub data Event : Type 0 where
  wrote exchanged : List Command → Event
  spawned_looper : Event

-- The allocations behind `Arc<BinderRef>` and `Arc<WeakBinderRef>`, with their
-- strong counts; at 0 the value is gone, or was never there.
pub record RefCell : Type 0 where
  pub strong : ℕ
  pub weak : ℕ

pub record WeakCell : Type 0 where
  pub strong : ℕ
  pub handle : ℕ
  pub death : ℕ
  pub death_notif_cookie : ℕ

-- `refs` and `weak_refs` hold weak pointers, by address. `log` has the newest event first.
pub record Device : Type 0 where
  pub object_id_counter : ℕ
  pub death_counter : ℕ
  pub objects : Map ObjectId Handler
  pub object_refcounts : Map ObjectId ObjectRefState
  pub retained_services : Map ObjectId Handler
  pub refs : Map ℕ ℕ
  pub weak_refs : Map ℕ ℕ
  pub death_notifications : Map ℕ ℕ
  pub ctx_manager : ℕ
  pub ref_cells : ℕ → RefCell
  pub weak_cells : ℕ → WeakCell
  pub cancelled : ℕ → Bool
  pub next_address : ℕ
  pub dropped : Bool
  pub log : List Event

-- `from_fd`: an open device with nothing in it.
abbrev pub opened : Device
opened = record {
  object_id_counter = 1;
  death_counter = 1;
  objects = empty;
  object_refcounts = empty;
  retained_services = empty;
  refs = empty;
  weak_refs = empty;
  death_notifications = empty;
  ctx_manager = 0;
  ref_cells = λ _. record { strong = 0; weak = 0 };
  weak_cells = λ _. record { strong = 0; handle = 0; death = 0; death_notif_cookie = 0 };
  cancelled = λ _. false;
  next_address = 1;
  dropped = false;
  log = [];
}

abbrev pub same_id : ObjectId → ObjectId → Bool
same_id a b = (a.id == b.id) && (a.cookie == b.cookie)

pub same_id-eq : (a b : ObjectId) → same_id a b ≡ true → a ≡ b
same_id-eq a b h = ground arith

pub same_id_self : (a : ObjectId) → same_id a a ≡ true
same_id_self a = ground arith

-- A method of the object's ref state, if it has one; the answer is whether it had.
stored : ObjectId → Device → Run ObjectRefState RefCounts → Run Device Bool
stored id d (ok c r) =
    ok true (record d { object_refcounts = insert (same_id id) r d.object_refcounts })
stored id d (panic r) =
    panic (record d { object_refcounts = insert (same_id id) r d.object_refcounts })

unfoldable pub on_refcount : Cmd ObjectRefState RefCounts → ObjectId → Cmd Device Bool
unfolding stored
on_refcount method id d = elim (d.object_refcounts id) [
  | none ↦ ok false d
  | some r ↦ stored id d (method r)
]
