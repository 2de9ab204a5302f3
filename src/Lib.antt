-- ===== src/Lib.antt =====
-- binderbinder: a userspace client of Android's binder driver. This library models its reference
-- counting, its remote handles, its wire format, its payloads and its transactions.
--
-- A program registers handlers as local objects (src/device.rs) and holds them by guards
-- (src/binder_object.rs); the driver tells the device when other processes acquire and release an
-- object. A handle that is received stands for a remote object, and is shared by all that receive
-- it. A transaction carries a payload (src/payload.rs) of bytes and flat objects (src/sys.rs).
--
-- - Base: lists and Booleans over the native numbers, computations that may panic (`Run`, `Cmd`),
--   maps as look-up functions, u32 and usize arithmetic, bytes and slices.
-- - Refcount: `ObjectRefState` and `RefCounts` of src/device.rs. The mutex makes a method one step; a
--   panic under it poisons it. The watch channel is the value that it holds. `checks` tells a build
--   with overflow checks from one without.
-- - Refcount.History, Rollback, Poison: any interleaving of calls, seen as a list of them.
-- - Sys: src/sys.rs. Layout has the sizes of the structs, Commands, Opcodes and Returns the
--   numbers of the commands and of the driver's messages, and the arms of `binder_write_read` that
--   take them, Structs the flat objects as bytes, ObjectType the constants of `BinderType`. How an
--   opcode is packed is rustix's, and an interface with Linux's numbers as an instance.
-- - Device: `BinderDevice` as a record. The concurrent maps are functions. `log` has all the writes to
--   the driver. Driver holds what the environment answers, and is a parameter. The mapped memory,
--   the threads, the runtime and the descriptors themselves are not represented.
-- - Device.Objects: `register_object`, `BorrowedBinderObject`, `BinderObjectRef`, `BinderObject` and
--   `to_service` of src/binder_object.rs. Guards and Ledger run any program over live guards;
--   Service has the clean-up task, as a test and a removal that other threads may come between; Waits
--   the futures on a count, each as what it subscribed to and the test of whether it is over; Downcast
--   the typed refs.
-- - Device.Handles: `BinderRef` and `WeakBinderRef`. An `Arc` is an address with a strong count in
--   the device; the maps of weak pointers hold addresses. Lifecycle follows one handle; Books runs any
--   calls of a program, as steps, against a table that only counts, and against what the driver was
--   asked for.
-- - Device.Wire: the commands as bytes, and the driver's reading of them, whose memory is a parameter.
-- - Device.ObjectOrRef: `BinderObjectOrRef` and its flat form. Identity has its `Eq` and `Hash`, of
--   devices that are addresses.
-- - Payload: `PayloadBuilder` and `PayloadReader` of src/payload.rs. The loop of `align` runs on as
--   many turns as the alignment, which is enough since one of that many lengths is a multiple. The
--   loop of the reader's `Drop` runs on fuel: a turn for each offset and one more is enough for what it
--   can read, and no fuel is for an array of descriptors or a buffer.
-- - Transact: the transactions of src/device.rs. Embedded walks the objects of an outgoing one,
--   to mark them and to take the marks back; Incoming is what is read, Dispatch `binder_write_read`
--   with every arm; Send has `remote_transact_blocking`, `remote_transact_one_way` and `looper`,
--   and Local the calls to an object of the process. The program's handlers are a parameter, and so is
--   the duplication of a descriptor, which is asked at moments, one for each object of the payload and
--   then of the answer, and may give another number or refuse each time. The loop over the messages
--   takes a turn for each byte at most, and a code has four; Ends has its runs. An exchange may
--   nest, since a reply is sent by one, and the loops that send and listen may go on for ever, so
--   these run on fuel.
-- - TestPool: src/test_pool.rs. The variables, the files and the refusals are `Environment`; the locks are
--   the state, by the path of the lock file, and a path stands for one file. Names keeps the lock files
--   of two nodes in a directory apart. Rotation is one claim undisturbed, Claims one in any environment,
--   Exclusive any run of the tries, waits and drops that claims are made of, of processes with the same
--   lock directory. The digits of a number run on as many turns as the number and one, which is enough
--   since each divides it by ten.
-- - Fs: src/fs.rs. `System` is the kernel and the commands, the state the list of what was done. Devices
--   has the request for a device as the kernel reads it.
-- - Bench: examples/bench.rs. The service copies a message into its reply, by `echo_into`; the client
--   writes the message. Reads has the loops, Turns what a ref goes through, Block the bytes in
--   front, Session the whole for a remote object. Service has the handler and its counters, whose
--   value is the state, and Stats the client's questions. The clocks, the threads and the tables of
--   the benchmark are not represented.
-- - Tests, Payload.Tests, Transact.Tests, TestPool.Tests, Fs.Tests and Bench.Tests: concrete runs.
--
-- Not modelled: the rest of the error type (src/error.rs), the `Debug` instances,
-- mmap and munmap, and the start of the threads. The ioctl of `get_last_error` is taken to succeed.
pub mod Base
pub mod Refcount
pub mod Sys
pub mod Device
pub mod Payload
mod Tests
pub mod Transact
pub mod TestPool
pub mod Fs
pub mod Bench
