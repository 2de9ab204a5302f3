-- ===== src/Transact/Dispatch/Answer.antt =====
-- src/device.rs: the arm for a two-way transaction to a registered object, and the reply that it sends.
use binderbinder.Base.{
  ℕ, suc, none, ◌^◌, ◌<◌, ◌/◌, ◌≢◌, ◌++◌, ◌==◌, if◌then◌else◌, refl, ap, arith, ltb, length,
  length-append, take, take-append_of_length, ◌≡◌, false, some, List, [], ◌∷◌, ok, Cmd, pure, ◌>>◌,
}
use binderbinder.Refcount.{ObjectId}
use binderbinder.Base.Bytes.{to_bytes, length-to_bytes}
use binderbinder.Sys.Structs.{encode, decode-encode, AllFit, length-encode}
use binderbinder.Sys.Returns.{BinderReturn, return_code, payload_size, shape}
use binderbinder.Device.{exchanged, Device, Handler, Command, Outgoing, reply}
use binderbinder.Device.Driver.{Driver, received, logged}
use binderbinder.Payload.Builder.{PayloadBuilder}
use binderbinder.Transact.Embedded.Exact.{Embeds, HasRoom, marked, mark_lem, unmark_lem}
use binderbinder.Transact.Incoming.{
  Transaction, incoming_of, read_incoming, Outcome, nothing, failed_with, WriteReadError, go_on,
  Handlers, Incoming, is_one_way,
}
use binderbinder.Transact.Dispatch.Stream.{encoded, AllSent, messages-in_order}
use binderbinder.Payload.Reader.Ends.{from_kernel_raw}
use binderbinder.Transact.Dispatch.{
  message, write_read, reader_of, receive, answer_two_way, transaction_of, reply_to, drop_builder,
  settle_reply,
}

module _ (driver : Driver) (handlers : Handlers) (nested : List Command → Cmd Device Outcome)
    (t : Incoming) (h : Handler) (answer : PayloadBuilder) (ids : List ObjectId)
    (d u v : Device) where
  open driver use {checks}

  abbrev pub reply_out : Outgoing
  reply_out = reply_to driver t answer.data_ answer.obj_offsets

  module _ (registered : d.objects t.target ≡ some h) (waits : is_one_way t.flags ≡ false)
      (handled : handlers.handle h (transaction_of driver t) d ≡ ok answer u)
      (embeds : Embeds answer.data_ answer.obj_offsets ids) (room : HasRoom ids u) where
    -- A handler's answer whose sending fails, in whatever way, is the caller's loss only: the loop goes
    -- on, the credits for the objects in it are taken back, and its builder is dropped.
    pub answer-failed :
        (e : WriteReadError)
        → nested (reply reply_out ∷ []) (marked ids u) ≡ ok (failed_with e) (marked ids v)
        → HasRoom ids v
        → receive driver handlers nested t d ≡ (drop_builder driver answer >> pure go_on) v
    unfolding receive answer_two_way settle_reply
    answer-failed e sent room_v = rw (
      receive,
      registered,
      waits,
      answer_two_way,
      handled,
      mark_lem checks reply_out ids embeds u room,
      sent,
      unmark_lem checks reply_out ids embeds v room_v,
    )

-- `struct binder_transaction_data` as the driver fills it: the width and the value of each field.
abbrev pub incoming_fields : Incoming → List (ℕ × ℕ)
incoming_fields t =
    (8, t.target.id)
    ∷ (8, t.target.cookie)
    ∷ (4, t.code)
    ∷ (4, t.flags)
    ∷ (4, t.sender_pid)
    ∷ (4, t.sender_euid)
    ∷ (8, t.data_size)
    ∷ (8, t.offsets_size)
    ∷ (8, t.buffer)
    ∷ (8, t.offsets)
    ∷ []

-- What a handler is to be told of it.
abbrev pub told : Driver → Incoming → Transaction
told driver t = record {
  code = t.code;
  payload = record {
    data_ = driver.memory t.buffer t.data_size;
    mapped = some t.buffer;
    offsets = if t.offsets == 0 then none else some (driver.words t.offsets (t.offsets_size / 8));
    binder_objects = [];
    next_offset_index = 0;
    next_data_index = 0;
  };
  sender_pid = t.sender_pid;
  sender_euid = t.sender_euid;
}

-- The reply with an answer.
abbrev pub sent_back : Driver → Incoming → PayloadBuilder → Outgoing
sent_back driver t answer = record {
  target = 0;
  code = t.code;
  flags = t.flags;
  sender_pid = driver.pid;
  sender_euid = driver.uid;
  payload = answer.data_;
  offsets = answer.obj_offsets;
}

-- What the driver answers to a reply that it takes.
abbrev pub taken : List (BinderReturn × List ℕ)
taken = (BinderReturn.noop, []) ∷ (BinderReturn.transaction_complete, []) ∷ []

-- The device is in use, and the driver takes the commands.
pub record Takes (driver : Driver) (cs : List Command) (d : Device) : Type 0 where
  pub in_use : d.dropped ≡ false
  pub noop_code : return_code driver.opcodes BinderReturn.noop < 2 ^ 32
  pub done_code : return_code driver.opcodes BinderReturn.transaction_complete < 2 ^ 32
  pub answers : driver.answer (exchanged cs ∷ d.log) ≡ received (encoded driver.opcodes taken)

read_incoming_lem :
    (t : Incoming) → AllFit (incoming_fields t) → read_incoming (encode (incoming_fields t)) ≡ t
unfolding read_incoming incoming_of
read_incoming_lem t fit = ap incoming_of (decode-encode (incoming_fields t) fit)

module _ (driver : Driver) (handlers : Handlers) (k : ℕ) where
  taken_lem :
      (cs : List Command) (d : Device)
      → Takes driver cs d
      → write_read driver handlers (suc k) cs d ≡ ok nothing (logged (exchanged cs) d)
  unfolding write_read message payload_size shape
  taken_lem cs d takes =
      let noop : ℕ = return_code driver.opcodes BinderReturn.noop in
      let done : ℕ = return_code driver.opcodes BinderReturn.transaction_complete in
      let short : ltb 256 (length (encoded driver.opcodes taken)) ≡ false = ground (
        arith,
        length-append (to_bytes 4 noop) (to_bytes 4 done ++ []),
        length-append (to_bytes 4 done) [],
        length-to_bytes 4 noop,
        length-to_bytes 4 done,
      ) in
      let one : BinderReturn.noop ≢ BinderReturn.attempt_acquire = λ e. cc in
      let two : BinderReturn.transaction_complete ≢ BinderReturn.attempt_acquire = λ e. cc in
      let sent : AllSent driver.opcodes taken =
        (((takes.noop_code, refl), one), (((takes.done_code, refl), two), tt)) in
      rw (
        write_read,
        takes.answers,
        takes.in_use,
        short,
        messages-in_order driver handlers (write_read driver handlers k) taken sent,
      )

  received_lem :
      (t : Incoming) (h : Handler) (answer : PayloadBuilder) (ids : List ObjectId) (d u : Device)
      → d.objects t.target ≡ some h
      → is_one_way t.flags ≡ false
      → handlers.handle h (told driver t) d ≡ ok answer u
      → Embeds answer.data_ answer.obj_offsets ids
      → HasRoom ids u
      → Takes driver (reply (sent_back driver t answer) ∷ []) (marked ids u)
      → receive driver handlers (write_read driver handlers (suc k)) t d
        ≡ (drop_builder driver answer >> pure go_on)
            (logged (exchanged (reply (sent_back driver t answer) ∷ [])) (marked ids u))
  unfolding receive answer_two_way settle_reply reply_to transaction_of reader_of from_kernel_raw
  received_lem t h answer ids d u registered waits handled embeds room takes = rw (
    receive,
    registered,
    waits,
    answer_two_way,
    handled,
    mark_lem driver.checks (sent_back driver t answer) ids embeds u room,
    taken_lem (reply (sent_back driver t answer) ∷ []) (marked ids u) takes,
  )

  -- A two-way transaction to a registered object, from the bytes of `binder_transaction_data` on, with
  -- or without the eight bytes of a security context behind them: the handler runs on that very code,
  -- sender and mapped payload; its answer goes out in one reply, with the code and flags of the
  -- transaction and the process's own ids, written by one exchange, with a credit for each object in
  -- it. When the driver takes it, the credits stay, the answer's builder is dropped and the loop goes
  -- on. No field leaves its width, and the counts have room for the credits.
  pub answer-sent :
      (t : Incoming) (h : Handler) (answer : PayloadBuilder) (ids : List ObjectId)
      (context : List ℕ) (d u : Device)
      → AllFit (incoming_fields t)
      → d.objects t.target ≡ some h
      → is_one_way t.flags ≡ false
      → handlers.handle h (told driver t) d ≡ ok answer u
      → Embeds answer.data_ answer.obj_offsets ids
      → HasRoom ids u
      → Takes driver (reply (sent_back driver t answer) ∷ []) u
      → (message driver handlers
            (write_read driver handlers (suc k))
            (some BinderReturn.transaction)
            (encode (incoming_fields t))
            d
          ≡ (drop_builder driver answer >> pure go_on)
              (logged (exchanged (reply (sent_back driver t answer) ∷ [])) (marked ids u)))
        × (message driver handlers
              (write_read driver handlers (suc k))
              (some BinderReturn.transaction_sec_ctx)
              (encode (incoming_fields t) ++ context)
              d
            ≡ (drop_builder driver answer >> pure go_on)
                (logged (exchanged (reply (sent_back driver t answer) ∷ [])) (marked ids u)))
  unfolding message
  answer-sent t h answer ids context d u fit registered waits handled embeds room takes =
      let out = sent_back driver t answer in
      let cs : List Command = reply out ∷ [] in
      let takes' : Takes driver cs (marked ids u) = record {
        in_use = takes.in_use;
        noop_code = takes.noop_code;
        done_code = takes.done_code;
        answers = takes.answers;
      } in
      let goes = received_lem t h answer ids d u registered waits handled embeds room takes' in
      let front : take 64 (encode (incoming_fields t) ++ context) ≡ encode (incoming_fields t) =
        take-append_of_length 64 (encode (incoming_fields t)) context
          (length-encode (incoming_fields t)) in
      (rw (read_incoming_lem t fit) goes, rw (front, read_incoming_lem t fit) goes)
