-- ===== src/Transact/Tests.antt =====
-- Concrete runs of transactions.
mod Messages
use binderbinder.Base.Words.{u32_mod}
use binderbinder.Base.{
  Bool-cases, inl, inr, ℕ, ◌+◌, ◌<◌, ◌≤◌, ◌≡◌, refl, subst, if◌then◌else◌, true, false, none, some,
  List, [], ◌∷◌, ◌++◌, ok, Cmd, pure, ◌>>◌, arith, length, length-replicate, replicate,
}
use binderbinder.Base.Bytes.{to_bytes, from_bytes}
use binderbinder.Refcount.{ObjectId, ObjectRefState, new}
use binderbinder.Refcount.History.{IsSound, new-IsSound, sum}
use binderbinder.Sys.ObjectType
use binderbinder.Sys.Opcodes.{linux}
use binderbinder.Sys.Returns.{BinderReturn, return_code, shape, payload_size}
use binderbinder.Sys.Structs.{FlatObject, flat_bytes, encode}
use binderbinder.Device.{same_id, Device, Handler, Command, Event, opened, exchanged}
use binderbinder.Device.Driver.{Driver, Answer, failed, received, logged}
use binderbinder.Payload.Builder.{PayloadBuilder, blank}
use binderbinder.Transact.Embedded.{embedded_at}
use binderbinder.Transact.Embedded.Exact.{Embeds, no_offset, at_offset, HasRoom}
use binderbinder.Transact.Embedded.Credits.{bumps}
use binderbinder.Transact.Incoming.{
  Outcome, nothing, failed_with, object_not_found, leave, Handlers, Incoming, no_space,
}
use binderbinder.Transact.Dispatch.{messages, receive, write_read, drop_builder}
use binderbinder.Transact.Dispatch.Ends.{Ends}
use binderbinder.Transact.Dispatch.Stream.{
  encoded, in_order, messages-in_order, attempt_acquire_misread,
}
use binderbinder.Transact.Dispatch.Refuse.{refusal, receive-unknown}
use binderbinder.Transact.Dispatch.Death.{vigil, mourning, dead_when_told}
use binderbinder.Device.Handles.Lifecycle.{IsNew}
use binderbinder.Transact.Send.{
  binder, refused, local, outgoing, two_way_flags, one_way_flags, framed, remote_transact_blocking,
  remote_transact_one_way, set_context_manager, context_manager_target,
}
use binderbinder.Transact.Send.Failed.{blocking-failed}
use binderbinder.Transact.Send.Retry.{IsFull, blocking-full}
use binderbinder.Transact.Send.Local.{set_context_manager-target}

abbrev an_id : ObjectId
an_id = record { id = 1; cookie = 0 }

abbrev a_handler : Handler
a_handler = record { address = 16; type_id = 3 }

-- A driver that has no space at first, and then fails with ENODEV.
abbrev answers : List Event → Answer
answers (exchanged cs ∷ []) = received (encoded linux ((BinderReturn.failed_reply, []) ∷ []))
answers _ = failed 19

abbrev environment : (List Event → Answer) → Driver
environment answer = record {
  checks = true;
  opcodes = linux;
  padding = 0;
  pid = 100;
  euid = 1000;
  uid = 1000;
  write_fails = λ log cs. false;
  answer = answer;
  error_param = λ log. no_space;
  memory = λ p n. replicate n 0;
  words = λ p n. replicate n 0;
  length_memory = λ p n. length-replicate n 0;
  length_words = λ p n. length-replicate n 0;
}

abbrev full_driver : Driver
full_driver = environment answers

abbrev broken_driver : Driver
broken_driver = environment λ log. failed 19

abbrev handlers : Handlers
handlers = record { handle = λ h t. pure blank; handle_one_way = λ h t. pure tt }

-- A device with one object, and a builder that carries it.
abbrev owner : Device
owner = record opened {
  object_id_counter = 2;
  object_refcounts = λ id. if same_id an_id id then some (new an_id) else none;
}

abbrev an_object : FlatObject
an_object = record { type_ = ObjectType.binder; flags = 0x100; bits = 1; cookie = 0 }

abbrev parcel : PayloadBuilder
parcel = record blank { data_ = flat_bytes an_object; obj_offsets = 0 ∷ [] }

parcel-Embeds : Embeds parcel.data_ parcel.obj_offsets (an_id ∷ [])
unfolding embedded_at flat_bytes encode to_bytes ObjectType.binder
parcel-Embeds = at_offset 0 [] (some an_id) [] refl no_offset

some_inj : {A : Type 0} {a b : A} → some a ≡ some b → a ≡ b
some_inj e = cc

bump_small : (j : ObjectId) → bumps (an_id ∷ []) (λ _. 0) j ≤ 1
bump_small j = ground arith

owner-HasRoom : HasRoom (an_id ∷ []) owner
unfolding new
owner-HasRoom j r e = elim (Bool-cases (same_id an_id j)) [
  | inl hit ↦
      let known : some (new an_id) ≡ some r = rw hit at e in
      subst
        (λ (x : ObjectRefState).
          IsSound x × (sum x.counts + bumps (an_id ∷ []) (λ _. 0) j < u32_mod))
        (some_inj known) (new-IsSound an_id, omega (arith, bump_small j))
  | inr miss ↦ let absent : none ≡ some r = rw miss at e in cc
]

blocking-failed_example :
    remote_transact_blocking broken_driver (write_read broken_driver handlers 1) 1 7 1 parcel owner
    ≡ (drop_builder broken_driver parcel >> pure (refused (binder 19)))
        (logged (exchanged (framed (outgoing two_way_flags 7 1 parcel))) owner)
blocking-failed_example =
    blocking-failed broken_driver handlers 0 0 7 1 19 parcel (an_id ∷ []) owner parcel-Embeds
      owner-HasRoom refl

is_full : (first second : List Command) → IsFull full_driver 19 first second owner
unfolding return_code shape
is_full first second = record {
  open_ = refl;
  code = omega arith;
  reply = refl;
  cause = refl;
  last = refl;
}

blocking-full_example :
    remote_transact_blocking full_driver (write_read full_driver handlers 1) 2 7 1 parcel owner
    ≡ (drop_builder full_driver parcel >> pure (refused (binder 19))) (
        logged
          (exchanged [])
          (logged (exchanged (framed (outgoing two_way_flags 7 1 parcel))) owner))
blocking-full_example =
    blocking-full full_driver handlers 0 0 7 1 19 parcel (an_id ∷ []) owner parcel-Embeds
      owner-HasRoom (is_full (framed (outgoing two_way_flags 7 1 parcel)) [])

abbrev no_nested : List Command → Cmd Device Outcome
no_nested cs = pure nothing

abbrev acquired : List (BinderReturn × List ℕ)
acquired =
    (BinderReturn.noop, [])
    ∷ (BinderReturn.acquire, encode ((8, 1) ∷ (8, 0) ∷ []))
    ∷ (BinderReturn.dead_reply, [])
    ∷ []

messages-in_order_example :
    messages broken_driver handlers no_nested
      (length (encoded linux acquired))
      (encoded linux acquired)
    ≡ in_order broken_driver handlers no_nested acquired
unfolding return_code shape payload_size encode to_bytes
messages-in_order_example = messages-in_order broken_driver handlers no_nested acquired (
  ((omega arith, refl), λ e. cc),
  (((omega arith, refl), λ e. cc), (((omega arith, refl), λ e. cc), tt)),
)

-- The two parts of the payload of a BR_ATTEMPT_ACQUIRE.
abbrev start_of_it : List ℕ
start_of_it = replicate 16 1

abbrev rest_of_it : List ℕ
rest_of_it = replicate 8 5

attempt_acquire_misread_example :
    (length rest_of_it ≡ 8)
    × (messages broken_driver handlers no_nested 9 (
          to_bytes 4 (return_code linux BinderReturn.attempt_acquire)
          ++ ((start_of_it ++ rest_of_it) ++ []))
        ≡ messages broken_driver handlers no_nested 8 (rest_of_it ++ []))
unfolding return_code shape payload_size
attempt_acquire_misread_example =
    attempt_acquire_misread broken_driver handlers no_nested 8 start_of_it rest_of_it []
      (omega arith) refl (omega arith, refl)

abbrev stray : Incoming
stray = record {
  target = record { id = 9; cookie = 0 };
  code = 1;
  flags = 0x10;
  sender_pid = 5;
  sender_euid = 0;
  data_size = 4;
  offsets_size = 0;
  buffer = 4096;
  offsets = 4104;
}

receive-unknown_example :
    receive broken_driver handlers no_nested stray opened
    ≡ ok
        (leave (failed_with object_not_found))
        (record opened { log = refusal broken_driver stray [] })
receive-unknown_example =
    receive-unknown broken_driver (λ log cs. refl) handlers no_nested stray opened refl refl

set_context_manager-target_example :
    (after : Device) × (set_context_manager false
        (record { id = an_id; handler = a_handler })
        opened
      ≡ ok false after)
    × (context_manager_target after ≡ local an_id)
set_context_manager-target_example =
    set_context_manager-target false (record { id = an_id; handler = a_handler }) opened
      (omega arith) refl

opened-IsNew : IsNew 7 opened
opened-IsNew = record { refs = refl; weak_refs = refl; cookie = refl; room = omega arith }

-- The cookie of the first death notification, as BR_DEAD_BINDER carries it.
abbrev first_cookie : List ℕ
first_cookie = 1 ∷ replicate 7 0

dead_when_told_example :
    vigil broken_driver handlers no_nested 7 first_cookie opened
    ≡ ok (true, false) (mourning 7 opened)
unfolding from_bytes
dead_when_told_example =
    dead_when_told broken_driver (λ log cs. refl) handlers no_nested 7 first_cookie opened
      opened-IsNew refl refl
