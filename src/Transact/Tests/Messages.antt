-- ===== src/Transact/Tests/Messages.antt =====
-- Concrete runs of the arms for a transaction and for the counts of an object, and of a local call.
use binderbinder.Base.{
  ltb, ◌+◌, ◌++◌, ℕ, ◌^◌, ◌<◌, ◌≡◌, refl, Option, none, some, List, [], ◌∷◌, ok, pure, ◌>>◌,
  if◌then◌else◌, arith, length, insert, map,
}
use binderbinder.Base.Words.{add_u32, sub_u32}
use binderbinder.Refcount.{new}
use binderbinder.Refcount.History.{run, call}
use binderbinder.Sys.Opcodes.{linux}
use binderbinder.Sys.Returns.{BinderReturn, return_code, shape}
use binderbinder.Base.Bytes.{to_bytes}
use binderbinder.Sys.Structs.{flat_bytes, encode}
use binderbinder.Device.{same_id, Device, exchanged, reply, opened}
use binderbinder.Device.Driver.{Driver, received, logged}
use binderbinder.Payload.Builder.{push_bytes, push_fd, push_object, pad, fd_object}
use binderbinder.Payload.Layout.{Content, raw, descriptor}
use binderbinder.Payload.RoundTrip.Copies.{Duplicates}
use binderbinder.Payload.RoundTrip.Pushed.{piece, AllFits}
use binderbinder.Transact.Embedded.Exact.{marked}
use binderbinder.Transact.Incoming.{nothing, write_read_ioctl_failed, go_on, Handlers, Incoming}
use binderbinder.Transact.Dispatch.{message, receive, write_read, drop_builder, messages, reply_to}
use binderbinder.Transact.Dispatch.Answer.{
  answer-failed, answer-sent, taken, incoming_fields, sent_back,
}
use binderbinder.Transact.Dispatch.Stream.{encoded}
use binderbinder.Transact.Dispatch.Counting.{
  Notice, first_strong, last_strong, first_weak, last_weak, told, answers, notices_counted,
}
use binderbinder.Transact.Send.Local.{self_transact_blocking}
use binderbinder.Transact.Send.Local.Call.{built, handled_by, ReadsCopies, local_call}
use binderbinder.Transact.Tests.{
  an_id, a_handler, broken_driver, handlers, owner, parcel, parcel-Embeds, owner-HasRoom, no_nested,
  stray,
}

-- The object is registered, and answers every call with itself.
abbrev host : Device
host = record owner { objects = λ id. if same_id an_id id then some a_handler else none }

abbrev generous : Handlers
generous = record { handle = λ h t. pure parcel; handle_one_way = λ h t. pure tt }

abbrev asked : Incoming
asked = record stray { target = an_id; flags = 0x10 }

abbrev refused_reply : Device
refused_reply =
    logged (exchanged (reply (reply_to broken_driver asked parcel.data_ parcel.obj_offsets) ∷ []))
      host

answer-failed_example :
    receive broken_driver generous (write_read broken_driver generous 1) asked host
    ≡ (drop_builder broken_driver parcel >> pure go_on) refused_reply
unfolding write_read
answer-failed_example =
    answer-failed broken_driver generous (write_read broken_driver generous 1) asked a_handler
      parcel (an_id ∷ []) host host refused_reply refl refl refl parcel-Embeds owner-HasRoom
      (write_read_ioctl_failed 19) refl owner-HasRoom

linux_return_fits : (k : BinderReturn) → return_code linux k < 2 ^ 32
unfolding return_code shape
linux_return_fits BinderReturn.error = omega arith
linux_return_fits _ = omega arith

-- A driver that takes all that is written.
abbrev taking_driver : Driver
taking_driver = record broken_driver { answer = λ log. received (encoded linux taken) }

answer-sent_example :
    (message taking_driver generous
        (write_read taking_driver generous 1)
        (some BinderReturn.transaction)
        (encode (incoming_fields asked))
        host
      ≡ (drop_builder taking_driver parcel >> pure go_on) (
          logged
            (exchanged (reply (sent_back taking_driver asked parcel) ∷ []))
            (marked (an_id ∷ []) host)))
    × (message taking_driver generous
          (write_read taking_driver generous 1)
          (some BinderReturn.transaction_sec_ctx)
          (encode (incoming_fields asked) ++ to_bytes 8 9)
          host
        ≡ (drop_builder taking_driver parcel >> pure go_on) (
            logged
              (exchanged (reply (sent_back taking_driver asked parcel) ∷ []))
              (marked (an_id ∷ []) host)))
answer-sent_example =
    answer-sent taking_driver generous 0 asked a_handler parcel (an_id ∷ []) (to_bytes 8 9) host
      host (omega arith) refl refl refl parcel-Embeds owner-HasRoom
      (record {
        in_use = refl;
        noop_code = linux_return_fits BinderReturn.noop;
        done_code = linux_return_fits BinderReturn.transaction_complete;
        answers = refl;
      })

abbrev notices : List Notice
notices = first_weak ∷ first_strong ∷ last_strong ∷ last_weak ∷ []

notices_counted_example :
    messages broken_driver handlers no_nested
      (length (encoded linux (map (told an_id) notices)))
      (encoded linux (map (told an_id) notices))
      owner
    ≡ ok nothing (record owner {
      object_refcounts = insert (same_id an_id) (new an_id) owner.object_refcounts;
      log = answers an_id notices [];
    })
unfolding run new call add_u32 sub_u32
notices_counted_example =
    notices_counted broken_driver handlers no_nested an_id (omega arith) (omega arith) owner notices
      (new an_id) (new an_id) linux_return_fits refl refl

-- The descriptor 5, twice.
abbrev said : List Content
said = raw (1 ∷ 2 ∷ []) ∷ descriptor 5 9 ∷ descriptor 5 9 ∷ []

-- Descriptors from 100 on are not open, and each duplicate is a new number.
abbrev given : ℕ → ℕ → ℕ
given moment f = 40 + moment

abbrev dup : ℕ → ℕ → Option ℕ
dup moment f = if ltb f 100 then some (given moment f) else none

said-AllFits : AllFits broken_driver opened said
unfolding fd_object
said-AllFits = (tt, (omega arith, (omega arith, tt)))

said-Duplicates : Duplicates dup given 0 (map (piece broken_driver opened) said)
unfolding fd_object
said-Duplicates = (λ e. (refl, omega arith), (λ e. (refl, omega arith), tt))

local_call_example :
    (self_transact_blocking broken_driver handlers dup an_id 3
        (built broken_driver handlers dup given said opened)
        host
      ≡ handled_by broken_driver handlers dup given said opened a_handler 3 host)
    × ReadsCopies broken_driver handlers dup given said opened
unfolding push_bytes push_fd push_object pad flat_bytes to_bytes
local_call_example =
    local_call broken_driver handlers dup given said opened said-Duplicates said-AllFits host an_id
      a_handler 3 refl (omega arith)
