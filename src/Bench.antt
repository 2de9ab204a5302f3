-- ===== src/Bench.antt =====
-- examples/bench.rs: the messages of its client, and the service that echoes them.
pub mod Block
pub mod Echo
pub mod Reads
pub mod Turns
pub mod Message
pub mod Session
pub mod Service
pub mod Stats
mod Tests
use binderbinder.Base.{
  ℕ, zero, suc, ◌+◌, ◌%◌, List, [], ◌∷◌, ◌++◌, ◌==◌, ltb, if◌then◌else◌, length, take, drop, Cmd,
  pure, ok, ◌>>=◌, ◌>>◌,
}
use binderbinder.Base.Words.{usize_mod}
use binderbinder.Base.Bytes.{to_bytes, from_bytes}
use binderbinder.Device.{Device}
use binderbinder.Device.Driver.{Driver}
use binderbinder.Device.Objects.{BinderObject, object_to_borrowed}
use binderbinder.Device.ObjectOrRef.{BinderObjectOrRef, object, clone, drop_either}
use binderbinder.Payload.Builder.{
  PayloadBuilder, blank, push_bytes, push_binder_ref, push_fd, push_owned_fd,
}
use binderbinder.Payload.Reader.{
  Reading, success, failure, on_device, read_bytes, read_binder_ref, read_fd, bytes_until_next_obj,
}

-- How many refs and descriptors a message says that it has.
pub record HeaderCounts : Type 0 where
  pub refs : ℕ
  pub fds : ℕ

unfoldable pub header_counts : List ℕ → HeaderCounts
header_counts bytes =
    if ltb (length bytes) 8
    then record { refs = 0; fds = 0 }
    else record { refs = from_bytes (take 4 bytes); fds = from_bytes (take 4 (drop 4 bytes)) }

-- What a loop over objects has built: to its end, or up to an object that could not be read.
pub data Copied : Type 0 where
  whole : PayloadBuilder → Copied
  stopped : PayloadBuilder → Copied

abbrev pub built : Copied → PayloadBuilder
built (whole b) = b
built (stopped b) = b

module _ (driver : Driver) where
  -- `Client::message`. `as u32` keeps the low four bytes.
  unfoldable pub push_refs : ℕ → BinderObject → PayloadBuilder → Cmd Device PayloadBuilder
  push_refs zero reply_obj b = pure b
  push_refs (suc n) reply_obj b = object_to_borrowed driver.checks reply_obj >>= λ port d.
      push_refs n reply_obj (push_binder_ref driver d (object port) b) d

  unfoldable pub push_fds : ℕ → ℕ → PayloadBuilder → PayloadBuilder
  push_fds zero devnull b = b
  push_fds (suc n) devnull b = push_fds n devnull (push_fd driver devnull 0 b)

  unfoldable pub message : BinderObject → ℕ → List ℕ → ℕ → ℕ → Cmd Device PayloadBuilder
  message reply_obj devnull payload refs fds =
      push_refs refs reply_obj
        (push_bytes payload (push_bytes (to_bytes 4 fds) (push_bytes (to_bytes 4 refs) blank)))
      >>= λ b. pure (push_fds fds devnull b)

  -- `push_binder_ref(&r)`, and the drop of `r`.
  unfoldable pub echo_ref : BinderObjectOrRef → PayloadBuilder → Cmd Reading PayloadBuilder
  unfolding on_device
  echo_ref r b = on_device (clone driver r) >>= λ port s.
      (on_device (drop_either driver r) >> pure (push_binder_ref driver s.device port b)) s

  -- The two loops of `echo_into`.
  unfoldable pub echo_refs : ℕ → PayloadBuilder → Cmd Reading Copied
  echo_refs zero b = pure (whole b)
  echo_refs (suc n) b = read_binder_ref driver >>= λ r. elim r [
    | failure e ↦ pure (stopped b)
    | success port ↦ echo_ref port b >>= λ b'. echo_refs n b'
  ]

  unfoldable pub echo_fds : ℕ → PayloadBuilder → Cmd Reading Copied
  echo_fds zero b = pure (whole b)
  echo_fds (suc n) b = read_fd >>= λ r. elim r [
    | failure e ↦ pure (stopped b)
    | success f ↦ echo_fds n (push_owned_fd driver f.0 f.1 b)
  ]

  unfoldable pub echo_into : PayloadBuilder → Cmd Reading Copied
  unfolding header_counts
  echo_into b s =
      (read_bytes driver (bytes_until_next_obj s.reader) >>= λ r. elim r [
        | failure e ↦ pure (stopped b)
        | success bytes ↦ echo_refs (header_counts bytes).refs (push_bytes bytes b) >>= λ c.
            elim c [
              | stopped b' ↦ pure (stopped b')
              | whole b' ↦ echo_fds (header_counts bytes).fds b'
            ]
      ])
        s
