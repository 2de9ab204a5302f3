-- ===== src/Bench/Session.antt =====
-- examples/bench.rs: the service echoes what the client sent.
use binderbinder.Base.{ℕ, ◌^◌, ◌<◌, ◌≡◌, refl, ok, Option, List, length}
use binderbinder.Base.Words.{usize_mod}
use binderbinder.Device.{Device}
use binderbinder.Device.Driver.{Driver, Accepts}
use binderbinder.Device.ObjectOrRef.{BinderObjectOrRef}
use binderbinder.Device.Handles.Books.Counts.{Counts, Represents}
use binderbinder.Payload.Builder.{PayloadBuilder, blank}
use binderbinder.Payload.RoundTrip.{put_all}
use binderbinder.Payload.RoundTrip.Reads.{at_part}
use binderbinder.Bench.{whole, echo_into}
use binderbinder.Bench.Reads.{AllNarrow, bare}
use binderbinder.Bench.Turns.{
  handle_flat, with_more, reached, InOrder, handle-Carries, handle_flat-AllFit, handle_flat-is_ref,
}
use binderbinder.Bench.Echo.{echo_message, message_pieces}

-- The reader of a message as `Client::message` lays it out: `refs` refs that arrive as the handle `h`
-- and the descriptors `fds`. It is shorter than 2^64, no count, descriptor or handle leaves its field,
-- both paddings are of 32 bits, the driver takes the commands of the counts, and the books
-- of the service's refs are in order with the counts `c`. The service reads all of it. What it builds
-- is the message itself, bytes and offsets, with its own padding in the flat forms; it keeps the
-- descriptors that it was given and one value for each ref that came, for the reply, and its books
-- are in order with `refs` more strong refs to `h`.
pub echo_remote :
    (driver : Driver) (accepts : Accepts driver) (weaks : ℕ → ℕ) (padding h refs : ℕ)
    (fds payload : List ℕ) (mapped : Option ℕ) (objects : List BinderObjectOrRef) (d : Device)
    (c : Counts)
    → Represents weaks d c
    → h < 2 ^ 32
    → padding < 2 ^ 32
    → driver.padding < 2 ^ 32
    → refs < 2 ^ 32
    → length fds < 2 ^ 32
    → AllNarrow fds
    → length (put_all (message_pieces driver (handle_flat padding h) refs fds payload) blank).data_
      < usize_mod
    → let sent = put_all (message_pieces driver (handle_flat padding h) refs fds payload) blank in
      (b : PayloadBuilder) × (d' : Device) × (echo_into driver blank
          (at_part mapped objects d blank sent)
        ≡ ok (whole b) (at_part mapped objects d' sent sent))
      × (bare b
          ≡ put_all (message_pieces driver (handle_flat driver.padding h) refs fds payload) blank)
      × (b.owned_fds ≡ fds)
      × (length b.binder_objects ≡ refs)
      × Represents weaks d' (with_more h refs c)
echo_remote driver accepts weaks padding h refs fds payload mapped objects d c r narrow pad own_pad
      few_refs few_fds narrow_fds small =
    let e =
      echo_message driver (handle_flat padding h) (handle_flat driver.padding h)
        (InOrder weaks h (with_more h refs c))
        (handle-Carries driver accepts weaks padding h (with_more h refs c) narrow)
        (handle_flat-AllFit padding h pad narrow) (handle_flat-is_ref padding h) refs fds payload
        mapped objects d (c, r, λ k. refl, refl) few_refs few_fds narrow_fds own_pad small in
    (e.builder, e.device, e.runs, e.bytes, e.owned, e.kept, reached weaks h _ e.device e.left)
