-- ===== src/Bench/Service.antt =====
-- examples/bench.rs: `EchoService` and its counters, and the client's questions about them. The
-- counters are atomics of 64 bits, which wrap around.
use binderbinder.Base.{
  ℕ, ◌+◌, ◌%◌, ◌^◌, ◌==◌, Bool, Option, none, some, [], ◌∷◌, take, drop, Cmd, pure, ok, panic,
  ◌>>=◌, if◌then◌else◌,
}
use binderbinder.Base.Bytes.{to_bytes, from_bytes}
use binderbinder.Device.{Device}
use binderbinder.Device.Driver.{Driver}
use binderbinder.Payload.Builder.{PayloadBuilder, blank, push_bytes}
use binderbinder.Payload.Reader.{
  PayloadReader, Reading, success, failure, read_bytes, bytes_until_next_obj,
}
use binderbinder.Transact.Incoming.{Transaction}
use binderbinder.Transact.Dispatch.{drop_payload}
use binderbinder.Bench.{built, echo_into}

abbrev pub stats_code : ℕ
stats_code = 2

abbrev pub reset_code : ℕ
reset_code = 3

pub record EchoService : Type 0 where
  pub one_way : ℕ
  pub one_way_bytes : ℕ

-- The service, and the device of its process.
pub record Serving : Type 0 where
  pub service : EchoService
  pub device : Device

-- `fetch_add` of an `AtomicU64`.
abbrev pub fetch_add : ℕ → ℕ → ℕ
fetch_add n counter = (counter + n) % 2 ^ 64

-- The two branches that return early: `STATS_CODE` and `RESET_CODE`.
unfoldable pub stats_reply : EchoService → PayloadBuilder
unfolding push_bytes
stats_reply e = push_bytes (to_bytes 8 e.one_way_bytes) (push_bytes (to_bytes 8 e.one_way) blank)

-- `b"ok"`.
unfoldable pub reset_reply : PayloadBuilder
unfolding push_bytes
reset_reply = push_bytes (111 ∷ 107 ∷ []) blank

abbrev pub cleared : EchoService
cleared = record { one_way = 0; one_way_bytes = 0 }

unfoldable pub on_serving : {A : Type 0} → Cmd Device A → Cmd Serving A
on_serving m s = elim (m s.device) [
  | ok a d ↦ ok a (record s { device = d })
  | panic d ↦ panic (record s { device = d })
]

module _ (driver : Driver) where
  -- The payload goes when the handler returns; `none` is that this does not come to an end.
  unfoldable pub release_payload :
      PayloadReader → PayloadBuilder → Cmd Serving (Option PayloadBuilder)
  unfolding drop_payload on_serving
  release_payload r reply =
      on_serving (drop_payload driver r) >>= λ ended. pure (if ended then some reply else none)

  unfoldable pub echo : PayloadReader → Cmd Serving (Option PayloadBuilder)
  unfolding echo_into release_payload
  echo r s = elim (echo_into driver blank (record { reader = r; device = s.device })) [
    | ok c u ↦ release_payload u.reader (built c) (record s { device = u.device })
    | panic u ↦ panic (record s { device = u.device })
  ]

  unfoldable pub handle : Transaction → Cmd Serving (Option PayloadBuilder)
  unfolding echo release_payload stats_reply reset_reply
  handle t s =
      if t.code == stats_code
      then release_payload t.payload (stats_reply s.service) s
      else if t.code == reset_code
      then release_payload t.payload reset_reply (record s { service = cleared })
      else echo t.payload s

  unfoldable pub counted : Transaction → EchoService → EchoService
  unfolding bytes_until_next_obj
  counted t e = record {
    one_way = fetch_add 1 e.one_way;
    one_way_bytes = fetch_add (bytes_until_next_obj t.payload) e.one_way_bytes;
  }

  -- `false` is that the drop of the payload does not come to an end.
  unfoldable pub handle_one_way : Transaction → Cmd Serving Bool
  unfolding counted on_serving drop_payload
  handle_one_way t s =
      on_serving (drop_payload driver t.payload) (record s { service = counted t s.service })

  -- The end of `Client::service_stats`, with its `expect`.
  unfoldable pub service_stats : Cmd Reading (ℕ × ℕ)
  unfolding read_bytes
  service_stats = read_bytes driver 16 >>= λ r. elim r [
    | failure e ↦ panic
    | success bytes ↦ pure (from_bytes (take 8 bytes), from_bytes (drop 8 bytes))
  ]
