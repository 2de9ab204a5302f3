-- ===== src/Bench/Tests.antt =====
-- Tests.
use binderbinder.Base.{
  replicate, insert, ℕ, ◌≡◌, refl, none, some, List, [], ◌∷◌, length, ok, arith,
}
use binderbinder.Base.Bytes.{to_bytes}
use binderbinder.Sys.ObjectType
use binderbinder.Sys.Structs.{encode, flat_bytes}
use binderbinder.Tests.{driver, first_id, handler}
use binderbinder.Device.{same_id, Device, opened}
use binderbinder.Refcount.{new}
use binderbinder.Device.ObjectOrRef.{object}
use binderbinder.Device.Objects.{BinderObject}
use binderbinder.Device.Handles.Books.Program.{start-At, nothing_held}
use binderbinder.Device.Handles.Books.Counts.{Represents}
use binderbinder.Payload.Builder.{
  PayloadBuilder, blank, push_object, push_bytes, fd_object, align, pad,
}
use binderbinder.Payload.RoundTrip.{put_all}
use binderbinder.Payload.RoundTrip.Reads.{at_part}
use binderbinder.Bench.{whole, echo_into, message}
use binderbinder.Bench.Reads.{bare}
use binderbinder.Bench.Turns.{handle_flat, with_more}
use binderbinder.Bench.Echo.{message_pieces}
use binderbinder.Bench.Message.{object_flat, HasRoom, guard_of, Lent, message_lem}
use binderbinder.Transact.Incoming.{Incoming}
use binderbinder.Bench.Service.{Serving, service_stats}
use binderbinder.Bench.Stats.{measured, stats_counted}
use binderbinder.Bench.Session.{echo_remote}

abbrev payload : List ℕ
payload = 65 ∷ 65 ∷ 65 ∷ []

-- Two refs with the handle 7, padded with 5 when they come, and the descriptor 9.
abbrev sent : PayloadBuilder
sent = put_all (message_pieces driver (handle_flat 5 7) 2 (9 ∷ []) payload) blank

length-sent : length sent.data_ ≡ 88
unfolding push_object push_bytes align pad encode to_bytes ObjectType.handle ObjectType.fd fd_object
    flat_bytes
length-sent = refl

echo_remote_example :
    (b : PayloadBuilder) × (d : Device) × (echo_into driver blank
        (at_part none [] opened blank sent)
      ≡ ok (whole b) (at_part none [] d sent sent))
    × (bare b ≡ put_all (message_pieces driver (handle_flat 0 7) 2 (9 ∷ []) payload) blank)
    × (b.owned_fds ≡ 9 ∷ [])
    × (length b.binder_objects ≡ 2)
    × Represents (λ w. 0) d (with_more 7 2 nothing_held)
echo_remote_example =
    echo_remote driver (λ log cs. refl) (λ w. 0) 5 7 2 (9 ∷ []) payload none [] opened _ start-At
      (omega arith) (omega arith) (omega arith) (omega arith) (omega arith) (omega arith, tt)
      (omega (arith, length-sent))

abbrev client_object : BinderObject
client_object = record { id = first_id; handler = handler }

abbrev registered : Device
registered = record opened {
  objects = insert (same_id first_id) handler opened.objects;
  object_refcounts = insert (same_id first_id) (new first_id) opened.object_refcounts;
}

registered-HasRoom : HasRoom first_id 2 registered
unfolding new
registered-HasRoom r e = ground (arith, e)

message_lem_example :
    (b : PayloadBuilder) × (d : Device) × (message driver client_object 9 payload 2 1 registered
      ≡ ok b d)
    × (bare b ≡ put_all (message_pieces driver (object_flat first_id) 2 (9 ∷ []) payload) blank)
    × (b.binder_objects ≡ replicate 2 (object (guard_of client_object registered)))
    × Lent 2 first_id registered d
message_lem_example = message_lem driver client_object 9 payload 2 1 registered registered-HasRoom

abbrev request : ℕ → ℕ → Incoming
request code size = record {
  target = record { id = 0; cookie = 0 };
  code = code;
  flags = 0;
  sender_pid = 5;
  sender_euid = 0;
  data_size = size;
  offsets_size = 0;
  buffer = 64;
  offsets = 0;
}

abbrev serving : Serving
serving = record { service = record { one_way = 4; one_way_bytes = 70 }; device = opened }

stats_counted_example :
    (b : PayloadBuilder) × (s : Serving) × (measured driver
        (request 3 0)
        (request 1 20 ∷ request 1 30 ∷ [])
        (request 2 0)
        serving
      ≡ ok (some b) s)
    × (service_stats driver (at_part none [] opened blank b)
        ≡ ok (2, 50) (at_part none [] opened b b))
stats_counted_example =
    stats_counted driver (λ log cs. refl) (request 3 0) (request 1 20 ∷ request 1 30 ∷ [])
      (request 2 0) serving refl refl (refl, (refl, (refl, (refl, tt)))) driver none opened
