-- ===== src/Bench/Stats.antt =====
-- examples/bench.rs: what the service's counters tell the client.
use binderbinder.Base.{
  ℕ, ◌+◌, ◌%◌, ◌^◌, ◌<◌, ◌≡◌, refl, sym, ap, ◌++◌, take-append_of_length, drop-append_of_length,
  length-append, ◌∙◌, ◌==◌, Bool-cases, inl, inr, Bool, true, false, Option, some, List, [], ◌∷◌,
  length, Cmd, pure, ok, ◌>>=◌, ◌>>◌, if◌then◌else◌, arith,
}
use binderbinder.Base.Bytes.{to_bytes, length-to_bytes, from_bytes-to_bytes}
use binderbinder.Device.{Device}
use binderbinder.Device.Driver.{Driver, Accepts}
use binderbinder.Payload.Builder.{PayloadBuilder, blank, push_bytes}
use binderbinder.Payload.RoundTrip.{put_all-Grows}
use binderbinder.Payload.Reader.{success, read_bytes, next_after, first_after, bytes_until_next_obj}
use binderbinder.Payload.Reader.Ends.{from_kernel_raw}
use binderbinder.Payload.RoundTrip.Reads.{at_part, read_bytes-put}
use binderbinder.Transact.Incoming.{Incoming}
use binderbinder.Transact.Dispatch.{reader_of, transaction_of}
use binderbinder.Transact.Dispatch.Plain.{freed, words_nil, drop_plain}
use binderbinder.Bench.Service.{
  Serving, cleared, counted, stats_code, reset_code, handle, handle_one_way, service_stats,
  stats_reply, reset_reply, release_payload, on_serving,
}

-- Messages with no objects.
abbrev pub AllPlain : List Incoming → Type 0
AllPlain [] = Unit
AllPlain (t ∷ ts) = (t.offsets_size ≡ 0) × AllPlain ts

abbrev pub bytes_of : List Incoming → ℕ
bytes_of [] = 0
bytes_of (t ∷ ts) = t.data_size + bytes_of ts

abbrev with_counts : ℕ → ℕ → Device → Serving
with_counts n m d = record { service = record { one_way = n; one_way_bytes = m }; device = d }

module _ (driver : Driver) where
  -- One-way transactions to the service, one after the other.
  unfoldable pub one_ways : List Incoming → Cmd Serving Bool
  unfolding handle_one_way transaction_of
  one_ways [] = pure true
  one_ways (t ∷ ts) = handle_one_way driver (transaction_of driver t) >>= λ ended.
      if ended then one_ways ts else pure false

  -- The counters are set to 0, the messages are handled, and the counters are asked for.
  unfoldable pub measured :
      Incoming → List Incoming → Incoming → Cmd Serving (Option PayloadBuilder)
  unfolding handle transaction_of one_ways
  measured reset ts stats =
      handle driver (transaction_of driver reset)
      >> one_ways ts
      >> handle driver (transaction_of driver stats)

module _ (driver : Driver) (accepts : Accepts driver) where
  until_end :
      (t : Incoming) → t.offsets_size ≡ 0 → bytes_until_next_obj (reader_of driver t) ≡ t.data_size
  unfolding bytes_until_next_obj reader_of from_kernel_raw next_after first_after
  until_end t plain = elim (Bool-cases (t.offsets == 0)) [
    | inl e ↦ rw (plain, e) (omega (arith, driver.length_memory t.buffer t.data_size))
    | inr e ↦
        rw (plain, e, words_nil driver t.offsets)
          (omega (arith, driver.length_memory t.buffer t.data_size))
  ]

  with_counts-eq :
      (n n' m m' : ℕ) (d : Device) → n ≡ n' → m ≡ m' → with_counts n m d ≡ with_counts n' m' d
  with_counts-eq n n' m m' d e f = cc

  one_way_lem :
      (t : Incoming) (n m : ℕ) (d : Device)
      → t.offsets_size ≡ 0
      → handle_one_way driver (transaction_of driver t) (with_counts n m d)
        ≡ ok true (with_counts ((n + 1) % 2 ^ 64) ((m + t.data_size) % 2 ^ 64) (freed t d))
  unfolding handle_one_way transaction_of counted on_serving
  one_way_lem t n m d plain =
      rw (handle_one_way, on_serving, drop_plain driver accepts t d plain, until_end t plain) refl

  one_ways_lem :
      (ts : List Incoming) (n m : ℕ) (d : Device)
      → AllPlain ts
      → n < 2 ^ 64
      → m < 2 ^ 64
      → (d' : Device) × (one_ways driver ts (with_counts n m d)
          ≡ ok true (with_counts ((n + length ts) % 2 ^ 64) ((m + bytes_of ts) % 2 ^ 64) d'))
  unfolding one_ways
  one_ways_lem [] n m d plain few small =
      (d, ap (ok true) (with_counts-eq _ _ _ _ d (omega arith) (omega arith)))
  one_ways_lem (t ∷ ts) n m d plain few small =
      let (d', rest) =
        one_ways_lem ts ((n + 1) % 2 ^ 64) ((m + t.data_size) % 2 ^ 64) (freed t d) plain.1
          (omega arith) (omega arith) in
      (
        d',
        rw (one_way_lem t n m d plain.0)
            (rest ∙ ap (ok true) (with_counts-eq _ _ _ _ d' (omega arith) (omega arith))),
      )

  -- The same from counters that were reset.
  from_reset :
      (ts : List Incoming) (d : Device)
      → AllPlain ts
      → (d' : Device) × (one_ways driver ts (with_counts 0 0 d)
          ≡ ok true (with_counts (length ts % 2 ^ 64) (bytes_of ts % 2 ^ 64) d'))
  from_reset ts d plain =
      let (d', counts) = one_ways_lem ts 0 0 d plain (omega arith) (omega arith) in
      (d', counts ∙ ap (ok true) (with_counts-eq _ _ _ _ d' (omega arith) (omega arith)))

  release_plain :
      (t : Incoming) (b : PayloadBuilder) (s : Serving)
      → t.offsets_size ≡ 0
      → release_payload driver (reader_of driver t) b s
        ≡ ok (some b) (record s { device = freed t s.device })
  unfolding release_payload on_serving
  release_plain t b s plain =
      rw (release_payload, on_serving, drop_plain driver accepts t s.device plain) refl

  handle-reset :
      (t : Incoming) (s : Serving)
      → t.code ≡ reset_code
      → t.offsets_size ≡ 0
      → handle driver (transaction_of driver t) s
        ≡ ok (some reset_reply) (with_counts 0 0 (freed t s.device))
  unfolding handle transaction_of
  handle-reset t s code plain =
      let other : (t.code == stats_code) ≡ false = ground (arith, code) in
      let this : (t.code == reset_code) ≡ true = ground (arith, code) in
      rw (handle, other, this) (release_plain t reset_reply (record s { service = cleared }) plain)

  handle-stats :
      (t : Incoming) (s : Serving)
      → t.code ≡ stats_code
      → t.offsets_size ≡ 0
      → handle driver (transaction_of driver t) s
        ≡ ok (some (stats_reply s.service)) (record s { device = freed t s.device })
  unfolding handle transaction_of
  handle-stats t s code plain =
      let this : (t.code == stats_code) ≡ true = ground (arith, code) in
      rw (handle, this) (release_plain t (stats_reply s.service) s plain)

stats_read :
    (client : Driver) (mapped : Option ℕ) (d : Device) (n m : ℕ)
    → n < 2 ^ 64
    → m < 2 ^ 64
    → let b = stats_reply (record { one_way = n; one_way_bytes = m }) in
      service_stats client (at_part mapped [] d blank b) ≡ ok (n, m) (at_part mapped [] d b b)
unfolding service_stats stats_reply push_bytes
stats_read client mapped d n m few small =
    let first = to_bytes 8 n in
    let bytes = first ++ to_bytes 8 m in
    let b = push_bytes bytes blank in
    let long : length bytes ≡ 16 =
      omega (arith, length-append first (to_bytes 8 m), length-to_bytes 8 n, length-to_bytes 8 m) in
    let read : read_bytes client 16 (at_part mapped [] d blank b)
        ≡ ok (success bytes) (at_part mapped [] d b b) =
      ap (λ k. read_bytes client k (at_part mapped [] d blank b)) (sym long)
      ∙ read_bytes-put mapped [] d client bytes blank b (omega arith) (put_all-Grows [] b)
          (omega (arith, long)) in
    rw
      (
        read,
        take-append_of_length 8 first (to_bytes 8 m) (length-to_bytes 8 n),
        drop-append_of_length 8 first (to_bytes 8 m) (length-to_bytes 8 n),
        from_bytes-to_bytes 8 n few,
        from_bytes-to_bytes 8 m small,
      )
      refl

-- The messages have no objects, and the driver takes what is written. After a reset and then the
-- one-way messages `ts`, in their order, the service answers the question for its counters, and what
-- the client reads from the answer is the number of the messages and the number of their bytes, both
-- modulo 2^64, whatever the counters were. The whole answer is read.
pub stats_counted :
    (driver : Driver) (accepts : Accepts driver) (reset : Incoming) (ts : List Incoming)
    (stats : Incoming) (s : Serving)
    → reset.code ≡ reset_code
    → stats.code ≡ stats_code
    → AllPlain (reset ∷ stats ∷ ts)
    → (client : Driver) (mapped : Option ℕ) (d : Device)
    → (b : PayloadBuilder) × (s' : Serving) × (measured driver reset ts stats s ≡ ok (some b) s')
      × (service_stats client (at_part mapped [] d blank b)
          ≡ ok (length ts % 2 ^ 64, bytes_of ts % 2 ^ 64) (at_part mapped [] d b b))
unfolding measured
stats_counted driver accepts reset ts stats s is_reset is_stats plain client mapped d =
    let (d', counts) = from_reset driver accepts ts (freed reset s.device) plain.1.1 in
    let left = with_counts (length ts % 2 ^ 64) (bytes_of ts % 2 ^ 64) d' in
    (
      stats_reply left.service,
      record left { device = freed stats d' },
      rw (handle-reset driver accepts reset s is_reset plain.0, counts)
          (handle-stats driver accepts stats left is_stats plain.1.0),
      stats_read client mapped d (length ts % 2 ^ 64) (bytes_of ts % 2 ^ 64) (omega arith)
          (omega arith),
    )
