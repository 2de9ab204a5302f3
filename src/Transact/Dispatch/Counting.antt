-- ===== src/Transact/Dispatch/Counting.antt =====
-- src/device.rs: the messages by which the driver counts the refs that other processes hold of an object.
use mathlib.Core.List.{append-nil}
use binderbinder.Base.{
  ℕ, ◌^◌, ◌<◌, ◌≡◌, ◌≢◌, refl, sym, ap, ◌∙◌, fun_ext, Bool, true, some, List, [], ◌∷◌, ◌++◌, map,
  length, length-append, take, Run, ok, panic, final, Cmd, and_then, insert, arith, Bool-cases, inl,
  inr, ◌⊎◌, take-append_of_length, drop-append_of_length, Map,
}
use binderbinder.Base.Bytes.{to_bytes, from_bytes-to_bytes, length-to_bytes}
use binderbinder.Refcount.{ObjectId, RefCounts, ObjectRefState, increase_remote, decrease_remote}
use binderbinder.Refcount.History.{Call, acquire, release, call, run}
use binderbinder.Sys.Returns.{BinderReturn, return_code, payload_size, shape}
use binderbinder.Device.{
  Device, Command, Event, wrote, acquire_done, increfs_done, same_id, same_id-eq, same_id_self,
  on_refcount,
}
use binderbinder.Device.Driver.{Driver, try_write}
use binderbinder.Transact.Incoming.{Outcome, nothing, Handlers, read_ptr_cookie}
use binderbinder.Transact.Dispatch.{message, messages}
use binderbinder.Transact.Dispatch.Stream.{encoded, AllSent, in_order, messages-in_order}

-- What the driver tells the process of one of its objects.
pub data Notice : Type 0 where
  first_strong last_strong first_weak last_weak : Notice

abbrev pub kind : Notice → BinderReturn
kind first_strong = BinderReturn.acquire
kind last_strong = BinderReturn.release
kind first_weak = BinderReturn.increfs
kind last_weak = BinderReturn.decrefs

abbrev pub id_bytes : ObjectId → List ℕ
id_bytes id = to_bytes 8 id.id ++ to_bytes 8 id.cookie

abbrev pub told : ObjectId → Notice → BinderReturn × List ℕ
told id n = (kind n, id_bytes id)

-- What it does to the strong counts, and what is answered.
abbrev pub calls : List Notice → List Call
calls [] = []
calls (first_strong ∷ ns) = acquire ∷ calls ns
calls (last_strong ∷ ns) = release ∷ calls ns
calls (first_weak ∷ ns) = calls ns
calls (last_weak ∷ ns) = calls ns

abbrev pub answers : ObjectId → List Notice → List Event → List Event
answers id [] log = log
answers id (first_strong ∷ ns) log = answers id ns (wrote (acquire_done id ∷ []) ∷ log)
answers id (first_weak ∷ ns) log = answers id ns (wrote (increfs_done id ∷ []) ∷ log)
answers id (last_strong ∷ ns) log = answers id ns log
answers id (last_weak ∷ ns) log = answers id ns log

read_ptr_cookie-id_bytes :
    (id : ObjectId) → id.id < 2 ^ 64 → id.cookie < 2 ^ 64 → read_ptr_cookie (id_bytes id) ≡ id
unfolding read_ptr_cookie
read_ptr_cookie-id_bytes id h k =
    let front =
      take-append_of_length 8 (to_bytes 8 id.id) (to_bytes 8 id.cookie) (length-to_bytes 8 id.id) in
    let back =
      drop-append_of_length 8 (to_bytes 8 id.id) (to_bytes 8 id.cookie) (length-to_bytes 8 id.id) in
    let whole : take 8 (to_bytes 8 id.cookie) ≡ to_bytes 8 id.cookie =
      ap (take 8) (sym (append-nil (to_bytes 8 id.cookie)))
      ∙ take-append_of_length 8 (to_bytes 8 id.cookie) [] (length-to_bytes 8 id.cookie) in
    rw (front, back, whole, from_bytes-to_bytes 8 id.id h, from_bytes-to_bytes 8 id.cookie k)

length-id_bytes : (id : ObjectId) → length (id_bytes id) ≡ 16
length-id_bytes id = omega (
  arith,
  length-append (to_bytes 8 id.id) (to_bytes 8 id.cookie),
  length-to_bytes 8 id.id,
  length-to_bytes 8 id.cookie,
)

size_of : (n : Notice) → 16 ≡ payload_size (kind n)
unfolding payload_size shape
size_of first_strong = refl
size_of last_strong = refl
size_of first_weak = refl
size_of last_weak = refl

plain : (n : Notice) → kind n ≢ BinderReturn.attempt_acquire
plain first_strong = cc
plain last_strong = cc
plain first_weak = cc
plain last_weak = cc

Run-cases :
    {S A : Type 0} (x : Run S A) → ((a : A) × (s : S) × (x ≡ ok a s)) ⊎ ((s : S) × (x ≡ panic s))
Run-cases (ok a s) = inl (a, s, refl)
Run-cases (panic s) = inr (s, refl)

abbrev holding : ObjectId → ObjectRefState → List Event → Device → Device
holding id r log d = record d {
  object_refcounts = insert (same_id id) r d.object_refcounts;
  log = log;
}

insert_same :
    (id : ObjectId) (r s : ObjectRefState) (m : Map ObjectId ObjectRefState)
    → insert (same_id id) s (insert (same_id id) r m) ≡ insert (same_id id) s m
insert_same id r s m = fun_ext λ j. ground arith

on_refcount-holding :
    (method : Cmd ObjectRefState RefCounts) (id : ObjectId) (r s : ObjectRefState) (c : RefCounts)
    (log : List Event) (d : Device)
    → method r ≡ ok c s
    → on_refcount method id (holding id r log d) ≡ ok true (holding id s log d)
unfolding on_refcount
on_refcount-holding method id r s c log d e =
    rw (on_refcount, same_id_self id, e)
      (ap (λ m. ok true (record d { object_refcounts = m; log = log }))
        (insert_same id r s d.object_refcounts))

-- A run that ends well has a first call that ends well.
run-inv :
    (checks : Bool) (k : Call) (ks : List Call) (r s : ObjectRefState)
    → run checks (k ∷ ks) r ≡ ok tt s
    → (c : RefCounts) × (u : ObjectRefState) × (call checks k r ≡ ok c u)
      × (run checks ks u ≡ ok tt s)
unfolding run
run-inv checks k ks r s h = elim (Run-cases (call checks k r)) [
  | inl (c, u, e) ↦ (c, u, e, sym (ap (λ x. and_then x (λ _. run checks ks)) e) ∙ h)
  | inr (u, e) ↦ absurd (cc (sym (ap (λ x. and_then x (λ _. run checks ks)) e) ∙ h))
]

module _ (driver : Driver) (handlers : Handlers) (nested : List Command → Cmd Device Outcome)
    (id : ObjectId) (small : id.id < 2 ^ 64) (small_cookie : id.cookie < 2 ^ 64) (d : Device) where
  open driver use {checks, opcodes}

  counting :
      (ns : List Notice) (r s : ObjectRefState) (log : List Event)
      → run checks (calls ns) r ≡ ok tt s
      → in_order driver handlers nested (map (told id) ns) (holding id r log d)
        ≡ ok nothing (holding id s (answers id ns log) d)
  unfolding message try_write run call
  counting [] r s log h = ap (λ x. ok nothing (holding id x log d)) (ap final h)
  counting (first_strong ∷ ns) r s log h =
      let (c, u, e, rest) = run-inv checks acquire (calls ns) r s h in
      rw
        (
          read_ptr_cookie-id_bytes id small small_cookie,
          on_refcount-holding (increase_remote checks) id r u c log d e,
        )
        (counting ns u s (wrote (acquire_done id ∷ []) ∷ log) rest)
  counting (last_strong ∷ ns) r s log h =
      let (c, u, e, rest) = run-inv checks release (calls ns) r s h in
      rw
        (
          read_ptr_cookie-id_bytes id small small_cookie,
          on_refcount-holding (decrease_remote checks) id r u c log d e,
        )
        (counting ns u s log rest)
  counting (first_weak ∷ ns) r s log h =
      rw (read_ptr_cookie-id_bytes id small small_cookie)
        (counting ns r s (wrote (increfs_done id ∷ []) ∷ log) h)
  counting (last_weak ∷ ns) r s log h = counting ns r s log h

  all_sent :
      ((r : BinderReturn) → return_code opcodes r < 2 ^ 32)
      → (ns : List Notice) → AllSent opcodes (map (told id) ns)
  all_sent codes [] = tt
  all_sent codes (n ∷ ns) =
      (((codes (kind n), length-id_bytes id ∙ size_of n), plain n), all_sent codes ns)

  unchanged : (r : ObjectRefState) → d.object_refcounts id ≡ some r → holding id r d.log d ≡ d
  unchanged r known =
      ap (λ m. record d { object_refcounts = m })
        (fun_ext λ j. elim (Bool-cases (same_id id j)) [
          | inl e ↦ rw e (sym known ∙ ap d.object_refcounts (same_id-eq id j e))
          | inr e ↦ rw e
        ])

  -- Whatever the driver tells of the strong and weak refs that other processes get to an object and
  -- give up, in one buffer and in any order: the loop takes every message, does to the object's counts
  -- what the calls of its acquires and releases do one after the other, answers each acquire and each
  -- increfs once, in order, and changes nothing else. The object is counted, none of these calls
  -- panics, and codes and ids have their widths.
  pub notices_counted :
      (ns : List Notice) (r s : ObjectRefState)
      → ((k : BinderReturn) → return_code opcodes k < 2 ^ 32)
      → d.object_refcounts id ≡ some r
      → run checks (calls ns) r ≡ ok tt s
      → messages driver handlers nested
          (length (encoded opcodes (map (told id) ns)))
          (encoded opcodes (map (told id) ns))
          d
        ≡ ok nothing (record d {
          object_refcounts = insert (same_id id) s d.object_refcounts;
          log = answers id ns d.log;
        })
  notices_counted ns r s codes known h =
      ap (λ m. m d)
        (messages-in_order driver handlers nested (map (told id) ns) (all_sent codes ns))
      ∙ ap (in_order driver handlers nested (map (told id) ns)) (sym (unchanged r known))
      ∙ counting ns r s d.log h
