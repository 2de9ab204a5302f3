-- ===== src/Device/Objects/Service/Lifecycle.antt =====
-- src/binder_object.rs: the life of a service, from its registration to its removal.
use binderbinder.Base.{
  times, ℕ, zero, suc, ◌+◌, ◌%◌, ◌<◌, ◌≡◌, sym, ap, ◌∙◌, fun_ext, Bool, true, false, none, some, ok,
  Cmd, pure, ◌>>=◌, ◌>>◌, Map, insert, remove, arith, inl, inr, Bool-cases,
}
use binderbinder.Base.Words.{u32_mod, usize_mod}
use binderbinder.Refcount.{ObjectId, ObjectRefState, new, increase_local, hit_zero}
use binderbinder.Device.{Device, Handler, same_id, same_id-eq, same_id_self, on_refcount}
use binderbinder.Device.Objects.{ObjectRef, register_object, clone_ref, drop_ref}
use binderbinder.Refcount.History.{IsSound, after, up_local, down_local}
use binderbinder.Device.Objects.Ledger.Counting.{on_up, on_down}
use binderbinder.Device.Objects.Service.{
  Cleanup, to_service, poll, is_over, release_service, to_service_steps, release_found,
}

abbrev pub next_id : Device → ObjectId
next_id d = record { id = d.object_id_counter; cookie = 0 }

-- Nothing is filed under the id that is handed out next.
pub record IsFresh (d : Device) : Type 0 where
  pub objects : d.objects (next_id d) ≡ none
  pub refcounts : d.object_refcounts (next_id d) ≡ none
  pub services : d.retained_services (next_id d) ≡ none
  pub room : d.object_id_counter + 1 < usize_mod

-- The device once the next id has been used up.
abbrev pub used : Device → Device
used d = record d { object_id_counter = d.object_id_counter + 1 }

-- A count held up by local refs alone.
abbrev held : ObjectId → ℕ → ObjectRefState
held id k = record {
  obj_id = id;
  counts = record { local = k; remote = 0; pending = 0 };
  poisoned = false;
  strong_count = k;
}

-- The device with the handler as a service, and `k` refs to it.
abbrev pub serving : Device → Handler → ℕ → Device
serving d h k = record (used d) {
  objects = insert (same_id (next_id d)) h d.objects;
  object_refcounts = insert (same_id (next_id d)) (held (next_id d) k) d.object_refcounts;
  retained_services = insert (same_id (next_id d)) h d.retained_services;
}

insert-insert :
    {V : Type 0} (id : ObjectId) (a b : V) (m : Map ObjectId V)
    → insert (same_id id) b (insert (same_id id) a m) ≡ insert (same_id id) b m
insert-insert id a b m = fun_ext λ j. ground arith

remove-insert :
    {V : Type 0} (id : ObjectId) (a : V) (m : Map ObjectId V)
    → m id ≡ none
    → remove (same_id id) (insert (same_id id) a m) ≡ m
remove-insert id a m e = fun_ext λ j. elim (Bool-cases (same_id id j)) [
  | inl hit ↦ rw hit (sym e ∙ ap m (same_id-eq id j hit))
  | inr miss ↦ rw miss
]

module _ (checks : Bool) (d : Device) (h : Handler) where
  abbrev typed : ObjectRef
  typed = record { id = next_id d; handler = h }

  register_lem :
      IsFresh d
      → register_object h d
        ≡ ok
            (record { id = next_id d; handler = h })
            (record (used d) {
              objects = insert (same_id (next_id d)) h d.objects;
              object_refcounts =
                  insert (same_id (next_id d)) (held (next_id d) 0) d.object_refcounts;
            })
  unfolding register_object new
  register_lem f =
      let next : (d.object_id_counter + 1) % usize_mod ≡ d.object_id_counter + 1 =
        omega (arith, f.room) in
      rw next

  held-IsSound : (k : ℕ) → k < u32_mod → IsSound (held (next_id d) k)
  held-IsSound k b = ground arith

  held_up : (k : ℕ) → after up_local (held (next_id d) k) ≡ held (next_id d) (k + 1)
  held_up k = ground arith

  held_down : (k : ℕ) → after down_local (held (next_id d) (k + 1)) ≡ held (next_id d) k
  held_down k = ground arith

  serving-held : (k : ℕ) → (serving d h k).object_refcounts (next_id d) ≡ some (held (next_id d) k)
  serving-held k = rw (same_id_self (next_id d))

  -- The count of the service changes to another one, held up by local refs.
  serving_count :
      (j k : ℕ) (r : ObjectRefState)
      → r ≡ held (next_id d) k
      → record (serving d h j) {
        object_refcounts = insert (same_id (next_id d)) r (serving d h j).object_refcounts;
      }
        ≡ serving d h k
  serving_count j k r e = λ i. record (serving d h j) {
    object_refcounts =
        (ap (λ s. insert (same_id (next_id d)) s (serving d h j).object_refcounts) e
            ∙ insert-insert (next_id d) (held (next_id d) j) (held (next_id d) k)
                d.object_refcounts)
          i;
  }

  pub raise_lem :
      (k : ℕ)
      → k + 1 < u32_mod
      → on_refcount (increase_local checks) (next_id d) (serving d h k)
        ≡ ok true (serving d h (k + 1))
  raise_lem k room =
      on_up checks (next_id d) (serving d h k) (held (next_id d) k) (serving-held k)
        (held-IsSound k (omega arith)) (omega arith)
      ∙ ap (ok true) (serving_count k (k + 1) _ (held_up k))

  clone_lem :
      (k : ℕ)
      → k + 1 < u32_mod
      → clone_ref checks typed (serving d h k) ≡ ok typed (serving d h (k + 1))
  unfolding clone_ref
  clone_lem k room = rw (raise_lem k room)

  drop_lem :
      (k : ℕ)
      → k + 1 < u32_mod
      → drop_ref checks typed (serving d h (k + 1)) ≡ ok tt (serving d h k)
  unfolding drop_ref
  drop_lem k room =
      rw
        (on_down checks (next_id d) (serving d h (k + 1)) (held (next_id d) (k + 1))
          (serving-held (k + 1)) (held-IsSound (k + 1) (omega arith)) (omega arith))
        (ap (ok tt) (serving_count (k + 1) k _ (held_down k)))

  abbrev pub task : Cleanup
  task = record { id = next_id d; watching = true }

  -- Between `register_object` and `to_service`.
  abbrev registered : Device
  registered = record (used d) {
    objects = insert (same_id (next_id d)) h d.objects;
    object_refcounts = insert (same_id (next_id d)) (held (next_id d) 0) d.object_refcounts;
  }

  to_service_lem :
      IsFresh d
      → to_service checks (record { id = next_id d; handler = h }) registered
        ≡ ok (typed, task) (serving d h 1)
  to_service_lem f =
      to_service_steps checks (record { id = next_id d; handler = h }) registered (serving d h 1)
        (held (next_id d) 1) f.services (rw (same_id_self (next_id d))) (raise_lem 0 (omega arith))
        (serving-held 1)

  poll_held : (k : ℕ) → poll task (serving d h (k + 1)) ≡ ok false (serving d h (k + 1))
  unfolding poll hit_zero
  poll_held k = rw (same_id_self (next_id d)) (ground arith)

  pub release_lem :
      (k : ℕ) → IsFresh d → release_service (next_id d) (serving d h k) ≡ ok tt (used d)
  release_lem k f =
      release_found (next_id d) (serving d h k) h (rw (same_id_self (next_id d))) ∙ λ i.
      ok tt (record (used d) {
        retained_services = remove-insert (next_id d) h d.retained_services f.services i;
        objects = remove-insert (next_id d) h d.objects f.objects i;
        object_refcounts =
            remove-insert (next_id d) (held (next_id d) k) d.object_refcounts f.refcounts i;
      })

  pub over_zero : is_over task (serving d h 0) ≡ true
  unfolding is_over hit_zero
  over_zero = rw (same_id_self (next_id d))

  poll_zero : IsFresh d → poll task (serving d h 0) ≡ ok true (used d)
  unfolding poll
  poll_zero f = rw (over_zero, release_lem 0 f)

-- A program that makes a service, clones its ref `n` times, and drops all of them, with a turn of
-- the clean-up task after the clones, before the last drop and after it.
abbrev pub life : Bool → Handler → ℕ → Cmd Device (Bool × Bool × Bool)
life checks h n = do
  o ← register_object h
  (r, c) ← to_service checks o
  times n (clone_ref checks r)
  early ← poll c
  times n (drop_ref checks r)
  late ← poll c
  drop_ref checks r
  last ← poll c
  pure (early, late, last)

module _ (checks : Bool) (d : Device) (h : Handler) where
  times-clone :
      (n k : ℕ)
      → n + k < u32_mod
      → times n (clone_ref checks (typed checks d h)) (serving d h k) ≡ ok tt (serving d h (n + k))
  times-clone zero k b = ap (λ j. ok tt (serving d h j)) (omega arith)
  times-clone (suc n) k b =
      rw (clone_lem checks d h k (omega arith))
        (times-clone n (k + 1) (omega arith) ∙ ap (λ j. ok tt (serving d h j)) (omega arith))

  times-drop :
      (n k : ℕ)
      → n + k < u32_mod
      → times n (drop_ref checks (typed checks d h)) (serving d h (n + k)) ≡ ok tt (serving d h k)
  times-drop zero k b = ap (λ j. ok tt (serving d h j)) (omega arith)
  times-drop (suc n) k b =
      let next : suc n + k ≡ (n + k) + 1 = omega arith in
      rw (next, drop_lem checks d h (n + k) (omega arith)) (times-drop n k (omega arith))

  -- A service lives as long as one of its refs: the task removes nothing while the clones, or the
  -- first ref alone, are left. After the last drop it ends, and the device is as it was before the
  -- registration, with nothing left in any of its maps; only the id stays used up.
  pub service_lifecycle :
      (n : ℕ) → IsFresh d → n + 1 < u32_mod → life checks h n d ≡ ok (false, false, true) (used d)
  service_lifecycle n f b = rw (
    register_lem checks d h f,
    to_service_lem checks d h f,
    times-clone n 1 b,
    poll_held checks d h n,
    times-drop n 1 b,
    poll_held checks d h 0,
    drop_lem checks d h 0 (omega arith),
    poll_zero checks d h f,
  )
