-- ===== src/Device/Handles.antt =====
-- src/binder_object.rs: the remote side. `BinderRef` and `WeakBinderRef` live in `Arc`s; a function
-- here takes and returns the address of the allocation, and the device keeps its strong count.
pub mod Lifecycle
pub mod Books
use binderbinder.Base.{
  ℕ, ◌+◌, ◌-◌, ◌%◌, Bool, true, false, not, Option, none, some, List, [], ◌∷◌, ◌==◌, if◌then◌else◌,
  Run, ok, panic, Cmd, pure, ◌>>=◌, ◌>>◌, Map, insert, remove,
}
use binderbinder.Base.Words.{usize_mod}
use binderbinder.Device.{
  Device, RefCell, WeakCell, Command, increfs, acquire, release, decrefs,
  request_death_notification, clear_death_notification,
}
use binderbinder.Device.Driver.{Driver, write_command}

abbrev pub set_at : {A : Type 0} → ℕ → A → (ℕ → A) → ℕ → A
set_at a v cells b = if a == b then v else cells b

abbrev pub set_ref : ℕ → RefCell → Device → Device
set_ref a c d = record d { ref_cells = set_at a c d.ref_cells }

abbrev pub set_weak : ℕ → WeakCell → Device → Device
set_weak a c d = record d { weak_cells = set_at a c d.weak_cells }

-- `device.refs.get(&handle).and_then(|v| v.upgrade())`, without the count that the `Arc` adds.
unfoldable pub live_ref : ℕ → Device → Option ℕ
live_ref handle d = elim (d.refs handle) [
  | none ↦ none
  | some a ↦ if (d.ref_cells a).strong == 0 then none else some a
]

unfoldable pub live_weak : ℕ → Device → Option ℕ
live_weak handle d = elim (d.weak_refs handle) [
  | none ↦ none
  | some a ↦ if (d.weak_cells a).strong == 0 then none else some a
]

-- `Arc::clone`.
unfoldable pub retain_ref : ℕ → Cmd Device ℕ
retain_ref a d = let c = d.ref_cells a in ok a (set_ref a (record c { strong = c.strong + 1 }) d)

unfoldable pub retain_weak : ℕ → Cmd Device ℕ
retain_weak a d = let c = d.weak_cells a in ok a (set_weak a (record c { strong = c.strong + 1 }) d)

-- `fetch_add` on the counter of cookies, a new token, and its place in the map.
new_death : Cmd Device (ℕ × ℕ)
new_death d =
    ok (d.death_counter, d.next_address)
      (record d {
        death_counter = (d.death_counter + 1) % usize_mod;
        next_address = d.next_address + 1;
        death_notifications = insert (◌==◌ d.death_counter) d.next_address d.death_notifications;
      })

-- `Arc::new`, and the weak pointer in the map.
file_weak : WeakCell → Cmd Device ℕ
file_weak c d = ok d.next_address (record d {
  next_address = d.next_address + 1;
  weak_cells = set_at d.next_address c d.weak_cells;
  weak_refs = insert (◌==◌ c.handle) d.next_address d.weak_refs;
})

file_ref : ℕ → RefCell → Cmd Device ℕ
file_ref handle c d = ok d.next_address (record d {
  next_address = d.next_address + 1;
  ref_cells = set_at d.next_address c d.ref_cells;
  refs = insert (◌==◌ handle) d.next_address d.refs;
})

module _ (driver : Driver) where
  unfoldable pub create_weak : ℕ → Cmd Device ℕ
  unfolding new_death file_weak write_command
  create_weak handle = do
    (cookie, death) ← new_death
    write_command driver (increfs handle)
    write_command driver (request_death_notification handle cookie)
    file_weak (record { strong = 1; handle = handle; death = death; death_notif_cookie = cookie })

  -- `WeakBinderRef::get_and_dedup_from_raw`.
  unfoldable pub get_weak : ℕ → Cmd Device ℕ
  unfolding create_weak live_weak retain_weak
  get_weak handle d = elim (live_weak handle d) [
    | none ↦ create_weak handle d
    | some a ↦ retain_weak a d
  ]

  unfoldable pub create_ref : ℕ → Cmd Device ℕ
  unfolding get_weak file_ref write_command
  create_ref handle = do
    weak ← get_weak handle
    write_command driver (acquire handle)
    file_ref handle (record { strong = 1; weak = weak })

  -- `BinderRef::get_and_dedup_from_raw`.
  unfoldable pub get_ref : ℕ → Cmd Device ℕ
  unfolding create_ref live_ref retain_ref
  get_ref handle d = elim (live_ref handle d) [
    | none ↦ create_ref handle d
    | some a ↦ retain_ref a d
  ]

  -- `remove_if(&handle, |_, v| v.strong_count() == 0)`.
  pub forget_weak : ℕ → Cmd Device (Unit {0})
  forget_weak handle d = elim (d.weak_refs handle) [
    | none ↦ ok tt d
    | some a ↦
        if (d.weak_cells a).strong == 0
        then ok tt (record d { weak_refs = remove (◌==◌ handle) d.weak_refs })
        else ok tt d
  ]

  pub forget_ref : ℕ → Cmd Device (Unit {0})
  forget_ref handle d = elim (d.refs handle) [
    | none ↦ ok tt d
    | some a ↦
        if (d.ref_cells a).strong == 0
        then ok tt (record d { refs = remove (◌==◌ handle) d.refs })
        else ok tt d
  ]

  pub forget_death : ℕ → Cmd Device (Unit {0})
  forget_death cookie d =
      ok tt (record d { death_notifications = remove (◌==◌ cookie) d.death_notifications })

  -- `WeakBinderRef::drop`.
  pub finish_weak : WeakCell → Cmd Device (Unit {0})
  unfolding forget_weak forget_death write_command
  finish_weak c = do
    write_command driver (clear_death_notification c.handle c.death_notif_cookie)
    forget_death c.death_notif_cookie
    write_command driver (decrefs c.handle)
    forget_weak c.handle

  -- An `Arc<WeakBinderRef>` goes; the last one drops the value.
  unfoldable pub drop_weak : ℕ → Cmd Device (Unit {0})
  unfolding finish_weak
  drop_weak a d =
      let c = d.weak_cells a in
      let d' = set_weak a (record c { strong = c.strong - 1 }) d in
      if c.strong == 1 then finish_weak c d' else ok tt d'

  -- `BinderRef::drop`, and then its field `weak`.
  pub finish_ref : ℕ → ℕ → Cmd Device (Unit {0})
  unfolding forget_ref drop_weak write_command
  finish_ref handle weak = do
    write_command driver (release handle)
    forget_ref handle
    drop_weak weak

  unfoldable pub drop_ref : ℕ → Cmd Device (Unit {0})
  unfolding finish_ref
  drop_ref a d =
      let c = d.ref_cells a in
      let d' = set_ref a (record c { strong = c.strong - 1 }) d in
      if c.strong == 1 then finish_ref (d.weak_cells c.weak).handle c.weak d' else ok tt d'

-- `BinderRef::downgrade`.
unfoldable pub downgrade : ℕ → Cmd Device ℕ
unfolding retain_weak
downgrade a d = retain_weak (d.ref_cells a).weak d

-- `WeakBinderRef::upgrade`.
unfoldable pub upgrade_weak : ℕ → Cmd Device (Option ℕ)
unfolding live_ref retain_ref
upgrade_weak a d = elim (live_ref (d.weak_cells a).handle d) [
  | none ↦ ok none d
  | some r ↦ (retain_ref r >>= λ b. pure (some b)) d
]

-- `WeakBinderRef::alive`.
unfoldable pub is_alive : ℕ → Device → Bool
is_alive a d = not (d.cancelled (d.weak_cells a).death)
