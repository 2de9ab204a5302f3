-- ===== src/Device/Handles/Lifecycle.antt =====
-- src/binder_object.rs: a remote object from the first time that its handle is received to the drop
-- of the last ref.
pub mod Drops
pub mod Session
pub mod Race
use binderbinder.Base.{
  ℕ, zero, suc, ◌+◌, ◌-◌, ◌%◌, ◌<◌, ◌≡◌, refl, sym, ap, ◌∙◌, fun_ext, Bool, true, false, Option,
  none, some, List, [], ◌∷◌, ◌==◌, ==_refl, if◌then◌else◌, Run, ok, panic, Cmd, pure, ◌>>=◌, ◌>>◌,
  Map, insert, remove, arith, inl, inr, Bool-cases,
}
use binderbinder.Base.Words.{usize_mod}
use binderbinder.Device.{
  Device, RefCell, WeakCell, Command, increfs, acquire, release, decrefs,
  request_death_notification, clear_death_notification, Event, wrote,
}
use binderbinder.Device.Driver.{Driver, write_command, Accepts, logged}
use binderbinder.Device.Handles.{
  set_at, set_ref, set_weak, live_ref, live_weak, retain_ref, create_weak, create_ref, get_weak,
  get_ref, forget_weak, forget_ref, forget_death, finish_weak, finish_ref, drop_weak, drop_ref,
}

-- Neither map knows the handle, and the next cookie is unused.
pub record IsNew (handle : ℕ) (d : Device) : Type 0 where
  pub refs : d.refs handle ≡ none
  pub weak_refs : d.weak_refs handle ≡ none
  pub cookie : d.death_notifications d.death_counter ≡ none
  pub room : d.death_counter + 1 < usize_mod

abbrev pub weak_at : Device → ℕ
weak_at d = d.next_address + 1

abbrev pub ref_at : Device → ℕ
ref_at d = d.next_address + 1 + 1

abbrev pub ask : ℕ → Device → List Event
ask handle d =
    wrote (acquire handle ∷ [])
    ∷ wrote (request_death_notification handle d.death_counter ∷ [])
    ∷ wrote (increfs handle ∷ [])
    ∷ d.log

abbrev settle : ℕ → Device → List Event
settle handle d =
    wrote (decrefs handle ∷ [])
    ∷ wrote (clear_death_notification handle d.death_counter ∷ [])
    ∷ wrote (release handle ∷ [])
    ∷ ask handle d

-- The device with `k` strong refs to the remote object, and its one allocation of either kind.
abbrev pub connected : ℕ → ℕ → Device → Device
connected handle k d = record d {
  death_counter = d.death_counter + 1;
  next_address = ref_at d + 1;
  death_notifications = insert (◌==◌ d.death_counter) d.next_address d.death_notifications;
  weak_cells =
      set_at (weak_at d)
        (record {
          strong = 1;
          handle = handle;
          death = d.next_address;
          death_notif_cookie = d.death_counter;
        })
        d.weak_cells;
  weak_refs = insert (◌==◌ handle) (weak_at d) d.weak_refs;
  ref_cells = set_at (ref_at d) (record { strong = k; weak = weak_at d }) d.ref_cells;
  refs = insert (◌==◌ handle) (ref_at d) d.refs;
  log = ask handle d;
}

-- What is left when the last ref is gone: used counters, dead allocations and the log.
abbrev pub disconnected : ℕ → Device → Device
disconnected handle d = record d {
  death_counter = d.death_counter + 1;
  next_address = ref_at d + 1;
  weak_cells =
      set_at (weak_at d)
        (record {
          strong = 0;
          handle = handle;
          death = d.next_address;
          death_notif_cookie = d.death_counter;
        })
        d.weak_cells;
  ref_cells = set_at (ref_at d) (record { strong = 0; weak = weak_at d }) d.ref_cells;
  log = settle handle d;
}
