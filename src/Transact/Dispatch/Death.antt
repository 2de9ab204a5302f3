-- ===== src/Transact/Dispatch/Death.antt =====
-- src/device.rs and src/binder_object.rs: a remote object dies while a ref to it is held.
use binderbinder.Base.{
  ℕ, ◌≡◌, ap, ◌∙◌, Bool, true, false, some, List, [], ◌∷◌, ◌==◌, ==_refl, if◌then◌else◌, ok, Cmd,
  pure, ◌>>=◌, ◌>>◌, insert, remove,
}
use binderbinder.Base.Bytes.{from_bytes}
use binderbinder.Device.{Device, wrote, Command, dead_binder_done}
use binderbinder.Device.Driver.{Driver, Accepts, try_write}
use binderbinder.Device.Handles.{get_ref, is_alive}
use binderbinder.Device.Handles.Lifecycle.{IsNew, connected, ref_at, weak_at}
use binderbinder.Device.Handles.Lifecycle.Drops.{remove-insert, get_first}
use binderbinder.Device.Handles.Lifecycle.Race.{looks}
use binderbinder.Sys.Returns.{BinderReturn}
use binderbinder.Transact.Incoming.{Outcome, go_on, Handlers}
use binderbinder.Transact.Dispatch.{message, notice_death}

module _ (driver : Driver) (handlers : Handlers) (nested : List Command → Cmd Device Outcome) where
  -- Gets a ref, hears of the death, and looks at the ref before and after.
  abbrev pub vigil : ℕ → List ℕ → Cmd Device (Bool × Bool)
  vigil handle bytes = do
    a ← get_ref driver handle
    before ← looks (λ d. is_alive (d.ref_cells a).weak d)
    message driver handlers nested (some BinderReturn.dead_binder) bytes
    after ← looks (λ d. is_alive (d.ref_cells a).weak d)
    pure (before, after)

-- The device with a ref to a new handle whose object has died.
abbrev pub mourning : ℕ → Device → Device
mourning handle d = record (connected handle 1 d) {
  death_notifications = d.death_notifications;
  cancelled = λ t. if d.next_address == t then true else d.cancelled t;
  log = wrote (dead_binder_done d.death_counter ∷ []) ∷ (connected handle 1 d).log;
}

module _ (driver : Driver) (yes_man : Accepts driver) (handlers : Handlers)
    (nested : List Command → Cmd Device Outcome) (handle : ℕ) (bytes : List ℕ) (d : Device)
    (new : IsNew handle d) (about : from_bytes bytes ≡ d.death_counter) where
  heard :
      message driver handlers nested (some BinderReturn.dead_binder) bytes (connected handle 1 d)
      ≡ ok go_on (mourning handle d)
  unfolding message notice_death try_write
  heard =
      rw (message, about, notice_death, ==_refl d.death_counter)
        (ap (λ m. ok go_on (record (mourning handle d) { death_notifications = m }))
          (ap
              (λ c.
                remove (◌==◌ c)
                  (insert (◌==◌ d.death_counter) d.next_address d.death_notifications))
              about
            ∙ remove-insert d.death_counter d.next_address d.death_notifications new.cookie))

  dead : is_alive ((mourning handle d).ref_cells (ref_at d)).weak (mourning handle d) ≡ false
  unfolding is_alive
  dead = rw (==_refl (ref_at d), is_alive, ==_refl (weak_at d), ==_refl d.next_address)

  -- A ref that is got for a new handle is alive, if its death token is not cancelled yet, until a
  -- BR_DEAD_BINDER with its cookie is handled, and is dead after it. The driver, which takes every
  -- write, is told so once; the notification is forgotten, the ref stays, and no other token is
  -- cancelled.
  pub dead_when_told :
      d.cancelled d.next_address ≡ false
      → vigil driver handlers nested handle bytes d ≡ ok (true, false) (mourning handle d)
  unfolding is_alive
  dead_when_told live =
      rw
        (
          get_first driver yes_man handle d new,
          ==_refl (ref_at d),
          is_alive,
          ==_refl (weak_at d),
          live,
          heard,
        )
        (ap (λ b. ok (true, b) (mourning handle d)) dead)
