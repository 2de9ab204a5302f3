-- ===== src/Device/Handles/Lifecycle/Race.antt =====
-- src/binder_object.rs: two threads that receive a new handle at once. Each looks the handle up, and
-- then makes a ref, with nothing to keep the other from doing so in between.
use binderbinder.Base.{
  ℕ, ◌+◌, ◌%◌, ◌≡◌, refl, ap, ◌∙◌, false, Option, none, some, [], ◌∷◌, ◌==◌, ==_refl, Run, ok,
  panic, Cmd, pure, ◌>>=◌, ◌>>◌, insert, remove, arith,
}
use binderbinder.Base.Words.{usize_mod}
use binderbinder.Device.{Device, RefCell, WeakCell, wrote, acquire, release}
use binderbinder.Device.Driver.{Driver, Accepts}
use binderbinder.Device.Handles.{
  set_at, set_ref, set_weak, live_ref, live_weak, create_weak, create_ref, get_weak, retain_weak,
  drop_ref, drop_weak, finish_ref, upgrade_weak,
}
use binderbinder.Device.Handles.Lifecycle.{IsNew, connected, ref_at, weak_at}
use binderbinder.Device.Handles.Lifecycle.Drops.{
  set_at_self, drop_ref-last, finish_ref-dead, live_none,
}

abbrev pub looks : {A : Type 0} → (Device → A) → Cmd Device A
looks f d = ok (f d) d

module _ (driver : Driver) where
  -- Both have found no ref; the second makes its own, and drops it. Then the first one's weak ref is
  -- upgraded. The value is what that gives, and the strong count of the first ref.
  abbrev pub race : ℕ → Cmd Device (Option ℕ × ℕ)
  race handle = do
    first ← create_ref driver handle
    second ← create_ref driver handle
    drop_ref driver second
    weak ← looks (λ d. (d.ref_cells first).weak)
    found ← upgrade_weak weak
    count ← looks (λ d. (d.ref_cells first).strong)
    pure (found, count)

abbrev pub value : {A : Type 0} → Run Device A → Option A
value (ok a d) = some a
value (panic d) = none

module _ (driver : Driver) (yes_man : Accepts driver) (handle : ℕ) (d : Device)
    (new : IsNew handle d) where
  create_first : create_ref driver handle d ≡ ok (ref_at d) (connected handle 1 d)
  unfolding create_ref get_weak create_weak live_weak
  create_first =
      let next : (d.death_counter + 1) % usize_mod ≡ d.death_counter + 1 =
        omega (arith, new.room) in
      rw (new.weak_refs, get_weak, yes_man, yes_man, yes_man, next)

  abbrev cell : ℕ → WeakCell
  cell k = record {
    strong = k;
    handle = handle;
    death = d.next_address;
    death_notif_cookie = d.death_counter;
  }

  abbrev e : Device
  e = connected handle 1 d

  -- The second ref, and the device with `k` of it.
  abbrev q : ℕ
  q = ref_at d + 1

  abbrev both : Device
  both = record e {
    next_address = q + 1;
    weak_cells = set_at (weak_at d) (cell 2) e.weak_cells;
    ref_cells = set_at q (record { strong = 1; weak = weak_at d }) e.ref_cells;
    refs = insert (◌==◌ handle) q e.refs;
    log = wrote (acquire handle ∷ []) ∷ e.log;
  }

  weak_known : live_weak handle e ≡ some (weak_at d)
  unfolding live_weak
  weak_known = rw (live_weak, ==_refl handle, ==_refl (weak_at d)) (ground arith)

  create_second : create_ref driver handle e ≡ ok q both
  unfolding create_ref get_weak retain_weak
  create_second =
      rw (create_ref, get_weak, weak_known, yes_man)
        (ap
          (λ (c : WeakCell). ok q (record both {
            weak_cells = set_at (weak_at d) (record c { strong = c.strong + 1 }) e.weak_cells;
          }))
          (set_at_self (weak_at d) (cell 1) d.weak_cells))

  abbrev dead : RefCell
  dead = record { strong = 0; weak = weak_at d }

  abbrev gone : Device
  gone = record both {
    weak_cells = set_at (weak_at d) (cell 1) both.weak_cells;
    ref_cells = set_at q dead both.ref_cells;
    refs = remove (◌==◌ handle) both.refs;
    log = wrote (release handle ∷ []) ∷ both.log;
  }

  drop_weak-many :
      (w : ℕ) (u : Device)
      → u.weak_cells w ≡ cell 2
      → drop_weak driver w u ≡ ok tt (set_weak w (cell 1) u)
  unfolding drop_weak
  drop_weak-many w u known = rw known refl

  drop_second : drop_ref driver q both ≡ ok tt gone
  drop_second =
      let found : both.refs handle ≡ some q = rw (==_refl handle) in
      drop_ref-last driver q (weak_at d) both (set_at_self q _ e.ref_cells)
      ∙ ap (λ (c : WeakCell). finish_ref driver c.handle (weak_at d) (set_ref q dead both))
          (set_at_self (weak_at d) (cell 2) e.weak_cells)
      ∙ finish_ref-dead driver yes_man handle q (weak_at d) (set_ref q dead both) found
          (ap (λ (c : RefCell). c.strong) (set_at_self q dead both.ref_cells))
      ∙ drop_weak-many (weak_at d) _ (set_at_self (weak_at d) (cell 2) e.weak_cells)

  first_cell : gone.ref_cells (ref_at d) ≡ record { strong = 1; weak = weak_at d }
  first_cell = let other : (q == ref_at d) ≡ false = ground arith in rw (other, ==_refl (ref_at d))

  not_upgraded : upgrade_weak (weak_at d) gone ≡ ok none gone
  unfolding upgrade_weak live_ref
  not_upgraded =
      let known : gone.weak_cells (weak_at d) ≡ cell 1 =
        set_at_self (weak_at d) (cell 1) both.weak_cells in
      let forgotten : gone.refs handle ≡ none = rw (==_refl handle) in
      rw (upgrade_weak, live_ref, known, forgotten)

  -- Of a new handle no ref is found, by any number of threads that look before one has made its own.
  -- If two of them then make one, the map knows the second only: when that is dropped, the map
  -- forgets the handle, and the weak ref of the first can no longer be upgraded, though the first is
  -- live with a count of one. The driver takes every write, and the handle is in neither map.
  pub second_ref_lost : (live_ref handle d ≡ none) × (value (race driver handle d) ≡ some (none, 1))
  second_ref_lost = (
    (live_none driver yes_man handle d new).0,
    rw (create_first, create_second, drop_second, first_cell, not_upgraded, first_cell),
  )
