-- ===== src/Device/Handles/Lifecycle/Drops.antt =====
-- src/binder_object.rs: the drops of a ref and of a weak ref, step by step.
use binderbinder.Base.{
  ℕ, ◌+◌, ◌-◌, ◌%◌, ◌≡◌, refl, ap, ◌∙◌, fun_ext, false, none, some, [], ◌∷◌, ◌==◌, ==_refl, ok, Map,
  insert, remove, arith,
}
use binderbinder.Base.Words.{usize_mod}
use binderbinder.Device.{
  Device, RefCell, WeakCell, release, decrefs, clear_death_notification, wrote,
}
use binderbinder.Device.Driver.{Driver, Accepts}
use binderbinder.Device.Handles.{
  set_at, set_ref, set_weak, live_ref, live_weak, create_weak, create_ref, get_weak, get_ref,
  forget_weak, forget_ref, finish_weak, finish_ref, drop_weak, drop_ref,
}
use binderbinder.Device.Handles.Lifecycle.{IsNew, weak_at, ref_at, ask, connected, disconnected}

set_at-set_at :
    {A : Type 0} (a : ℕ) (u v : A) (f : ℕ → A) → set_at a v (set_at a u f) ≡ set_at a v f
set_at-set_at a u v f = fun_ext λ b. ground arith

pub set_at_self : {A : Type 0} (a : ℕ) (v : A) (f : ℕ → A) → set_at a v f a ≡ v
set_at_self a v f = rw (==_refl a)

pub remove-insert :
    {V : Type 0} (k : ℕ) (v : V) (m : Map ℕ V)
    → m k ≡ none
    → remove (◌==◌ k) (insert (◌==◌ k) v m) ≡ m
remove-insert k v m e = fun_ext λ j. ground arith

module _ (driver : Driver) (a : ℕ) where
  drop_ref-many :
      (n w : ℕ) (d : Device)
      → d.ref_cells a ≡ record { strong = n; weak = w }
      → (n == 1) ≡ false
      → drop_ref driver a d ≡ ok tt (set_ref a (record { strong = n - 1; weak = w }) d)
  unfolding drop_ref
  drop_ref-many n w d e more = rw (e, more)

  pub drop_ref-last :
      (w : ℕ) (d : Device)
      → d.ref_cells a ≡ record { strong = 1; weak = w }
      → drop_ref driver a d
        ≡ finish_ref driver
            (d.weak_cells w).handle
            w
            (set_ref a (record { strong = 0; weak = w }) d)
  unfolding drop_ref
  drop_ref-last w d e = rw e refl

  drop_weak-last :
      (d : Device) (c : WeakCell)
      → d.weak_cells a ≡ record c { strong = 1 }
      → drop_weak driver a d ≡ finish_weak driver c (set_weak a (record c { strong = 0 }) d)
  unfolding drop_weak
  drop_weak-last d c e = rw e refl

module _ (driver : Driver) (yes_man : Accepts driver) where
  pub finish_ref-dead :
      (handle a w : ℕ) (d : Device)
      → d.refs handle ≡ some a
      → (d.ref_cells a).strong ≡ 0
      → finish_ref driver handle w d
        ≡ drop_weak driver w (record d {
          refs = remove (◌==◌ handle) d.refs;
          log = wrote (release handle ∷ []) ∷ d.log;
        })
  unfolding finish_ref
  finish_ref-dead handle a w d known dead = rw (yes_man, forget_ref, known, dead)

  finish_weak-dead :
      (c : WeakCell) (a : ℕ) (d : Device)
      → d.weak_refs c.handle ≡ some a
      → (d.weak_cells a).strong ≡ 0
      → finish_weak driver c d
        ≡ ok tt (record d {
          weak_refs = remove (◌==◌ c.handle) d.weak_refs;
          death_notifications = remove (◌==◌ c.death_notif_cookie) d.death_notifications;
          log =
              wrote (decrefs c.handle ∷ [])
              ∷ wrote (clear_death_notification c.handle c.death_notif_cookie ∷ [])
              ∷ d.log;
        })
  unfolding finish_weak
  finish_weak-dead c a d known dead = rw (yes_man, yes_man, forget_weak, known, dead)

  module _ (handle : ℕ) (d : Device) (new : IsNew handle d) where
    pub live_none : (live_ref handle d ≡ none) × (live_weak handle d ≡ none)
    unfolding live_ref live_weak
    live_none = (ground (arith, new.refs), ground (arith, new.weak_refs))

    pub get_first : get_ref driver handle d ≡ ok (ref_at d) (connected handle 1 d)
    unfolding get_ref create_ref get_weak create_weak
    get_first =
        let next : (d.death_counter + 1) % usize_mod ≡ d.death_counter + 1 =
          omega (arith, new.room) in
        rw (live_none.0, get_ref, live_none.1, get_weak, yes_man, yes_man, yes_man, next)

    live_lem : (k : ℕ) → live_ref handle (connected handle (k + 1) d) ≡ some (ref_at d)
    unfolding live_ref
    live_lem k = rw (live_ref, ==_refl handle, ==_refl (ref_at d)) (ground arith)

    ref_cell :
        (k : ℕ)
        → (connected handle k d).ref_cells (ref_at d) ≡ record { strong = k; weak = weak_at d }
    ref_cell k = set_at_self (ref_at d) (record { strong = k; weak = weak_at d }) d.ref_cells

    count_lem :
        (j k : ℕ) (c : RefCell)
        → c ≡ record { strong = k; weak = weak_at d }
        → set_ref (ref_at d) c (connected handle j d) ≡ connected handle k d
    count_lem j k c e = λ i. record (connected handle j d) {
      ref_cells =
          (ap (λ x. set_at (ref_at d) x (connected handle j d).ref_cells) e
              ∙ set_at-set_at (ref_at d) (record { strong = j; weak = weak_at d })
                  (record { strong = k; weak = weak_at d }) d.ref_cells)
            i;
    }

    pub get_again :
        (k : ℕ)
        → get_ref driver handle (connected handle (k + 1) d)
          ≡ ok (ref_at d) (connected handle (k + 1 + 1) d)
    unfolding get_ref
    get_again k =
        rw (live_lem k, get_ref)
          (ap (ok (ref_at d)) (
            count_lem (k + 1) (k + 1 + 1) _
              (ap (λ (c : RefCell). record c { strong = c.strong + 1 }) (ref_cell (k + 1)))))

    pub drop_one :
        (k : ℕ)
        → drop_ref driver (ref_at d) (connected handle (k + 1 + 1) d)
          ≡ ok tt (connected handle (k + 1) d)
    drop_one k =
        drop_ref-many driver (ref_at d) (k + 1 + 1) (weak_at d) _ (ref_cell (k + 1 + 1))
          (ground arith)
        ∙ ap (ok tt) (count_lem (k + 1 + 1) (k + 1) _ (ground arith))

    abbrev cell : ℕ → WeakCell
    cell k = record {
      strong = k;
      handle = handle;
      death = d.next_address;
      death_notif_cookie = d.death_counter;
    }

    found : {V : Type 0} (k : ℕ) (v : V) (m : Map ℕ V) → insert (◌==◌ k) v m k ≡ some v
    found k v m = rw (==_refl k)

    -- After the strong ref is gone.
    abbrev halfway : Device
    halfway = record (connected handle 1 d) {
      refs = remove (◌==◌ handle) (insert (◌==◌ handle) (ref_at d) d.refs);
      ref_cells =
          set_at (ref_at d) (record { strong = 0; weak = weak_at d })
            (connected handle 1 d).ref_cells;
      log = wrote (release handle ∷ []) ∷ ask handle d;
    }

    to_halfway :
        finish_ref driver handle
          (weak_at d)
          (set_ref (ref_at d) (record { strong = 0; weak = weak_at d }) (connected handle 1 d))
        ≡ drop_weak driver (weak_at d) halfway
    to_halfway =
        finish_ref-dead handle (ref_at d) (weak_at d) _ (found handle (ref_at d) d.refs) (
          ap (λ (c : RefCell). c.strong)
            (set_at_self (ref_at d) _ (connected handle 1 d).ref_cells))

    from_halfway : drop_weak driver (weak_at d) halfway ≡ ok tt (disconnected handle d)
    from_halfway =
        drop_weak-last driver (weak_at d) halfway (cell 0)
          (set_at_self (weak_at d) (cell 1) d.weak_cells)
        ∙ finish_weak-dead (cell 0) (weak_at d) (set_weak (weak_at d) (cell 0) halfway)
            (found handle (weak_at d) d.weak_refs)
            (ap (λ (c : WeakCell). c.strong) (set_at_self (weak_at d) (cell 0) halfway.weak_cells))
        ∙ λ i. ok tt (record (disconnected handle d) {
          refs = remove-insert handle (ref_at d) d.refs new.refs i;
          weak_refs = remove-insert handle (weak_at d) d.weak_refs new.weak_refs i;
          death_notifications =
              remove-insert d.death_counter d.next_address d.death_notifications new.cookie i;
          ref_cells =
              set_at-set_at (ref_at d) (record { strong = 1; weak = weak_at d })
                (record { strong = 0; weak = weak_at d }) d.ref_cells i;
          weak_cells = set_at-set_at (weak_at d) (cell 1) (cell 0) d.weak_cells i;
        })

    pub drop_last :
        drop_ref driver (ref_at d) (connected handle 1 d) ≡ ok tt (disconnected handle d)
    drop_last =
        drop_ref-last driver (ref_at d) (weak_at d) _ (ref_cell 1)
        ∙ ap
            (λ (c : WeakCell).
              finish_ref driver c.handle (weak_at d) (
                set_ref (ref_at d) (record { strong = 0; weak = weak_at d })
                  (connected handle 1 d)))
            (set_at_self (weak_at d) (cell 1) d.weak_cells)
        ∙ to_halfway
        ∙ from_halfway
