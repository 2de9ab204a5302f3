-- ===== src/Device/Handles/Books/Weak.antt =====
-- src/binder_object.rs: what a weak ref that is got, cloned and dropped does to the books.
use binderbinder.Base.{
  ℕ, ◌+◌, ◌-◌, ◌<◌, ◌≡◌, none, [], ◌∷◌, ◌==◌, arith, insert, remove, ◌%◌, inl, inr, Option-cases,
}
use binderbinder.Base.Words.{usize_mod}
use binderbinder.Device.{
  Device, wrote, increfs, decrefs, request_death_notification, clear_death_notification,
}
use binderbinder.Device.Handles.{set_at, set_weak}
use binderbinder.Device.Handles.Books.{IsTidy, more, fewer, handle_of}

-- The device after a weak ref is cloned, after one is dropped, after the last one is dropped, and
-- after one is made.
abbrev pub cloned_weak : ℕ → Device → Device
cloned_weak w d = set_weak w (record (d.weak_cells w) { strong = (d.weak_cells w).strong + 1 }) d

abbrev pub dropped_weak : ℕ → Device → Device
dropped_weak w d = set_weak w (record (d.weak_cells w) { strong = (d.weak_cells w).strong - 1 }) d

abbrev pub ended_weak : ℕ → Device → Device
ended_weak w d =
    let c = d.weak_cells w in
    record (dropped_weak w d) {
      weak_refs = remove (◌==◌ c.handle) d.weak_refs;
      death_notifications = remove (◌==◌ c.death_notif_cookie) d.death_notifications;
      log =
          wrote (decrefs c.handle ∷ [])
          ∷ wrote (clear_death_notification c.handle c.death_notif_cookie ∷ [])
          ∷ d.log;
    }

abbrev pub made_weak : ℕ → Device → Device
made_weak h d =
    let w = d.next_address + 1 in
    record d {
      death_counter = (d.death_counter + 1) % usize_mod;
      next_address = w + 1;
      death_notifications = insert (◌==◌ d.death_counter) d.next_address d.death_notifications;
      weak_cells =
          set_at w
            (record {
              strong = 1;
              handle = h;
              death = d.next_address;
              death_notif_cookie = d.death_counter;
            })
            d.weak_cells;
      weak_refs = insert (◌==◌ h) w d.weak_refs;
      log =
          wrote (request_death_notification h d.death_counter ∷ [])
          ∷ wrote (increfs h ∷ [])
          ∷ d.log;
    }

module _ (weaks : ℕ → ℕ) (d : Device) (tidy : IsTidy weaks d) where
  pub cloned_weak-IsTidy :
      (w : ℕ) → 0 < (d.weak_cells w).strong → IsTidy (more w weaks) (cloned_weak w d)
  cloned_weak-IsTidy w live = record {
    ref_known = λ h a e. ground (arith, tidy.ref_known h a e);
    ref_filed = λ a e. ground (arith, tidy.ref_filed a e);
    weak_known = λ h v e. ground (arith, tidy.weak_known h v e);
    weak_filed = λ v e. ground (arith, tidy.weak_filed v);
    owned = λ v. ground (arith, tidy.owned v);
    unused = λ a e. ground (arith, tidy.unused a e);
    strong_count = tidy.strong_count;
    weak_count = tidy.weak_count;
    death_count = tidy.death_count;
  }

  module _ (w : ℕ) (own : 0 < weaks w) where
    pub dropped_weak-IsTidy :
        1 < (d.weak_cells w).strong → IsTidy (fewer w weaks) (dropped_weak w d)
    dropped_weak-IsTidy many = record {
      ref_known = λ h a e. ground (arith, tidy.ref_known h a e);
      ref_filed = λ a e. ground (arith, tidy.ref_filed a e);
      weak_known = λ h v e. ground (arith, tidy.weak_known h v e);
      weak_filed = λ v e. ground (arith, tidy.weak_filed v);
      owned = λ v. ground (arith, tidy.owned v);
      unused = λ a e. ground (arith, tidy.unused a e);
      strong_count = tidy.strong_count;
      weak_count = tidy.weak_count;
      death_count = tidy.death_count;
    }

    pub ended_weak-IsTidy : (d.weak_cells w).strong ≡ 1 → IsTidy (fewer w weaks) (ended_weak w d)
    ended_weak-IsTidy last = record {
      ref_known = λ h a e. ground (arith, tidy.ref_known h a e, tidy.owned w);
      ref_filed = λ a e. ground (arith, tidy.ref_filed a e);
      weak_known =
          λ h v e. ground (arith, tidy.weak_known h v, tidy.weak_filed v, tidy.weak_filed w);
      weak_filed = λ v e. ground (arith, tidy.weak_filed v, tidy.weak_filed w);
      owned = λ v. ground (arith, tidy.owned v);
      unused = λ a e. ground (arith, tidy.unused a e);
      strong_count = λ k. ground (arith, tidy.strong_count k);
      weak_count = λ h. ground (arith, tidy.weak_count h, tidy.weak_filed w);
      death_count = λ h. ground (arith, tidy.death_count h, tidy.weak_filed w);
    }

  module _ (h : ℕ) (new : d.weak_refs h ≡ none) where
    pub no_ref : d.refs h ≡ none
    no_ref = elim (Option-cases (d.refs h)) [
      | inl e ↦ e
      | inr (a, e) ↦ ground (arith, tidy.ref_known h a e, tidy.weak_filed (d.ref_cells a).weak)
    ]

    pub made_weak-IsTidy : IsTidy (more (d.next_address + 1) weaks) (made_weak h d)
    made_weak-IsTidy = record {
      ref_known = λ k a e. ground (arith, tidy.ref_known k a e, tidy.unused (d.next_address + 1));
      ref_filed = λ a e. ground (
        arith,
        tidy.ref_filed a e,
        tidy.ref_known (handle_of a d) a,
        tidy.unused (d.next_address + 1),
      );
      weak_known = λ k v e.
          ground (arith, tidy.weak_known k v, tidy.weak_filed v, tidy.unused (d.next_address + 1));
      weak_filed = λ v e. ground (arith, tidy.weak_filed v);
      owned = λ v. ground (arith, tidy.owned v, no_ref, tidy.unused (d.next_address + 1));
      unused = λ a e. ground (arith, tidy.unused a);
      strong_count = λ k. ground (arith, tidy.strong_count k);
      weak_count = λ k. ground (arith, tidy.weak_count k);
      death_count = λ k. ground (arith, tidy.death_count k);
    }
