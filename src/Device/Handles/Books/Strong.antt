-- ===== src/Device/Handles/Books/Strong.antt =====
-- src/binder_object.rs: what a strong ref that is got, cloned and dropped does to the books.
use binderbinder.Base.{ℕ, ◌+◌, ◌-◌, ◌<◌, ◌≡◌, none, [], ◌∷◌, ◌==◌, arith, insert, remove}
use binderbinder.Device.{Device, wrote, acquire, release}
use binderbinder.Device.Handles.{set_at, set_ref}
use binderbinder.Device.Handles.Books.{IsTidy, more, fewer, handle_of}

-- The device after a ref is cloned, after one is dropped, after the last one is dropped while its
-- weak ref is still held, and after one is made for a weak ref that is held.
abbrev pub cloned_ref : ℕ → Device → Device
cloned_ref a d = set_ref a (record (d.ref_cells a) { strong = (d.ref_cells a).strong + 1 }) d

abbrev pub dropped_ref : ℕ → Device → Device
dropped_ref a d = set_ref a (record (d.ref_cells a) { strong = (d.ref_cells a).strong - 1 }) d

abbrev pub ended_ref : ℕ → Device → Device
ended_ref a d = record (dropped_ref a d) {
  refs = remove (◌==◌ (handle_of a d)) d.refs;
  log = wrote (release (handle_of a d) ∷ []) ∷ d.log;
}

abbrev pub made_ref : ℕ → ℕ → Device → Device
made_ref h w d = record d {
  next_address = d.next_address + 1;
  ref_cells = set_at d.next_address (record { strong = 1; weak = w }) d.ref_cells;
  refs = insert (◌==◌ h) d.next_address d.refs;
  log = wrote (acquire h ∷ []) ∷ d.log;
}

module _ (weaks : ℕ → ℕ) (d : Device) (tidy : IsTidy weaks d) where
  module _ (a : ℕ) (live : 0 < (d.ref_cells a).strong) where
    pub cloned_ref-IsTidy : IsTidy weaks (cloned_ref a d)
    cloned_ref-IsTidy = record {
      ref_known = λ h b e. ground (arith, tidy.ref_known h b e);
      ref_filed = λ b e. ground (arith, tidy.ref_filed b);
      weak_known = tidy.weak_known;
      weak_filed = tidy.weak_filed;
      owned = λ v. ground (arith, tidy.owned v);
      unused = λ b e. ground (arith, tidy.unused b e);
      strong_count = tidy.strong_count;
      weak_count = tidy.weak_count;
      death_count = tidy.death_count;
    }

    pub dropped_ref-IsTidy : 1 < (d.ref_cells a).strong → IsTidy weaks (dropped_ref a d)
    dropped_ref-IsTidy many = record {
      ref_known = λ h b e. ground (arith, tidy.ref_known h b e);
      ref_filed = λ b e. ground (arith, tidy.ref_filed b);
      weak_known = tidy.weak_known;
      weak_filed = tidy.weak_filed;
      owned = λ v. ground (arith, tidy.owned v);
      unused = λ b e. ground (arith, tidy.unused b e);
      strong_count = tidy.strong_count;
      weak_count = tidy.weak_count;
      death_count = tidy.death_count;
    }

    -- The weak ref that it kept goes back to the program.
    pub ended_ref-IsTidy :
        (d.ref_cells a).strong ≡ 1 → IsTidy (more (d.ref_cells a).weak weaks) (ended_ref a d)
    ended_ref-IsTidy last = record {
      ref_known = λ h b e. ground (arith, tidy.ref_known h b, tidy.ref_filed a);
      ref_filed = λ b e. ground (arith, tidy.ref_filed b, tidy.ref_filed a);
      weak_known = tidy.weak_known;
      weak_filed = tidy.weak_filed;
      owned = λ v. ground (arith, tidy.owned v, tidy.ref_filed a);
      unused = λ b e. ground (arith, tidy.unused b e);
      strong_count = λ h. ground (arith, tidy.strong_count h, tidy.ref_filed a);
      weak_count = λ h. ground (arith, tidy.weak_count h);
      death_count = λ h. ground (arith, tidy.death_count h);
    }

  -- The program's weak ref goes into the new ref.
  pub made_ref-IsTidy :
      (w : ℕ)
      → 0 < weaks w
      → d.refs (d.weak_cells w).handle ≡ none
      → IsTidy (fewer w weaks) (made_ref (d.weak_cells w).handle w d)
  made_ref-IsTidy w own new = record {
    ref_known =
        λ h b e. ground (arith, tidy.ref_known h b, tidy.owned w, tidy.unused d.next_address);
    ref_filed = λ b e. ground (arith, tidy.ref_filed b);
    weak_known = tidy.weak_known;
    weak_filed = tidy.weak_filed;
    owned = λ v. ground (
      arith,
      tidy.owned v,
      tidy.owned w,
      tidy.ref_known (d.weak_cells v).handle d.next_address,
      tidy.unused d.next_address,
    );
    unused = λ b e. ground (arith, tidy.unused b);
    strong_count = λ h. ground (arith, tidy.strong_count h);
    weak_count = λ h. ground (arith, tidy.weak_count h);
    death_count = λ h. ground (arith, tidy.death_count h);
  }
