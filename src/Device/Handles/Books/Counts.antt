-- ===== src/Device/Handles/Books/Counts.antt =====
-- src/binder_object.rs: how many refs and weak refs of each handle a program holds, which is all that
-- it can tell of the allocations and the maps.
use binderbinder.Base.{ℕ, ◌+◌, ◌<◌, ◌≡◌, none, some, arith, inl, inr, Option-cases}
use binderbinder.Device.{Device}
use binderbinder.Device.Handles.Books.{IsTidy, more, fewer, handle_of}
use binderbinder.Device.Handles.Books.Weak.{
  cloned_weak, dropped_weak, ended_weak, made_weak, cloned_weak-IsTidy, dropped_weak-IsTidy,
  ended_weak-IsTidy, made_weak-IsTidy,
}
use binderbinder.Device.Handles.Books.Strong.{
  cloned_ref, dropped_ref, ended_ref, made_ref, cloned_ref-IsTidy, dropped_ref-IsTidy,
  ended_ref-IsTidy, made_ref-IsTidy,
}

-- For each handle.
pub record Counts : Type 0 where
  pub strong : ℕ → ℕ
  pub weak : ℕ → ℕ

abbrev pub strong_of : Device → ℕ → ℕ
strong_of d h = elim (d.refs h) [ none ↦ 0 | some a ↦ (d.ref_cells a).strong ]

abbrev pub weak_of : (ℕ → ℕ) → Device → ℕ → ℕ
weak_of weaks d h = elim (d.weak_refs h) [ none ↦ 0 | some w ↦ weaks w ]

pub record Represents (weaks : ℕ → ℕ) (d : Device) (c : Counts) : Type 0 where
  pub tidy : IsTidy weaks d
  pub strong : (h : ℕ) → strong_of d h ≡ c.strong h
  pub weak : (h : ℕ) → weak_of weaks d h ≡ c.weak h

module _ (weaks : ℕ → ℕ) (d : Device) (c : Counts) (r : Represents weaks d c) where
  open r use {tidy}

  pub cloned_weak-Represents :
      (w : ℕ)
      → 0 < (d.weak_cells w).strong
      → Represents
          (more w weaks)
          (cloned_weak w d)
          (record c { weak = more (d.weak_cells w).handle c.weak })
  cloned_weak-Represents w live = record {
    tidy = cloned_weak-IsTidy weaks d tidy w live;
    strong = r.strong;
    weak = λ k. elim (Option-cases (d.weak_refs k)) [
      | inl e ↦ ground (arith, e, r.weak k, tidy.weak_filed w)
      | inr (v, e) ↦ ground (arith, e, r.weak k, tidy.weak_filed w, tidy.weak_known k v)
    ];
  }

  module _ (w : ℕ) (own : 0 < weaks w) where
    pub dropped_weak-Represents :
        1 < (d.weak_cells w).strong
        → Represents
            (fewer w weaks)
            (dropped_weak w d)
            (record c { weak = fewer (d.weak_cells w).handle c.weak })
    dropped_weak-Represents many = record {
      tidy = dropped_weak-IsTidy weaks d tidy w own many;
      strong = r.strong;
      weak = λ k. elim (Option-cases (d.weak_refs k)) [
        | inl e ↦ ground (arith, e, r.weak k, tidy.weak_filed w)
        | inr (v, e) ↦ ground (arith, e, r.weak k, tidy.weak_filed w, tidy.weak_known k v)
      ];
    }

    pub ended_weak-Represents :
        (d.weak_cells w).strong ≡ 1
        → Represents
            (fewer w weaks)
            (ended_weak w d)
            (record c { weak = fewer (d.weak_cells w).handle c.weak })
    ended_weak-Represents last = record {
      tidy = ended_weak-IsTidy weaks d tidy w own last;
      strong = r.strong;
      weak = λ k. elim (Option-cases (d.weak_refs k)) [
        | inl e ↦ ground (arith, e, r.weak k, tidy.weak_filed w)
        | inr (v, e) ↦
            ground (arith, e, r.weak k, tidy.weak_filed w, tidy.weak_known k v, tidy.owned w)
      ];
    }

  pub made_weak-Represents :
      (h : ℕ)
      → d.weak_refs h ≡ none
      → Represents
          (more (d.next_address + 1) weaks)
          (made_weak h d)
          (record c { weak = more h c.weak })
  made_weak-Represents h new = record {
    tidy = made_weak-IsTidy weaks d tidy h new;
    strong = r.strong;
    weak = λ k. elim (Option-cases (d.weak_refs k)) [
      | inl e ↦
          ground
            (arith, e, r.weak k, tidy.owned (d.next_address + 1), tidy.unused (d.next_address + 1))
      | inr (v, e) ↦
          ground (arith, e, r.weak k, tidy.weak_known k v, tidy.unused (d.next_address + 1))
    ];
  }

  module _ (a : ℕ) (live : 0 < (d.ref_cells a).strong) where
    pub cloned_ref-Represents :
        Represents weaks (cloned_ref a d) (record c { strong = more (handle_of a d) c.strong })
    cloned_ref-Represents = record {
      tidy = cloned_ref-IsTidy weaks d tidy a live;
      strong = λ k. elim (Option-cases (d.refs k)) [
        | inl e ↦ ground (arith, e, r.strong k, tidy.ref_filed a)
        | inr (b, e) ↦ ground (arith, e, r.strong k, tidy.ref_filed a, tidy.ref_known k b)
      ];
      weak = r.weak;
    }

    pub dropped_ref-Represents :
        1 < (d.ref_cells a).strong
        → Represents weaks (dropped_ref a d) (record c { strong = fewer (handle_of a d) c.strong })
    dropped_ref-Represents many = record {
      tidy = dropped_ref-IsTidy weaks d tidy a live many;
      strong = λ k. elim (Option-cases (d.refs k)) [
        | inl e ↦ ground (arith, e, r.strong k, tidy.ref_filed a)
        | inr (b, e) ↦ ground (arith, e, r.strong k, tidy.ref_filed a, tidy.ref_known k b)
      ];
      weak = r.weak;
    }

    pub ended_ref-Represents :
        (d.ref_cells a).strong ≡ 1
        → Represents
            (more (d.ref_cells a).weak weaks)
            (ended_ref a d)
            (record { strong = fewer (handle_of a d) c.strong; weak = more (handle_of a d) c.weak })
    ended_ref-Represents last = record {
      tidy = ended_ref-IsTidy weaks d tidy a live last;
      strong = λ k. elim (Option-cases (d.refs k)) [
        | inl e ↦ ground (arith, e, r.strong k, tidy.ref_filed a)
        | inr (b, e) ↦ ground (arith, e, r.strong k, tidy.ref_filed a, tidy.ref_known k b)
      ];
      weak = λ k. elim (Option-cases (d.weak_refs k)) [
        | inl e ↦ ground (
          arith,
          e,
          r.weak k,
          tidy.ref_filed a,
          tidy.ref_known (handle_of a d) a,
          tidy.weak_filed (d.ref_cells a).weak,
        )
        | inr (v, e) ↦ ground (
          arith,
          e,
          r.weak k,
          tidy.weak_known k v,
          tidy.ref_filed a,
          tidy.ref_known (handle_of a d) a,
          tidy.weak_filed (d.ref_cells a).weak,
        )
      ];
    }

  pub made_ref-Represents :
      (w : ℕ)
      → 0 < weaks w
      → d.refs (d.weak_cells w).handle ≡ none
      → Represents (fewer w weaks) (made_ref (d.weak_cells w).handle w d) (record {
        strong = more (d.weak_cells w).handle c.strong;
        weak = fewer (d.weak_cells w).handle c.weak;
      })
  made_ref-Represents w own new = record {
    tidy = made_ref-IsTidy weaks d tidy w own new;
    strong = λ k. elim (Option-cases (d.refs k)) [
      | inl e ↦ ground (arith, e, r.strong k)
      | inr (b, e) ↦ ground (arith, e, r.strong k, tidy.ref_known k b, tidy.unused d.next_address)
    ];
    weak = λ k. elim (Option-cases (d.weak_refs k)) [
      | inl e ↦ ground (arith, e, r.weak k, tidy.weak_filed w, tidy.owned w)
      | inr (v, e) ↦
          ground (arith, e, r.weak k, tidy.weak_filed w, tidy.weak_known k v, tidy.owned w)
    ];
  }
