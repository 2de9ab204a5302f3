-- ===== src/Device/Handles/Books/Program.antt =====
-- src/binder_object.rs: a program that gets, clones, upgrades, downgrades and drops refs and weak refs
-- of any handles, one call after the other, against a table of counts that stands for all of it.
use binderbinder.Base.{
  ℕ, ◌<◌, ◌≡◌, refl, ap, subst, sym, Option, none, some, Run, ok, arith, inl, inr, ◌∙◌, final,
}
use binderbinder.Device.{Device, opened}
use binderbinder.Device.Driver.{Driver, Accepts}
use binderbinder.Device.Handles.{
  retain_ref, retain_weak, downgrade, get_ref, get_weak, drop_ref, drop_weak, upgrade_weak,
}
use binderbinder.Device.Handles.Books.{more, fewer, handle_of}
use binderbinder.Device.Handles.Books.Weak.{cloned_weak}
use binderbinder.Device.Handles.Books.Strong.{cloned_ref}
use binderbinder.Device.Handles.Books.Counts.{
  Counts, Represents, cloned_weak-Represents, cloned_ref-Represents,
}
use binderbinder.Device.Handles.Books.Calls.{
  with_strong, with_weak, get_weak_lem, drop_weak_lem, get_ref_lem, drop_ref_lem, upgrade_weak_lem,
}

-- The device, and how many clones of each weak ref the program holds itself. Of a ref it holds as many
-- as its strong count.
pub record World : Type 0 where
  pub device : Device
  pub weaks : ℕ → ℕ

abbrev pub start : World
start = record { device = opened; weaks = λ w. 0 }

-- One call that returns. What is cloned, upgraded, downgraded or dropped is held.
pub data Step (driver : Driver) (s t : World) : Type 0 where
  accept :
      (h a : ℕ) → get_ref driver h s.device ≡ ok a t.device → t.weaks ≡ s.weaks → Step driver s t
  accept_weak :
      (h w : ℕ)
      → get_weak driver h s.device ≡ ok w t.device
      → t.weaks ≡ more w s.weaks
      → Step driver s t
  copy_ref :
      (a : ℕ)
      → 0 < (s.device.ref_cells a).strong
      → retain_ref a s.device ≡ ok a t.device
      → t.weaks ≡ s.weaks
      → Step driver s t
  copy_weak :
      (w : ℕ)
      → 0 < s.weaks w
      → retain_weak w s.device ≡ ok w t.device
      → t.weaks ≡ more w s.weaks
      → Step driver s t
  downgrade_ref :
      (a w : ℕ)
      → 0 < (s.device.ref_cells a).strong
      → downgrade a s.device ≡ ok w t.device
      → t.weaks ≡ more w s.weaks
      → Step driver s t
  upgrade :
      (w : ℕ) (found : Option ℕ)
      → 0 < s.weaks w
      → upgrade_weak w s.device ≡ ok found t.device
      → t.weaks ≡ s.weaks
      → Step driver s t
  end_ref :
      (a : ℕ)
      → 0 < (s.device.ref_cells a).strong
      → drop_ref driver a s.device ≡ ok tt t.device
      → t.weaks ≡ s.weaks
      → Step driver s t
  end_weak :
      (w : ℕ)
      → 0 < s.weaks w
      → drop_weak driver w s.device ≡ ok tt t.device
      → t.weaks ≡ fewer w s.weaks
      → Step driver s t

pub data Reach (driver : Driver) : World → Type 0 where
  started : Reach driver start
  later : {s t : World} → Reach driver s → Step driver s t → Reach driver t

-- The table: what is got is counted, what is dropped was counted.
pub data Move (c e : Counts) : Type 0 where
  take : (h : ℕ) → e ≡ with_strong (more h c.strong) c → Move c e
  take_weak : (h : ℕ) → e ≡ with_weak (more h c.weak) c → Move c e
  give : (h : ℕ) → 0 < c.strong h → e ≡ with_strong (fewer h c.strong) c → Move c e
  give_weak : (h : ℕ) → 0 < c.weak h → e ≡ with_weak (fewer h c.weak) c → Move c e
  stay : e ≡ c → Move c e

abbrev pub nothing_held : Counts
nothing_held = record { strong = λ h. 0; weak = λ h. 0 }

pub data Moves : Counts → Type 0 where
  none_yet : Moves nothing_held
  next : {c e : Counts} → Moves c → Move c e → Moves e

abbrev pub At : World → Counts → Type 0
At s c = Represents s.weaks s.device c

pub start-At : At start nothing_held
start-At = record {
  tidy = record {
    ref_known = λ h a e. cc;
    ref_filed = λ a e. absurd (omega arith);
    weak_known = λ h w e. cc;
    weak_filed = λ w e. absurd (omega arith);
    owned = λ w. refl;
    unused = λ a e. (refl, refl);
    strong_count = λ h. refl;
    weak_count = λ h. refl;
    death_count = λ h. refl;
  };
  strong = λ h. refl;
  weak = λ h. refl;
}

-- Two accounts of one call agree.
arrived :
    {A : Type 0} (m : Run Device A) (a b : A) (u : Device) (weaks : ℕ → ℕ) (t : World) (e : Counts)
    → m ≡ ok a t.device
    → m ≡ ok b u
    → t.weaks ≡ weaks
    → Represents weaks u e
    → At t e
arrived m a b u weaks t e p q w r =
    subst (λ v. Represents t.weaks v e) (ap final (sym q ∙ p))
      (subst (λ f. Represents f u e) (sym w) r)

same_value :
    {A : Type 0} (m : Run Device A) (a b : A) (d u : Device) → m ≡ ok a d → m ≡ ok b u → a ≡ b
same_value m a b d u p q = cc

module _ (driver : Driver) (yes : Accepts driver) (s t : World) (c : Counts) (r : At s c) where
  open r use {tidy}

  alive : (w : ℕ) → 0 < s.weaks w → 0 < (s.device.weak_cells w).strong
  alive w own = ground (arith, tidy.owned w)

  pub Step-Move : Step driver s t → (e : Counts) × Move c e × At t e
  unfolding retain_ref retain_weak downgrade
  Step-Move (accept h a p q) =
      let (b, u, got, of, z) = get_ref_lem driver yes s.weaks s.device c r h in
      (_, take h refl, arrived _ a b u s.weaks t _ p got q z)
  Step-Move (accept_weak h w p q) =
      let (v, u, got, of, same, z) = get_weak_lem driver yes s.weaks s.device c r h in
      let e : v ≡ w = same_value _ v w u t.device got p in
      (
        _,
        take_weak h refl,
        arrived _ w v u _ t _ p got q
            (subst (λ x. Represents (more x s.weaks) u (with_weak (more h c.weak) c)) e z),
      )
  Step-Move (copy_ref a live p q) = (
    _,
    take (handle_of a s.device) refl,
    arrived _ a a (cloned_ref a s.device) s.weaks t _ p refl q
        (cloned_ref-Represents s.weaks s.device c r a live),
  )
  Step-Move (copy_weak w own p q) = (
    _,
    take_weak (s.device.weak_cells w).handle refl,
    arrived _ w w (cloned_weak w s.device) _ t _ p refl q
        (cloned_weak-Represents s.weaks s.device c r w (alive w own)),
  )
  Step-Move (downgrade_ref a w live p q) =
      let known = tidy.ref_known _ a (tidy.ref_filed a live) in
      let v : ℕ = (s.device.ref_cells a).weak in
      let e : v ≡ w = same_value _ v w (cloned_weak v s.device) t.device refl p in
      (
        _,
        take_weak (s.device.weak_cells v).handle refl,
        arrived _ w v (cloned_weak v s.device) _ t _ p refl q (
            subst
              (λ x.
                Represents (more x s.weaks) (cloned_weak v s.device)
                  (with_weak (more (s.device.weak_cells v).handle c.weak) c))
              e (cloned_weak-Represents s.weaks s.device c r v known.2)),
      )
  Step-Move (upgrade w found own p q) =
      elim (upgrade_weak_lem driver yes s.weaks s.device c r w (alive w own)) [
        | inl (gone, kept) ↦ (_, stay refl, arrived _ found none s.device s.weaks t _ p kept q r)
        | inr (a, u, got, z) ↦ (_, take _ refl, arrived _ found (some a) u s.weaks t _ p got q z)
      ]
  Step-Move (end_ref a live p q) =
      let (u, dropped, z) = drop_ref_lem driver yes s.weaks s.device c r a live in
      (
        _,
        give (handle_of a s.device)
            (ground (arith, r.strong (handle_of a s.device), tidy.ref_filed a)) refl,
        arrived _ tt tt u s.weaks t _ p dropped q z,
      )
  Step-Move (end_weak w own p q) =
      let (u, dropped, z) = drop_weak_lem driver yes s.weaks s.device c r w own in
      (
        _,
        give_weak (s.device.weak_cells w).handle
            (ground (arith, r.weak (s.device.weak_cells w).handle, tidy.weak_filed w, alive w))
            refl,
        arrived _ tt tt u _ t _ p dropped q z,
      )
