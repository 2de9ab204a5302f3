-- ===== src/Device/Handles/Books/Refines.antt =====
-- src/binder_object.rs: the sharing of refs by handle, seen from the program and from the driver.
use binderbinder.Base.{
  zero, suc, ◌⊎◌, refl, inl, inr, ℕ, ◌+◌, ◌<◌, ◌≡◌, ◌==◌, if◌then◌else◌, ok, arith, inl, inr,
  Option-cases,
}
use binderbinder.Device.{Device}
use binderbinder.Device.Driver.{Driver, Accepts}
use binderbinder.Device.Handles.{get_ref, get_weak, drop_ref, drop_weak, live_ref, retain_ref}
use binderbinder.Device.Handles.Books.{
  handle_of, held, sent, is_acquire, is_release, is_increfs, is_decrefs, is_request, is_clear,
}
use binderbinder.Device.Handles.Books.Weak.{no_ref}
use binderbinder.Device.Handles.Books.Strong.{cloned_ref}
use binderbinder.Device.Handles.Books.Counts.{Counts, Represents, strong_of, weak_of}
use binderbinder.Device.Handles.Books.Calls.{get_weak_lem, drop_weak_lem, get_ref_lem, drop_ref_lem}
use binderbinder.Device.Handles.Books.Program.{
  World, Reach, started, later, Moves, none_yet, next, At, start-At, Step-Move,
}

-- 1 for any number but 0.
abbrev pub one_if : ℕ → ℕ
one_if n = if n == 0 then 0 else 1

-- What the driver holds for the process: a strong count of the handles with refs, and a weak count and
-- a death notification of those with refs or weak refs.
pub record Balances (d : Device) (c : Counts) (h : ℕ) : Type 0 where
  pub strong : sent (is_acquire h) d.log ≡ sent (is_release h) d.log + one_if (c.strong h)
  pub weak : sent (is_increfs h) d.log ≡ sent (is_decrefs h) d.log + one_if (c.strong h + c.weak h)
  pub death : sent (is_request h) d.log ≡ sent (is_clear h) d.log + one_if (c.strong h + c.weak h)

module _ (weaks : ℕ → ℕ) (d : Device) (c : Counts) (r : Represents weaks d c) (h : ℕ) where
  open r use {tidy}

  held-ref : held (d.refs h) ≡ one_if (c.strong h)
  held-ref = elim (Option-cases (d.refs h)) [
    | inl e ↦ ground (arith, e, r.strong h)
    | inr (a, e) ↦ ground (arith, e, r.strong h, tidy.ref_known h a e)
  ]

  held-weak_ref : held (d.weak_refs h) ≡ one_if (c.strong h + c.weak h)
  held-weak_ref = elim (Option-cases (d.weak_refs h)) [
    | inl e ↦ ground (arith, e, r.strong h, r.weak h, no_ref weaks d tidy h e)
    | inr (w, e) ↦ elim (Option-cases (d.refs h)) [
      | inl f ↦ ground (arith, e, f, r.strong h, r.weak h, tidy.weak_known h w e, tidy.owned w)
      | inr (a, f) ↦ ground (arith, e, f, r.strong h, tidy.ref_known h a f)
    ]
  ]

  Represents-Balances : Balances d c h
  Represents-Balances = record {
    strong = omega (arith, tidy.strong_count h, held-ref);
    weak = omega (arith, tidy.weak_count h, held-weak_ref);
    death = omega (arith, tidy.death_count h, held-weak_ref);
  }

zero_or_some : (n : ℕ) → (n ≡ 0) ⊎ (0 < n)
zero_or_some zero = inl refl
zero_or_some (suc n) = inr (omega arith)

module _ (driver : Driver) (yes : Accepts driver) where
  reached : {t : World} → Reach driver t → (c : Counts) × Moves c × At t c
  reached started = (_, none_yet, start-At)
  reached (later {s} {t} before step) =
      let (c, moves, r) = reached before in
      let (e, move, z) = Step-Move driver yes s t c r step in (e, next moves move, z)

  module _ (t : World) (run : Reach driver t) where
    open t use {device, weaks}

    -- On a driver that takes every write, whatever calls a program makes on refs and weak refs that it
    -- holds: the maps, the allocations and their counts implement a table that only counts, for each
    -- handle, the refs and the weak refs that are held. And the driver has been asked for a strong
    -- count of a handle once more than it was given one back exactly if there is a ref, and for a
    -- weak count and a death notification exactly if there is a ref or a weak ref; else as often.
    pub counts_refined :
        (c : Counts) × Moves c
        × ((h : ℕ) → strong_of device h ≡ c.strong h)
        × ((h : ℕ) → weak_of weaks device h ≡ c.weak h)
        × ((h : ℕ) → Balances device c h)
    counts_refined =
        let (c, moves, r) = reached run in
        (c, moves, r.strong, r.weak, Represents-Balances weaks device c r)

    -- On such a driver, at every moment of such a run and with nothing held too: a ref and a weak ref
    -- of any handle can be got, and are of that handle; a ref can be dropped unless it has no owner, and
    -- so can a weak ref unless the program holds it no more.
    pub calls_return :
        (h a w : ℕ)
        → ((b : ℕ) × (u : Device) × (get_ref driver h device ≡ ok b u) × (handle_of b u ≡ h))
          × ((v : ℕ) × (u : Device) × (get_weak driver h device ≡ ok v u)
              × ((u.weak_cells v).handle ≡ h))
          × (((device.ref_cells a).strong ≡ 0)
              ⊎ ((u : Device) × (drop_ref driver a device ≡ ok tt u)))
          × ((weaks w ≡ 0) ⊎ ((u : Device) × (drop_weak driver w device ≡ ok tt u)))
    calls_return h a w =
        let (c, moves, r) = reached run in
        let (b, u1, got, of, z1) = get_ref_lem driver yes weaks device c r h in
        let (v, u2, got_weak, of_weak, same, z2) = get_weak_lem driver yes weaks device c r h in
        (
          (b, u1, got, of),
          (v, u2, got_weak, of_weak),
          elim (zero_or_some (device.ref_cells a).strong) [
            | inl gone ↦ inl gone
            | inr live ↦
                let (u, dropped, z) = drop_ref_lem driver yes weaks device c r a live in
                inr (u, dropped)
          ],
          elim (zero_or_some (weaks w)) [
            | inl gone ↦ inl gone
            | inr own ↦
                let (u, dropped, z) = drop_weak_lem driver yes weaks device c r w own in
                inr (u, dropped)
          ],
        )

    -- On such a driver there is one allocation for a handle: two refs that are held and have the same
    -- handle are one, and a ref that is got for the handle of one that is held is that one, with one
    -- more to its strong count and nothing else changed.
    pub one_allocation :
        (a b : ℕ)
        → 0 < (device.ref_cells a).strong
        → 0 < (device.ref_cells b).strong
        → handle_of b device ≡ handle_of a device
        → (b ≡ a) × (get_ref driver (handle_of a device) device ≡ ok a (cloned_ref a device))
    unfolding get_ref live_ref retain_ref
    one_allocation a b live live_b same =
        let (c, moves, r) = reached run in
        let filed = r.tidy.ref_filed in (ground (arith, filed a, filed b), ground (arith, filed a))
