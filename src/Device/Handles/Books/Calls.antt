-- ===== src/Device/Handles/Books/Calls.antt =====
-- src/binder_object.rs: the calls on refs and weak refs, and what each does to the counts.
use binderbinder.Base.{
  ◌⊎◌, ℕ, ◌+◌, ◌<◌, ◌≡◌, refl, subst, fun_ext, none, some, ◌==◌, ==_refl, ok, true, arith, inl, inr,
  Option-cases, Bool-cases, ◌∙◌,
}
use binderbinder.Device.{Device}
use binderbinder.Device.Driver.{Driver, Accepts, write_command}
use binderbinder.Device.Handles.{
  live_ref, live_weak, retain_ref, retain_weak, create_ref, create_weak, get_ref, get_weak,
  drop_ref, drop_weak, finish_ref, finish_weak, forget_ref, forget_weak, upgrade_weak,
}
use binderbinder.Device.Handles.Books.{more, fewer, handle_of}
use binderbinder.Device.Handles.Books.Weak.{cloned_weak, dropped_weak, ended_weak, made_weak}
use binderbinder.Device.Handles.Books.Strong.{cloned_ref, dropped_ref, ended_ref, made_ref}
use binderbinder.Device.Handles.Books.Counts.{
  Counts, Represents, cloned_weak-Represents, dropped_weak-Represents, ended_weak-Represents,
  made_weak-Represents, cloned_ref-Represents, dropped_ref-Represents, ended_ref-Represents,
  made_ref-Represents,
}

fewer-more : (a : ℕ) (f : ℕ → ℕ) → fewer a (more a f) ≡ f
fewer-more a f = fun_ext λ b. ground arith

abbrev pub with_strong : (ℕ → ℕ) → Counts → Counts
with_strong f c = record c { strong = f }

abbrev pub with_weak : (ℕ → ℕ) → Counts → Counts
with_weak f c = record c { weak = f }

module _ (driver : Driver) (yes : Accepts driver) (weaks : ℕ → ℕ) (d : Device) (c : Counts)
    (r : Represents weaks d c) where
  open r use {tidy}

  -- A weak ref that is got is live, is for the handle, and is counted.
  pub get_weak_lem :
      (h : ℕ)
      → (w : ℕ) × (u : Device) × (get_weak driver h d ≡ ok w u)
        × ((u.weak_cells w).handle ≡ h)
        × (u.refs ≡ d.refs)
        × Represents (more w weaks) u (with_weak (more h c.weak) c)
  unfolding get_weak live_weak retain_weak create_weak write_command
  get_weak_lem h = elim (Option-cases (d.weak_refs h)) [
    | inl new ↦ (
      d.next_address + 1,
      made_weak h d,
      rw (get_weak, live_weak, new, create_weak, yes, yes),
      rw (==_refl (d.next_address + 1)),
      refl,
      made_weak-Represents weaks d c r h new,
    )
    | inr (w, old) ↦
        let known = tidy.weak_known h w old in
        (
          w,
          cloned_weak w d,
          ground (arith, old, known),
          ground (arith, known),
          refl,
          subst (λ k. Represents (more w weaks) (cloned_weak w d) (with_weak (more k c.weak) c))
              known.1 (cloned_weak-Represents weaks d c r w known.0),
        )
  ]

  -- A weak ref that the program holds can be dropped.
  pub drop_weak_lem :
      (w : ℕ)
      → 0 < weaks w
      → (u : Device) × (drop_weak driver w d ≡ ok tt u)
        × Represents (fewer w weaks) u (with_weak (fewer (d.weak_cells w).handle c.weak) c)
  unfolding drop_weak finish_weak forget_weak write_command
  drop_weak_lem w own = elim (Bool-cases ((d.weak_cells w).strong == 1)) [
    | inl last ↦ (
      ended_weak w d,
      rw (last, finish_weak, yes, yes) (ground (arith, tidy.weak_filed w)),
      ended_weak-Represents weaks d c r w own (ground arith),
    )
    | inr many ↦ (
      dropped_weak w d,
      rw many,
      dropped_weak-Represents weaks d c r w own (ground (arith, tidy.owned w)),
    )
  ]

  -- The last of three rewritings: what was taken is what was given.
  module _ (w h : ℕ) (u : Device) where
    settled :
        Represents
          (fewer w (more w weaks))
          u
          (record { strong = more h c.strong; weak = fewer h (more h c.weak) })
        → Represents weaks u (with_strong (more h c.strong) c)
    settled t =
        subst (λ f. Represents f u (with_strong (more h c.strong) c)) (fewer-more w weaks)
          (subst
            (λ g.
              Represents (fewer w (more w weaks)) u (record { strong = more h c.strong; weak = g }))
            (fewer-more h c.weak) t)

  create_ref_lem :
      (h : ℕ)
      → d.refs h ≡ none
      → (a : ℕ) × (u : Device) × (create_ref driver h d ≡ ok a u)
        × (handle_of a u ≡ h)
        × Represents weaks u (with_strong (more h c.strong) c)
  unfolding create_ref write_command
  create_ref_lem h new =
      let (w, u, got, of, same, s) = get_weak_lem h in
      let unknown : u.refs (u.weak_cells w).handle ≡ none = rw (same, of) new in
      let own : 0 < more w weaks w = ground arith in
      let u' : Device = made_ref (u.weak_cells w).handle w u in
      (
        u.next_address,
        u',
        rw (got, yes, of),
        ground (arith, of),
        settled w h u' (
            subst
              (λ k.
                Represents (fewer w (more w weaks)) u'
                  (record { strong = more k c.strong; weak = fewer k (more h c.weak) }))
              of (made_ref-Represents (more w weaks) u _ s w own unknown)),
      )

  -- A ref that is got is for the handle, and is counted; if there is one, it is the same.
  pub get_ref_lem :
      (h : ℕ)
      → (a : ℕ) × (u : Device) × (get_ref driver h d ≡ ok a u)
        × (handle_of a u ≡ h)
        × Represents weaks u (with_strong (more h c.strong) c)
  unfolding get_ref live_ref retain_ref
  get_ref_lem h = elim (Option-cases (d.refs h)) [
    | inl new ↦
        let (a, u, made, of, s) = create_ref_lem h new in
        (a, u, rw (get_ref, live_ref, new) made, of, s)
    | inr (a, old) ↦
        let known = tidy.ref_known h a old in
        (
          a,
          cloned_ref a d,
          ground (arith, old, known),
          ground (arith, known),
          subst (λ k. Represents weaks (cloned_ref a d) (with_strong (more k c.strong) c)) known.1
              (cloned_ref-Represents weaks d c r a known.0),
        )
  ]

  -- An upgrade finds the ref if there is one, and only then.
  pub upgrade_weak_lem :
      (w : ℕ)
      → 0 < (d.weak_cells w).strong
      → ((c.strong (d.weak_cells w).handle ≡ 0) × (upgrade_weak w d ≡ ok none d))
        ⊎ ((a : ℕ) × (u : Device) × (upgrade_weak w d ≡ ok (some a) u)
            × Represents weaks u (with_strong (more (d.weak_cells w).handle c.strong) c))
  unfolding upgrade_weak live_ref retain_ref
  upgrade_weak_lem w live = elim (Option-cases (d.refs (d.weak_cells w).handle)) [
    | inl gone ↦ inl (ground (arith, r.strong (d.weak_cells w).handle), ground (arith, gone))
    | inr (a, there) ↦
        let known = tidy.ref_known _ a there in
        inr (
          a,
          cloned_ref a d,
          ground (arith, there, known),
          subst (λ k. Represents weaks (cloned_ref a d) (with_strong (more k c.strong) c)) known.1
              (cloned_ref-Represents weaks d c r a known.0),
        )
  ]

module _ (driver : Driver) (yes : Accepts driver) (weaks : ℕ → ℕ) (d : Device) (c : Counts)
    (r : Represents weaks d c) (a : ℕ) (live : 0 < (d.ref_cells a).strong) where
  open r use {tidy}

  w : ℕ
  w = (d.ref_cells a).weak

  forgotten :
      (d.ref_cells a).strong ≡ 1
      → forget_ref driver (handle_of a d) (record (ended_ref a d) { refs = d.refs })
        ≡ ok tt (ended_ref a d)
  unfolding forget_ref
  forgotten last = rw (tidy.ref_filed a live) (ground arith)

  released :
      ((d.ref_cells a).strong == 1) ≡ true
      → drop_ref driver a d ≡ drop_weak driver w (ended_ref a d)
  unfolding drop_ref finish_ref write_command w
  released last = rw (last, finish_ref, yes, forgotten (ground arith))

  -- A ref that is live can be dropped.
  pub drop_ref_lem :
      (u : Device) × (drop_ref driver a d ≡ ok tt u)
      × Represents weaks u (with_strong (fewer (handle_of a d) c.strong) c)
  unfolding drop_ref w
  drop_ref_lem = elim (Bool-cases ((d.ref_cells a).strong == 1)) [
    | inl last ↦
        let once : (d.ref_cells a).strong ≡ 1 = ground arith in
        let (u, dropped, s) =
          drop_weak_lem driver yes (more w weaks) (ended_ref a d) _
            (ended_ref-Represents weaks d c r a live once) w (ground arith) in
        (
          u,
          released last ∙ dropped,
          subst (λ f. Represents f u (with_strong (fewer (handle_of a d) c.strong) c))
              (fewer-more w weaks)
              (subst
                (λ g.
                  Represents (fewer w (more w weaks)) u
                    (record { strong = fewer (handle_of a d) c.strong; weak = g }))
                (fewer-more (handle_of a d) c.weak) s),
        )
    | inr many ↦
        (dropped_ref a d, rw many, dropped_ref-Represents weaks d c r a live (ground arith))
  ]
