-- ===== src/Device/Handles/Books/Live.antt =====
-- src/binder_object.rs: a ref that was got is live.
use binderbinder.Base.{ℕ, ◌<◌, ◌≡◌, ◌⊎◌, inl, inr, refl, Run, ok, panic, arith, Option-cases}
use binderbinder.Device.{Device, acquire}
use binderbinder.Device.Driver.{Driver, write_command}
use binderbinder.Device.Handles.{get_ref, get_weak, live_ref, retain_ref, create_ref}

Run-cases :
    {S A : Type 0} (r : Run S A) → ((s : S) × (r ≡ panic s)) ⊎ ((a : A) × (s : S) × (r ≡ ok a s))
Run-cases (panic s) = inl (s, refl)
Run-cases (ok a s) = inr (a, s, refl)

create_ref-live :
    (driver : Driver) (h : ℕ) (d : Device) (a : ℕ) (u : Device)
    → create_ref driver h d ≡ ok a u
    → 0 < (u.ref_cells a).strong
unfolding create_ref binderbinder.Device.Handles.file_ref
create_ref-live driver h d a u made = elim (Run-cases (get_weak driver h d)) [
  | inl (s, failed) ↦ ground (arith, rw failed at made)
  | inr (w, s, got) ↦ elim (Run-cases (write_command driver (acquire h) s)) [
    | inl (t, failed) ↦ ground (arith, rw (got, failed) at made)
    | inr (x, t, written) ↦ ground (arith, rw (got, written) at made)
  ]
]

pub get_ref-live :
    (driver : Driver) (h : ℕ) (d : Device) (a : ℕ) (u : Device)
    → get_ref driver h d ≡ ok a u
    → 0 < (u.ref_cells a).strong
unfolding get_ref retain_ref
get_ref-live driver h d a u got = elim (Option-cases (live_ref h d)) [
  | inl new ↦ create_ref-live driver h d a u (rw (new, get_ref) at got)
  | inr (b, old) ↦ ground (arith, rw (old, get_ref) at got)
]
