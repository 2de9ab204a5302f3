-- ===== src/Device/Handles/Books.antt =====
-- src/binder_object.rs: what the driver and the maps hold for the `Arc<BinderRef>`s and the
-- `Arc<WeakBinderRef>`s of a program that uses them one at a time.
pub mod Weak
pub mod Strong
pub mod Counts
pub mod Calls
pub mod Live
pub mod Program
pub mod Refines
use binderbinder.Base.{
  ℕ, ◌+◌, ◌-◌, ◌≤◌, ◌<◌, ◌≡◌, Bool, true, false, Option, none, some, List, [], ◌∷◌, ◌==◌,
  if◌then◌else◌,
}
use binderbinder.Device.{
  Device, Command, acquire, release, increfs, decrefs, request_death_notification,
  clear_death_notification, Event, wrote, exchanged, spawned_looper,
}

abbrev pub count : (Command → Bool) → List Command → ℕ
count is_it [] = 0
count is_it (c ∷ cs) = (if is_it c then 1 else 0) + count is_it cs

-- How many commands of a kind have gone to the driver.
abbrev pub sent : (Command → Bool) → List Event → ℕ
sent is_it [] = 0
sent is_it (wrote cs ∷ log) = count is_it cs + sent is_it log
sent is_it (exchanged cs ∷ log) = count is_it cs + sent is_it log
sent is_it (spawned_looper ∷ log) = sent is_it log

abbrev pub is_acquire : ℕ → Command → Bool
is_acquire h (acquire k) = k == h
is_acquire h _ = false

abbrev pub is_release : ℕ → Command → Bool
is_release h (release k) = k == h
is_release h _ = false

abbrev pub is_increfs : ℕ → Command → Bool
is_increfs h (increfs k) = k == h
is_increfs h _ = false

abbrev pub is_decrefs : ℕ → Command → Bool
is_decrefs h (decrefs k) = k == h
is_decrefs h _ = false

abbrev pub is_request : ℕ → Command → Bool
is_request h (request_death_notification k cookie) = k == h
is_request h _ = false

abbrev pub is_clear : ℕ → Command → Bool
is_clear h (clear_death_notification k cookie) = k == h
is_clear h _ = false

-- 1 if there is one.
abbrev pub held : Option ℕ → ℕ
held none = 0
held (some a) = 1

-- 1 if a ref keeps the weak ref at `w`.
abbrev pub kept_by : ℕ → Device → ℕ
kept_by w d = elim (d.refs (d.weak_cells w).handle) [
  | none ↦ 0
  | some a ↦ if (d.ref_cells a).weak == w then 1 else 0
]

abbrev pub handle_of : ℕ → Device → ℕ
handle_of a d = (d.weak_cells (d.ref_cells a).weak).handle

-- The maps hold the live allocations and no other, one for a handle; a weak ref is kept by what the
-- program holds of it, `weaks`, and by its ref; and for each handle that has a live ref, or weak ref,
-- the driver has been asked once more than it was told that this is over.
pub record IsTidy (weaks : ℕ → ℕ) (d : Device) : Type 0 where
  pub ref_known :
      (h a : ℕ)
      → d.refs h ≡ some a
      → (0 < (d.ref_cells a).strong)
        × (handle_of a d ≡ h)
        × (0 < (d.weak_cells (d.ref_cells a).weak).strong)
  pub ref_filed : (a : ℕ) → 0 < (d.ref_cells a).strong → d.refs (handle_of a d) ≡ some a
  pub weak_known :
      (h w : ℕ)
      → d.weak_refs h ≡ some w
      → (0 < (d.weak_cells w).strong) × ((d.weak_cells w).handle ≡ h)
  pub weak_filed :
      (w : ℕ) → 0 < (d.weak_cells w).strong → d.weak_refs (d.weak_cells w).handle ≡ some w
  pub owned : (w : ℕ) → (d.weak_cells w).strong ≡ weaks w + kept_by w d
  pub unused :
      (a : ℕ) → d.next_address ≤ a → ((d.ref_cells a).strong ≡ 0) × ((d.weak_cells a).strong ≡ 0)
  pub strong_count :
      (h : ℕ) → sent (is_acquire h) d.log ≡ sent (is_release h) d.log + held (d.refs h)
  pub weak_count :
      (h : ℕ) → sent (is_increfs h) d.log ≡ sent (is_decrefs h) d.log + held (d.weak_refs h)
  pub death_count :
      (h : ℕ) → sent (is_request h) d.log ≡ sent (is_clear h) d.log + held (d.weak_refs h)

abbrev pub more : ℕ → (ℕ → ℕ) → ℕ → ℕ
more w weaks v = if w == v then weaks v + 1 else weaks v

abbrev pub fewer : ℕ → (ℕ → ℕ) → ℕ → ℕ
fewer w weaks v = if w == v then weaks v - 1 else weaks v
