-- ===== src/Bench/Turns.antt =====
-- examples/bench.rs: the refs that a message may carry, as the service resolves, clones and drops them.
use binderbinder.Base.{
  if◌then◌else◌, ◌==◌, ap, sym, ◌∙◌, ℕ, ◌+◌, ◌*◌, ◌%◌, ◌^◌, ◌<◌, ◌≡◌, refl, true, arith,
}
use binderbinder.Sys.Structs.{FlatObject, with_low, AllFit, flat_fields}
use binderbinder.Sys.ObjectType
use binderbinder.Device.{Device}
use binderbinder.Device.Driver.{Driver, Accepts}
use binderbinder.Device.ObjectOrRef.{ref, accepts_fds, get_flat_binder_object, clone, drop_either}
use binderbinder.Device.Handles.{retain_ref}
use binderbinder.Device.Handles.Books.{handle_of}
use binderbinder.Device.Handles.Books.Strong.{cloned_ref}
use binderbinder.Device.Handles.Books.Counts.{Counts, Represents, cloned_ref-Represents}
use binderbinder.Device.Handles.Books.Calls.{get_ref_lem, drop_ref_lem}
use binderbinder.Device.Handles.Books.Live.{get_ref-live}
use binderbinder.Payload.Reader.{resolve, is_binder_ref}
use binderbinder.Bench.Reads.{Carries}

-- A remote object, as it arrives and as it is sent on.
abbrev pub handle_flat : ℕ → ℕ → FlatObject
handle_flat padding h = record {
  type_ = ObjectType.handle;
  flags = accepts_fds;
  bits = with_low padding h;
  cookie = 0;
}

-- The counts with `n` more strong refs to the handle `h`.
abbrev pub with_more : ℕ → ℕ → Counts → Counts
with_more h n c = record c { strong = λ k. if h == k then c.strong k + n else c.strong k }

-- The refs of the service are in order, and `n` to the handle `h` are missing to `goal`.
abbrev pub InOrder : (ℕ → ℕ) → ℕ → Counts → ℕ → Device → Type 0
InOrder weaks h goal n d =
    (c : Counts) × Represents weaks d c
    × ((k : ℕ) → goal.strong k ≡ (with_more h n c).strong k)
    × (goal.weak ≡ c.weak)

pub reached :
    (weaks : ℕ → ℕ) (h : ℕ) (goal : Counts) (d : Device)
    → InOrder weaks h goal 0 d
    → Represents weaks d goal
reached weaks h goal d (c, r, strong, weak) = record {
  tidy = r.tidy;
  strong = λ k. ground (arith, r.strong k, strong k);
  weak = λ k. r.weak k ∙ ap (λ f. f k) (sym weak);
}

pub handle-Carries :
    (driver : Driver) (accepts : Accepts driver) (weaks : ℕ → ℕ) (padding h : ℕ) (goal : Counts)
    → h < 2 ^ 32
    → Carries driver (handle_flat padding h) (handle_flat driver.padding h) (InOrder weaks h goal)
unfolding resolve clone get_flat_binder_object drop_either retain_ref ObjectType.handle
    ObjectType.binder ObjectType.weak_binder
handle-Carries driver accepts weaks padding h goal narrow n d (c, r, strong, weak) =
    let (a, u, got, of, z) = get_ref_lem driver accepts weaks d c r h in
    let live = get_ref-live driver h d a u got in
    let v = cloned_ref a u in
    let more_live : 0 < (v.ref_cells a).strong = ground arith in
    let same : handle_of a v ≡ h = ground (arith, of) in
    let (w, gone, z') =
      drop_ref_lem driver accepts weaks v _ (cloned_ref-Represents weaks u _ z a live) a
        more_live in
    let bits : (h + padding * 2 ^ 32) % 2 ^ 32 ≡ h = omega arith in
    record {
      port = ref a;
      copy = ref a;
      resolved = u;
      cloned = v;
      dropped = w;
      resolves = rw (bits, got) refl;
      clones = refl;
      flat = rw same refl;
      drops = gone;
      next = (_, z', λ k. ground (arith, same, of, strong k), weak);
    }

pub handle_flat-AllFit :
    (padding h : ℕ) → padding < 2 ^ 32 → h < 2 ^ 32 → AllFit (flat_fields (handle_flat padding h))
unfolding ObjectType.handle
handle_flat-AllFit padding h pad narrow =
    (omega arith, (omega arith, (omega arith, (omega arith, tt))))

pub handle_flat-is_ref : (padding h : ℕ) → is_binder_ref (handle_flat padding h).type_ ≡ true
unfolding ObjectType.handle ObjectType.binder
handle_flat-is_ref padding h = refl
