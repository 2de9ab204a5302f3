-- ===== src/Device/Handles/Lifecycle/Session.antt =====
-- src/binder_object.rs: a program that gets the ref of a new handle, gets it again, and drops all
-- that it got.
use binderbinder.Base.{
  ℕ, zero, suc, ◌+◌, ◌≡◌, ap, Bool, true, ◌&&◌, ◌==◌, ==_refl, ok, Cmd, pure, ◌>>=◌, ◌>>◌, times,
  arith,
}
use binderbinder.Device.{Device}
use binderbinder.Device.Driver.{Driver, Accepts}
use binderbinder.Device.Handles.{get_ref, drop_ref}
use binderbinder.Device.Handles.Lifecycle.{IsNew, connected, disconnected, ref_at}
use binderbinder.Device.Handles.Lifecycle.Drops.{get_first, get_again, drop_one, drop_last}

module _ (driver : Driver) where
  -- Gets the ref `n` more times; whether it was the same allocation each time.
  abbrev pub again : ℕ → ℕ → ℕ → Cmd Device Bool
  again handle r zero = pure true
  again handle r (suc n) = do
    s ← get_ref driver handle
    rest ← again handle r n
    pure ((s == r) && rest)

  abbrev pub session : ℕ → ℕ → Cmd Device Bool
  session handle n = do
    r ← get_ref driver handle
    same ← again handle r n
    times n (drop_ref driver r)
    drop_ref driver r
    pure same

module _ (driver : Driver) (yes : Accepts driver) (handle : ℕ) (d : Device)
    (new : IsNew handle d) where
  again_lem :
      (n k : ℕ)
      → again driver handle (ref_at d) n (connected handle (k + 1) d)
        ≡ ok true (connected handle (n + k + 1) d)
  again_lem zero k = ap (λ j. ok true (connected handle j d)) (omega arith)
  again_lem (suc n) k =
      let next : suc n + k + 1 ≡ n + (k + 1) + 1 = omega arith in
      rw (get_again driver yes handle d new k, again_lem n (k + 1), ==_refl (ref_at d), next)

  drop_one-times :
      (n : ℕ)
      → times n (drop_ref driver (ref_at d)) (connected handle (n + 1) d)
        ≡ ok tt (connected handle 1 d)
  drop_one-times zero = ap (λ j. ok tt (connected handle j d)) (omega arith)
  drop_one-times (suc n) =
      let next : suc n + 1 ≡ n + 1 + 1 = omega arith in
      rw (next, drop_one driver yes handle d new n) (drop_one-times n)

  -- On a driver that takes every write, a ref that is got `n` more times while it is held is one
  -- allocation, and the whole session, with all that was got dropped again, asks the driver for one
  -- weak and one strong count and one death notification, and gives each back once. It ends with the
  -- maps as they were, if the handle and the next cookie were in none of them.
  pub ref_lifecycle : (n : ℕ) → session driver handle n d ≡ ok true (disconnected handle d)
  ref_lifecycle n =
      let same : n + 0 + 1 ≡ n + 1 = omega arith in
      rw (
        get_first driver yes handle d new,
        again_lem n 0,
        same,
        drop_one-times n,
        drop_last driver yes handle d new,
      )
