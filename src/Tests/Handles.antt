-- ===== src/Tests/Handles.antt =====
-- Concrete runs of a remote handle.
use binderbinder.Base.{◌⊎◌, ℕ, ◌≡◌, refl, true, none, some, ok, final, arith}
use binderbinder.Tests.{driver}
use binderbinder.Device.{Device, opened}
use binderbinder.Device.Handles.{
  live_ref, get_ref, get_weak, drop_ref, drop_weak, retain_ref, downgrade,
}
use binderbinder.Device.Handles.Lifecycle.{IsNew, disconnected}
use binderbinder.Device.Handles.Lifecycle.Race.{race, value, second_ref_lost}
use binderbinder.Device.Handles.Lifecycle.Session.{session, ref_lifecycle}
use binderbinder.Device.Handles.Books.{handle_of, more}
use binderbinder.Device.Handles.Books.Strong.{cloned_ref}
use binderbinder.Device.Handles.Books.Counts.{Counts, strong_of, weak_of}
use binderbinder.Device.Handles.Books.Program.{
  World, Reach, started, later, accept, copy_ref, downgrade_ref, start, Moves,
}
use binderbinder.Device.Handles.Books.Refines.{
  Balances, counts_refined, calls_return, one_allocation,
}

opened-IsNew : IsNew 7 opened
opened-IsNew = record { refs = refl; weak_refs = refl; cookie = refl; room = omega arith }

ref_lifecycle_example : session driver 7 2 opened ≡ ok true (disconnected 7 opened)
ref_lifecycle_example = ref_lifecycle driver (λ log cs. refl) 7 opened opened-IsNew 2

second_ref_lost_example :
    (live_ref 7 opened ≡ none) × (value (race driver 7 opened) ≡ some (none, 1))
second_ref_lost_example = second_ref_lost driver (λ log cs. refl) 7 opened opened-IsNew

-- Handle 7 is received, and then the ref is cloned and downgraded.
abbrev received : World
received = record { device = final (get_ref driver 7 opened); weaks = start.weaks }

abbrev cloned : World
cloned = record { device = final (retain_ref 3 received.device); weaks = start.weaks }

abbrev downgraded : World
downgraded = record { device = final (downgrade 3 cloned.device); weaks = more 2 start.weaks }

run_of_three : Reach driver downgraded
unfolding get_ref retain_ref downgrade
run_of_three =
    later (later (later started (accept 7 3 refl refl)) (copy_ref 3 (omega arith) refl refl))
      (downgrade_ref 3 2 (omega arith) refl refl)

counts_refined_example :
    (c : Counts) × Moves c
    × ((h : ℕ) → strong_of downgraded.device h ≡ c.strong h)
    × ((h : ℕ) → weak_of downgraded.weaks downgraded.device h ≡ c.weak h)
    × ((h : ℕ) → Balances downgraded.device c h)
counts_refined_example = counts_refined driver (λ log cs. refl) downgraded run_of_three

calls_return_example :
    ((b : ℕ) × (u : Device) × (get_ref driver 9 downgraded.device ≡ ok b u) × (handle_of b u ≡ 9))
    × ((v : ℕ) × (u : Device) × (get_weak driver 9 downgraded.device ≡ ok v u)
        × ((u.weak_cells v).handle ≡ 9))
    × (((downgraded.device.ref_cells 3).strong ≡ 0)
        ⊎ ((u : Device) × (drop_ref driver 3 downgraded.device ≡ ok tt u)))
    × ((downgraded.weaks 2 ≡ 0) ⊎ ((u : Device) × (drop_weak driver 2 downgraded.device ≡ ok tt u)))
calls_return_example = calls_return driver (λ log cs. refl) downgraded run_of_three 9 3 2

one_allocation_example :
    (◌≡◌ {A = ℕ} 3 3)
    × (get_ref driver (handle_of 3 downgraded.device) downgraded.device
        ≡ ok 3 (cloned_ref 3 downgraded.device))
unfolding get_ref retain_ref downgrade
one_allocation_example =
    one_allocation driver (λ log cs. refl) downgraded run_of_three 3 3 (omega arith) (omega arith)
      refl
