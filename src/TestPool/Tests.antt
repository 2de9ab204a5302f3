-- ===== src/TestPool/Tests.antt =====
-- Concrete claims on a pool of three nodes, the first of which is held.
use binderbinder.Base.{
  ℕ, ◌≡◌, ◌↔◌, refl, true, false, none, some, [], ◌∷◌, ok, arith, if◌then◌else◌,
}
use binderbinder.TestPool.{
  Environment, Locks, claimed, PoolNode, node_path, lock_path, pool_size, acquire, probe, add_usize,
  open_lock_file, try_lock, try_claim, block_claim, drop_node, node_at, hold, same_path, lock_dir,
}
use binderbinder.TestPool.Decimal.{display}
use binderbinder.TestPool.Names.{names_apart, lock_in}
use binderbinder.TestPool.Rotation.{IsQuiet, TakesFirst, acquire-first}
use binderbinder.TestPool.Claims.{Claimed, acquire-bounds}
use binderbinder.TestPool.Exclusive.{World, Reach, started, tried, start, more, pool_exclusive}

abbrev env : Environment
env = record {
  checks = true;
  size_var = some (51 ∷ []);
  mount_var = none;
  lock_dir_var = none;
  temp_dir = 47 ∷ 116 ∷ 109 ∷ 112 ∷ [];
  pid = 7;
  exists = λ path. true;
  opens = λ file. true;
  lock_fails = λ file. false;
}

abbrev one_held : Locks
one_held file = same_path file (lock_path env 1)

quiet : IsQuiet env
quiet = record { opens = λ file. refl; locks = λ file. refl }

pool_size_three : pool_size env ≡ 3
unfolding pool_size binderbinder.TestPool.Decimal.parse binderbinder.TestPool.Decimal.parse_digits
pool_size_three = refl

-- Number 7 begins at node 1, which is held, and takes node 2.
takes_two : acquire env one_held ≡ ok (claimed (node_at env 2)) (hold (lock_path env 2) one_held)
unfolding acquire probe add_usize try_claim open_lock_file try_lock pool_size
    binderbinder.TestPool.Decimal.parse binderbinder.TestPool.Decimal.parse_digits lock_path
    lock_dir binderbinder.TestPool.Decimal.digits
takes_two = refl

names_apart_example :
    ((node_path env 1 ≡ node_path env 12) ↔ (◌≡◌ {A = ℕ} 1 12))
    × ((lock_path env 1 ≡ lock_path env 12) ↔ (◌≡◌ {A = ℕ} 1 12))
    × (pool_size (record env { size_var = some (display 1) }) ≡ 1)
names_apart_example = names_apart env 1 12 (omega arith) (omega arith)

acquire-first_example : TakesFirst env one_held
unfolding pool_size binderbinder.TestPool.Decimal.parse binderbinder.TestPool.Decimal.parse_digits
acquire-first_example =
    acquire-first env one_held quiet refl (omega (arith, pool_size_three))
      (omega (arith, pool_size_three))

acquire-bounds_example : Claimed env one_held (acquire env one_held)
acquire-bounds_example = acquire-bounds env one_held

abbrev claimed_world : World
claimed_world = record { locks = hold (lock_path env 2) start.locks; nodes = more 2 start.nodes }

claimed_reached : Reach (lock_dir env) claimed_world
unfolding try_claim open_lock_file try_lock
claimed_reached =
    tried started env 2 (node_at env 2) (hold (lock_path env 2) start.locks) (refl, omega arith)
      refl

pool_exclusive_example :
    claimed_world.nodes 2 ≡ (if claimed_world.locks (lock_in (lock_dir env) 2) then 1 else 0)
pool_exclusive_example = pool_exclusive (lock_dir env) claimed_world claimed_reached 2 (omega arith)
