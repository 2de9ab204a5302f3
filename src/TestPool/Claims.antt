-- ===== src/TestPool/Claims.antt =====
-- src/test_pool.rs: what a claim does in any environment, refusals included.
use binderbinder.Base.{
  ℕ, zero, suc, ◌+◌, ◌%◌, ◌<◌, ◌≤◌, ◌≡◌, ◌⊎◌, inl, inr, refl, Bool, true, false, none, some, ok,
  panic, arith, Bool-cases, Option, Run, Cmd, and_then, pure, subst, ◌==◌, ltb,
}
use binderbinder.Base.Words.{usize_mod}
use binderbinder.TestPool.{
  Environment, Locks, Claim, claimed, waiting, node_path, lock_path, mount_path, node_at, hold,
  open_lock_file, try_lock, try_claim, lock, block_claim, add_usize, probe, block_first, acquire,
  pool_size, PoolNode,
}
use native.Mathlib.Nat.{mod-lt}

-- Node `i` was there and free, and is what was taken; its lock is held, and no other changed.
pub record Took (env : Environment) (l : Locks) (i : ℕ) (node : PoolNode) (m : Locks) : Type 0 where
  pub is_node : node ≡ node_at env i
  pub there : env.exists (node_path env i) ≡ true
  pub was_free : l (lock_path env i) ≡ false
  pub held : m ≡ hold (lock_path env i) l

module _ (env : Environment) (l m : Locks) where
  pub try_claim-Took :
      (i : ℕ) (node : PoolNode) → try_claim env i l ≡ ok (some node) m → Took env l i node m
  unfolding try_claim open_lock_file try_lock
  try_claim-Took i node h = record {
    is_node = ground (arith, h);
    there = ground (arith, h);
    was_free = ground (arith, h);
    held = ground (arith, h);
  }

  pub try_claim-none : (i : ℕ) → try_claim env i l ≡ ok none m → m ≡ l
  unfolding try_claim open_lock_file try_lock
  try_claim-none i h = ground (arith, h)

  try_claim-panic : (i : ℕ) → try_claim env i l ≡ panic m → m ≡ l
  unfolding try_claim open_lock_file try_lock
  try_claim-panic i h = ground (arith, h)

  block_claim-panic : (i : ℕ) → block_claim env i l ≡ panic m → m ≡ l
  unfolding block_claim open_lock_file lock
  block_claim-panic i h = ground (arith, h)

  pub block_claim-Took :
      (i : ℕ) (node : PoolNode) → block_claim env i l ≡ ok (claimed node) m → Took env l i node m
  unfolding block_claim open_lock_file lock
  block_claim-Took i node h = record {
    is_node = ground (arith, h);
    there = ground (arith, h);
    was_free = ground (arith, h);
    held = ground (arith, h);
  }

  pub block_claim-waiting :
      (i : ℕ) (node : PoolNode) → block_claim env i l ≡ ok (waiting node) m → m ≡ l
  unfolding block_claim open_lock_file lock
  block_claim-waiting i node h = ground (arith, h)

-- What a try may come to: a node of the pool, or no change.
abbrev pub TookOne : Environment → Locks → PoolNode → Locks → Type 0
TookOne env l node m = (i : ℕ) × (i < pool_size env) × Took env l i node m

abbrev Tried : Environment → Locks → Run Locks (Option PoolNode) → Type 0
Tried env l (ok none m) = m ≡ l
Tried env l (ok (some node) m) = TookOne env l node m
Tried env l (panic m) = m ≡ l

abbrev pub Claimed : Environment → Locks → Run Locks Claim → Type 0
Claimed env l (ok (claimed node) m) = TookOne env l node m
Claimed env l (ok (waiting node) m) = (0 < pool_size env) × (m ≡ l)
Claimed env l (panic m) = m ≡ l

run-Tried :
    {env : Environment} {l : Locks} (r : Run Locks (Option PoolNode))
    → ((m : Locks) → r ≡ panic m → m ≡ l)
    → ((m : Locks) → r ≡ ok none m → m ≡ l)
    → ((node : PoolNode) (m : Locks) → r ≡ ok (some node) m → TookOne env l node m)
    → Tried env l r
run-Tried (panic m) p n s = p m refl
run-Tried (ok none m) p n s = n m refl
run-Tried (ok (some node) m) p n s = s node m refl

run-Claimed :
    {env : Environment} {l : Locks} (r : Run Locks Claim)
    → ((m : Locks) → r ≡ panic m → m ≡ l)
    → ((node : PoolNode) (m : Locks) → r ≡ ok (waiting node) m → (0 < pool_size env) × (m ≡ l))
    → ((node : PoolNode) (m : Locks) → r ≡ ok (claimed node) m → TookOne env l node m)
    → Claimed env l r
run-Claimed (panic m) p w s = p m refl
run-Claimed (ok (waiting node) m) p w s = w node m refl
run-Claimed (ok (claimed node) m) p w s = s node m refl

try_claim-Tried :
    (env : Environment) (i : ℕ) (l : Locks) → i < pool_size env → Tried env l (try_claim env i l)
try_claim-Tried env i l inside =
    run-Tried (try_claim env i l) (λ m h. try_claim-panic env l m i h)
      (λ m h. try_claim-none env l m i h) (λ node m h. (i, inside, try_claim-Took env l m i node h))

sum-cases :
    (checks : Bool) (a b : ℕ) (l : Locks)
    → (add_usize checks a b l ≡ panic l) ⊎ ((sum : ℕ) × (add_usize checks a b l ≡ ok sum l))
unfolding add_usize
sum-cases checks a b l = elim (Bool-cases (ltb (a + b) usize_mod)) [
  | inl fits ↦ inr (a + b, rw fits refl)
  | inr over ↦ elim (Bool-cases checks) [
    | inl checked ↦ inl (rw (over, checked) refl)
    | inr unchecked ↦ inr ((a + b) % usize_mod, rw (over, unchecked) refl)
  ]
]

Tried-chain :
    (env : Environment) (l : Locks) (r : Run Locks (Option PoolNode))
    (rest : Cmd Locks (Option PoolNode))
    → Tried env l r
    → ((m : Locks) → Tried env m (rest m))
    → Tried env l (and_then r (λ found. elim found [ none ↦ rest | some node ↦ pure (some node) ]))
Tried-chain env l (panic m) rest h k = h
Tried-chain env l (ok none m) rest h k = subst (λ x. Tried env x (rest m)) h (k m)
Tried-chain env l (ok (some node) m) rest h k = h

probe-Tried :
    (env : Environment) (start left offset : ℕ) (l : Locks)
    → left ≤ pool_size env
    → Tried env l (probe env start (pool_size env) left offset l)
unfolding probe
probe-Tried env start zero offset l few = refl
probe-Tried env start (suc left) offset l few = elim (sum-cases env.checks start offset l) [
  | inl overflowed ↦ rw overflowed refl
  | inr (sum, summed) ↦ rw summed (
      Tried-chain env l (try_claim env (sum % pool_size env) l)
        (probe env start (pool_size env) left (suc offset))
        (try_claim-Tried env (sum % pool_size env) l (mod-lt sum (omega arith)))
        (λ m. probe-Tried env start left (suc offset) m (omega arith)))
]

block_claim-Claimed :
    (env : Environment) (i : ℕ) (l : Locks)
    → i < pool_size env
    → Claimed env l (block_claim env i l)
block_claim-Claimed env i l inside =
    run-Claimed (block_claim env i l) (λ m h. block_claim-panic env l m i h)
      (λ node m h. (omega arith, block_claim-waiting env l m i node h))
      (λ node m h. (i, inside, block_claim-Took env l m i node h))

block_first-Claimed : (env : Environment) (l : Locks) → Claimed env l (block_first env l)
unfolding block_first
block_first-Claimed env l = elim (Bool-cases (pool_size env == 0)) [
  | inl empty ↦ rw empty refl
  | inr positive ↦ rw positive (
      block_claim-Claimed env (env.pid % pool_size env) l
        (mod-lt env.pid (ground (arith, positive))))
]

Claimed-chain :
    (env : Environment) (l : Locks) (r : Run Locks (Option PoolNode)) (rest : Cmd Locks Claim)
    → Tried env l r
    → ((m : Locks) → Claimed env m (rest m))
    → Claimed env l
        (and_then r (λ found. elim found [ none ↦ rest | some node ↦ pure (claimed node) ]))
Claimed-chain env l (panic m) rest h k = h
Claimed-chain env l (ok none m) rest h k = subst (λ x. Claimed env x (rest m)) h (k m)
Claimed-chain env l (ok (some node) m) rest h k = h

-- In any environment, with any files missing or refusing: a claim that returns a node returns one of the
-- pool, whose device exists and whose lock was free and is held now, and no other lock changed. If the
-- claim waits the pool is not empty and no lock changed; and so no lock is left behind by a panic.
pub acquire-bounds : (env : Environment) (l : Locks) → Claimed env l (acquire env l)
unfolding acquire
acquire-bounds env l = elim (Bool-cases (env.exists (mount_path env))) [
  | inl mounted ↦ rw mounted (
      Claimed-chain env l (probe env env.pid (pool_size env) (pool_size env) 0 l) (block_first env)
        (probe-Tried env env.pid (pool_size env) 0 l (omega arith))
        (λ m. block_first-Claimed env m))
  | inr missing ↦ rw missing refl
]
