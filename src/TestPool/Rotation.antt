-- ===== src/TestPool/Rotation.antt =====
-- src/test_pool.rs: which node a claim takes.
use binderbinder.Base.{
  ℕ, zero, suc, ◌+◌, ◌-◌, ◌%◌, ◌<◌, ◌≤◌, ◌≡◌, ◌⊎◌, inl, inr, refl, Bool, true, false, not, ◌&&◌,
  none, some, ok, panic, arith, Bool-cases, if◌then◌else◌, lt→ltb, List, ◌==◌,
}
use binderbinder.Base.Words.{usize_mod}
use binderbinder.TestPool.{
  Environment, Locks, claimed, waiting, node_path, mount_path, lock_path, node_at, hold,
  open_lock_file, try_lock, try_claim, lock, block_claim, add_usize, probe, block_first, acquire,
  pool_size,
}
use native.Mathlib.Nat.{mod-eq_of_lt, mod-add-mod, mod-eq-sub-mod, mod-lt}

-- The rotation comes by every node.
turn_reaches : (start size i : ℕ) → i < size → (k : ℕ) × (k < size) × ((start + k) % size ≡ i)
turn_reaches start size i h =
    let x : ℕ = i + size - start % size in
    let below : start % size < size = mod-lt start (omega arith) in
    let there : (x % size + start) % size ≡ (x + start) % size = mod-add-mod x size start in
    let back : (start % size + x) % size ≡ (start + x) % size = mod-add-mod start size x in
    let around : start % size + x ≡ i + size = omega arith in
    let first : (i + size) % size ≡ (i + size - size) % size =
      mod-eq-sub-mod {n = i + size} (omega arith) in
    let own : (i + size - size) % size ≡ i = grind (arith, mod-eq_of_lt {n = i} h) in
    (x % size, mod-lt x (omega arith), grind (arith, there, back, around, first, own))

-- Nothing refuses but a lock that is held.
pub record IsQuiet (env : Environment) : Type 0 where
  pub opens : (file : List ℕ) → env.opens file ≡ true
  pub locks : (file : List ℕ) → env.lock_fails file ≡ false

-- A node that a claim can take.
abbrev pub usable : Environment → Locks → ℕ → Bool
usable env l i = env.exists (node_path env i) && not (l (lock_path env i))

module _ (env : Environment) (quiet : IsQuiet env) (l : Locks) where
  try_claim-usable :
      (i : ℕ)
      → usable env l i ≡ true
      → try_claim env i l ≡ ok (some (node_at env i)) (hold (lock_path env i) l)
  unfolding try_claim open_lock_file try_lock
  try_claim-usable i free =
      ground (arith, free, quiet.opens (lock_path env i), quiet.locks (lock_path env i))

  try_claim-busy : (i : ℕ) → usable env l i ≡ false → try_claim env i l ≡ ok none l
  unfolding try_claim open_lock_file try_lock
  try_claim-busy i busy =
      ground (arith, busy, quiet.opens (lock_path env i), quiet.locks (lock_path env i))

  module _ (start size : ℕ) where
    -- The node that is looked at on a turn.
    abbrev pub spot : ℕ → ℕ
    spot k = (start + k) % size

    abbrev pub AllBusy : ℕ → ℕ → Type 0
    AllBusy offset n = (j : ℕ) → j < n → usable env l (spot (j + offset)) ≡ false

    AllBusy-suc :
        (offset n : ℕ)
        → usable env l (spot offset) ≡ false
        → AllBusy (suc offset) n
        → AllBusy offset (suc n)
    AllBusy-suc offset n h rest zero small =
        let none_before : 0 + offset ≡ offset = omega arith in rw none_before h
    AllBusy-suc offset n h rest (suc j) small =
        let here : suc j + offset ≡ j + suc offset = omega arith in rw here (rest j (omega arith))

    pub probe_lem :
        (left offset : ℕ)
        → start + (offset + left) ≤ usize_mod
        → ((k : ℕ) × (k < left)
            × (probe env start size left offset l
                ≡ ok
                    (some (node_at env (spot (k + offset))))
                    (hold (lock_path env (spot (k + offset))) l))
            × (usable env l (spot (k + offset)) ≡ true)
            × AllBusy offset k)
          ⊎ ((probe env start size left offset l ≡ ok none l) × AllBusy offset left)
    unfolding probe add_usize
    probe_lem zero offset fits = inr (refl, λ j h. absurd (omega (arith, h)))
    probe_lem (suc left) offset fits =
        let inside = lt→ltb (start + offset) usize_mod (omega arith) in
        elim (Bool-cases (usable env l (spot offset))) [
          | inl free ↦
              let none_before : 0 + offset ≡ offset = omega arith in
              inl (
                zero,
                omega arith,
                rw (none_before, inside, try_claim-usable (spot offset) free) refl,
                rw none_before free,
                λ j h. absurd (omega (arith, h)),
              )
          | inr busy ↦ elim (probe_lem left (suc offset) (omega arith)) [
            | inl (k, small, run, free, before) ↦
                let here : suc k + offset ≡ k + suc offset = omega arith in
                inl (
                  suc k,
                  omega arith,
                  rw (here, inside, try_claim-busy (spot offset) busy) run,
                  rw here free,
                  AllBusy-suc offset k busy before,
                )
            | inr none_left ↦ inr (
              rw (inside, try_claim-busy (spot offset) busy) none_left.0,
              AllBusy-suc offset left busy none_left.1,
            )
          ]
        ]

usable-parts :
    (env : Environment) (l : Locks) (i : ℕ)
    → usable env l i ≡ true
    → (env.exists (node_path env i) ≡ true) × (l (lock_path env i) ≡ false)
usable-parts env l i h = ground (arith, h)

block_first-busy :
    (env : Environment)
    → IsQuiet env
    → (l : Locks) → 0 < pool_size env
    → usable env l (env.pid % pool_size env) ≡ false
    → block_first env l ≡ (
        if env.exists (node_path env (env.pid % pool_size env))
        then ok (waiting (node_at env (env.pid % pool_size env))) l
        else panic l)
unfolding block_first block_claim open_lock_file lock
block_first-busy env quiet l some_nodes busy =
    let i : ℕ = env.pid % pool_size env in
    let positive : (pool_size env == 0) ≡ false = ground (arith, some_nodes) in
    elim (Bool-cases (env.exists (node_path env i))) [
      | inl there ↦
          let held : l (lock_path env i) ≡ true = ground (arith, busy, there) in
          rw (positive, there, quiet.opens (lock_path env i), quiet.locks (lock_path env i), held)
            refl
      | inr missing ↦ rw (positive, missing) refl
    ]

-- The first usable node of the rotation is taken, or none is usable and the claim waits.
abbrev pub TakesFirst : Environment → Locks → Type 0
TakesFirst env l =
    ((k : ℕ) × (k < pool_size env)
      × (acquire env l
          ≡ ok (claimed (node_at env ((env.pid + k) % pool_size env)))
              (hold (lock_path env ((env.pid + k) % pool_size env)) l))
      × (env.exists (node_path env ((env.pid + k) % pool_size env)) ≡ true)
      × (l (lock_path env ((env.pid + k) % pool_size env)) ≡ false)
      × ((j : ℕ) → j < k → usable env l ((env.pid + j) % pool_size env) ≡ false))
    ⊎ (((i : ℕ) → i < pool_size env → usable env l i ≡ false)
        × (acquire env l ≡ (
            if env.exists (node_path env (env.pid % pool_size env))
            then ok (waiting (node_at env (env.pid % pool_size env))) l
            else panic l)))

-- Nothing refuses but a held lock, the pool has nodes and no index leaves a usize: a claim takes the
-- first node, from the process's own number on and round the pool, that exists and is not held, and
-- holds that lock alone. Only if no node of the pool is such does it wait, for the node at which it
-- began, or panic if that one does not exist; no lock changes then.
pub acquire-first :
    (env : Environment) (l : Locks)
    → IsQuiet env
    → env.exists (mount_path env) ≡ true
    → 0 < pool_size env
    → env.pid + pool_size env ≤ usize_mod
    → TakesFirst env l
unfolding acquire
acquire-first env l quiet mounted some_nodes fits =
    let size : ℕ = pool_size env in
    elim (probe_lem env quiet l env.pid size size 0 (omega arith)) [
      | inl (k, small, run, free, before) ↦
          let none_after : k + 0 ≡ k = omega arith in
          let taken = rw none_after at run in
          let parts = usable-parts env l ((env.pid + k) % size) (rw none_after at free) in
          inl (
            k,
            small,
            rw (mounted, taken) refl,
            parts.0,
            parts.1,
            λ j h. let none_after : j + 0 ≡ j = omega arith in rw none_after at (before j h),
          )
      | inr (run, busy) ↦
          let all_busy : (i : ℕ) → i < size → usable env l i ≡ false = λ i h.
            let (k, small, reached) = turn_reaches env.pid size i h in
            let none_after : k + 0 ≡ k = omega arith in
            rw (none_after, reached) at (busy k small) in
          inr (
            all_busy,
            rw (mounted, run)
                (block_first-busy env quiet l some_nodes
                  (all_busy (env.pid % size) (mod-lt env.pid some_nodes))),
          )
    ]
