-- ===== src/TestPool/Exclusive.antt =====
-- src/test_pool.rs: any run of claims and drops, of any processes.
use binderbinder.Base.{
  List, ap, ◌∙◌, ℕ, suc, ◌-◌, ◌<◌, ◌≡◌, refl, false, none, some, ok, arith, if◌then◌else◌, ◌==◌,
}
use binderbinder.TestPool.{
  Environment, Locks, claimed, waiting, try_claim, block_claim, PoolNode, drop_node, node_at,
  lock_dir, lock_path, same_path,
}
use binderbinder.Base.Words.{usize_mod}
use binderbinder.TestPool.Names.{lock_in, lock_in-apart}
use binderbinder.TestPool.Claims.{
  Took, try_claim-Took, try_claim-none, block_claim-Took, block_claim-waiting,
}

-- The locks, and how many live `PoolNode`s each index has.
pub record World : Type 0 where
  pub locks : Locks
  pub nodes : ℕ → ℕ

abbrev pub more : ℕ → (ℕ → ℕ) → ℕ → ℕ
more index f i = if i == index then suc (f i) else f i

abbrev pub fewer : ℕ → (ℕ → ℕ) → ℕ → ℕ
fewer index f i = if i == index then f i - 1 else f i

abbrev pub start : World
start = record { locks = λ file. false; nodes = λ i. 0 }

-- An index of a process whose lock files are in `dir`; all else of its environment is its own.
abbrev pub Shares : List ℕ → Environment → ℕ → Type 0
Shares dir env i = (lock_dir env ≡ dir) × (i < usize_mod)

-- A claim is a sequence of tries, between which others come; the last of them may block, and a wait is
-- over by another such step, once it finds the lock free.
pub data Reach (dir : List ℕ) : World → Type 0 where
  started : Reach dir start
  tried :
      {w : World}
      → Reach dir w
      → (env : Environment) (i : ℕ) (node : PoolNode) (l : Locks) → Shares dir env i
      → try_claim env i w.locks ≡ ok (some node) l
      → Reach dir (record { locks = l; nodes = more node.index w.nodes })
  missed :
      {w : World}
      → Reach dir w
      → (env : Environment) (i : ℕ) (l : Locks) → try_claim env i w.locks ≡ ok none l
      → Reach dir (record { locks = l; nodes = w.nodes })
  blocked :
      {w : World}
      → Reach dir w
      → (env : Environment) (i : ℕ) (node : PoolNode) (l : Locks) → Shares dir env i
      → block_claim env i w.locks ≡ ok (claimed node) l
      → Reach dir (record { locks = l; nodes = more node.index w.nodes })
  waited :
      {w : World}
      → Reach dir w
      → (env : Environment) (i : ℕ) (node : PoolNode) (l : Locks)
      → block_claim env i w.locks ≡ ok (waiting node) l
      → Reach dir (record { locks = l; nodes = w.nodes })
  dropped :
      {w : World}
      → Reach dir w
      → (env : Environment) (i : ℕ) (l : Locks) → Shares dir env i
      → 0 < w.nodes i
      → drop_node (node_at env i) w.locks ≡ ok tt l
      → Reach dir (record { locks = l; nodes = fewer i w.nodes })

Matches : List ℕ → World → Type 0
Matches dir w = (i : ℕ) → i < usize_mod → w.nodes i ≡ (if w.locks (lock_in dir i) then 1 else 0)

shared_file :
    (dir : List ℕ) (env : Environment) (i : ℕ) → Shares dir env i → lock_path env i ≡ lock_in dir i
unfolding lock_path
shared_file dir env i shares = ap (λ x. lock_in x i) shares.0

module _ (dir : List ℕ) (env : Environment) (i j : ℕ) (shares : Shares dir env i)
    (small : j < usize_mod) where
  -- Of the files in the directory a step changes that of its own index.
  own_file : same_path (lock_in dir j) (lock_path env i) ≡ (j == i)
  own_file =
      ap (same_path (lock_in dir j)) (shared_file dir env i shares)
      ∙ lock_in-apart dir j i small shares.1

  own_lock : (l : Locks) → l (lock_path env i) ≡ l (lock_in dir i)
  own_lock l = ap l (shared_file dir env i shares)

Took-Matches :
    {dir : List ℕ} {env : Environment} {i : ℕ} {node : PoolNode} {l : Locks} (w : World)
    → Shares dir env i
    → Matches dir w
    → Took env w.locks i node l
    → Matches dir (record { locks = l; nodes = more node.index w.nodes })
unfolding Matches
Took-Matches {dir} {env} {i} {node} {l} w shares before took j small = ground (
  arith,
  before j small,
  took.is_node,
  took.was_free,
  took.held,
  own_file dir env i j shares small,
  own_lock dir env i j shares small w.locks,
)

-- The processes may have any environments, but the same directory for their lock files, and an index is
-- a usize. However their tries, waits and drops come between each other, a node has one live
-- `PoolNode` while its lock file, by the name it has in that directory, is held and none while it is
-- free; so two tests never hold the same node.
pub pool_exclusive :
    (dir : List ℕ) (w : World)
    → Reach dir w
    → (i : ℕ) → i < usize_mod
    → w.nodes i ≡ (if w.locks (lock_in dir i) then 1 else 0)
unfolding Matches drop_node
pool_exclusive dir _ started i small = refl
pool_exclusive dir _ (tried {w} r env k node l shares e) i small =
    Took-Matches w shares (pool_exclusive dir w r) (try_claim-Took env w.locks l k node e) i small
pool_exclusive dir _ (missed {w} r env k l e) i small =
    rw (try_claim-none env w.locks l k e) (pool_exclusive dir w r i small)
pool_exclusive dir _ (blocked {w} r env k node l shares e) i small =
    Took-Matches w shares (pool_exclusive dir w r) (block_claim-Took env w.locks l k node e) i small
pool_exclusive dir _ (waited {w} r env k node l e) i small =
    rw (block_claim-waiting env w.locks l k node e) (pool_exclusive dir w r i small)
pool_exclusive dir _ (dropped {w} r env k l shares live e) i small =
    ground (arith, pool_exclusive dir w r i small, live, e, own_file dir env k i shares small)
