-- ===== src/TestPool.antt =====
-- src/test_pool.rs: the claims of test processes on a pool of device nodes. `Environment` has what the
-- process finds: its variables, its number and the files; the locks on the files are the state. A
-- claim that blocks is a value, and is over when its lock is free.
pub mod Decimal
pub mod Names
pub mod Rotation
pub mod Claims
pub mod Exclusive
mod Tests
use binderbinder.Base.{
  ℕ, zero, suc, ◌+◌, ◌%◌, ◌==◌, ◌&&◌, ltb, leb, Bool, true, false, Option, none, some, List, [],
  ◌∷◌, ◌++◌, Cmd, pure, fail, ok, panic, ◌>>=◌, if◌then◌else◌, Map, insert, remove,
}
use binderbinder.Base.Words.{usize_mod}
use binderbinder.TestPool.Decimal.{display, parse}

-- `bb-test-`, `.lock`, `/dev/binderfs` and `binderbinder-test-pool`.
abbrev pub pool_prefix : List ℕ
pool_prefix = 98 ∷ 98 ∷ 45 ∷ 116 ∷ 101 ∷ 115 ∷ 116 ∷ 45 ∷ []

abbrev pub lock_suffix : List ℕ
lock_suffix = 46 ∷ 108 ∷ 111 ∷ 99 ∷ 107 ∷ []

abbrev pub default_binderfs_path : List ℕ
default_binderfs_path =
    47 ∷ 100 ∷ 101 ∷ 118 ∷ 47 ∷ 98 ∷ 105 ∷ 110 ∷ 100 ∷ 101 ∷ 114 ∷ 102 ∷ 115 ∷ []

abbrev pub default_lock_dir : List ℕ
default_lock_dir =
    98 ∷ 105 ∷ 110 ∷ 100 ∷ 101 ∷ 114 ∷ 98 ∷ 105 ∷ 110 ∷ 100 ∷ 101 ∷ 114 ∷ 45 ∷ 116 ∷ 101 ∷ 115 ∷ 116
    ∷ 45 ∷ 112 ∷ 111 ∷ 111 ∷ 108 ∷ []

abbrev pub default_pool_size : ℕ
default_pool_size = 16

-- What a process finds. `opens`: a lock file can be opened, its directory made if it must be.
-- `lock_fails`: the file system refuses a lock, which is no sign that it is held.
pub record Environment : Type 0 where
  pub checks : Bool
  pub size_var : Option (List ℕ)
  pub mount_var : Option (List ℕ)
  pub lock_dir_var : Option (List ℕ)
  pub temp_dir : List ℕ
  pub pid : ℕ
  pub exists : List ℕ → Bool
  pub opens : List ℕ → Bool
  pub lock_fails : List ℕ → Bool

pub record PoolNode : Type 0 where
  pub index : ℕ
  pub path : List ℕ
  pub lock : List ℕ

pub data Claim : Type 0 where
  claimed : PoolNode → Claim
  waiting : PoolNode → Claim

-- The files that are locked, by any process: two processes lock the same file exactly if they open the
-- same path.
abbrev pub Locks : Type 0
Locks = List ℕ → Bool

abbrev pub same_path : List ℕ → List ℕ → Bool
same_path [] [] = true
same_path (a ∷ path) (b ∷ other) = (a == b) && same_path path other
same_path _ _ = false

abbrev pub separator : List ℕ → List ℕ
separator [] = []
separator (c ∷ []) = if c == 47 then [] else (47 ∷ [])
separator (c ∷ (d ∷ cs)) = separator (d ∷ cs)

abbrev pub is_absolute : List ℕ → Bool
is_absolute [] = false
is_absolute (c ∷ cs) = c == 47

-- `Path::join`: a name that is absolute replaces the path.
abbrev pub join : List ℕ → List ℕ → List ℕ
join path name = if is_absolute name then name else path ++ (separator path ++ name)

abbrev pub or_else : {A : Type 0} → Option A → A → A
or_else none a = a
or_else (some b) a = b

abbrev pub bind : {A B : Type 0} → Option A → (A → Option B) → Option B
bind none f = none
bind (some a) f = f a

unfoldable pub pool_size : Environment → ℕ
pool_size env = or_else (bind env.size_var parse) default_pool_size

unfoldable pub mount_path : Environment → List ℕ
mount_path env = or_else env.mount_var default_binderfs_path

unfoldable pub node_path : Environment → ℕ → List ℕ
node_path env index = join (mount_path env) (pool_prefix ++ display index)

unfoldable pub lock_dir : Environment → List ℕ
lock_dir env = or_else env.lock_dir_var (join env.temp_dir default_lock_dir)

unfoldable pub lock_path : Environment → ℕ → List ℕ
lock_path env index = join (lock_dir env) (pool_prefix ++ (display index ++ lock_suffix))

abbrev pub node_at : Environment → ℕ → PoolNode
node_at env index = record { index = index; path = node_path env index; lock = lock_path env index }

abbrev pub hold : List ℕ → Locks → Locks
hold file l other = if same_path other file then true else l other

abbrev pub let_go : List ℕ → Locks → Locks
let_go file l other = if same_path other file then false else l other

unfoldable pub open_lock_file : Environment → ℕ → Cmd Locks (List ℕ)
open_lock_file env index =
    if env.opens (lock_path env index) then pure (lock_path env index) else fail

-- `File::try_lock`: the lock, or that it would block.
unfoldable pub try_lock : Environment → ℕ → List ℕ → Cmd Locks (Option PoolNode)
try_lock env index file l =
    if env.lock_fails file
    then panic l
    else if l file
    then ok none l
    else ok (some (record { index = index; path = node_path env index; lock = file })) (hold file l)

unfoldable pub try_claim : Environment → ℕ → Cmd Locks (Option PoolNode)
try_claim env index =
    if env.exists (node_path env index)
    then open_lock_file env index >>= try_lock env index
    else pure none

-- `File::lock`: the lock, or the wait for it.
unfoldable pub lock : Environment → ℕ → List ℕ → Cmd Locks Claim
lock env index file l =
    if env.lock_fails file
    then panic l
    else if l file
    then ok (waiting (record { index = index; path = node_path env index; lock = file })) l
    else ok (claimed (record { index = index; path = node_path env index; lock = file }))
        (hold file l)

unfoldable pub block_claim : Environment → ℕ → Cmd Locks Claim
block_claim env index =
    if env.exists (node_path env index) then open_lock_file env index >>= lock env index else fail

unfoldable pub add_usize : Bool → ℕ → ℕ → Cmd Locks ℕ
add_usize checks a b =
    if ltb (a + b) usize_mod
    then pure (a + b)
    else if checks
    then fail
    else pure ((a + b) % usize_mod)

-- The turns that are left, and the offset of the next.
unfoldable pub probe : Environment → ℕ → ℕ → ℕ → ℕ → Cmd Locks (Option PoolNode)
probe env start size zero offset = pure none
probe env start size (suc left) offset =
    let rest = probe env start size left (suc offset) in
    add_usize env.checks start offset >>= λ sum. try_claim env (sum % size) >>= λ found.
    elim found [ none ↦ rest | some node ↦ pure (some node) ]

-- A remainder by zero panics.
unfoldable pub block_first : Environment → Cmd Locks Claim
block_first env = if pool_size env == 0 then fail else block_claim env (env.pid % pool_size env)

unfoldable pub acquire : Environment → Cmd Locks Claim
acquire env =
    if env.exists (mount_path env)
    then (probe env env.pid (pool_size env) (pool_size env) 0 >>= λ found. elim found [
      | none ↦ block_first env
      | some node ↦ pure (claimed node)
    ])
    else fail

unfoldable pub drop_node : PoolNode → Cmd Locks (Unit {0})
drop_node node l = ok tt (let_go node.lock l)
