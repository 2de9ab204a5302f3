-- ===== src/Refcount.antt =====
-- src/device.rs: `RefCounts` and `ObjectRefState`, the strong count of one local object. The mutex
-- makes each method one step; a panic while it is held poisons it. The `watch` channel is the
-- value that it holds.
pub mod History
pub mod Rollback
pub mod Poison
use binderbinder.Base.{
  ℕ, Bool, true, false, not, Option, none, some, ◌==◌, if◌then◌else◌, Run, ok, panic, Cmd,
}
use binderbinder.Base.Words.{add_u32, sub_u32, saturating_sub}

-- `BinderObjectId`: the address and the cookie of a local object.
pub record ObjectId : Type 0 where
  pub id : ℕ
  pub cookie : ℕ

pub record RefCounts : Type 0 where
  pub local : ℕ
  pub remote : ℕ
  pub pending : ℕ

abbrev pub no_counts : RefCounts
no_counts = record { local = 0; remote = 0; pending = 0 }

-- `strong_count` is what subscribers read; `poisoned` is the mutex's flag.
pub record ObjectRefState : Type 0 where
  pub obj_id : ObjectId
  pub counts : RefCounts
  pub poisoned : Bool
  pub strong_count : ℕ

unfoldable pub new : ObjectId → ObjectRefState
new id = record { obj_id = id; counts = no_counts; poisoned = false; strong_count = 0 }

-- Options as panicking expressions inside the closure of `update`.
infixl 5 ◌>>=?◌
abbrev ◌>>=?◌ : {A B : Type 0} → Option A → (A → Option B) → Option B
none >>=? f = none
some a >>=? f = f a

unfoldable pub total : Bool → RefCounts → Option ℕ
total checks c = add_u32 checks c.local c.remote >>=? λ t. add_u32 checks t c.pending

-- The closure has run: its result is stored, and the total published under the same lock.
publish : ObjectRefState → RefCounts → Option ℕ → Run ObjectRefState RefCounts
publish s c none = panic (record s { counts = c; poisoned = true })
publish s c (some t) = ok c (record s { counts = c; strong_count = t })

settle : Bool → ObjectRefState → Option RefCounts → Run ObjectRefState RefCounts
unfolding publish total
settle checks s none = panic (record s { poisoned = true })
settle checks s (some c) = publish s c (total checks c)

unfoldable pub update : Bool → (RefCounts → Option RefCounts) → Cmd ObjectRefState RefCounts
unfolding settle
update checks f s = if s.poisoned then panic s else settle checks s (f s.counts)

module _ (checks : Bool) where
  unfoldable pub increase_local : Cmd ObjectRefState RefCounts
  unfolding update
  increase_local =
      update checks λ c. add_u32 checks c.local 1 >>=? λ n. some (record c { local = n })

  unfoldable pub decrease_local : Cmd ObjectRefState RefCounts
  unfolding update
  decrease_local =
      update checks λ c. sub_u32 checks c.local 1 >>=? λ n. some (record c { local = n })

  -- A full reset of `pending`, after the increment.
  unfoldable pub increase_remote : Cmd ObjectRefState RefCounts
  unfolding update
  increase_remote =
      update checks
        λ c. add_u32 checks c.remote 1 >>=? λ n. some (record c { remote = n; pending = 0 })

  unfoldable pub decrease_remote : Cmd ObjectRefState RefCounts
  unfolding update
  decrease_remote =
      update checks λ c. sub_u32 checks c.remote 1 >>=? λ n. some (record c { remote = n })

  unfoldable pub mark_pending_remote : Cmd ObjectRefState RefCounts
  unfolding update
  mark_pending_remote = update checks λ c.
      if c.remote == 0
      then (add_u32 checks c.pending 1 >>=? λ n. some (record c { pending = n }))
      else some c

  unfoldable pub clear_pending_remote : Cmd ObjectRefState RefCounts
  unfolding update
  clear_pending_remote = update checks λ c. some (record c { pending = saturating_sub c.pending 1 })

-- `wait_for`: a receiver is done as soon as the current value passes its test.
unfoldable pub hit_zero : ObjectRefState → Bool
hit_zero s = s.strong_count == 0

unfoldable pub not_zero : ObjectRefState → Bool
not_zero s = not (s.strong_count == 0)
