-- ===== src/Refcount/Poison.antt =====
-- src/device.rs: what an unbalanced decrement does to `ObjectRefState`.
use binderbinder.Base.{◌≡◌, refl, Bool, true, false, arith, panic, final}
use binderbinder.Base.Words.{sub_u32}
use binderbinder.Refcount.{ObjectRefState, update}
use binderbinder.Refcount.History.{Call, down_local, call}

-- A call on a poisoned mutex panics, and changes nothing.
pub poisoned_call :
    (checks : Bool) (k : Call) (s : ObjectRefState) → s.poisoned ≡ true → call checks k s ≡ panic s
unfolding call update
poisoned_call checks Call.up_local s p = ground arith
poisoned_call checks Call.down_local s p = ground arith
poisoned_call checks Call.acquire s p = ground arith
poisoned_call checks Call.release s p = ground arith
poisoned_call checks Call.mark s p = ground arith
poisoned_call checks Call.rollback s p = ground arith

underflow :
    (s : ObjectRefState)
    → s.poisoned ≡ false
    → s.counts.local ≡ 0
    → call true down_local s ≡ panic (record s { poisoned = true })
unfolding call update sub_u32
underflow s h z = ground arith

-- With overflow checks, a local decrement at zero panics with the counts and the published value
-- untouched, and from then on every call of any thread on that object panics and changes nothing.
underflow_poisons :
    (s : ObjectRefState)
    → s.poisoned ≡ false
    → s.counts.local ≡ 0
    → (call true down_local s ≡ panic (record s { poisoned = true }))
      × ((checks : Bool) (k : Call)
          → call checks k (final (call true down_local s)) ≡ panic (record s { poisoned = true }))
underflow_poisons s h z =
    (underflow s h z, λ checks k. rw (underflow s h z) (poisoned_call checks k _ refl))
