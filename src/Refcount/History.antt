-- ===== src/Refcount/History.antt =====
-- src/device.rs: `ObjectRefState` under any history of calls. A thread that calls a method holds the
-- mutex, so an interleaving of threads is a list of calls.
use binderbinder.Base.{
  ℕ, ◌+◌, ◌-◌, ◌<◌, ◌≡◌, refl, sym, ap, ◌↔◌, Bool, true, false, List, [], ◌∷◌, arith, ◌==◌,
  if◌then◌else◌, ok, Cmd, pure, ◌>>◌,
}
use binderbinder.Base.Words.{u32_mod, add_u32, sub_u32}
use binderbinder.Refcount.{
  ObjectId, RefCounts, no_counts, ObjectRefState, new, update, increase_local, decrease_local,
  increase_remote, decrease_remote, mark_pending_remote, clear_pending_remote, hit_zero, total,
}

-- One call: of a local guard, of BR_ACQUIRE and BR_RELEASE, of a send and of its failure.
pub data Call : Type 0 where
  up_local down_local acquire release mark rollback : Call

module _ (checks : Bool) where
  unfoldable pub call : Call → Cmd ObjectRefState RefCounts
  unfolding increase_local decrease_local increase_remote decrease_remote mark_pending_remote
      clear_pending_remote
  call up_local = increase_local checks
  call down_local = decrease_local checks
  call acquire = increase_remote checks
  call release = decrease_remote checks
  call mark = mark_pending_remote checks
  call rollback = clear_pending_remote checks

  unfoldable pub run : List Call → Cmd ObjectRefState (Unit {0})
  run [] = pure tt
  run (c ∷ cs) = call c >> run cs

-- What the call is meant to do to the counts, over unbounded numbers.
abbrev pub effect : Call → RefCounts → RefCounts
effect up_local c = record c { local = c.local + 1 }
effect down_local c = record c { local = c.local - 1 }
effect acquire c = record c { remote = c.remote + 1; pending = 0 }
effect release c = record c { remote = c.remote - 1 }
effect mark c = if c.remote == 0 then record c { pending = c.pending + 1 } else c
effect rollback c = record c { pending = c.pending - 1 }

abbrev pub effects : List Call → RefCounts → RefCounts
effects [] c = c
effects (k ∷ ks) c = effects ks (effect k c)

abbrev pub sum : RefCounts → ℕ
sum c = c.local + c.remote + c.pending

-- A guard is dropped once, the kernel releases what it acquired, and the counts stay below 2^32.
abbrev pub IsAllowed : Call → RefCounts → Type 0
IsAllowed down_local c = 0 < c.local
IsAllowed release c = 0 < c.remote
IsAllowed rollback c = Unit
IsAllowed _ c = sum c + 1 < u32_mod

abbrev pub AllAllowed : List Call → RefCounts → Type 0
AllAllowed [] c = Unit
AllAllowed (k ∷ ks) c = IsAllowed k c × AllAllowed ks (effect k c)

-- The published count is the sum, and a credit is only held while there is no remote ref.
pub record IsSound (s : ObjectRefState) : Type 0 where
  pub healthy : s.poisoned ≡ false
  pub published : s.strong_count ≡ sum s.counts
  pub fits : sum s.counts < u32_mod
  pub exclusive : 0 < s.counts.remote → s.counts.pending ≡ 0

pub new-IsSound : (id : ObjectId) → IsSound (new id)
unfolding new
new-IsSound id = ground arith

-- The counts, published.
abbrev pub settled : ObjectRefState → RefCounts → ObjectRefState
settled s c = record s { counts = c; strong_count = sum c }

abbrev pub after : Call → ObjectRefState → ObjectRefState
after k s = settled s (effect k s.counts)

pub call-effect :
    (checks : Bool) (k : Call) (s : ObjectRefState)
    → IsSound s
    → IsAllowed k s.counts
    → call checks k s ≡ ok (effect k s.counts) (after k s)
unfolding call update total add_u32 sub_u32
call-effect checks up_local s v h = ground arith
call-effect checks down_local s v h = ground arith
call-effect checks acquire s v h = ground arith
call-effect checks release s v h = ground arith
call-effect checks mark s v h = ground arith
call-effect checks rollback s v h = ground arith

pub after-IsSound :
    (k : Call) (s : ObjectRefState) → IsSound s → IsAllowed k s.counts → IsSound (after k s)
after-IsSound up_local s v h = ground arith
after-IsSound down_local s v h = ground arith
after-IsSound acquire s v h = ground arith
after-IsSound release s v h = ground arith
after-IsSound mark s v h = ground arith
after-IsSound rollback s v h = ground arith

settled_self : (s : ObjectRefState) → IsSound s → settled s s.counts ≡ s
settled_self s v = ground arith

-- A history that is allowed never panics, in debug or in release builds; it does to the counts
-- what its calls are meant to do, and publishes the sum.
pub run-effects :
    (checks : Bool) (ks : List Call) (s : ObjectRefState)
    → IsSound s
    → AllAllowed ks s.counts
    → run checks ks s ≡ ok tt (settled s (effects ks s.counts))
unfolding run
run-effects checks [] s v h = ap (ok tt) (sym (settled_self s v))
run-effects checks (k ∷ ks) s v h =
    rw (call-effect checks k s v h.0)
      (run-effects checks ks (after k s) (after-IsSound k s v h.0) h.1)

pub effects-IsSound :
    (ks : List Call) (s : ObjectRefState)
    → IsSound s
    → AllAllowed ks s.counts
    → IsSound (settled s (effects ks s.counts))
effects-IsSound [] s v h = rw (settled_self s v) v
effects-IsSound (k ∷ ks) s v h = effects-IsSound ks (after k s) (after-IsSound k s v h.0) h.1

abbrev same_call : Call → Call → Bool
same_call up_local up_local = true
same_call down_local down_local = true
same_call acquire acquire = true
same_call release release = true
same_call mark mark = true
same_call rollback rollback = true
same_call _ _ = false

-- How often a call stands in a history.
abbrev pub tally : Call → List Call → ℕ
tally k [] = 0
tally k (j ∷ ks) = (if same_call k j then 1 else 0) + tally k ks

local-tally :
    (ks : List Call) (c : RefCounts)
    → AllAllowed ks c
    → (effects ks c).local + tally down_local ks ≡ c.local + tally up_local ks
local-tally [] c h = refl
local-tally (up_local ∷ ks) c h = omega (arith, local-tally ks (effect up_local c) h.1)
local-tally (down_local ∷ ks) c h = omega (arith, local-tally ks (effect down_local c) h.1)
local-tally (acquire ∷ ks) c h = omega (arith, local-tally ks (effect acquire c) h.1)
local-tally (release ∷ ks) c h = omega (arith, local-tally ks (effect release c) h.1)
local-tally (mark ∷ ks) c h = ground (arith, local-tally ks (effect mark c) h.1)
local-tally (rollback ∷ ks) c h = omega (arith, local-tally ks (effect rollback c) h.1)

remote-tally :
    (ks : List Call) (c : RefCounts)
    → AllAllowed ks c
    → (effects ks c).remote + tally release ks ≡ c.remote + tally acquire ks
remote-tally [] c h = refl
remote-tally (up_local ∷ ks) c h = omega (arith, remote-tally ks (effect up_local c) h.1)
remote-tally (down_local ∷ ks) c h = omega (arith, remote-tally ks (effect down_local c) h.1)
remote-tally (acquire ∷ ks) c h = omega (arith, remote-tally ks (effect acquire c) h.1)
remote-tally (release ∷ ks) c h = omega (arith, remote-tally ks (effect release c) h.1)
remote-tally (mark ∷ ks) c h = ground (arith, remote-tally ks (effect mark c) h.1)
remote-tally (rollback ∷ ks) c h = omega (arith, remote-tally ks (effect rollback c) h.1)

-- For every history of a new object in which guards are dropped once, the kernel releases what it
-- acquired and the counts stay below 2^32: no call panics, whether overflow is checked or not, and
-- at the end subscribers see zero exactly if every local ref was dropped, every acquire was
-- released and no send holds a credit.
pub hit_zero-run :
    (checks : Bool) (id : ObjectId) (ks : List Call)
    → AllAllowed ks no_counts
    → (t : ObjectRefState) × (run checks ks (new id) ≡ ok tt t)
      × ((hit_zero t ≡ true) ↔ (
          (tally up_local ks ≡ tally down_local ks)
          × (tally acquire ks ≡ tally release ks)
          × (t.counts.pending ≡ 0)))
unfolding hit_zero new
hit_zero-run checks id ks h =
    let t : ObjectRefState = settled (new id) (effects ks no_counts) in
    let locals = local-tally ks no_counts h in
    let remotes = remote-tally ks no_counts h in
    (t, run-effects checks ks (new id) (new-IsSound id) h, (ground arith, ground arith))
