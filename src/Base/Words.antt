-- ===== src/Base/Words.antt =====
-- u32 and usize arithmetic of Rust. With overflow checks (debug builds) an overflow is a panic,
-- here `none`; without them the result wraps.
use binderbinder.Base.Tests.{ltb, leb, if◌then◌else◌}
use Prim.Native.Nat.{ℕ, ◌+◌, ◌-◌, ◌%◌, ◌^◌, ◌<◌, ◌≤◌}
use mathlib.Core.Path.{◌≡◌}
use mathlib.Core.Bool.{Bool}
use mathlib.Core.Option.{Option, none, some}
use native.Mathlib.Omega.{arith}

abbrev pub u32_mod : ℕ
u32_mod = 2 ^ 32

abbrev pub usize_mod : ℕ
usize_mod = 2 ^ 64

unfoldable pub add_u32 : Bool → ℕ → ℕ → Option ℕ
add_u32 checks a b =
    if ltb (a + b) u32_mod then some (a + b) else if checks then none else some ((a + b) % u32_mod)

unfoldable pub sub_u32 : Bool → ℕ → ℕ → Option ℕ
sub_u32 checks a b =
    if leb b a then some (a - b) else if checks then none else some ((a + u32_mod - b) % u32_mod)

-- `saturating_sub` stops at 0, as subtraction does here.
abbrev pub saturating_sub : ℕ → ℕ → ℕ
saturating_sub a b = a - b

pub add_u32-fits : (checks : Bool) (a b : ℕ) → a + b < u32_mod → add_u32 checks a b ≡ some (a + b)
unfolding add_u32
add_u32-fits checks a b h = ground arith

pub sub_u32-fits : (checks : Bool) (a b : ℕ) → b ≤ a → sub_u32 checks a b ≡ some (a - b)
unfolding sub_u32
sub_u32-fits checks a b h = ground arith
