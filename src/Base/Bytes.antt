-- ===== src/Base/Bytes.antt =====
-- Little-endian integers in byte strings, and slices of byte strings.
use binderbinder.Base.Tests.{leb, if◌then◌else◌}
use binderbinder.Base.Lists.{length, take, drop, length-append, take-append, drop-append}
use Prim.Native.Nat.{ℕ, zero, suc, ◌+◌, ◌*◌, ◌/◌, ◌%◌, ◌<◌}
use mathlib.Core.Path.{◌≡◌, refl, ap}
use mathlib.Core.Bool.{true}
use mathlib.Core.Option.{Option, none, some}
use mathlib.Core.List.{List, [], ◌∷◌, ◌++◌}
use native.Mathlib.Omega.{arith}

-- `x.to_ne_bytes()` of an n-byte integer, on a little-endian machine.
unfoldable pub to_bytes : ℕ → ℕ → List ℕ
to_bytes zero x = []
to_bytes (suc n) x = x % 256 ∷ to_bytes n (x / 256)

unfoldable pub from_bytes : List ℕ → ℕ
from_bytes [] = 0
from_bytes (b ∷ bs) = b + 256 * from_bytes bs

pub length-to_bytes : (n x : ℕ) → length (to_bytes n x) ≡ n
unfolding to_bytes
length-to_bytes zero x = refl
length-to_bytes (suc n) x = ap suc (length-to_bytes n (x / 256))

abbrev pub pow256 : ℕ → ℕ
pow256 zero = 1
pow256 (suc n) = 256 * pow256 n

pub from_bytes-to_bytes : (n x : ℕ) → x < pow256 n → from_bytes (to_bytes n x) ≡ x
unfolding to_bytes from_bytes
from_bytes-to_bytes zero x h = omega arith
from_bytes-to_bytes (suc n) x h = omega (arith, from_bytes-to_bytes n (x / 256) (omega arith))

-- `&data[offset..offset + n]`, and `data.get(offset..offset + n)`.
unfoldable pub slice : List ℕ → ℕ → ℕ → Option (List ℕ)
slice bytes offset n =
    if leb (offset + n) (length bytes) then some (take n (drop offset bytes)) else none

pub slice-append :
    (xs ys zs : List ℕ) {offset n : ℕ}
    → offset ≡ length xs
    → n ≡ length ys
    → slice (xs ++ (ys ++ zs)) offset n ≡ some ys
unfolding slice
slice-append xs ys zs {offset} {n} p q =
    let fits : leb (offset + n) (length (xs ++ (ys ++ zs))) ≡ true =
      ground (arith, length-append xs (ys ++ zs), length-append ys zs) in
    rw fits (ap some (rw (p, q, drop-append xs (ys ++ zs)) (take-append ys zs)))
