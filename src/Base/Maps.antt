-- ===== src/Base/Maps.antt =====
-- Concurrent hash maps, seen as what a look-up returns. A key is given by the test for it.
use binderbinder.Base.Tests.{if◌then◌else◌}
use mathlib.Core.Bool.{Bool}
use mathlib.Core.Option.{Option, none, some}

abbrev pub Map : Type 0 → Type 0 → Type 0
Map K V = K → Option V

module _ {K V : Type 0} where
  abbrev pub empty : Map K V
  empty k = none

  abbrev pub insert : (K → Bool) → V → Map K V → Map K V
  insert is_key v m k = if is_key k then some v else m k

  abbrev pub remove : (K → Bool) → Map K V → Map K V
  remove is_key m k = if is_key k then none else m k
