-- ===== src/Base/Monad.antt =====
-- A computation over a state: it returns a value, or it panics. A panic unwinds, so the state that
-- it leaves behind is kept.
use Prim.Native.Nat.{ℕ, zero, suc}

pub data Run (S : Type 0) (A : Type 0) : Type 0 where
  ok : A → S → Run S A
  panic : S → Run S A

abbrev pub Cmd : Type 0 → Type 0 → Type 0
Cmd S A = S → Run S A

module _ {S : Type 0} where
  abbrev pub pure : {A : Type 0} → A → Cmd S A
  pure a s = ok a s

  abbrev pub fail : {A : Type 0} → Cmd S A
  fail s = panic s

  abbrev pub and_then : {A B : Type 0} → Run S A → (A → Cmd S B) → Run S B
  and_then (ok a s) f = f a s
  and_then (panic s) f = panic s

  infixl 5 ◌>>=◌ ◌>>◌
  abbrev pub ◌>>=◌ : {A B : Type 0} → Cmd S A → (A → Cmd S B) → Cmd S B
  ◌>>=◌ m f s = and_then (m s) f

  abbrev pub ◌>>◌ : {A B : Type 0} → Cmd S A → Cmd S B → Cmd S B
  m >> k = m >>= λ _. k

  abbrev pub times : {A : Type 0} → ℕ → Cmd S A → Cmd S (Unit {0})
  times zero m = pure tt
  times (suc n) m = m >> times n m

  -- The state that a run ends in, on either way out.
  abbrev pub final : {A : Type 0} → Run S A → S
  final (ok a s) = s
  final (panic s) = s
