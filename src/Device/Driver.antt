-- ===== src/Device/Driver.antt =====
-- src/device.rs: the ioctls, `write_binder_command` and `write_binder_struct_command`. What the
-- driver answers is a function of all that was asked before, and a parameter.
use binderbinder.Base.{
  ℕ, ◌≡◌, Bool, true, false, List, [], ◌∷◌, if◌then◌else◌, ok, panic, Cmd, length,
}
use binderbinder.Device.{Device, Command, Event, wrote}
use binderbinder.Sys.Opcodes.{Opcodes}

-- The errno of a failed ioctl, or the bytes that it read.
pub data Answer : Type 0 where
  failed : ℕ → Answer
  received : List ℕ → Answer

-- `memory p n` are the `n` bytes at `p` in the mapped buffer, and `words p n` the `n` usizes.
pub record Driver : Type 0 where
  pub checks : Bool
  pub opcodes : Opcodes
  pub padding : ℕ
  pub pid : ℕ
  pub euid : ℕ
  pub uid : ℕ
  pub write_fails : List Event → List Command → Bool
  pub answer : List Event → Answer
  pub error_param : List Event → ℕ
  pub memory : ℕ → ℕ → List ℕ
  pub words : ℕ → ℕ → List ℕ
  pub length_memory : (p n : ℕ) → length (memory p n) ≡ n
  pub length_words : (p n : ℕ) → length (words p n) ≡ n

abbrev pub logged : Event → Device → Device
logged e d = record d { log = e ∷ d.log }

module _ (driver : Driver) where
  open driver use {write_fails}

  -- An ioctl that only writes; the answer is whether it succeeded.
  unfoldable pub try_write : List Command → Cmd Device Bool
  try_write cs d = ok (if write_fails d.log cs then false else true) (logged (wrote cs) d)

  -- The methods of `BinderDevice`, which unwrap.
  unfoldable pub write_command : Command → Cmd Device (Unit {0})
  write_command c d =
      if write_fails d.log (c ∷ [])
      then panic (logged (wrote (c ∷ [])) d)
      else ok tt (logged (wrote (c ∷ [])) d)

-- Every write succeeds.
abbrev pub Accepts : Driver → Type 0
Accepts driver = (log : List Event) (cs : List Command) → driver.write_fails log cs ≡ false
