-- ===== src/Fs.antt =====
-- src/fs.rs: mounting binderfs and making a device in it. `System` has what the kernel and the commands
-- answer, each after what was done before; the state is what was done.
pub mod Devices
mod Tests
use binderbinder.Base.{
  ℕ, zero, suc, Bool, true, false, ◌&&◌, Option, none, some, List, [], ◌∷◌, ◌++◌, Cmd, ok, panic,
  if◌then◌else◌, ltb, leb, length, drop, replicate, ◌==◌,
}
use binderbinder.TestPool.{join}

-- `BinderfsDevice` of src/sys.rs.
pub record BinderfsDevice : Type 0 where
  pub name : List ℕ
  pub major : ℕ
  pub minor : ℕ

-- `[0u8; 256]`
unfoldable pub blank_name : List ℕ
blank_name = replicate 256 0

abbrev pub default_device : BinderfsDevice
default_device = record { name = blank_name; major = 0; minor = 0 }

pub data IoError : Type 0 where
  not_a_directory : IoError
  invalid_input : IoError
  os : ℕ → IoError

pub data IoResult (A : Type 0) : Type 0 where
  success : A → IoResult A
  failure : IoError → IoResult A

-- What a call does to the world.
pub data Effect : Type 0 where
  made_directories : List ℕ → Effect
  ran_mount : List ℕ → Effect
  opened_file : List ℕ → Effect
  asked_for : BinderfsDevice → Effect

abbrev pub Log : Type 0
Log = List Effect

pub record System : Type 0 where
  pub exists : Log → List ℕ → Bool
  pub is_dir : Log → List ℕ → Bool
  pub create_dir_all : Log → List ℕ → IoResult (Unit {0})
  pub findmnt : Log → List ℕ → Option (List ℕ)
  pub mount_status : Log → List ℕ → IoResult ℕ
  pub open_file : Log → List ℕ → IoResult ℕ
  pub ioctl : Log → BinderfsDevice → IoResult (Unit {0})

pub record Binderfs : Type 0 where
  pub path : List ℕ
  pub control_fd : ℕ

-- `a ?; k`
abbrev pub and_try : {A B : Type 0} → IoResult A → (A → Cmd Log (IoResult B)) → Cmd Log (IoResult B)
and_try (success a) k log = k a log
and_try (failure e) k log = ok (failure e) log

abbrev pub done : Effect → Log → Log
done e log = log ++ (e ∷ [])

-- A call of the system, which is on record whatever it answers.
abbrev pub call :
    {A B : Type 0} → Effect → (Log → IoResult A) → (A → Cmd Log (IoResult B)) → Cmd Log (IoResult B)
call e answer k log = and_try (answer log) k (done e log)

-- `str::contains`.
abbrev pub starts_with : List ℕ → List ℕ → Bool
starts_with [] text = true
starts_with (c ∷ cs) [] = false
starts_with (c ∷ cs) (d ∷ text) = (c == d) && starts_with cs text

abbrev pub contains : List ℕ → List ℕ → Bool
contains [] pattern_ = starts_with pattern_ []
contains (c ∷ text) pattern_ =
    let rest = contains text pattern_ in if starts_with pattern_ (c ∷ text) then true else rest

-- `SOURCE="binder"` and `FSTYPE="binder"`.
abbrev pub is_binder : List ℕ
is_binder = 34 ∷ 98 ∷ 105 ∷ 110 ∷ 100 ∷ 101 ∷ 114 ∷ 34 ∷ []

abbrev pub source_binder : List ℕ
source_binder = 83 ∷ 79 ∷ 85 ∷ 82 ∷ 67 ∷ 69 ∷ 61 ∷ is_binder

abbrev pub fstype_binder : List ℕ
fstype_binder = 70 ∷ 83 ∷ 84 ∷ 89 ∷ 80 ∷ 69 ∷ 61 ∷ is_binder

-- `binder-control`.
abbrev pub control_name : List ℕ
control_name = 98 ∷ 105 ∷ 110 ∷ 100 ∷ 101 ∷ 114 ∷ 45 ∷ 99 ∷ 111 ∷ 110 ∷ 116 ∷ 114 ∷ 111 ∷ 108 ∷ []

-- Without the command `findmnt` it panics.
unfoldable pub is_mounted : System → List ℕ → Log → Option Bool
is_mounted system path log = elim (system.findmnt log path) [
  | none ↦ none
  | some output ↦ some (contains output source_binder && contains output fstype_binder)
]

unfoldable pub open_control : System → List ℕ → Cmd Log (IoResult Binderfs)
open_control system path =
    call (opened_file (join path control_name))
      (λ log. system.open_file log (join path control_name))
      (λ fd log. ok (success (record { path = path; control_fd = fd })) log)

-- The exit status of `mount` is not looked at.
unfoldable pub mount_if_needed : System → List ℕ → Cmd Log (IoResult Binderfs)
mount_if_needed system path log = elim (is_mounted system path log) [
  | none ↦ panic log
  | some mounted ↦
      if mounted
      then open_control system path log
      else call (ran_mount path) (λ log. system.mount_status log path)
          (λ status. open_control system path) log
]

unfoldable pub mount_directory : System → List ℕ → Cmd Log (IoResult Binderfs)
mount_directory system path log =
    if system.is_dir log path
    then mount_if_needed system path log
    else ok (failure not_a_directory) log

unfoldable pub mount : System → List ℕ → Cmd Log (IoResult Binderfs)
mount system path log =
    if system.exists log path
    then mount_directory system path log
    else call (made_directories path) (λ log. system.create_dir_all log path)
        (λ made. mount_directory system path) log

-- `field[..name.len()].copy_from_slice(name)`, which panics on a name longer than the field.
unfoldable pub copy_name : List ℕ → List ℕ → Option (List ℕ)
copy_name name field =
    if leb (length name) (length field) then some (name ++ drop (length name) field) else none

unfoldable pub create_device : System → Binderfs → List ℕ → Cmd Log (IoResult ℕ)
create_device system fs name log =
    if ltb 255 (length name)
    then ok (failure invalid_input) log
    else elim (copy_name name default_device.name) [
      | none ↦ panic log
      | some field ↦
          let device : BinderfsDevice = record default_device { name = field } in
          call (asked_for device) (λ log. system.ioctl log device)
            (λ made.
              call (opened_file (join fs.path name))
                (λ log. system.open_file log (join fs.path name)) (λ fd log. ok (success fd) log))
            log
    ]
