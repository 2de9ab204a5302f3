-- ===== src/Fs/Devices.antt =====
-- src/fs.rs: the request for a device, as the kernel reads it.
use binderbinder.Base.{
  ℕ, zero, suc, ◌+◌, ◌-◌, ◌<◌, ◌≤◌, ◌≡◌, refl, some, List, [], ◌∷◌, ◌++◌, ok, length, replicate,
  drop, length-append, length-replicate, get_elem?, if◌then◌else◌, ◌==◌, arith, ◌⊎◌, inl, inr,
  get_elem?-append, le→leb, Bool-cases, ltb,
}
use binderbinder.Fs.{
  System, Binderfs, BinderfsDevice, IoResult, invalid_input, success, failure, opened_file,
  asked_for, create_device, copy_name, blank_name, done, call, Log, and_try,
}
use binderbinder.TestPool.{join}

-- The kernel takes the name up to its first zero byte.
abbrev pub c_string : List ℕ → List ℕ
c_string [] = []
c_string (c ∷ cs) = let rest = c_string cs in if c == 0 then [] else c ∷ rest

abbrev pub NoNul : List ℕ → Type 0
NoNul [] = Unit
NoNul (c ∷ cs) = (0 < c) × NoNul cs

c_string-terminated : (name rest : List ℕ) → NoNul name → c_string (name ++ (0 ∷ rest)) ≡ name
c_string-terminated [] rest h = refl
c_string-terminated (c ∷ cs) rest h = ground (arith, h.0, c_string-terminated cs rest h.1)

drop-replicate : {A : Type 0} (a : A) (n m : ℕ) → drop n (replicate m a) ≡ replicate (m - n) a
drop-replicate a zero m = let whole : m - 0 ≡ m = omega arith in rw whole refl
drop-replicate a (suc n) zero = let nothing : 0 - suc n ≡ 0 = omega arith in rw nothing refl
drop-replicate a (suc n) (suc m) =
    let less : suc m - suc n ≡ m - n = omega arith in rw less (drop-replicate a n m)

copied_by :
    (name : List ℕ) (m k : ℕ)
    → m ≡ length name + suc k
    → copy_name name (replicate m 0) ≡ some (name ++ (0 ∷ replicate k 0))
unfolding copy_name
copied_by name m k e =
    let fits = le→leb (length name) m (omega arith) in
    let after : m - length name ≡ suc k = omega arith in
    rw (length-replicate m (zero), fits, drop-replicate zero (length name) m, after) refl

-- The field of a name that fits has zeros after it.
copied :
    (name : List ℕ)
    → length name ≤ 255
    → copy_name name blank_name ≡ some (name ++ (0 ∷ replicate (255 - length name) 0))
unfolding blank_name
copied name short = copied_by name 256 (255 - length name) (omega arith)

-- What a device is asked for by.
abbrev pub request : List ℕ → BinderfsDevice
request name = record { name = name ++ (0 ∷ replicate (255 - length name) 0); major = 0; minor = 0 }

passed_on : (r : IoResult ℕ) (log : Log) → and_try r (λ fd l. ok (success fd) l) log ≡ ok r log
passed_on (success fd) log = refl
passed_on (failure e) log = refl

asked :
    (r : IoResult (Unit {0})) (open_file : Log → IoResult ℕ) (path : List ℕ) (log : Log)
    → and_try r (λ made. call (opened_file path) open_file (λ fd l. ok (success fd) l)) log
      ≡ elim r [
        | failure e ↦ ok (failure e) log
        | success made ↦ ok (open_file log) (done (opened_file path) log)
      ]
asked (success made) open_file path log = passed_on (open_file log) (done (opened_file path) log)
asked (failure e) open_file path log = refl

-- A name of at most 255 bytes, none of them zero: the only request that is sent has a field of 256
-- bytes, from which the kernel reads that very name, with a zero byte after it. Only if the kernel
-- accepts the request is a file opened, the name under the path of the mount, or the name itself if it
-- begins with a slash; what is returned is what the open gave, or the kernel's error. A longer name is
-- an error, and the system is not called at all.
pub create_device_lem :
    (system : System) (fs : Binderfs) (name : List ℕ) (log : Log)
    → NoNul name
    → (length name ≤ 255
        × (length (request name).name ≡ 256)
        × (c_string (request name).name ≡ name)
        × (get_elem? (request name).name (length name) ≡ some 0)
        × (create_device system fs name log ≡ elim (system.ioctl log (request name)) [
          | failure e ↦ ok (failure e) (done (asked_for (request name)) log)
          | success made ↦
              ok
                (system.open_file (done (asked_for (request name)) log) (join fs.path name))
                (done (opened_file (join fs.path name)) (done (asked_for (request name)) log))
        ]))
      ⊎ ((255 < length name) × (create_device system fs name log ≡ ok (failure invalid_input) log))
unfolding create_device
create_device_lem system fs name log no_nul = elim (Bool-cases (ltb 255 (length name))) [
  | inl long ↦ inr (ground (arith, long), rw long refl)
  | inr short ↦
      let fits : length name ≤ 255 = ground (arith, short) in
      inl (
        fits,
        omega (
          arith,
          length-append name (0 ∷ replicate (255 - length name) 0),
          length-replicate (255 - length name) (zero),
        ),
        c_string-terminated name (replicate (255 - length name) 0) no_nul,
        get_elem?-append name (replicate (255 - length name) 0) 0,
        rw (short, copied name fits)
            (asked (system.ioctl log (request name)) (λ l. system.open_file l (join fs.path name))
              (join fs.path name) (done (asked_for (request name)) log)),
      )
]
