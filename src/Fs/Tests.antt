-- ===== src/Fs/Tests.antt =====
-- Concrete calls of binderfs on a system where all succeeds.
use binderbinder.Base.{
  ℕ, ◌<◌, ◌≤◌, ◌≡◌, ◌⊎◌, refl, true, some, List, [], ◌∷◌, ◌++◌, ok, arith, length, get_elem?,
}
use binderbinder.Fs.{
  System, Binderfs, success, failure, invalid_input, done, opened_file, asked_for, create_device,
  mount, mount_directory, mount_if_needed, is_mounted, open_control, source_binder, fstype_binder,
  control_name,
}
use binderbinder.Fs.Devices.{request, c_string, create_device_lem}
use binderbinder.TestPool.{join}

abbrev system : System
system = record {
  exists = λ log path. true;
  is_dir = λ log path. true;
  create_dir_all = λ log path. success tt;
  findmnt = λ log path. some (source_binder ++ (32 ∷ fstype_binder));
  mount_status = λ log path. success 0;
  open_file = λ log path. success 3;
  ioctl = λ log device. success tt;
}

-- The directory is `/b` and the name `hi`.
abbrev fs : Binderfs
fs = record { path = 47 ∷ 98 ∷ []; control_fd = 3 }

abbrev hi : List ℕ
hi = 104 ∷ 105 ∷ []

mounted_already :
    mount system fs.path [] ≡ ok (success fs) (done (opened_file (join fs.path control_name)) [])
unfolding mount mount_directory mount_if_needed is_mounted open_control
mounted_already = refl

create_device_lem_example :
    (length hi ≤ 255
      × (length (request hi).name ≡ 256)
      × (c_string (request hi).name ≡ hi)
      × (get_elem? (request hi).name (length hi) ≡ some 0)
      × (create_device system fs hi [] ≡ elim (system.ioctl [] (request hi)) [
        | failure e ↦ ok (failure e) (done (asked_for (request hi)) [])
        | success made ↦
            ok
              (system.open_file (done (asked_for (request hi)) []) (join fs.path hi))
              (done (opened_file (join fs.path hi)) (done (asked_for (request hi)) []))
      ]))
    ⊎ ((255 < length hi) × (create_device system fs hi [] ≡ ok (failure invalid_input) []))
create_device_lem_example = create_device_lem system fs hi [] (omega arith)
