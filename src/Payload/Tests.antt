-- ===== src/Payload/Tests.antt =====
-- A reader over one descriptor, dropped.
use binderbinder.Base.{
  ℕ, suc, zero, ◌≡◌, ap, ◌∙◌, subst, true, false, none, some, List, [], ◌∷◌, arith,
  length-replicate, replicate,
}
use binderbinder.Base.Bytes.{slice, from_bytes}
use binderbinder.Sys.ObjectType
use binderbinder.Sys.Opcodes.{linux}
use binderbinder.Device.{opened}
use binderbinder.Device.Driver.{Driver, received}
use binderbinder.Payload.Reader.{Reading, fd, object_type}
use binderbinder.Payload.Reader.Ends.{drain_all}
use binderbinder.Payload.Reader.Ending.{AllDrainable, IsDrainable, Ends, drain_all-Ends}

abbrev quiet_driver : Driver
quiet_driver = record {
  checks = true;
  opcodes = linux;
  padding = 0;
  pid = 100;
  euid = 1000;
  uid = 1000;
  write_fails = λ log cs. false;
  answer = λ log. received [];
  error_param = λ log. 0;
  memory = λ p n. replicate n 0;
  words = λ p n. replicate n 0;
  length_memory = λ p n. length-replicate n 0;
  length_words = λ p n. length-replicate n 0;
}

abbrev header : List ℕ
header = 0x85 ∷ b'*' ∷ b'd' ∷ b'f' ∷ []

abbrev one_descriptor : Reading
one_descriptor = record {
  reader = record {
    data_ = 0x85 ∷ b'*' ∷ b'd' ∷ b'f' ∷ replicate 20 0;
    mapped = none;
    offsets = some (0 ∷ []);
    binder_objects = [];
    next_offset_index = 0;
    next_data_index = 0;
  };
  device = opened;
}

some_inj : {A : Type 0} {a b : A} → some a ≡ some b → a ≡ b
some_inj e = cc

one_descriptor-AllDrainable : AllDrainable one_descriptor.reader
unfolding slice from_bytes object_type ObjectType.binder ObjectType.handle ObjectType.weak_binder
    ObjectType.weak_handle ObjectType.fd
one_descriptor-AllDrainable zero offset top t e g k =
    let first : some header ≡ some top =
      ap (λ o. slice one_descriptor.reader.data_ o 4) (some_inj e) ∙ g in
    let known : some fd ≡ some t = ap (λ h. object_type (from_bytes h)) (some_inj first) ∙ k in
    subst IsDrainable (some_inj known) tt
one_descriptor-AllDrainable (suc i) offset top t e g k = cc

drain_all-Ends_example : Ends (drain_all quiet_driver 2 one_descriptor)
drain_all-Ends_example =
    drain_all-Ends quiet_driver 2 one_descriptor one_descriptor-AllDrainable (omega arith)
