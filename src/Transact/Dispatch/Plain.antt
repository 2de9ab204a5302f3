-- ===== src/Transact/Dispatch/Plain.antt =====
-- src/device.rs: the drop of the payload of a transaction with no objects, whether the driver gives it a
-- pointer to no offsets or none at all.
use binderbinder.Base.{
  ℕ, ◌≡◌, refl, ◌==◌, Bool-cases, inl, inr, true, List, [], ◌∷◌, length, ok, arith,
}
use binderbinder.Device.{Device, wrote, free_buffer}
use binderbinder.Device.Driver.{Driver, Accepts, write_command}
use binderbinder.Payload.Reader.{next_object_type, on_device}
use binderbinder.Payload.Reader.Ends.{drop_reader, drain_all, free, from_kernel_raw}
use binderbinder.Transact.Incoming.{Incoming}
use binderbinder.Transact.Dispatch.{drop_payload, reader_of}

-- The buffer of the transaction goes back to the driver.
unfoldable pub freed : Incoming → Device → Device
freed t d = record d { log = wrote (free_buffer t.buffer ∷ []) ∷ d.log }

module _ (driver : Driver) where
  pub words_nil : (p : ℕ) → driver.words p 0 ≡ []
  words_nil p = length-nil (driver.words p 0) (driver.length_words p 0)
    where
      length-nil : (xs : List ℕ) → length xs ≡ 0 → xs ≡ []
      length-nil [] e = refl
      length-nil (x ∷ xs) e = absurd (omega (arith, e))

module _ (driver : Driver) (accepts : Accepts driver) where
  pub drop_plain :
      (t : Incoming) (d : Device)
      → t.offsets_size ≡ 0
      → drop_payload driver (reader_of driver t) d ≡ ok true (freed t d)
  unfolding drop_payload reader_of drop_reader drain_all free next_object_type from_kernel_raw
      on_device write_command freed
  drop_plain t d plain = elim (Bool-cases (t.offsets == 0)) [
    | inl e ↦ rw (plain, drop_payload, drop_reader, e, accepts)
    | inr e ↦ rw (plain, drop_payload, drop_reader, e, words_nil driver t.offsets, accepts)
  ]
