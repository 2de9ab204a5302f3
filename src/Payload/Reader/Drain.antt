-- ===== src/Payload/Reader/Drain.antt =====
-- src/payload.rs: the loop of the reader's `Drop`.
use binderbinder.Base.{ℕ, zero, suc, ◌≡◌, refl, false, Option, some, ok, ◌⊎◌, inl, inr}
use binderbinder.Device.Driver.{Driver}
use binderbinder.Payload.Reader.{Reading, BinderObjectType, fd_array, buffer, next_object_type}
use binderbinder.Payload.Reader.Ends.{drain_all, drain}

-- The object that is read next is one that the loop does not skip.
abbrev pub IsUnimplemented : Option BinderObjectType → Type 0
IsUnimplemented t = (t ≡ some fd_array) ⊎ (t ≡ some buffer)

-- At a buffer or an array of descriptors the loop of `drop` goes round for ever: whatever the
-- number of turns, it has not ended, and the reader and the device are as they were.
pub drain_all-stuck :
    (driver : Driver) (fuel : ℕ) (s : Reading) (t : Option BinderObjectType)
    → next_object_type s ≡ ok t s
    → IsUnimplemented t
    → drain_all driver fuel s ≡ ok false s
unfolding drain_all drain
drain_all-stuck driver zero s t e u = refl
drain_all-stuck driver (suc n) s t e (inl u) = rw (e, u) (drain_all-stuck driver n s t e (inl u))
drain_all-stuck driver (suc n) s t e (inr u) = rw (e, u) (drain_all-stuck driver n s t e (inr u))
