-- ===== src/Transact/Dispatch/Stream.antt =====
-- src/device.rs: the loop of `binder_write_read` over a buffer that the driver has filled.
use mathlib.Core.List.{append_assoc}
use binderbinder.Base.{
  ℕ, zero, suc, ◌^◌, ◌≤◌, ◌<◌, ◌≡◌, ◌≢◌, refl, ap, ◌∙◌, false, some, List, [], ◌∷◌, ◌++◌, ltb,
  length, length-append, take-append_of_length, drop-append_of_length, Cmd, pure, ◌>>=◌, arith,
}
use binderbinder.Base.Bytes.{to_bytes, from_bytes-to_bytes, length-to_bytes}
use binderbinder.Sys.Layout.{binder_ptr_cookie, binder_priority_ptr_cookie}
use binderbinder.Sys.Returns.{BinderReturn, return_code, from_u32-return_code, payload_size, shape}
use binderbinder.Sys.Opcodes.{Opcodes}
use binderbinder.Device.{Device, Command}
use binderbinder.Device.Driver.{Driver}
use binderbinder.Transact.Incoming.{Outcome, nothing, Handlers, next, read_size}
use binderbinder.Transact.Dispatch.{message, turn, messages}

module _ (opcodes : Opcodes) where
  -- A message of the driver: its kind, and the bytes behind the code.
  abbrev pub encoded : List (BinderReturn × List ℕ) → List ℕ
  encoded [] = []
  encoded ((r, payload) ∷ ms) = to_bytes 4 (return_code opcodes r) ++ (payload ++ encoded ms)

  -- As the driver sends it: the payload has the size that the opcode says.
  abbrev pub IsSent : BinderReturn × List ℕ → Type 0
  IsSent (r, payload) = (return_code opcodes r < 2 ^ 32) × (length payload ≡ payload_size r)

  abbrev pub AllSent : List (BinderReturn × List ℕ) → Type 0
  AllSent [] = Unit
  AllSent (m ∷ ms) = (IsSent m × (m.0 ≢ BinderReturn.attempt_acquire)) × AllSent ms

module _ (driver : Driver) (handlers : Handlers) (nested : List Command → Cmd Device Outcome) where
  open driver use {opcodes}

  abbrev loop : ℕ → List ℕ → Cmd Device Outcome
  loop = messages driver handlers nested

  turn_lem :
      (r : BinderReturn) (payload rest : List ℕ) (more : List ℕ → Cmd Device Outcome)
      → length payload ≡ read_size (some r)
      → turn driver handlers nested (some r) (payload ++ rest) more
        ≡ (message driver handlers nested (some r) payload >>= next (more rest))
  unfolding turn
  turn_lem r payload rest more size =
      let fits : ltb (length (payload ++ rest)) (read_size (some r)) ≡ false =
        ground (arith, length-append payload rest, size) in
      rw (
        fits,
        take-append_of_length (read_size (some r)) payload rest size,
        drop-append_of_length (read_size (some r)) payload rest size,
      )

  frame_lem :
      (n : ℕ) (r : BinderReturn) (payload rest : List ℕ)
      → return_code opcodes r < 2 ^ 32
      → length payload ≡ read_size (some r)
      → loop (suc n) (to_bytes 4 (return_code opcodes r) ++ (payload ++ rest))
        ≡ (message driver handlers nested (some r) payload >>= next (loop n rest))
  unfolding messages to_bytes
  frame_lem n r payload rest small size =
      let code = from_bytes-to_bytes 4 (return_code opcodes r) small in
      let long : ltb (suc (suc (suc (suc (length (payload ++ rest)))))) 4 ≡ false = ground arith in
      rw (long, code, from_u32-return_code opcodes r) (turn_lem r payload rest (loop n) size)

  -- The arms, in the order of the messages, up to one that returns.
  abbrev pub in_order : List (BinderReturn × List ℕ) → Cmd Device Outcome
  in_order [] = pure nothing
  in_order ((r, payload) ∷ ms) =
      message driver handlers nested (some r) payload >>= next (in_order ms)

  read_size_lem :
      (r : BinderReturn) → r ≢ BinderReturn.attempt_acquire → payload_size r ≡ read_size (some r)
  unfolding read_size payload_size shape
  read_size_lem BinderReturn.attempt_acquire h = absurd (h refl)
  read_size_lem _ h = refl

  in_order_lem :
      (ms : List (BinderReturn × List ℕ)) (n : ℕ)
      → AllSent opcodes ms
      → length (encoded opcodes ms) ≤ n
      → loop n (encoded opcodes ms) ≡ in_order ms
  unfolding messages
  in_order_lem [] zero h k = refl
  in_order_lem [] (suc n) h k = refl
  in_order_lem ((r, payload) ∷ ms) zero h k = ground (
    arith,
    k,
    length-append (to_bytes 4 (return_code opcodes r)) (payload ++ encoded opcodes ms),
    length-to_bytes 4 (return_code opcodes r),
  )
  in_order_lem ((r, payload) ∷ ms) (suc n) h k =
      let size = h.0.0.1 ∙ read_size_lem r h.0.1 in
      let room : length (encoded opcodes ms) ≤ n = omega (
        arith,
        k,
        length-append (to_bytes 4 (return_code opcodes r)) (payload ++ encoded opcodes ms),
        length-append payload (encoded opcodes ms),
        length-to_bytes 4 (return_code opcodes r),
      ) in
      frame_lem n r payload (encoded opcodes ms) h.0.0.0 size
      ∙ ap (λ more. message driver handlers nested (some r) payload >>= next more)
          (in_order_lem ms n h.1 room)

  -- The loop does exactly what the driver's messages ask for, one arm for each and in their order,
  -- up to the first arm that returns: no message is cut short or read twice. Each message has the
  -- size that its opcode says, and none is BR_ATTEMPT_ACQUIRE.
  pub messages-in_order :
      (ms : List (BinderReturn × List ℕ))
      → AllSent opcodes ms
      → messages driver handlers nested (length (encoded opcodes ms)) (encoded opcodes ms)
        ≡ in_order ms
  messages-in_order ms h = in_order_lem ms (length (encoded opcodes ms)) h (omega arith)

  -- Of the 24 bytes of a BR_ATTEMPT_ACQUIRE its arm reads 16. The loop takes the other eight, which
  -- hold the cookie, for the next message.
  pub attempt_acquire_misread :
      (n : ℕ) (priority_and_ptr cookie rest : List ℕ)
      → return_code opcodes BinderReturn.attempt_acquire < 2 ^ 32
      → length priority_and_ptr ≡ 16
      → IsSent opcodes (BinderReturn.attempt_acquire, priority_and_ptr ++ cookie)
      → (length cookie ≡ 8)
        × (messages driver handlers nested (suc n) (
              to_bytes 4 (return_code opcodes BinderReturn.attempt_acquire)
              ++ ((priority_and_ptr ++ cookie) ++ rest))
            ≡ messages driver handlers nested n (cookie ++ rest))
  unfolding read_size message payload_size shape binder_ptr_cookie binder_priority_ptr_cookie
  attempt_acquire_misread n first cookie rest small size sent = (
    omega (arith, sent.1, length-append first cookie),
    ap (λ x. loop (suc n) (to_bytes 4 (return_code opcodes BinderReturn.attempt_acquire) ++ x))
          (append_assoc first cookie rest)
        ∙ frame_lem n BinderReturn.attempt_acquire first (cookie ++ rest) small size,
  )
