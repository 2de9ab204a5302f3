-- ===== src/Device/Wire/ReadBack.antt =====
-- src/device.rs and src/sys.rs: the driver's side of the commands, which reads a code, the struct of
-- the size that is in the code, and the next command behind it.
use mathlib.Core.List.{append_assoc}
use binderbinder.Base.{
  ℕ, zero, suc, ◌*◌, ◌/◌, ◌^◌, ◌<◌, ◌≡◌, refl, ap, ◌∙◌, Option, none, some, List, [], ◌∷◌, ◌++◌,
  length, take, drop, take-append_of_length, drop-append_of_length, arith,
}
use binderbinder.Base.Bytes.{to_bytes, from_bytes, from_bytes-to_bytes, length-to_bytes, pow256}
use binderbinder.Refcount.{ObjectId}
use binderbinder.Sys.Opcodes.{Opcodes}
use binderbinder.Sys.Commands.{
  BinderCommand, argument, command_code, command_of, command_of-command_code,
}
use binderbinder.Sys.Structs.{
  encode, decode, decode-encode, length-encode, widths, values, AllFit, sum_widths, with_low,
  low_half,
}
use binderbinder.Device.{
  Outgoing, Command, transaction, reply, free_buffer, increfs, acquire, release, decrefs,
  increfs_done, acquire_done, register_looper, enter_looper, exit_looper,
  request_death_notification, clear_death_notification, dead_binder_done,
}
use binderbinder.Device.Wire.{Placement, kind, fields, command_bytes, write_buffer}

-- The memory of the process that writes.
pub record Memory : Type 0 where
  pub bytes : ℕ → ℕ → List ℕ
  pub words : ℕ → ℕ → List ℕ

abbrev size : BinderCommand → ℕ
size k = elim (argument k) [ none ↦ 0 | some s ↦ s ]

-- The fields of the structs, as the kernel's header has them.
widths_of : BinderCommand → List ℕ
widths_of BinderCommand.transaction = 8 ∷ 8 ∷ 4 ∷ 4 ∷ 4 ∷ 4 ∷ 8 ∷ 8 ∷ 8 ∷ 8 ∷ []
widths_of BinderCommand.reply = 8 ∷ 8 ∷ 4 ∷ 4 ∷ 4 ∷ 4 ∷ 8 ∷ 8 ∷ 8 ∷ 8 ∷ []
widths_of BinderCommand.free_buffer = 8 ∷ []
widths_of BinderCommand.increfs = 4 ∷ []
widths_of BinderCommand.acquire = 4 ∷ []
widths_of BinderCommand.release = 4 ∷ []
widths_of BinderCommand.decrefs = 4 ∷ []
widths_of BinderCommand.increfs_done = 8 ∷ 8 ∷ []
widths_of BinderCommand.acquire_done = 8 ∷ 8 ∷ []
widths_of BinderCommand.request_death_notification = 4 ∷ 8 ∷ []
widths_of BinderCommand.clear_death_notification = 4 ∷ 8 ∷ []
widths_of BinderCommand.dead_binder_done = 8 ∷ []
widths_of _ = []

abbrev sent_of : Memory → List ℕ → Option Outgoing
sent_of m (t ∷ c ∷ code ∷ flags ∷ pid ∷ euid ∷ n ∷ k ∷ b ∷ o ∷ []) = some (record {
  target = low_half t;
  code = code;
  flags = flags;
  sender_pid = pid;
  sender_euid = euid;
  payload = m.bytes b n;
  offsets = m.words o (k / 8);
})
sent_of m _ = none

abbrev one : (ℕ → Command) → List ℕ → Option Command
one f (x ∷ []) = some (f x)
one f _ = none

abbrev two : (ℕ → ℕ → Command) → List ℕ → Option Command
two f (x ∷ y ∷ []) = some (f x y)
two f _ = none

abbrev id_of : ℕ → ℕ → ObjectId
id_of x y = record { id = x; cookie = y }

-- The command that a code and the values behind it make.
made : Memory → BinderCommand → List ℕ → Option Command
made m BinderCommand.transaction v = elim (sent_of m v) [
  | none ↦ none
  | some o ↦ some (transaction o)
]
made m BinderCommand.reply v = elim (sent_of m v) [ none ↦ none | some o ↦ some (reply o) ]
made m BinderCommand.free_buffer v = one free_buffer v
made m BinderCommand.increfs v = one increfs v
made m BinderCommand.acquire v = one acquire v
made m BinderCommand.release v = one release v
made m BinderCommand.decrefs v = one decrefs v
made m BinderCommand.increfs_done v = two (λ x y. increfs_done (id_of x y)) v
made m BinderCommand.acquire_done v = two (λ x y. acquire_done (id_of x y)) v
made m BinderCommand.register_looper v = some register_looper
made m BinderCommand.enter_looper v = some enter_looper
made m BinderCommand.exit_looper v = some exit_looper
made m BinderCommand.request_death_notification v = two request_death_notification v
made m BinderCommand.clear_death_notification v = two clear_death_notification v
made m BinderCommand.dead_binder_done v = one dead_binder_done v
made m _ v = none

module _ (opcodes : Opcodes) (m : Memory) where
  abbrev with_rest : Option Command → Option (List Command) → Option (List Command)
  with_rest (some c) (some cs) = some (c ∷ cs)
  with_rest _ _ = none

  abbrev struct_of : BinderCommand → List ℕ → Option Command
  struct_of k bytes = made m k (decode (widths_of k) (take (size k) bytes))

  -- All commands in a buffer; the fuel is one more than there are commands.
  unfoldable pub read_commands : ℕ → List ℕ → Option (List Command)
  unfolding widths_of made
  read_commands zero bytes = none
  read_commands (suc fuel) [] = some []
  read_commands (suc fuel) (b ∷ bytes) =
      elim (command_of opcodes (from_bytes (take 4 (b ∷ bytes)))) [
        | none ↦ none
        | some k ↦
            with_rest (struct_of k (drop 4 (b ∷ bytes)))
              (read_commands fuel (drop (size k) (drop 4 (b ∷ bytes))))
      ]

-- The fields are in range, and the memory holds what the pointers of a transaction point to.
abbrev IsPlaced : Placement → Memory → Command → Type 0
IsPlaced p m (transaction o) =
    (o.target < 2 ^ 32)
    × (m.bytes (p.buffer o) (length o.payload) ≡ o.payload)
    × (m.words (p.offsets o) (length o.offsets) ≡ o.offsets)
IsPlaced p m (reply o) =
    (o.target < 2 ^ 32)
    × (m.bytes (p.buffer o) (length o.payload) ≡ o.payload)
    × (m.words (p.offsets o) (length o.offsets) ≡ o.offsets)
IsPlaced p m _ = Unit

abbrev pub IsWritable : Placement → Memory → Command → Type 0
unfolding fields
IsWritable p m c = AllFit (fields p c) × IsPlaced p m c

abbrev pub AllWritable : Placement → Memory → List Command → Type 0
AllWritable p m [] = Unit
AllWritable p m (c ∷ cs) = IsWritable p m c × AllWritable p m cs

-- The struct that is written has the size that is in the code.
sum_widths-fields : (p : Placement) (c : Command) → sum_widths (fields p c) ≡ size (kind c)
unfolding fields kind argument
sum_widths-fields p (transaction o) = refl
sum_widths-fields p _ = refl

widths-fields : (p : Placement) (c : Command) → widths (fields p c) ≡ widths_of (kind c)
unfolding fields kind widths_of
widths-fields p (transaction o) = refl
widths-fields p _ = refl

module _ (p : Placement) (m : Memory) where
  made-values : (c : Command) → IsPlaced p m c → made m (kind c) (values (fields p c)) ≡ some c
  unfolding made kind fields
  made-values (transaction o) h =
      let target : low_half (with_low p.padding o.target) ≡ o.target = omega arith in
      let words : length o.offsets * 8 / 8 ≡ length o.offsets = omega arith in
      rw (target, words, h.1, h.2)
  made-values (reply o) h =
      let target : low_half o.target ≡ o.target = omega arith in
      let words : length o.offsets * 8 / 8 ≡ length o.offsets = omega arith in
      rw (target, words, h.1, h.2)
  made-values (free_buffer ptr) h = refl
  made-values _ h = refl

module _ (opcodes : Opcodes) (small : (k : BinderCommand) → command_code opcodes k < pow256 4)
    (p : Placement) (m : Memory) where
  abbrev code : Command → List ℕ
  code c = to_bytes 4 (command_code opcodes (kind c))

  struct_of-encode :
      (c : Command) (rest : List ℕ)
      → IsWritable p m c
      → struct_of opcodes m (kind c) (encode (fields p c) ++ rest) ≡ some c
  unfolding IsWritable
  struct_of-encode c rest h =
      let long : length (encode (fields p c)) ≡ size (kind c) =
        length-encode (fields p c) ∙ sum_widths-fields p c in
      rw (
        take-append_of_length (size (kind c)) (encode (fields p c)) rest long,
        ← widths-fields p c,
        decode-encode (fields p c) h.0,
        made-values p m c h.1,
      )

  read_front :
      (front rest : List ℕ) (fuel : ℕ) (k : BinderCommand)
      → length front ≡ 4
      → command_of opcodes (from_bytes front) ≡ some k
      → read_commands opcodes m (suc fuel) (front ++ rest)
        ≡ with_rest opcodes m
            (struct_of opcodes m k rest)
            (read_commands opcodes m fuel (drop (size k) rest))
  unfolding read_commands
  read_front [] rest fuel k long e = absurd (omega arith)
  read_front (b ∷ front) rest fuel k long e = rw (
    read_commands,
    take-append_of_length 4 (b ∷ front) rest long,
    e,
    drop-append_of_length 4 (b ∷ front) rest long,
  )

  -- A command in front is read, and the rest of the buffer is what is behind it.
  read_next :
      (c : Command) (rest : List ℕ) (fuel : ℕ)
      → IsWritable p m c
      → read_commands opcodes m (suc fuel) (command_bytes opcodes p c ++ rest)
        ≡ with_rest opcodes m (some c) (read_commands opcodes m fuel rest)
  unfolding command_bytes
  read_next c rest fuel h =
      let long : length (encode (fields p c)) ≡ size (kind c) =
        length-encode (fields p c) ∙ sum_widths-fields p c in
      let number : from_bytes (code c) ≡ command_code opcodes (kind c) =
        from_bytes-to_bytes 4 (command_code opcodes (kind c)) (small (kind c)) in
      rw (
        append_assoc (code c) (encode (fields p c)) rest,
        read_front (code c) (encode (fields p c) ++ rest) fuel (kind c)
            (length-to_bytes 4 (command_code opcodes (kind c)))
            (ap (command_of opcodes) number ∙ command_of-command_code opcodes (kind c)),
        struct_of-encode c rest h,
        drop-append_of_length (size (kind c)) (encode (fields p c)) rest long,
      )

  -- What the driver reads from a buffer with the bytes of some commands is these commands, in order,
  -- if their fields are in range, the memory holds the buffers of the transactions where their
  -- pointers say, and the codes have 32 bits. Each command takes one turn.
  pub read_commands-write_buffer :
      (cs : List Command)
      → AllWritable p m cs
      → read_commands opcodes m (suc (length cs)) (write_buffer opcodes p cs) ≡ some cs
  unfolding write_buffer read_commands
  read_commands-write_buffer [] h = refl
  read_commands-write_buffer (c ∷ cs) h =
      read_next c (write_buffer opcodes p cs) (suc (length cs)) h.0
      ∙ ap (with_rest opcodes m (some c)) (read_commands-write_buffer cs h.1)
