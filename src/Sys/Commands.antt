-- ===== src/Sys/Commands.antt =====
-- src/sys.rs: `BinderCommand`, the codes of what is written to the driver, and the structs behind them.
use binderbinder.Base.{
  ℕ, ◌^◌, ◌<◌, ◌≡◌, refl, sym, ap, Bool-cases, inl, inr, ==_refl, ◌∙◌, Bool, Option, none, some,
  List, [], ◌∷◌, arith, ◌==◌, if◌then◌else◌,
}
use binderbinder.Sys.Layout.{
  Field, u32, usize, binder_transaction_data, binder_ptr_cookie, binder_handle_cookie, repr_c,
}
use binderbinder.Sys.Opcodes.{Opcodes}

-- `BinderCommand`'s constants, in the source's order.
pub data BinderCommand : Type 0 where
  transaction reply acquire_result free_buffer increfs acquire release decrefs : BinderCommand
  increfs_done acquire_done attempt_acquire register_looper enter_looper : BinderCommand
  exit_looper request_death_notification clear_death_notification : BinderCommand
  dead_binder_done transaction_sg reply_sg request_freeze_notification : BinderCommand
  clear_freeze_notification freeze_notification_done : BinderCommand

abbrev pub all_commands : List BinderCommand
all_commands =
    BinderCommand.transaction ∷ BinderCommand.reply ∷ BinderCommand.acquire_result
    ∷ BinderCommand.free_buffer ∷ BinderCommand.increfs ∷ BinderCommand.acquire
    ∷ BinderCommand.release ∷ BinderCommand.decrefs ∷ BinderCommand.increfs_done
    ∷ BinderCommand.acquire_done ∷ BinderCommand.attempt_acquire ∷ BinderCommand.register_looper
    ∷ BinderCommand.enter_looper ∷ BinderCommand.exit_looper
    ∷ BinderCommand.request_death_notification ∷ BinderCommand.clear_death_notification
    ∷ BinderCommand.dead_binder_done ∷ BinderCommand.transaction_sg ∷ BinderCommand.reply_sg
    ∷ BinderCommand.request_freeze_notification ∷ BinderCommand.clear_freeze_notification
    ∷ BinderCommand.freeze_notification_done ∷ []

unfoldable pub binder_transaction_data_sg : Field
unfolding repr_c binder_transaction_data
binder_transaction_data_sg = repr_c (binder_transaction_data ∷ usize ∷ [])

unfoldable pub binder_priority_desc : Field
unfolding repr_c
binder_priority_desc = repr_c (u32 ∷ u32 ∷ [])

-- The number in the group b'c', and the size of the struct, if there is one.
unfoldable pub number : BinderCommand → ℕ
number BinderCommand.transaction = 0
number BinderCommand.reply = 1
number BinderCommand.acquire_result = 2
number BinderCommand.free_buffer = 3
number BinderCommand.increfs = 4
number BinderCommand.acquire = 5
number BinderCommand.release = 6
number BinderCommand.decrefs = 7
number BinderCommand.increfs_done = 8
number BinderCommand.acquire_done = 9
number BinderCommand.attempt_acquire = 10
number BinderCommand.register_looper = 11
number BinderCommand.enter_looper = 12
number BinderCommand.exit_looper = 13
number BinderCommand.request_death_notification = 14
number BinderCommand.clear_death_notification = 15
number BinderCommand.dead_binder_done = 16
number BinderCommand.transaction_sg = 17
number BinderCommand.reply_sg = 18
number BinderCommand.request_freeze_notification = 19
number BinderCommand.clear_freeze_notification = 20
number BinderCommand.freeze_notification_done = 21

unfoldable pub argument : BinderCommand → Option ℕ
unfolding binder_transaction_data binder_ptr_cookie binder_handle_cookie binder_transaction_data_sg
    binder_priority_desc
argument BinderCommand.transaction = some binder_transaction_data.size
argument BinderCommand.reply = some binder_transaction_data.size
argument BinderCommand.acquire_result = some 4
argument BinderCommand.free_buffer = some usize.size
argument BinderCommand.increfs = some u32.size
argument BinderCommand.acquire = some u32.size
argument BinderCommand.release = some u32.size
argument BinderCommand.decrefs = some u32.size
argument BinderCommand.increfs_done = some binder_ptr_cookie.size
argument BinderCommand.acquire_done = some binder_ptr_cookie.size
argument BinderCommand.attempt_acquire = some binder_priority_desc.size
argument BinderCommand.register_looper = none
argument BinderCommand.enter_looper = none
argument BinderCommand.exit_looper = none
argument BinderCommand.request_death_notification = some binder_handle_cookie.size
argument BinderCommand.clear_death_notification = some binder_handle_cookie.size
argument BinderCommand.dead_binder_done = some usize.size
argument BinderCommand.transaction_sg = some binder_transaction_data_sg.size
argument BinderCommand.reply_sg = some binder_transaction_data_sg.size
argument BinderCommand.request_freeze_notification = some binder_handle_cookie.size
argument BinderCommand.clear_freeze_notification = some binder_handle_cookie.size
argument BinderCommand.freeze_notification_done = some usize.size

-- `write::<T>(b'c', n)`, or `none(b'c', n)`.
abbrev code_of : Opcodes → Option ℕ → ℕ → ℕ
code_of ops none n = ops.no_data b'c' n
code_of ops (some s) n = ops.write s b'c' n

unfoldable pub command_code : Opcodes → BinderCommand → ℕ
command_code ops c = code_of ops (argument c) (number c)

first_command : (BinderCommand → Bool) → List BinderCommand → Option BinderCommand
first_command is_it [] = none
first_command is_it (c ∷ cs) = if is_it c then some c else first_command is_it cs

-- The command of a code, as the driver tells them apart.
unfoldable pub command_of : Opcodes → ℕ → Option BinderCommand
unfolding first_command
command_of ops code = first_command (λ c. command_code ops c == code) all_commands

abbrev IsSmall : Option ℕ → ℕ → Type 0
IsSmall none n = n < 256
IsSmall (some s) n = (s < 2 ^ 14) × (n < 256)

command-IsSmall : (c : BinderCommand) → IsSmall (argument c) (number c)
unfolding number argument
command-IsSmall BinderCommand.transaction = omega arith
command-IsSmall _ = omega arith

number_found : (c : BinderCommand) → first_command (λ b. number b == number c) all_commands ≡ some c
unfolding number first_command
number_found BinderCommand.transaction = refl
number_found _ = refl

number_inj : (a b : BinderCommand) → number a ≡ number b → a ≡ b
number_inj a b e =
    let same : some a ≡ some b =
      sym (number_found a)
      ∙ ap (λ n. first_command (λ c. number c == n) all_commands) e
      ∙ number_found b in
    cc

module _ (ops : Opcodes) where
  open ops use {no_data_inj, write_inj, no_data_ne_write}

  code_of_inj :
      (x y : Option ℕ) (n m : ℕ)
      → IsSmall x n
      → IsSmall y m
      → code_of ops x n ≡ code_of ops y m
      → n ≡ m
  code_of_inj none none n m h k e = (no_data_inj b'c' n b'c' m (omega arith) (omega arith) e).1
  code_of_inj none (some t) n m h k e =
      absurd (no_data_ne_write b'c' n t b'c' m (omega arith) (omega arith) e)
  code_of_inj (some s) none n m h k e =
      absurd (no_data_ne_write b'c' m s b'c' n (omega arith) (omega arith) (sym e))
  code_of_inj (some s) (some t) n m h k e =
      (write_inj s b'c' n t b'c' m (omega arith) (omega arith) e).2

  command_code_inj : (a b : BinderCommand) → command_code ops a ≡ command_code ops b → a ≡ b
  unfolding command_code
  command_code_inj a b e = number_inj a b (
      code_of_inj (argument a) (argument b) (number a) (number b) (command-IsSmall a)
        (command-IsSmall b) e)

  same_test :
      (a b : BinderCommand) → (command_code ops a == command_code ops b) ≡ (number a == number b)
  same_test a b = elim (Bool-cases (number a == number b)) [
    | inl e ↦
        let same : a ≡ b = number_inj a b (ground arith) in
        rw (e, same) (==_refl (command_code ops b))
    | inr e ↦ elim (Bool-cases (command_code ops a == command_code ops b)) [
      | inl f ↦
          let same : a ≡ b = command_code_inj a b (ground arith) in
          absurd (ground (arith, ap number same))
      | inr f ↦ rw (e, f)
    ]
  ]

  first_command-code :
      (c : BinderCommand) (cs : List BinderCommand)
      → first_command (λ b. command_code ops b == command_code ops c) cs
        ≡ first_command (λ b. number b == number c) cs
  unfolding first_command
  first_command-code c [] = refl
  first_command-code c (b ∷ cs) = rw (same_test b c, first_command-code c cs)

  -- No two of the commands have the same code.
  pub command_of-command_code : (c : BinderCommand) → command_of ops (command_code ops c) ≡ some c
  unfolding command_of
  command_of-command_code c = first_command-code c all_commands ∙ number_found c
