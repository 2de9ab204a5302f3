-- ===== src/Tests/Wire.antt =====
-- Concrete bytes of commands.
use binderbinder.Base.{◌^◌, ◌<◌, ◌≡◌, refl, some, List, [], ◌∷◌, arith}
use binderbinder.Sys.Opcodes.{linux}
use binderbinder.Sys.Commands.{BinderCommand, command_code, number, argument}
use binderbinder.Device.{
  Outgoing, Command, enter_looper, transaction, exit_looper, request_death_notification,
}
use binderbinder.Device.Wire.{Placement, write_buffer, fields}
use binderbinder.Device.Wire.ReadBack.{
  Memory, read_commands, AllWritable, read_commands-write_buffer,
}

abbrev call : Outgoing
call = record {
  target = 7;
  code = 2;
  flags = 16;
  sender_pid = 0;
  sender_euid = 0;
  payload = 1 ∷ 2 ∷ 3 ∷ [];
  offsets = [];
}

abbrev placement : Placement
placement = record { buffer = λ o. 4096; offsets = λ o. 8192; padding = 5 }

abbrev memory : Memory
memory = record { bytes = λ p n. call.payload; words = λ p n. [] }

abbrev commands : List Command
commands = enter_looper ∷ transaction call ∷ exit_looper ∷ request_death_notification 7 3 ∷ []

linux_code_fits : (k : BinderCommand) → command_code linux k < 2 ^ 32
unfolding command_code number argument
linux_code_fits BinderCommand.transaction = omega arith
linux_code_fits _ = omega arith

commands-AllWritable : AllWritable placement memory commands
unfolding fields
commands-AllWritable =
    ((tt, tt), ((omega arith, (omega arith, refl, refl)), ((tt, tt), ((omega arith, tt), tt))))

read_commands-write_buffer_example :
    read_commands linux memory 5 (write_buffer linux placement commands) ≡ some commands
read_commands-write_buffer_example =
    read_commands-write_buffer linux linux_code_fits placement memory commands commands-AllWritable
