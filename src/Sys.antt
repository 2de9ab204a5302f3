-- ===== src/Sys.antt =====
-- src/sys.rs: the kernel's protocol on a 64-bit machine. Sizes follow `repr(C)`; the ioctl numbers
-- come from `rustix::ioctl::opcode` and are taken from the interface `Opcodes`.
pub mod Layout
pub mod Opcodes
pub mod Returns
pub mod Commands
pub mod Structs
pub mod ObjectType
