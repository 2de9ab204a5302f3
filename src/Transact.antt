-- ===== src/Transact.antt =====
-- src/device.rs: transactions, out and in. What a handler does with one is the program's, and a
-- parameter, as is what the driver answers.
pub mod Embedded
pub mod Incoming
pub mod Dispatch
pub mod Send
mod Tests
