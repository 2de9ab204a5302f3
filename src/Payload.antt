-- ===== src/Payload.antt =====
-- src/payload.rs: what a transaction carries, as it is built and as it is read. A builder is a value;
-- a reader's operations also change its device.
pub mod Builder
pub mod Reader
pub mod Layout
pub mod RoundTrip
mod Tests
