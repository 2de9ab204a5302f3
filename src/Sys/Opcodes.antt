-- ===== src/Sys/Opcodes.antt =====
-- src/sys.rs: the numbers of the commands to the driver and of its returns. How an opcode is made
-- of a direction, a size, a group and a number is rustix's, and a parameter here.
use binderbinder.Base.{ℕ, ◌+◌, ◌*◌, ◌^◌, ◌<◌, ◌≡◌, ◌≢◌, arith}

-- The fields of an ioctl number hold a size below 2^14, and a group and a number below 2^8.
abbrev pub IsEncodable : ℕ → ℕ → ℕ → Type 0
IsEncodable size group number = (size < 2 ^ 14) × (group < 256) × (number < 256)

-- `opcode::{none, read, write}`: different fields give different numbers.
pub record Opcodes : Type 0 where
  pub no_data : ℕ → ℕ → ℕ
  pub read : ℕ → ℕ → ℕ → ℕ
  pub write : ℕ → ℕ → ℕ → ℕ
  pub no_data_inj :
      (g n g' n' : ℕ)
      → IsEncodable 0 g n
      → IsEncodable 0 g' n'
      → no_data g n ≡ no_data g' n'
      → (g ≡ g') × (n ≡ n')
  pub read_inj :
      (s g n s' g' n' : ℕ)
      → IsEncodable s g n
      → IsEncodable s' g' n'
      → read s g n ≡ read s' g' n'
      → (s ≡ s') × (g ≡ g') × (n ≡ n')
  pub no_data_ne_read :
      (g n s' g' n' : ℕ) → IsEncodable 0 g n → IsEncodable s' g' n' → no_data g n ≢ read s' g' n'
  pub write_inj :
      (s g n s' g' n' : ℕ)
      → IsEncodable s g n
      → IsEncodable s' g' n'
      → write s g n ≡ write s' g' n'
      → (s ≡ s') × (g ≡ g') × (n ≡ n')
  pub no_data_ne_write :
      (g n s' g' n' : ℕ) → IsEncodable 0 g n → IsEncodable s' g' n' → no_data g n ≢ write s' g' n'

-- Linux's numbers: direction at bit 30, size at bit 16, group at bit 8.
abbrev linux_read : ℕ → ℕ → ℕ → ℕ
linux_read s g n = 2 * 2 ^ 30 + s * 2 ^ 16 + g * 2 ^ 8 + n

abbrev linux_write : ℕ → ℕ → ℕ → ℕ
linux_write s g n = 2 ^ 30 + s * 2 ^ 16 + g * 2 ^ 8 + n

abbrev linux_no_data : ℕ → ℕ → ℕ
linux_no_data g n = g * 2 ^ 8 + n

pub linux_no_data_inj :
    (g n g' n' : ℕ)
    → IsEncodable 0 g n
    → IsEncodable 0 g' n'
    → linux_no_data g n ≡ linux_no_data g' n'
    → (g ≡ g') × (n ≡ n')
linux_no_data_inj g n g' n' h h' e = omega arith

pub linux_read_inj :
    (s g n s' g' n' : ℕ)
    → IsEncodable s g n
    → IsEncodable s' g' n'
    → linux_read s g n ≡ linux_read s' g' n'
    → (s ≡ s') × (g ≡ g') × (n ≡ n')
linux_read_inj s g n s' g' n' h h' e = omega arith

pub linux_no_data_ne_read :
    (g n s' g' n' : ℕ)
    → IsEncodable 0 g n
    → IsEncodable s' g' n'
    → linux_no_data g n ≢ linux_read s' g' n'
linux_no_data_ne_read g n s' g' n' h h' = omega arith

pub linux_write_inj :
    (s g n s' g' n' : ℕ)
    → IsEncodable s g n
    → IsEncodable s' g' n'
    → linux_write s g n ≡ linux_write s' g' n'
    → (s ≡ s') × (g ≡ g') × (n ≡ n')
linux_write_inj s g n s' g' n' h h' e = omega arith

pub linux_no_data_ne_write :
    (g n s' g' n' : ℕ)
    → IsEncodable 0 g n
    → IsEncodable s' g' n'
    → linux_no_data g n ≢ linux_write s' g' n'
linux_no_data_ne_write g n s' g' n' h h' = omega arith

abbrev pub linux : Opcodes
linux = record {
  no_data = linux_no_data;
  read = linux_read;
  write = linux_write;
  no_data_inj = linux_no_data_inj;
  read_inj = linux_read_inj;
  no_data_ne_read = linux_no_data_ne_read;
  write_inj = linux_write_inj;
  no_data_ne_write = linux_no_data_ne_write;
}
