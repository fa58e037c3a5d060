-- ===== src/Device.antt =====
-- The devices that the kernel programs: lapic.c, ioapic.c, and the output of uart.c and io.c.
-- They are reached through registers in memory and through ports, and are what lies behind a `Bus`.
pub mod Lapic
pub mod Ioapic
pub mod Serial
use quaros.Base.{ℕ}

-- `D` is the state of the devices: a 32-bit load or store at an address, and the instructions `in`
-- and `out` on a byte. A load may change a device too.
pub record Bus (D : Type 0) : Type 0 where
  pub load : ℕ → D → ℕ × D
  pub store : ℕ → ℕ → D → D
  pub in_byte : ℕ → D → ℕ × D
  pub out_byte : ℕ → ℕ → D → D
