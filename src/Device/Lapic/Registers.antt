-- ===== src/Device/Lapic/Registers.antt =====
-- The registers of the local controller that hold a vector, and what is documented of them.
use quaros.Base.{ℕ, ◌+◌, ◌*◌, ◌/◌, ◌%◌, ◌^◌, ◌≡◌, ◌≢◌}
use quaros.Device.{Bus}
use quaros.Device.Lapic.{lapic}

-- The registers of the local vector table.
pub data IsLvt : ℕ → Type 0 where
  lvt_cmci : IsLvt 0xbc
  lvt_timer : IsLvt 0xc8
  lvt_thermal : IsLvt 0xcc
  lvt_perf_mon_ctr : IsLvt 0xd0
  lvt_lint0 : IsLvt 0xd4
  lvt_lint1 : IsLvt 0xd8
  lvt_err : IsLvt 0xdc

-- The registers that hold a vector: those, and the spurious-interrupt register.
pub data HasVector : ℕ → Type 0 where
  local : {r : ℕ} → IsLvt r → HasVector r
  spurious : HasVector 0x3c

-- Other registers that init_lapic writes.
pub data IsPlain : ℕ → Type 0 where
  plain_id : IsPlain 0x08
  plain_task_pri : IsPlain 0x20
  plain_eoi : IsPlain 0x2c
  plain_err_stat : IsPlain 0xa0
  plain_init_cnt : IsPlain 0xe0
  plain_dcr : IsPlain 0xf8

-- The mask bit and the vector of a register.
pub record LocalVector : Type 0 where
  pub masked : ℕ
  pub vector : ℕ

abbrev pub entry_of : ℕ → LocalVector
entry_of v = record { masked = v / 2 ^ 16 % 2; vector = v % 256 }

-- What is documented of the registers: `entry d r` is the mask bit and the vector of register `r`,
-- and `enabled d` is bit 8 of the spurious-interrupt register. A local vector takes what it is
-- given while the controller is enabled, and the mask bits are not set unless it is disabled.
pub record IsLapic {D : Type 0} (bus : Bus D) (entry : D → ℕ → LocalVector) (enabled : D → ℕ)
    : Type 0 where
  pub lvt_self :
      (d : D) (r v : ℕ)
      → IsLvt r
      → enabled d ≡ 1
      → entry (bus.store (lapic + r * 4) v d) r ≡ entry_of v
  pub lvt_other :
      (d : D) (r v q : ℕ)
      → IsLvt r
      → HasVector q
      → r ≢ q
      → entry (bus.store (lapic + r * 4) v d) q ≡ entry d q
  pub lvt_enabled :
      (d : D) (r v : ℕ) → IsLvt r → enabled (bus.store (lapic + r * 4) v d) ≡ enabled d
  pub siv_self :
      (d : D) (v : ℕ)
      → entry (bus.store (lapic + 0x3c * 4) v d) 0x3c ≡ record { masked = 0; vector = v % 256 }
  pub siv_enabled : (d : D) (v : ℕ) → enabled (bus.store (lapic + 0x3c * 4) v d) ≡ v / 2 ^ 8 % 2
  pub siv_other :
      (d : D) (v q : ℕ)
      → IsLvt q
      → v / 2 ^ 8 % 2 ≡ 1
      → entry (bus.store (lapic + 0x3c * 4) v d) q ≡ entry d q
  pub plain_entry :
      (d : D) (r v q : ℕ)
      → IsPlain r
      → HasVector q
      → entry (bus.store (lapic + r * 4) v d) q ≡ entry d q
  pub plain_enabled :
      (d : D) (r v : ℕ) → IsPlain r → enabled (bus.store (lapic + r * 4) v d) ≡ enabled d
  pub loaded_entry :
      (d : D) (q : ℕ) → HasVector q → entry (bus.load (lapic + 0x08 * 4) d).1 q ≡ entry d q
  pub loaded_enabled : (d : D) → enabled (bus.load (lapic + 0x08 * 4) d).1 ≡ enabled d
