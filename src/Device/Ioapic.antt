-- ===== src/Device/Ioapic.antt =====
-- ioapic.c.
pub mod Masked
use quaros.Base.{ℕ, zero, suc, ◌+◌, ◌*◌, ◌/◌, ◌%◌, ◌^◌}
use quaros.Device.{Bus}

abbrev pub ioapic : ℕ
ioapic = 0xfec00000

abbrev pub ia_redir_base : ℕ
ia_redir_base = 0x10

abbrev pub ia_mask : ℕ
ia_mask = 2 ^ 16

abbrev pub t_irq_base : ℕ
t_irq_base = 0x20

module _ {D : Type 0} (bus : Bus D) where
  unfoldable pub read_ioapic : ℕ → D → ℕ × D
  read_ioapic reg d = bus.load (ioapic + 4 * 4) (bus.store ioapic (reg % 256) d)

  unfoldable pub write_ioapic : ℕ → ℕ → D → D
  write_ioapic reg value d = bus.store (ioapic + 4 * 4) value (bus.store ioapic (reg % 256) d)

  unfoldable pub disable_ioapic : ℕ → D → D
  unfolding write_ioapic
  disable_ioapic irq d =
      write_ioapic (ia_redir_base + irq * 2 + 1) 0
        (write_ioapic (ia_redir_base + irq * 2) ia_mask d)

  unfoldable pub enable_ioapic : ℕ → D → D
  unfolding write_ioapic
  enable_ioapic irq d =
      write_ioapic (ia_redir_base + irq * 2 + 1) (t_irq_base + irq)
        (write_ioapic (ia_redir_base + irq * 2) (t_irq_base + irq) d)

  -- The loop of `init_ioapic` for `n` entries from the i-th on.
  unfoldable pub disable_from : ℕ → ℕ → D → D
  unfolding disable_ioapic
  disable_from zero i d = d
  disable_from (suc n) i d = disable_from n (i + 1) (disable_ioapic i d)

  unfoldable pub init_ioapic : D → D
  unfolding disable_from read_ioapic
  init_ioapic d =
      let (version, d') = read_ioapic 0x01 d in
      let max_redir_entry = version / 2 ^ 16 % 256 in disable_from (max_redir_entry + 1) 0 d'
