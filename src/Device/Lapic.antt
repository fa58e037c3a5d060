-- ===== src/Device/Lapic.antt =====
-- lapic.c.
pub mod Registers
pub mod Programmed
use quaros.Base.{ℕ, ◌+◌, ◌*◌, ◌^◌}
use quaros.Device.{Bus}
use quaros.Trampoline.{irq_timer, irq_spurious, irq_err}

abbrev pub lapic : ℕ
lapic = 0xfee00000

abbrev pub la_id : ℕ
la_id = 0x08

abbrev pub la_task_pri : ℕ
la_task_pri = 0x20

abbrev pub la_eoi : ℕ
la_eoi = 0x2c

abbrev pub la_siv : ℕ
la_siv = 0x3c

abbrev pub la_err_stat : ℕ
la_err_stat = 0xa0

abbrev pub la_lvt_timer : ℕ
la_lvt_timer = 0xc8

abbrev pub la_lvt_perf_mon_ctr : ℕ
la_lvt_perf_mon_ctr = 0xd0

abbrev pub la_lvt_lint0 : ℕ
la_lvt_lint0 = 0xd4

abbrev pub la_lvt_lint1 : ℕ
la_lvt_lint1 = 0xd8

abbrev pub la_lvt_err : ℕ
la_lvt_err = 0xdc

abbrev pub la_init_cnt : ℕ
la_init_cnt = 0xe0

abbrev pub la_dcr : ℕ
la_dcr = 0xf8

abbrev pub la_enable : ℕ
la_enable = 0x100

abbrev pub la_mask : ℕ
la_mask = 0x10000

module _ {D : Type 0} (bus : Bus D) where
  -- A store of a register, and a load that waits for it.
  unfoldable pub write_lapic : ℕ → ℕ → D → D
  write_lapic reg value d = (bus.load (lapic + la_id * 4) (bus.store (lapic + reg * 4) value d)).1

  unfoldable pub eoi : D → D
  unfolding write_lapic
  eoi = write_lapic la_eoi 0

  unfoldable pub init_lapic : D → D
  unfolding write_lapic eoi
  init_lapic d₀ =
      let d₁ = write_lapic la_id 0 d₀ in
      let d₂ = write_lapic la_siv (irq_spurious + la_enable) d₁ in
      let d₃ = write_lapic la_lvt_lint0 la_mask d₂ in
      let d₄ = write_lapic la_lvt_lint1 la_mask d₃ in
      let d₅ = write_lapic la_lvt_perf_mon_ctr la_mask d₄ in
      let d₆ = write_lapic la_lvt_err irq_err d₅ in
      let d₇ = write_lapic la_err_stat 0 (write_lapic la_err_stat 0 d₆) in
      let d₈ = write_lapic la_task_pri 0 (eoi d₇) in
      let d₉ = write_lapic la_dcr 0xb d₈ in
      let d₁₀ = write_lapic la_lvt_timer (2 ^ 17 + irq_timer) d₉ in
      write_lapic la_init_cnt 10000000 d₁₀

  -- `out 0xa1` and `out 0x21`: every interrupt of the old controllers is masked.
  unfoldable pub disable_pic : D → D
  disable_pic d = bus.out_byte 0x21 0xff (bus.out_byte 0xa1 0xff d)
