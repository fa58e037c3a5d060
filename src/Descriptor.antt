-- ===== src/Descriptor.antt =====
-- The descriptors of memory.c and interrupt.c: segments of the GDT and gates of the IDT. A value
-- stored to a bit-field keeps the bits that fit.
pub mod Decode
use quaros.Base.{
  ℕ, zero, suc, ◌+◌, ◌*◌, ◌-◌, ◌/◌, ◌%◌, ◌^◌, Bool, true, false, bit_or, ◌==◌, if◌then◌else◌,
}
use quaros.Fs.{update}

-- `struct segment_desc`
pub record SegmentDesc : Type 0 where
  pub limit0 : ℕ
  pub base0 : ℕ
  pub base1 : ℕ
  pub type : ℕ
  pub s : ℕ
  pub dpl : ℕ
  pub p : ℕ
  pub limit : ℕ
  pub avl : ℕ
  pub l : ℕ
  pub d : ℕ
  pub g : ℕ
  pub base2 : ℕ

-- `base2` keeps its value.
unfoldable pub set_segment_desc : SegmentDesc → ℕ → ℕ → ℕ → ℕ → SegmentDesc
set_segment_desc desc base limit type dpl = record desc {
  limit0 = limit / 2 ^ 12 % 2 ^ 16;
  base0 = base % 2 ^ 16;
  base1 = base / 2 ^ 16 % 256;
  type = type % 16;
  s = 1;
  dpl = dpl % 4;
  p = 1;
  limit = limit / 2 ^ 28 % 256 % 16;
  avl = 0;
  l = 0;
  d = 1;
  g = 1;
}

unfoldable pub set_ts_segment_desc : SegmentDesc → ℕ → ℕ → ℕ → ℕ → SegmentDesc
set_ts_segment_desc desc base limit type dpl = record desc {
  limit0 = limit % 2 ^ 16;
  base0 = base % 2 ^ 16;
  base1 = base / 2 ^ 16 % 256;
  type = type % 16;
  s = 0;
  dpl = dpl % 4;
  p = 1;
  limit = limit / 2 ^ 16 % 256 % 16;
  avl = 0;
  l = 0;
  d = 1;
  g = 0;
}

abbrev pub zero_desc : SegmentDesc
zero_desc = record {
  limit0 = 0;
  base0 = 0;
  base1 = 0;
  type = 0;
  s = 0;
  dpl = 0;
  p = 0;
  limit = 0;
  avl = 0;
  l = 0;
  d = 0;
  g = 0;
  base2 = 0;
}

abbrev pub seg_type_rw : ℕ
seg_type_rw = 2

abbrev pub seg_type_ex : ℕ
seg_type_ex = 8

abbrev pub seg_type_t32a : ℕ
seg_type_t32a = 9

-- The GDT that `init_segmentation` fills, segment by segment; `tss` is `&task_state`. The array
-- starts zeroed with the rest of the bss.
unfoldable pub init_segmentation : ℕ → (ℕ → SegmentDesc) → ℕ → SegmentDesc
unfolding set_segment_desc set_ts_segment_desc
init_segmentation tss gdt =
    let g₀ = update gdt 0 zero_desc in
    let g₁ = update g₀ 1 (set_segment_desc (g₀ 1) 0 0xffffffff seg_type_rw 0) in
    let g₂ =
      update g₁ 2 (set_segment_desc (g₁ 2) 0 0xffffffff (bit_or seg_type_rw seg_type_ex) 0) in
    let g₃ = update g₂ 3 (set_segment_desc (g₂ 3) 0 0xffffffff seg_type_rw 3) in
    let g₄ =
      update g₃ 4 (set_segment_desc (g₃ 4) 0 0xffffffff (bit_or seg_type_rw seg_type_ex) 3) in
    update g₄ 5 (set_ts_segment_desc (g₄ 5) tss 104 seg_type_t32a 0)

-- `struct gate`
pub record Gate : Type 0 where
  pub offset0 : ℕ
  pub selector : ℕ
  pub unused : ℕ
  pub type : ℕ
  pub s : ℕ
  pub dpl : ℕ
  pub p : ℕ
  pub offset1 : ℕ

-- Every field is written, so the old gate does not matter.
unfoldable pub set_interrupt_gate : ℕ → ℕ → Gate
set_interrupt_gate offset dpl = record {
  offset0 = offset % 2 ^ 16;
  selector = 2 * 8;
  unused = 0;
  type = 0xe;
  s = 0;
  dpl = dpl % 4;
  p = 1;
  offset1 = offset / 2 ^ 16 % 2 ^ 16;
}

unfoldable pub set_trap_gate : ℕ → ℕ → Gate
set_trap_gate offset dpl = record {
  offset0 = offset % 2 ^ 16;
  selector = 2 * 8;
  unused = 0;
  type = 0xf;
  s = 0;
  dpl = dpl % 4;
  p = 1;
  offset1 = offset / 2 ^ 16 % 2 ^ 16;
}

-- `T_IRQ_BASE + IRQ_SYSCALL`
abbrev pub syscall_vector : ℕ
syscall_vector = 0x20 + 0x60

-- the rounds of the loop of `init_idt`, from gate `i` on
unfoldable pub set_gates : ℕ → ℕ → (ℕ → ℕ) → (ℕ → Gate) → ℕ → Gate
set_gates zero i vector_table idt = idt
set_gates (suc rounds) i vector_table idt =
    set_gates rounds (i + 1) vector_table (update idt i (set_interrupt_gate (vector_table i) 0))

unfoldable pub init_idt : (ℕ → ℕ) → (ℕ → Gate) → ℕ → Gate
init_idt vector_table idt =
    update (set_gates 256 0 vector_table idt) syscall_vector
      (set_interrupt_gate (vector_table syscall_vector) 3)
