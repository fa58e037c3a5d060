-- ===== src/Descriptor/Decode.antt =====
-- What the processor reads out of the descriptors.
use quaros.Base.{
  leb, ℕ, zero, suc, ◌+◌, ◌*◌, ◌/◌, ◌%◌, ◌^◌, ◌<◌, ◌≤◌, ◌≡◌, ◌≢◌, ◌⊎◌, inl, inr, refl, ◌∙◌, arith,
  ◌==◌, if◌then◌else◌,
}
use native.Mathlib.Nat.{eq-or-lt_of_le}
use quaros.Descriptor.{
  init_segmentation, SegmentDesc, set_segment_desc, set_ts_segment_desc, Gate, set_interrupt_gate,
  set_gates, init_idt, syscall_vector,
}

-- The base address of a segment, and its last offset: in pages if `g` is set, in bytes if not.
abbrev pub base_of : SegmentDesc → ℕ
base_of desc = desc.base0 + desc.base1 * 2 ^ 16 + desc.base2 * 2 ^ 24

abbrev pub limit_of : SegmentDesc → ℕ
limit_of desc =
    let n = desc.limit0 + desc.limit * 2 ^ 16 in if desc.g == 1 then n * 4096 + 4095 else n

-- The entry point of a gate.
abbrev pub offset_of : Gate → ℕ
offset_of gate = gate.offset0 + gate.offset1 * 2 ^ 16

-- In a descriptor with a clear upper base byte, for a base below 2 ^ 24 and a 32-bit limit, the
-- processor reads back the base, the last byte of the page of the limit and the two bits of
-- privilege.
pub set_segment_desc-decode :
    (desc : SegmentDesc) (base limit type dpl : ℕ)
    → desc.base2 ≡ 0
    → base < 2 ^ 24
    → limit < 2 ^ 32
    → let d = set_segment_desc desc base limit type dpl in
      (base_of d ≡ base) × (limit_of d ≡ limit / 4096 * 4096 + 4095) × (d.dpl ≡ dpl % 4)
unfolding set_segment_desc
set_segment_desc-decode desc base limit type dpl clear hb hl = (omega arith, ground arith, refl)

-- For a base from 16 MB on, in a descriptor with a clear upper base byte, the processor reads the
-- base modulo 2 ^ 24, which is not the base.
pub set_ts_segment_desc-base :
    (desc : SegmentDesc) (base limit type dpl : ℕ)
    → desc.base2 ≡ 0
    → 2 ^ 24 ≤ base
    → (base_of (set_ts_segment_desc desc base limit type dpl) ≡ base % 2 ^ 24)
      × (base_of (set_ts_segment_desc desc base limit type dpl) ≢ base)
unfolding set_ts_segment_desc
set_ts_segment_desc-base desc base limit type dpl clear hb = (omega arith, λ e. omega arith)

-- A gate leads to the address that it was set to.
pub offset_of-set_interrupt_gate :
    (offset dpl : ℕ) → offset < 2 ^ 32 → offset_of (set_interrupt_gate offset dpl) ≡ offset
unfolding set_interrupt_gate
offset_of-set_interrupt_gate offset dpl h = omega arith

set_gates-same :
    (rounds i : ℕ) (vectors : ℕ → ℕ) (idt : ℕ → Gate) (j : ℕ)
    → (j < i) ⊎ (i + rounds ≤ j)
    → set_gates rounds i vectors idt j ≡ idt j
unfolding set_gates
set_gates-same zero i vectors idt j out = refl
set_gates-same (suc rounds) i vectors idt j out =
    set_gates-same rounds (i + 1) vectors _ j (omega arith) ∙ ground arith

set_gates-gate :
    (rounds i : ℕ) (vectors : ℕ → ℕ) (idt : ℕ → Gate) (j : ℕ)
    → i ≤ j
    → j < i + rounds
    → set_gates rounds i vectors idt j ≡ set_interrupt_gate (vectors j) 0
unfolding set_gates
set_gates-gate zero i vectors idt j lo hi = absurd (omega arith)
set_gates-gate (suc rounds) i vectors idt j lo hi = elim (eq-or-lt_of_le lo) [
  | inl e ↦ set_gates-same rounds (i + 1) vectors _ j (omega arith) ∙ ground arith
  | inr lt ↦ set_gates-gate rounds (i + 1) vectors _ j (omega arith) (omega arith)
]

init_idt-gate :
    (vectors : ℕ → ℕ) (idt : ℕ → Gate) (j : ℕ)
    → j < 256
    → init_idt vectors idt j ≡ set_interrupt_gate (vectors j) (if j == syscall_vector then 3 else 0)
unfolding init_idt
init_idt-gate vectors idt j lt =
    ground (arith, set_gates-gate 256 0 vectors idt j (omega arith) (omega arith))

-- Where no upper base byte is set before, the four code and data segments of init_segmentation
-- start at 0 and end with the last byte of 4 GB; those of the kernel have privilege 0, those of
-- user code 3.
pub init_segmentation-flat :
    (tss : ℕ) (gdt : ℕ → SegmentDesc) (i : ℕ)
    → ((j : ℕ) → (gdt j).base2 ≡ 0)
    → 1 ≤ i
    → i ≤ 4
    → let d = init_segmentation tss gdt i in
      (base_of d ≡ 0) × (limit_of d ≡ 0xffffffff) × (d.dpl ≡ (if leb 3 i then 3 else 0))
unfolding init_segmentation set_segment_desc set_ts_segment_desc
init_segmentation-flat tss gdt i clear lo hi =
    (ground (arith, clear i), ground (arith, clear i), ground (arith, clear i))

-- In the table `gdt`, `selector` is for a segment of privilege `ring` that is present and spans
-- 4 GB from 0: of code that may be read if `exec` is 1, of data that may be written if it is 0.
pub record IsSegment (gdt : ℕ → SegmentDesc) (selector ring exec : ℕ) : Type 0 where
  pub requested : selector % 4 ≡ ring
  pub in_gdt : selector / 4 % 2 ≡ 0
  pub privilege : (gdt (selector / 8)).dpl ≡ ring
  pub is_present : (gdt (selector / 8)).p ≡ 1
  pub memory : (gdt (selector / 8)).s ≡ 1
  pub executable : (gdt (selector / 8)).type / 8 ≡ exec
  pub accessible : (gdt (selector / 8)).type / 2 % 2 ≡ 1
  pub base : base_of (gdt (selector / 8)) ≡ 0
  pub limit : limit_of (gdt (selector / 8)) ≡ 0xffffffff

module _ (tss : ℕ) (gdt : ℕ → SegmentDesc) (clear : (j : ℕ) → (gdt j).base2 ≡ 0) where
  pub kernel_code-IsSegment : IsSegment (init_segmentation tss gdt) (2 * 8) 0 1
  unfolding init_segmentation set_segment_desc set_ts_segment_desc
  kernel_code-IsSegment =
      let (base, limit, dpl) = init_segmentation-flat tss gdt 2 clear (omega arith) (omega arith) in
      record {
        requested = refl;
        in_gdt = refl;
        privilege = dpl;
        is_present = refl;
        memory = refl;
        executable = refl;
        accessible = refl;
        base = base;
        limit = limit;
      }

  pub user_data-IsSegment : IsSegment (init_segmentation tss gdt) (3 * 8 + 3) 3 0
  unfolding init_segmentation set_segment_desc set_ts_segment_desc
  user_data-IsSegment =
      let (base, limit, dpl) = init_segmentation-flat tss gdt 3 clear (omega arith) (omega arith) in
      record {
        requested = refl;
        in_gdt = refl;
        privilege = dpl;
        is_present = refl;
        memory = refl;
        executable = refl;
        accessible = refl;
        base = base;
        limit = limit;
      }

  pub user_code-IsSegment : IsSegment (init_segmentation tss gdt) (4 * 8 + 3) 3 1
  unfolding init_segmentation set_segment_desc set_ts_segment_desc
  user_code-IsSegment =
      let (base, limit, dpl) = init_segmentation-flat tss gdt 4 clear (omega arith) (omega arith) in
      record {
        requested = refl;
        in_gdt = refl;
        privilege = dpl;
        is_present = refl;
        memory = refl;
        executable = refl;
        accessible = refl;
        base = base;
        limit = limit;
      }

-- The gate is a present 32-bit interrupt gate into the kernel's code, at `entry`, that code of
-- privilege `ring` or below may raise.
pub record EntersAt (gdt : ℕ → SegmentDesc) (gate : Gate) (entry ring : ℕ) : Type 0 where
  pub offset : offset_of gate ≡ entry
  pub is_present : gate.p ≡ 1
  pub system : gate.s ≡ 0
  pub type : gate.type ≡ 14
  pub selector : IsSegment gdt gate.selector 0 1
  pub ring_of : gate.dpl ≡ ring

set_interrupt_gate-EntersAt :
    (tss : ℕ) (gdt : ℕ → SegmentDesc) (offset dpl : ℕ)
    → ((j : ℕ) → (gdt j).base2 ≡ 0)
    → offset < 2 ^ 32
    → dpl < 4
    → EntersAt (init_segmentation tss gdt) (set_interrupt_gate offset dpl) offset dpl
unfolding set_interrupt_gate
set_interrupt_gate-EntersAt tss gdt offset dpl clear small h = record {
  offset = offset_of-set_interrupt_gate offset dpl small;
  is_present = refl;
  system = refl;
  type = refl;
  selector = kernel_code-IsSegment tss gdt clear;
  ring_of = omega arith;
}

-- After init_idt, and with the descriptor table of init_segmentation, filled over one with clear
-- upper base bytes, each of the 256 gates whose vector is below 2 ^ 32 is a present 32-bit
-- interrupt gate to that vector, in a present code segment of privilege 0 that spans 4 GB; gate
-- 128, of system calls, may be raised with privilege 3, the others with privilege 0 only.
pub init_idt-gates :
    (vectors : ℕ → ℕ) (idt : ℕ → Gate) (j tss : ℕ) (gdt : ℕ → SegmentDesc)
    → ((i : ℕ) → (gdt i).base2 ≡ 0)
    → j < 256
    → vectors j < 2 ^ 32
    → EntersAt
        (init_segmentation tss gdt)
        (init_idt vectors idt j)
        (vectors j)
        (if j == 128 then 3 else 0)
init_idt-gates vectors idt j tss gdt clear lt small = rw (init_idt-gate vectors idt j lt) (
    set_interrupt_gate-EntersAt tss gdt (vectors j) (if j == 128 then 3 else 0) clear small
      (ground arith))
