-- ===== src/Kernel/Frame/User.antt =====
-- The interrupt frame of a new task, as the return from the interrupt reads it.
use quaros.Base.{◌/◌, ◌%◌, ap, sym, subst, ℕ, ◌+◌, ◌-◌, ◌^◌, ◌≤◌, ◌<◌, ◌≡◌, inr, ◌∙◌, arith}
use quaros.Ram.{
  Mem, load16, load32, store16, store32, load16-store16_self, load16-store16_apart,
  load16-store32_apart, load32-store16_apart, load32-store32_self, load32-store32-Apart,
}
use quaros.Str.{memset}
use quaros.PageAlloc.{pgsize}
use quaros.Descriptor.{SegmentDesc, init_segmentation}
use quaros.Descriptor.Decode.{IsSegment, user_data-IsSegment, user_code-IsSegment}
use quaros.Kernel.Frame.{
  build_int_frame, eip_at, cs_at, eflags_at, esp_at, ss_at, ds_at, es_at, int_regs_size, user_data,
  user_code, fl_if,
}

-- The frame at `p` leads to `entry` in user mode, with interrupts enabled: the places are those
-- from which the return from the interrupt loads the registers.
pub record LeadsTo (gdt : ℕ → SegmentDesc) (m : Mem) (p entry : ℕ) : Type 0 where
  pub eip : load32 m (p + 56) ≡ entry
  pub cs : IsSegment gdt (load16 m (p + 60)) 3 1
  pub eflags : load32 m (p + 64) / 2 ^ 9 % 2 ≡ 1
  pub esp : load32 m (p + 68) ≡ 4096 - 8
  pub ss : IsSegment gdt (load16 m (p + 72)) 3 0
  pub ds : IsSegment gdt (load16 m (p + 44)) 3 0
  pub es : IsSegment gdt (load16 m (p + 40)) 3 0

-- The interrupt frame that is built for a 32-bit entry leads to it in user mode, with the
-- descriptor table of init_segmentation, filled over one with clear upper base bytes: where the
-- return from the interrupt loads the registers there are the entry, interrupts enabled, a stack
-- pointer 8 below the end of the first page, and selectors of present segments of privilege 3
-- that span 4 GB, of code for CS and of data for SS, DS and ES.
pub build_int_frame-LeadsTo :
    (p entry tss : ℕ) (gdt : ℕ → SegmentDesc) (m : Mem)
    → ((j : ℕ) → (gdt j).base2 ≡ 0)
    → entry < 2 ^ 32
    → LeadsTo (init_segmentation tss gdt) (build_int_frame p entry m) p entry
unfolding build_int_frame
build_int_frame-LeadsTo p entry tss gdt m clear small =
    let gdt' = init_segmentation tss gdt in
    let flat = user_data-IsSegment tss gdt clear in
    let m₀ = memset p 0 int_regs_size m in
    let m₁ = store16 m₀ (p + ds_at) user_data in
    let m₂ = store16 m₁ (p + es_at) user_data in
    let m₃ = store32 m₂ (p + eip_at) entry in
    let m₄ = store16 m₃ (p + cs_at) user_code in
    let m₅ = store32 m₄ (p + eflags_at) fl_if in
    let m₆ = store32 m₅ (p + esp_at) (pgsize - 8) in
    let below_ss =
      λ (b : ℕ) (h : b + 4 ≤ p + 72). load32-store16_apart m₆ (p + ss_at) b user_data (inr h) in
    let half_below = λ (b : ℕ) (h : b + 2 ≤ p + 64).
      load16-store16_apart m₆ (p + ss_at) b user_data (omega arith)
      ∙ (load16-store32_apart m₅ (p + esp_at) b (pgsize - 8) (omega arith)
          ∙ load16-store32_apart m₄ (p + eflags_at) b fl_if (omega arith)) in
    let seg_below = λ (b : ℕ) (h : b + 2 ≤ p + 56).
      half_below b (omega arith)
      ∙ (load16-store16_apart m₃ (p + cs_at) b user_code (omega arith)
          ∙ load16-store32_apart m₂ (p + eip_at) b entry (omega arith)) in
    record {
      eip =
          below_ss (p + eip_at) (omega arith)
          ∙ (load32-store32-Apart m₅ (p + esp_at) (p + eip_at) (pgsize - 8) (omega arith)
              ∙ (load32-store32-Apart m₄ (p + eflags_at) (p + eip_at) fl_if (omega arith)
                  ∙ (load32-store16_apart m₃ (p + cs_at) (p + eip_at) user_code (omega arith)
                      ∙ load32-store32_self m₂ (p + eip_at) entry small)));
      cs =
          subst (λ w. IsSegment gdt' w 3 1)
            (sym (
              half_below (p + cs_at) (omega arith)
              ∙ load16-store16_self m₃ (p + cs_at) user_code (omega arith)))
            (user_code-IsSegment tss gdt clear);
      eflags =
          ap (λ w. w / 2 ^ 9 % 2)
            (below_ss (p + eflags_at) (omega arith)
              ∙ (load32-store32-Apart m₅ (p + esp_at) (p + eflags_at) (pgsize - 8) (omega arith)
                  ∙ load32-store32_self m₄ (p + eflags_at) fl_if (omega arith)));
      esp =
          below_ss (p + esp_at) (omega arith)
          ∙ load32-store32_self m₅ (p + esp_at) (pgsize - 8) (omega arith);
      ss =
          subst (λ w. IsSegment gdt' w 3 0)
            (sym (load16-store16_self m₆ (p + ss_at) user_data (omega arith))) flat;
      ds =
          subst (λ w. IsSegment gdt' w 3 0)
            (sym (
              seg_below (p + ds_at) (omega arith)
              ∙ (load16-store16_apart m₁ (p + es_at) (p + ds_at) user_data (omega arith)
                  ∙ load16-store16_self m₀ (p + ds_at) user_data (omega arith))))
            flat;
      es =
          subst (λ w. IsSegment gdt' w 3 0)
            (sym (
              seg_below (p + es_at) (omega arith)
              ∙ load16-store16_self m₁ (p + es_at) user_data (omega arith)))
            flat;
    }
