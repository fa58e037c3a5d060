-- ===== src/Kernel/Frame.antt =====
-- The frames on a new task's kernel stack: `struct int_regs` and `struct context`, and the
-- functions of proc.c that build them.
pub mod User
use quaros.Base.{ℕ, ◌+◌, ◌-◌, ◌*◌, ◌%◌, ◌^◌}
use quaros.Ram.{Mem, store16, store32}
use quaros.Str.{memset}
use quaros.PageAlloc.{pgsize}
use quaros.Kernel.Proc.{kstack_top}

-- offsets in `struct int_regs`, and its size
abbrev pub eax_at : ℕ
eax_at = 28

abbrev pub es_at : ℕ
es_at = 40

abbrev pub ds_at : ℕ
ds_at = 44

abbrev pub eip_at : ℕ
eip_at = 56

abbrev pub cs_at : ℕ
cs_at = 60

abbrev pub eflags_at : ℕ
eflags_at = 64

abbrev pub esp_at : ℕ
esp_at = 68

abbrev pub ss_at : ℕ
ss_at = 72

abbrev pub int_regs_size : ℕ
int_regs_size = 76

abbrev pub context_size : ℕ
context_size = 36

-- `(USER_DATA_SEG << 3) | DPL_USER` and `(USER_CODE_SEG << 3) | DPL_USER`
abbrev pub user_data : ℕ
user_data = 3 * 8 + 3

abbrev pub user_code : ℕ
user_code = 4 * 8 + 3

abbrev pub fl_if : ℕ
fl_if = 0x200

unfoldable pub build_int_frame : ℕ → ℕ → Mem → Mem
build_int_frame p entry m =
    let m₀ = memset p 0 int_regs_size m in
    let m₁ = store16 m₀ (p + ds_at) user_data in
    let m₂ = store16 m₁ (p + es_at) user_data in
    let m₃ = store32 m₂ (p + eip_at) entry in
    let m₄ = store16 m₃ (p + cs_at) user_code in
    let m₅ = store32 m₄ (p + eflags_at) fl_if in
    let m₆ = store32 m₅ (p + esp_at) (pgsize - 8) in store16 m₆ (p + ss_at) user_data

-- `site` is the address of `ret_to_int_site`, a label of int_common.asm.
unfoldable pub build_context : ℕ → ℕ → Mem → Mem
build_context site p m = store32 (memset p 0 context_size m) (p + 32) site

-- where the two frames stand on a kernel stack
abbrev pub frame_of : ℕ → ℕ
frame_of kstack = (kstack_top kstack + 2 ^ 32 - int_regs_size) % 2 ^ 32

abbrev pub context_of : ℕ → ℕ
context_of kstack = (frame_of kstack + 2 ^ 32 - context_size) % 2 ^ 32
