-- ===== src/Start/Memory.antt =====
-- The memory at start-up.
use quaros.Base.{◌≢◌, ℕ, ◌+◌, ◌-◌, ◌*◌, ◌/◌, ◌<◌, ◌≡◌, List, All}
use quaros.Ram.{Mem, load32}
use quaros.PageAlloc.{Machine}
use quaros.PageAlloc.FreeList.{IsPage}
use quaros.Paging.Space.{HasTable, table}
use quaros.Start.{entry_top}

-- The page at `kstack` is below the end of the first 4 MB, and is no part of the address space and
-- not free.
pub record IsStack (m : Mem) (kpgdir kstack : ℕ) (free : List ℕ) : Type 0 where
  pub page : IsPage kstack
  pub low : kstack < entry_top
  pub not_dir : kpgdir ≢ kstack
  pub not_table : (i : ℕ) → i < 1024 → HasTable m kpgdir i → table m kpgdir i ≢ kstack
  pub not_free : All (λ q. kstack ≢ q) free

-- The machine with .bss cleared: every whole word of it is 0, and no page is free.
pub record Cleared (bss_start bss_end : ℕ) (h : Machine) : Type 0 where
  pub words : (i : ℕ) → i < (bss_end - bss_start) / 4 → load32 h.mem (bss_start + i * 4) ≡ 0
  pub none_free : h.free_pages ≡ 0
  pub none_allocated : h.num_allocated ≡ 0
