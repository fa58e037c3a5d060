-- ===== src/Paging/Space.antt =====
-- A well-formed address space, and the entry that the kernel's walk finds in it.
use quaros.Base.{
  Bool-cases, refl, true, false, inl, inr, ℕ, ◌+◌, ◌*◌, ◌/◌, ◌%◌, ◌^◌, ◌≤◌, ◌<◌, ◌≡◌, ◌≢◌, ◌⊎◌,
  List, All, arith, ◌==◌, if◌then◌else◌, Option, none, some,
}
use quaros.Ram.{Mem, load32}
use quaros.PageAlloc.FreeList.{IsPage}
use quaros.Paging.{walk_pgdir, pte_index, present, table_of}

-- the `i`th entry of a page directory, and the page table that it names
abbrev pub pde : Mem → ℕ → ℕ → ℕ
pde m pgdir i = load32 m (pgdir + i * 4)

abbrev pub table : Mem → ℕ → ℕ → ℕ
table m pgdir i = table_of (pde m pgdir i)

abbrev pub HasTable : Mem → ℕ → ℕ → Type 0
HasTable m pgdir i = present (pde m pgdir i) ≡ true

-- The page directory and its page tables are distinct pages, and none of them is in `free`.
pub record IsSpace (m : Mem) (pgdir : ℕ) (free : List ℕ) : Type 0 where
  pub dir : IsPage pgdir
  pub dir_used : All (λ q. pgdir ≢ q) free
  pub tables : (i : ℕ) → i < 1024 → HasTable m pgdir i → IsPage (table m pgdir i)
  pub apart : (i : ℕ) → i < 1024 → HasTable m pgdir i → table m pgdir i ≢ pgdir
  pub distinct :
      (i j : ℕ)
      → i < 1024
      → j < 1024
      → i ≢ j
      → HasTable m pgdir i
      → HasTable m pgdir j
      → table m pgdir i ≢ table m pgdir j
  pub used : (i : ℕ) → i < 1024 → HasTable m pgdir i → All (λ q. table m pgdir i ≢ q) free

-- The entry that `walk_pgdir` leads to, or 0, which maps nothing, where it returns NULL.
pub entry_at : Mem → ℕ → ℕ → ℕ
entry_at m pgdir v = let at = walk_pgdir m pgdir v in if at == 0 then 0 else load32 m at

-- An entry serves every address of its page.
pub entry_at-page :
    (m : Mem) (pgdir v w : ℕ) → w / 4096 ≡ v / 4096 → entry_at m pgdir w ≡ entry_at m pgdir v
unfolding entry_at walk_pgdir
entry_at-page m pgdir v w e =
    let top : w / 2 ^ 22 % 1024 ≡ v / 2 ^ 22 % 1024 = omega arith in
    let low : pte_index w ≡ pte_index v = omega arith in rw (top, low)

-- What the entry means: the physical address that the page of `v` is mapped to.
unfoldable pub translate : Mem → ℕ → ℕ → Option ℕ
unfolding entry_at
translate m pgdir v =
    let e = entry_at m pgdir v in if present e then some (e / 4096 * 4096 + v % 4096) else none

-- Entries at offsets of pages do not overlap unless they are the same entry.
pub entries_apart :
    (p q i j : ℕ)
    → IsPage p
    → IsPage q
    → i < 1024
    → j < 1024
    → (p ≢ q) ⊎ (i ≢ j)
    → (p + i * 4 + 4 ≤ q + j * 4) ⊎ (q + j * 4 + 4 ≤ p + i * 4)
entries_apart p q i j ip iq hi hj d = omega (arith, ip, iq)

-- The walk, by the indices of the two entries.
pub entry_at-table :
    (m : Mem) (pgdir v : ℕ) (free : List ℕ)
    → IsSpace m pgdir free
    → HasTable m pgdir (v / 2 ^ 22 % 1024)
    → entry_at m pgdir v ≡ load32 m (table m pgdir (v / 2 ^ 22 % 1024) + pte_index v * 4)
unfolding entry_at walk_pgdir
entry_at-table m pgdir v free s has =
    let ip = s.tables (v / 2 ^ 22 % 1024) (omega arith) has in rw has (ground (arith, ip))

pub entry_at-no_table :
    (m : Mem) (pgdir v : ℕ)
    → present (pde m pgdir (v / 2 ^ 22 % 1024)) ≡ false
    → entry_at m pgdir v ≡ 0
unfolding entry_at walk_pgdir
entry_at-no_table m pgdir v no_table = rw no_table

-- Where the entry is present, the walk has found it.
pub walk_pgdir-entry_at :
    (m : Mem) (pgdir v : ℕ)
    → present (entry_at m pgdir v) ≡ true
    → ((walk_pgdir m pgdir v == 0) ≡ false) × (load32 m (walk_pgdir m pgdir v) ≡ entry_at m pgdir v)
unfolding entry_at
walk_pgdir-entry_at m pgdir v here = elim (Bool-cases (walk_pgdir m pgdir v == 0)) [
  | inl nothing ↦ (let absent : present 0 ≡ true = rw nothing at here in cc)
  | inr found ↦ (found, rw found refl)
]

-- The entry behind a translation.
pub translate-inv :
    (m : Mem) (pgdir v pa : ℕ)
    → translate m pgdir v ≡ some pa
    → (present (entry_at m pgdir v) ≡ true) × (entry_at m pgdir v / 4096 * 4096 + v % 4096 ≡ pa)
unfolding translate
translate-inv m pgdir v pa e = (ground arith, ground arith)
