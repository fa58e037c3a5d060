-- ===== src/Paging/Destroy.antt =====
-- Taking an address space apart.
use quaros.Base.{
  ℕ, zero, suc, ◌+◌, ◌*◌, ◌%◌, ◌^◌, ◌≤◌, ◌<◌, ◌≡◌, ◌≢◌, ◌⊎◌, inl, inr, refl, ap, sym, ◌∙◌, List,
  ◌∷◌, [], ◌++◌, subst, if◌then◌else◌, All, length, arith, done, some, true, Bool-cases,
}
use quaros.Ram.{Mem, store32, load32-store32-Apart}
use quaros.PageAlloc.{Machine}
use quaros.PageAlloc.FreeList.{IsPage, Pool, kfree-Pool, kfree-mem}
use quaros.Paging.{
  for_pages, unmap_memory, destroy_user_address_space, free_table, destroy_address_space,
  phys_to_virt, present, table_of,
}
use quaros.Paging.Space.{pde, table, HasTable, IsSpace, entry_at, translate, translate-inv}
use quaros.Paging.Missing.{missing, missing-same}
use quaros.Paging.Unmap.{Foreign, Unmapped, unmap_page-Unmapped}

-- The page that a translation leads to.
page_of_translate :
    (m : Mem) (pgdir frame : ℕ)
    → frame % 4096 ≡ 0
    → frame < 2 ^ 32
    → translate m pgdir 0 ≡ some frame
    → (present (entry_at m pgdir 0) ≡ true) × (table_of (entry_at m pgdir 0) ≡ phys_to_virt frame)
page_of_translate m pgdir frame aligned small e =
    let (here, place) = translate-inv m pgdir 0 frame e in (here, omega arith)

-- In a well-formed space, whatever aligned frame page 0 means, if it is neither free nor one of
-- the space's tables, destroy_user_address_space frees it and unmaps the page, also where that
-- frame was never allocated.
pub destroy_user_address_space-freed :
    (h : Machine) (pgdir frame : ℕ) (ps : List ℕ)
    → IsSpace h.mem pgdir ps
    → Pool h ps
    → frame % 4096 ≡ 0
    → frame < 2 ^ 32
    → translate h.mem pgdir 0 ≡ some frame
    → Foreign h.mem pgdir (phys_to_virt frame)
    → All (λ q. phys_to_virt frame ≢ q) ps
    → (h' : Machine) × (destroy_user_address_space pgdir h ≡ done (tt, h'))
      × Unmapped h pgdir 0 (phys_to_virt frame) ps h'
unfolding destroy_user_address_space unmap_memory for_pages
destroy_user_address_space-freed h pgdir frame ps s l aligned small maps f fresh =
    let (here, names) = page_of_translate h.mem pgdir frame aligned small maps in
    let (h', ran, u) =
      unmap_page-Unmapped h pgdir 0 (phys_to_virt frame) ps s l (omega arith) here names f fresh in
    (h', rw ran, u)

-- What the loop over the page directory `m` still has to free: the tables of its entries
-- `[i, i + n)`, while `free` are free.
record Closing (m : Mem) (pgdir i n : ℕ) (h : Machine) (free : List ℕ) : Type 0 where
  dir : IsPage pgdir
  dir_used : All (λ q. pgdir ≢ q) free
  pool : Pool h free
  kept : (j : ℕ) → i ≤ j → j < i + n → pde h.mem pgdir j ≡ pde m pgdir j
  tables : (j : ℕ) → i ≤ j → j < i + n → HasTable m pgdir j → IsPage (table m pgdir j)
  apart : (j : ℕ) → i ≤ j → j < i + n → HasTable m pgdir j → table m pgdir j ≢ pgdir
  distinct :
      (j k : ℕ)
      → i ≤ j
      → j < i + n
      → i ≤ k
      → k < i + n
      → j ≢ k
      → HasTable m pgdir j
      → HasTable m pgdir k
      → table m pgdir j ≢ table m pgdir k
  used : (j : ℕ) → i ≤ j → j < i + n → HasTable m pgdir j → All (λ q. table m pgdir j ≢ q) free

-- The page tables of the entries below `n`, the last one first.
abbrev pub tables_of : Mem → ℕ → ℕ → List ℕ
tables_of m pgdir zero = []
tables_of m pgdir (suc n) =
    if present (pde m pgdir n) then table m pgdir n ∷ tables_of m pgdir n else tables_of m pgdir n

tables_of-same :
    (m m' : Mem) (pgdir n : ℕ)
    → ((j : ℕ) → j < n → pde m' pgdir j ≡ pde m pgdir j)
    → tables_of m' pgdir n ≡ tables_of m pgdir n
tables_of-same m m' pgdir zero same = refl
tables_of-same m m' pgdir (suc n) same =
    rw (same n (omega arith), tables_of-same m m' pgdir n (λ j lt. same j (omega arith))) refl

module _ (m : Mem) (pgdir : ℕ) where
  Closing-skip :
      (i n : ℕ) (h : Machine) (free : List ℕ)
      → Closing m pgdir i (suc n) h free
      → Closing m pgdir (i + 1) n h free
  Closing-skip i n h free c = record {
    dir = c.dir;
    dir_used = c.dir_used;
    pool = c.pool;
    kept = λ j lo hi. c.kept j (omega arith) (omega arith);
    tables = λ j lo hi. c.tables j (omega arith) (omega arith);
    apart = λ j lo hi. c.apart j (omega arith) (omega arith);
    distinct =
        λ j k lo hi lo' hi'. c.distinct j k (omega arith) (omega arith) (omega arith) (omega arith);
    used = λ j lo hi. c.used j (omega arith) (omega arith);
  }

  Closing-free :
      (i n x : ℕ) (h h' : Machine) (free : List ℕ)
      → Closing m pgdir i (suc n) h free
      → HasTable m pgdir i
      → h'.mem ≡ store32 h.mem (table m pgdir i) x
      → Pool h' (table m pgdir i ∷ free)
      → i + suc n ≤ 1024
      → Closing m pgdir (i + 1) n h' (table m pgdir i ∷ free)
  Closing-free i n x h h' free c has stored pool top =
      let p = table m pgdir i in
      let ip = c.tables i (omega arith) (omega arith) has in
      let off = c.apart i (omega arith) (omega arith) has in
      record {
        dir = c.dir;
        dir_used = ((λ e. off (sym e)), c.dir_used);
        pool = pool;
        kept = λ j lo hi.
            ap (λ (m' : Mem). pde m' pgdir j) stored
            ∙ (load32-store32-Apart h.mem p (pgdir + j * 4) x
                  (page_apart p j ip c.dir (omega arith) off)
                ∙ c.kept j (omega arith) (omega arith));
        tables = λ j lo hi. c.tables j (omega arith) (omega arith);
        apart = λ j lo hi. c.apart j (omega arith) (omega arith);
        distinct = λ j k lo hi lo' hi'.
            c.distinct j k (omega arith) (omega arith) (omega arith) (omega arith);
        used = λ j lo hi has'. (
          c.distinct j i (omega arith) (omega arith) (omega arith) (omega arith) (omega arith) has'
              has,
          c.used j (omega arith) (omega arith) has',
        );
      }
    where
      page_apart :
          (p j : ℕ)
          → IsPage p
          → IsPage pgdir
          → j < 1024
          → p ≢ pgdir
          → (p + 4 ≤ pgdir + j * 4) ⊎ (pgdir + j * 4 + 4 ≤ p)
      page_apart p j ip id hj ne = omega (arith, ip, id)

  free_tables :
      (n i : ℕ) (h : Machine) (free base : List ℕ)
      → i + n ≤ 1024
      → free ≡ tables_of m pgdir i ++ base
      → Closing m pgdir i n h free
      → (h' : Machine) × (free' : List ℕ) × (for_pages n i (free_table pgdir) h ≡ done (tt, h'))
        × Pool h' free'
        × All (λ q. pgdir ≢ q) free'
        × (length free' + missing m pgdir i n ≡ length free + n)
        × (free' ≡ tables_of m pgdir (i + n) ++ base)
  unfolding for_pages free_table missing
  free_tables zero i h free base top given c = (
    h,
    free,
    refl,
    c.pool,
    c.dir_used,
    refl,
    given ∙ ap (λ j. tables_of m pgdir j ++ base) (omega arith),
  )
  free_tables (suc n) i h free base top given c =
      let on : i + 1 + n ≡ i + suc n = omega arith in
      let next : i + 1 ≡ suc i = omega arith in
      let kept = c.kept i (omega arith) (omega arith) in
      elim (Bool-cases (present (pde m pgdir i))) [
        | inl has ↦
            let ip = c.tables i (omega arith) (omega arith) has in
            let (h₁, ran, pool, _) =
              kfree-Pool (table m pgdir i) h free ip (c.used i (omega arith) (omega arith) has)
                c.pool in
            let (x, stored) = kfree-mem (table m pgdir i) h h₁ ran in
            let given' : table m pgdir i ∷ free ≡ tables_of m pgdir (i + 1) ++ base =
              rw (next, has, given) refl in
            let (h', free', ran', pool', out, count, left) =
              free_tables n (i + 1) h₁ (table m pgdir i ∷ free) base (omega arith) given'
                (Closing-free i n x h h₁ free c has stored pool top) in
            (
              h',
              free',
              rw (kept, has, ran, ran'),
              pool',
              out,
              rw has (omega (arith, count)),
              left ∙ ap (λ j. tables_of m pgdir j ++ base) on,
            )
        | inr hasnt ↦
            let given' : free ≡ tables_of m pgdir (i + 1) ++ base = rw (next, hasnt) given in
            let (h', free', ran', pool', out, count, left) =
              free_tables n (i + 1) h free base (omega arith) given' (Closing-skip i n h free c) in
            (
              h',
              free',
              rw (kept, hasnt, ran'),
              pool',
              out,
              rw hasnt (omega (arith, count)),
              left ∙ ap (λ j. tables_of m pgdir j ++ base) on,
            )
      ]

Closing-of :
    (h : Machine) (pgdir : ℕ) (ps : List ℕ)
    → IsSpace h.mem pgdir ps
    → Pool h ps
    → Closing h.mem pgdir 0 1024 h ps
Closing-of h pgdir ps s l = record {
  dir = s.dir;
  dir_used = s.dir_used;
  pool = l;
  kept = λ j lo hi. refl;
  tables = λ j lo hi. s.tables j hi;
  apart = λ j lo hi. s.apart j hi;
  distinct = λ j k lo hi lo' hi'. s.distinct j k hi hi';
  used = λ j lo hi. s.used j hi;
}

-- In a well-formed space whose page 0 means an aligned frame that is neither free nor one of the
-- space's tables, destroy_address_space succeeds: the free pages afterwards are the directory,
-- then the tables of its entries, last first, then page 0's frame, then those that were free;
-- with the directory's entries without a table they are 1026 more than before.
pub destroy_address_space-Pool :
    (h : Machine) (pgdir frame : ℕ) (ps : List ℕ)
    → IsSpace h.mem pgdir ps
    → Pool h ps
    → frame % 4096 ≡ 0
    → frame < 2 ^ 32
    → translate h.mem pgdir 0 ≡ some frame
    → Foreign h.mem pgdir (phys_to_virt frame)
    → All (λ q. phys_to_virt frame ≢ q) ps
    → let free = pgdir ∷ (tables_of h.mem pgdir 1024 ++ phys_to_virt frame ∷ ps) in
      (h' : Machine) × (destroy_address_space pgdir h ≡ done (tt, h'))
      × Pool h' free
      × (length free + missing h.mem pgdir 0 1024 ≡ length ps + 1026)
unfolding destroy_address_space
destroy_address_space-Pool h pgdir frame ps s l aligned small maps f fresh =
    let (h₁, ran, u) =
      destroy_user_address_space-freed h pgdir frame ps s l aligned small maps f fresh in
    let dirs = u.dirs in
    let (h₂, free, ran₂, pool, out, count, left) =
      free_tables h₁.mem pgdir 1024 0 h₁ (phys_to_virt frame ∷ ps) (phys_to_virt frame ∷ ps)
        (omega arith) refl (Closing-of h₁ pgdir (phys_to_virt frame ∷ ps) u.space u.pool) in
    let (h₃, ran₃, pool₃, _) = kfree-Pool pgdir h₂ free s.dir out pool in
    let few = missing-same h.mem h₁.mem pgdir 0 1024 (λ j lo hi. ap present (dirs j hi)) in
    let all_free : free ≡ tables_of h.mem pgdir 1024 ++ phys_to_virt frame ∷ ps =
      left
      ∙ ap (λ ts. ts ++ phys_to_virt frame ∷ ps) (tables_of-same h.mem h₁.mem pgdir 1024 dirs) in
    let total = ap length all_free in
    (
      h₃,
      rw (ran, ran₂, ran₃),
      subst (λ xs. Pool h₃ (pgdir ∷ xs)) all_free pool₃,
      omega (arith, count, few, total),
    )
