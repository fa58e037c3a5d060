-- ===== src/Paging/Write.antt =====
-- Writing one entry of an existing page table.
use quaros.Base.{
  ℕ, ◌+◌, ◌*◌, ◌/◌, ◌%◌, ◌^◌, ◌<◌, ◌≡◌, ◌≢◌, ◌⊎◌, inl, inr, sym, ◌∙◌, List, [], ◌∷◌, All, arith,
  Bool-cases,
}
use quaros.Ram.{Mem, load32, store32, load32-store32_self, load32-store32-Apart}
use quaros.PageAlloc.FreeList.{IsPage, Links, Spares, Links-store32}
use quaros.Paging.{pte_index, present}
use quaros.Paging.Space.{
  pde, table, HasTable, IsSpace, entry_at, entries_apart, entry_at-table, entry_at-no_table,
}

-- An address space depends on its page directory alone.
pub IsSpace-same :
    (m m' : Mem) (pgdir : ℕ) (free : List ℕ)
    → ((j : ℕ) → j < 1024 → pde m' pgdir j ≡ pde m pgdir j)
    → IsSpace m pgdir free
    → IsSpace m' pgdir free
IsSpace-same m m' pgdir free same s = record {
  dir = s.dir;
  dir_used = s.dir_used;
  tables = λ i hi has. rw (same i hi) (s.tables i hi (rw (same i hi) at has));
  apart = λ i hi has. rw (same i hi) (s.apart i hi (rw (same i hi) at has));
  distinct = λ i j hi hj ne has has'.
      rw (same i hi, same j hj)
        (s.distinct i j hi hj ne (rw (same i hi) at has) (rw (same j hj) at has'));
  used = λ i hi has. rw (same i hi) (s.used i hi (rw (same i hi) at has));
}

-- An entry of a page in use overlaps the link of no free page.
pub Spares-entry :
    (p k : ℕ) (m : Mem) (head : ℕ) (ps : List ℕ)
    → IsPage p
    → k < 1024
    → All (λ q. p ≢ q) ps
    → Links m head ps
    → All (Spares (p + k * 4)) ps
Spares-entry p k m head [] ip hk ne l = tt
Spares-entry p k m head (q ∷ qs) ip hk ne l =
    (apart l.1 ne.0, Spares-entry p k m (load32 m q) qs ip hk ne.1 l.3)
  where
    apart : IsPage q → p ≢ q → Spares (p + k * 4) q
    apart iq n = omega (arith, ip, iq)

module _ (m : Mem) (pgdir : ℕ) (free : List ℕ) (s : IsSpace m pgdir free) (i k e : ℕ)
    (hi : i < 1024) (hk : k < 1024) (he : e < 2 ^ 32) (has : HasTable m pgdir i) where
  abbrev pub written : Mem
  written = store32 m (table m pgdir i + k * 4) e

  pub pde-written : (j : ℕ) → j < 1024 → pde written pgdir j ≡ pde m pgdir j
  pde-written j hj = load32-store32-Apart m (table m pgdir i + k * 4) (pgdir + j * 4) e (
      entries_apart (table m pgdir i) pgdir k j (s.tables i hi has) s.dir hk hj
        (inl (s.apart i hi has)))

  pub IsSpace-written : IsSpace written pgdir free
  IsSpace-written = IsSpace-same m written pgdir free pde-written s

  pub Links-written : (head : ℕ) → Links m head free → Links written head free
  Links-written head l =
      Links-store32 m (table m pgdir i + k * 4) e head free
        (Spares-entry (table m pgdir i) k m head free (s.tables i hi has) hk (s.used i hi has) l) l

  -- the entry that is written
  pub entry_at-written_self :
      (v : ℕ) → v / 2 ^ 22 % 1024 ≡ i → pte_index v ≡ k → entry_at written pgdir v ≡ e
  entry_at-written_self v ei ek =
      entry_at-table written pgdir v free IsSpace-written (rw (ei, pde-written i hi) has)
      ∙ rw (ei, ek, pde-written i hi) (load32-store32_self m (table m pgdir i + k * 4) e he)

  other_table :
      (j k' : ℕ)
      → j < 1024
      → HasTable m pgdir j
      → (j ≢ i) ⊎ (k' ≢ k)
      → (table m pgdir i ≢ table m pgdir j) ⊎ (k ≢ k')
  other_table j k' hj has' (inl ne) = inl (s.distinct i j hi hj (λ e. ne (sym e)) has has')
  other_table j k' hj has' (inr ne) = inr (λ e. ne (sym e))

  other_has :
      (v : ℕ)
      → (v / 2 ^ 22 % 1024 ≢ i) ⊎ (pte_index v ≢ k)
      → HasTable m pgdir (v / 2 ^ 22 % 1024)
      → entry_at written pgdir v ≡ entry_at m pgdir v
  other_has v d has' =
      let j = v / 2 ^ 22 % 1024 in
      let hj : j < 1024 = omega arith in
      let kept = pde-written j hj in
      entry_at-table written pgdir v free IsSpace-written (rw kept has')
      ∙ (rw kept (
            load32-store32-Apart m (table m pgdir i + k * 4) (table m pgdir j + pte_index v * 4) e (
              entries_apart (table m pgdir i) (table m pgdir j) k (pte_index v) (s.tables i hi has)
                (s.tables j hj has') hk (omega arith) (other_table j (pte_index v) hj has' d)))
          ∙ sym (entry_at-table m pgdir v free s has'))

  -- every other entry
  pub entry_at-written_other :
      (v : ℕ)
      → (v / 2 ^ 22 % 1024 ≢ i) ⊎ (pte_index v ≢ k)
      → entry_at written pgdir v ≡ entry_at m pgdir v
  entry_at-written_other v d = elim (Bool-cases (present (pde m pgdir (v / 2 ^ 22 % 1024)))) [
    | inl has' ↦ other_has v d has'
    | inr hasnt ↦
        entry_at-no_table written pgdir v (rw (pde-written (v / 2 ^ 22 % 1024) (omega arith)) hasnt)
        ∙ sym (entry_at-no_table m pgdir v hasnt)
  ]
