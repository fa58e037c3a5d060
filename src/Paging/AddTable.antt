-- ===== src/Paging/AddTable.antt =====
-- Hanging a cleared page into a page directory as a new page table.
use quaros.Base.{
  ℕ, ◌+◌, ◌*◌, ◌/◌, ◌%◌, ◌^◌, ◌<◌, ◌≡◌, ◌≢◌, ◌⊎◌, inl, inr, ap, sym, ◌∙◌, false, List, [], ◌∷◌, All,
  arith, ◌==◌, Bool-cases,
}
use quaros.Ram.{Mem, load32, store32, load32-store32_self, load32-store32-Apart}
use quaros.Str.{memset}
use quaros.Str.Memset.{load32-memset_in, load32-memset_out}
use quaros.PageAlloc.FreeList.{IsPage, Links}
use quaros.Paging.{pte_index, present, table_of, table_entry}
use quaros.Paging.Entry.{Names, Names-table_entry, table_of-Names, present-Names}
use quaros.Paging.Space.{
  pde, table, HasTable, IsSpace, entry_at, entries_apart, entry_at-table, entry_at-no_table,
}

module _ (m : Mem) (pgdir : ℕ) (q : ℕ) (ps : List ℕ) (s : IsSpace m pgdir (q ∷ ps)) (iq : IsPage q)
    (i : ℕ) (hi : i < 1024) where
  abbrev pub hung : Mem
  hung = store32 (memset q 0 4096 m) (pgdir + i * 4) (table_entry q)

  -- A word of another page is kept, but for the entry that is written.
  word_kept :
      (p k : ℕ)
      → IsPage p
      → k < 1024
      → p ≢ q
      → (pgdir ≢ p) ⊎ (i ≢ k)
      → load32 hung (p + k * 4) ≡ load32 m (p + k * 4)
  word_kept p k ip hk ne d =
      load32-store32-Apart (memset q 0 4096 m) (pgdir + i * 4) (p + k * 4) (table_entry q)
        (entries_apart pgdir p i k s.dir ip hi hk d)
      ∙ load32-memset_out q 0 4096 m (p + k * 4) (omega (arith, ip, iq))

  word_zero : (k : ℕ) → k < 1024 → load32 hung (q + k * 4) ≡ 0
  word_zero k hk =
      load32-store32-Apart (memset q 0 4096 m) (pgdir + i * 4) (q + k * 4) (table_entry q)
        (entries_apart pgdir q i k s.dir iq hi hk (inl s.dir_used.0))
      ∙ load32-memset_in q 0 4096 m k (omega arith) (omega arith)

  pub pde-hung_self : pde hung pgdir i ≡ table_entry q
  pde-hung_self =
      load32-store32_self (memset q 0 4096 m) (pgdir + i * 4) (table_entry q)
        (Names.small (Names-table_entry q iq.aligned))

  pub pde-hung_other : (j : ℕ) → j < 1024 → j ≢ i → pde hung pgdir j ≡ pde m pgdir j
  pde-hung_other j hj ne = word_kept pgdir j s.dir hj s.dir_used.0 (inr (λ e. ne (sym e)))

  pub table-hung : table hung pgdir i ≡ q
  table-hung =
      ap table_of pde-hung_self
      ∙ table_of-Names (table_entry q) q iq.small (Names-table_entry q iq.aligned)

  pub HasTable-hung : HasTable hung pgdir i
  HasTable-hung =
      ap present pde-hung_self ∙ present-Names (table_entry q) _ (Names-table_entry q iq.aligned)

  -- A table of the new space is the new one or an old one.
  which :
      (j : ℕ)
      → j < 1024
      → HasTable hung pgdir j
      → ((j ≡ i) × (table hung pgdir j ≡ q))
        ⊎ ((j ≢ i) × HasTable m pgdir j × (table hung pgdir j ≡ table m pgdir j))
  which j hj has = elim (Bool-cases (j == i)) [
    | inl e ↦ (let e' : j ≡ i = ground arith in inl (e', rw e' table-hung))
    | inr ne ↦
        let ne' : j ≢ i = ground arith in
        inr (ne', rw (pde-hung_other j hj ne') at has, ap table_of (pde-hung_other j hj ne'))
  ]

  -- The page table is taken out of the free pages, and the address space is well formed again.
  pub IsSpace-hung : All (λ p. q ≢ p) ps → IsSpace hung pgdir ps
  IsSpace-hung fresh = record {
    dir = s.dir;
    dir_used = s.dir_used.1;
    tables = λ j hj has. elim (which j hj has) [
      | inl (e, t) ↦ rw t iq
      | inr (ne, old, t) ↦ rw t (s.tables j hj old)
    ];
    apart = λ j hj has. elim (which j hj has) [
      | inl (e, t) ↦ rw t (λ p. s.dir_used.0 (sym p))
      | inr (ne, old, t) ↦ rw t (s.apart j hj old)
    ];
    distinct = λ j k hj hk ne has has'. elim (which j hj has) [
      | inl (e, t) ↦ elim (which k hk has') [
        | inl (e', t') ↦ absurd (ne (e ∙ sym e'))
        | inr (_, old', t') ↦ rw (t, t') (λ p. (s.used k hk old').0 (sym p))
      ]
      | inr (_, old, t) ↦ elim (which k hk has') [
        | inl (e', t') ↦ rw (t, t') (s.used j hj old).0
        | inr (_, old', t') ↦ rw (t, t') (s.distinct j k hj hk ne old old')
      ]
    ];
    used = λ j hj has. elim (which j hj has) [
      | inl (e, t) ↦ rw t fresh
      | inr (ne, old, t) ↦ rw t (s.used j hj old).1
    ];
  }

  -- The links of the free pages are kept.
  pub Links-hung :
      (head : ℕ) (ps' : List ℕ)
      → All (λ p. q ≢ p) ps'
      → All (λ p. pgdir ≢ p) ps'
      → Links m head ps'
      → Links hung head ps'
  Links-hung head [] fresh used l = l
  Links-hung head (p ∷ ps') fresh used l =
      let off : p + 0 * 4 ≡ p = omega arith in
      let kept : load32 hung p ≡ load32 m p =
        rw off at (word_kept p 0 l.1 (omega arith) (λ e. fresh.0 (sym e)) (inl used.0)) in
      (l.0, l.1, l.2, rw kept (Links-hung (load32 m p) ps' fresh.1 used.1 l.3))

  module _ (absent : present (pde m pgdir i) ≡ false) (v : ℕ) where
    old_table :
        v / 2 ^ 22 % 1024 ≢ i
        → HasTable m pgdir (v / 2 ^ 22 % 1024)
        → (fresh : All (λ p. q ≢ p) ps) → entry_at hung pgdir v ≡ entry_at m pgdir v
    old_table ne has fresh =
        let j = v / 2 ^ 22 % 1024 in
        let hj : j < 1024 = omega arith in
        let kept = pde-hung_other j hj ne in
        entry_at-table hung pgdir v ps (IsSpace-hung fresh) (rw kept has)
        ∙ (rw kept (
              word_kept (table m pgdir j) (pte_index v) (s.tables j hj has) (omega arith)
                (s.used j hj has).0 (inl (λ e. s.apart j hj has (sym e))))
            ∙ sym (entry_at-table m pgdir v (q ∷ ps) s has))

    new_table :
        v / 2 ^ 22 % 1024 ≡ i
        → (fresh : All (λ p. q ≢ p) ps) → entry_at hung pgdir v ≡ entry_at m pgdir v
    new_table e fresh =
        entry_at-table hung pgdir v ps (IsSpace-hung fresh) (rw e HasTable-hung)
        ∙ (rw (e, table-hung) (word_zero (pte_index v) (omega arith))
            ∙ sym (entry_at-no_table m pgdir v (rw e absent)))

    -- The new table maps nothing, so every entry reads as before.
    pub entry_at-hung : (fresh : All (λ p. q ≢ p) ps) → entry_at hung pgdir v ≡ entry_at m pgdir v
    entry_at-hung fresh = elim (Bool-cases (v / 2 ^ 22 % 1024 == i)) [
      | inl e ↦ new_table (ground arith) fresh
      | inr e ↦
          let ne : v / 2 ^ 22 % 1024 ≢ i = ground arith in
          elim (Bool-cases (present (pde m pgdir (v / 2 ^ 22 % 1024)))) [
            | inl has ↦ old_table ne has fresh
            | inr hasnt ↦
                entry_at-no_table hung pgdir v
                  (rw (pde-hung_other (v / 2 ^ 22 % 1024) (omega arith) ne) hasnt)
                ∙ sym (entry_at-no_table m pgdir v hasnt)
          ]
    ]
