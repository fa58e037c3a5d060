-- ===== src/Paging/Unmap.antt =====
-- Unmapping one page, which goes to the free pages.
use quaros.Base.{
  ℕ, ◌+◌, ◌*◌, ◌/◌, ◌%◌, ◌^◌, ◌<◌, ◌≡◌, ◌≢◌, inl, inr, refl, ap, sym, ◌∙◌, List, ◌∷◌, All, arith,
  done, true, Bool-cases, subst,
}
use quaros.Ram.{Mem, load32, store32, load32-store32-Apart}
use quaros.PageAlloc.{Machine, kfree}
use quaros.PageAlloc.FreeList.{IsPage, Links, Pool, kfree-Pool, kfree-mem}
use quaros.Paging.{unmap_page, pte_index, present, table_of}
use quaros.Paging.Space.{pde, table, HasTable, IsSpace, entry_at, entry_at-table, entry_at-no_table}
use quaros.Paging.Write.{
  IsSpace-same, written, IsSpace-written, Links-written, entry_at-written_self,
  entry_at-written_other, pde-written,
}
use quaros.Paging.MapPage.{other_page}

-- The page `p` is neither the page directory nor a page table.
pub record Foreign (m : Mem) (pgdir p : ℕ) : Type 0 where
  pub page : IsPage p
  pub ne_dir : pgdir ≢ p
  pub ne_table : (i : ℕ) → i < 1024 → HasTable m pgdir i → table m pgdir i ≢ p

module _ (m : Mem) (pgdir p x : ℕ) (ps : List ℕ) (s : IsSpace m pgdir ps)
    (f : Foreign m pgdir p) where
  -- the memory after the link of `p` has been written
  abbrev pub linked : Mem
  linked = store32 m p x

  pub word-linked :
      (q k : ℕ) → IsPage q → k < 1024 → q ≢ p → load32 linked (q + k * 4) ≡ load32 m (q + k * 4)
  word-linked q k iq hk ne = load32-store32-Apart m p (q + k * 4) x (omega (arith, iq, f.page))

  pub pde-linked : (i : ℕ) → i < 1024 → pde linked pgdir i ≡ pde m pgdir i
  pde-linked i hi = word-linked pgdir i s.dir hi f.ne_dir

  pub IsSpace-linked : IsSpace linked pgdir (p ∷ ps)
  IsSpace-linked =
      let t = IsSpace-same m linked pgdir ps pde-linked s in
      record {
        dir = t.dir;
        dir_used = (f.ne_dir, t.dir_used);
        tables = t.tables;
        apart = t.apart;
        distinct = t.distinct;
        used = λ i hi has.
            let old : HasTable m pgdir i = rw (pde-linked i hi) at has in
            (rw (pde-linked i hi) (f.ne_table i hi old), t.used i hi has);
      }

  pub entry_at-linked : (w : ℕ) → entry_at linked pgdir w ≡ entry_at m pgdir w
  entry_at-linked w =
      let i = w / 2 ^ 22 % 1024 in
      let hi : i < 1024 = omega arith in
      let kept = pde-linked i hi in
      elim (Bool-cases (present (pde m pgdir i))) [
        | inl has ↦
            entry_at-table linked pgdir w (p ∷ ps) IsSpace-linked (rw kept has)
            ∙ (rw kept (
                  word-linked (table m pgdir i) (pte_index w) (s.tables i hi has) (omega arith)
                    (f.ne_table i hi has))
                ∙ sym (entry_at-table m pgdir w ps s has))
        | inr hasnt ↦
            entry_at-no_table linked pgdir w (rw kept hasnt)
            ∙ sym (entry_at-no_table m pgdir w hasnt)
      ]

-- What `unmap_page` has done: the frame's page `p` is the first free page.
pub record Unmapped (h : Machine) (pgdir v p : ℕ) (ps : List ℕ) (h' : Machine) : Type 0 where
  pub space : IsSpace h'.mem pgdir (p ∷ ps)
  pub pool : Pool h' (p ∷ ps)
  pub dirs : (i : ℕ) → i < 1024 → pde h'.mem pgdir i ≡ pde h.mem pgdir i
  pub here : entry_at h'.mem pgdir v ≡ 0
  pub elsewhere :
      (w : ℕ) → w < 2 ^ 32 → w / 4096 ≢ v / 4096 → entry_at h'.mem pgdir w ≡ entry_at h.mem pgdir w

-- `unmap_page` where the page table is there
unmap_page-table :
    (h h₁ : Machine) (pgdir v p x : ℕ) (ps : List ℕ)
    → (s : IsSpace h.mem pgdir ps) → (f : Foreign h.mem pgdir p)
    → HasTable h.mem pgdir (v / 2 ^ 22 % 1024)
    → v < 2 ^ 32
    → present (entry_at h.mem pgdir v) ≡ true
    → table_of (entry_at h.mem pgdir v) ≡ p
    → kfree p h ≡ done (tt, h₁)
    → h₁.mem ≡ store32 h.mem p x
    → Pool h₁ (p ∷ ps)
    → (h' : Machine) × (unmap_page pgdir v h ≡ done (tt, h')) × Unmapped h pgdir v p ps h'
unfolding unmap_page
unmap_page-table h h₁ pgdir v p x ps s f has hv here frame ran stored pool =
    let i = v / 2 ^ 22 % 1024 in
    let k = pte_index v in
    let hi : i < 1024 = omega arith in
    let hk : k < 1024 = omega arith in
    let m₁ = linked h.mem pgdir p x ps s f in
    let s₁ = IsSpace-linked h.mem pgdir p x ps s f in
    let has₁ : HasTable m₁ pgdir i = rw (pde-linked h.mem pgdir p x ps s f i hi) has in
    let at = entry_at-table h.mem pgdir v ps s has in
    let present_here : present (load32 h.mem (table h.mem pgdir i + k * 4)) ≡ true =
      rw at at here in
    let frame' : table_of (load32 h.mem (table h.mem pgdir i + k * 4)) ≡ p = rw at at frame in
    let place : table h.mem pgdir i ≡ table m₁ pgdir i =
      sym (ap table_of (pde-linked h.mem pgdir p x ps s f i hi)) in
    let m₂ = written m₁ pgdir (p ∷ ps) s₁ i k 0 hi hk (omega arith) has₁ in
    let same : store32 h₁.mem (table h.mem pgdir i + k * 4) 0 ≡ m₂ = rw (stored, place) refl in
    (
      record h₁ { mem = m₂ },
      rw (has, present_here, frame', ran) (ap (λ (m : Mem). done (tt, record h₁ { mem = m })) same),
      record {
        space = IsSpace-written m₁ pgdir (p ∷ ps) s₁ i k 0 hi hk (omega arith) has₁;
        pool =
            Links-written m₁ pgdir (p ∷ ps) s₁ i k 0 hi hk (omega arith) has₁ h₁.free_pages
              (subst (λ (m : Mem). Links m h₁.free_pages (p ∷ ps)) stored pool);
        dirs = λ j hj.
            pde-written m₁ pgdir (p ∷ ps) s₁ i k 0 hi hk (omega arith) has₁ j hj
            ∙ pde-linked h.mem pgdir p x ps s f j hj;
        here =
            entry_at-written_self m₁ pgdir (p ∷ ps) s₁ i k 0 hi hk (omega arith) has₁ v refl refl;
        elsewhere = λ w hw ne.
            entry_at-written_other m₁ pgdir (p ∷ ps) s₁ i k 0 hi hk (omega arith) has₁ w
              (other_page v w hv hw ne)
            ∙ entry_at-linked h.mem pgdir p x ps s f w;
      },
    )

-- In a well-formed space, for a page whose entry is present and whose frame is neither a free
-- page nor one of the space's own tables, unmap_page succeeds: the frame is put in front of the
-- free pages, the page means nothing, every address of another page is translated as before, and
-- the space and the free pages are well formed again.
pub unmap_page-Unmapped :
    (h : Machine) (pgdir v p : ℕ) (ps : List ℕ)
    → IsSpace h.mem pgdir ps
    → Pool h ps
    → v < 2 ^ 32
    → present (entry_at h.mem pgdir v) ≡ true
    → table_of (entry_at h.mem pgdir v) ≡ p
    → Foreign h.mem pgdir p
    → All (λ q. p ≢ q) ps
    → (h' : Machine) × (unmap_page pgdir v h ≡ done (tt, h')) × Unmapped h pgdir v p ps h'
unmap_page-Unmapped h pgdir v p ps s l hv here frame f fresh =
    let (h₁, ran, pool, _) = kfree-Pool p h ps f.page fresh l in
    let (x, stored) = kfree-mem p h h₁ ran in
    elim (Bool-cases (present (pde h.mem pgdir (v / 2 ^ 22 % 1024)))) [
      | inl has ↦ unmap_page-table h h₁ pgdir v p x ps s f has hv here frame ran stored pool
      | inr hasnt ↦
          let nothing = entry_at-no_table h.mem pgdir v hasnt in
          let absent : present 0 ≡ true = rw nothing at here in cc
    ]
