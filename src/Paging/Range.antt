-- ===== src/Paging/Range.antt =====
-- Mapping a range, page by page.
use quaros.Base.{
  ℕ, zero, suc, ◌+◌, ◌-◌, ◌*◌, ◌/◌, ◌%◌, ◌^◌, ◌≤◌, ◌<◌, ◌≡◌, ◌⊎◌, inl, inr, refl, ap, ◌∙◌, List, [],
  ◌∷◌, length, IsTail, whole, after, IsTail-trans, subst, arith, bit_or, done, some, ◌==◌, false,
  Bool-cases, sym,
}
use quaros.PageAlloc.{Machine}
use quaros.PageAlloc.FreeList.{Pool}
use quaros.Paging.{map_page, for_pages, map_memory, num_pages, page_at, pte_p, present}
use quaros.Paging.GetTable.{Rest}
use quaros.Paging.Entry.{Names-entry}
use quaros.Paging.Space.{IsSpace, HasTable, pde, translate, entry_at-page}
use quaros.Paging.MapPage.{
  Mapped, map_page-Mapped_old, map_page-Mapped_new, translate-Names, translate-same,
}
use quaros.Paging.Missing.{missing, missing-pos, missing-same, missing-fill}

-- The pages `[lo, lo + n)` of the range at `v` have been mapped to the frames from `frame` on, with
-- page tables in the entries `[a, a + k)` of the page directory.
pub record Ranged (a k : ℕ) (h : Machine) (pgdir v frame lo n : ℕ) (ps : List ℕ) (h' : Machine)
    (rest : List ℕ) : Type 0 where
  pub space : IsSpace h'.mem pgdir rest
  pub pool : Pool h' rest
  pub left : IsTail ps rest
  pub taken : missing h'.mem pgdir a k + length ps ≡ missing h.mem pgdir a k + length rest
  pub outside : (j : ℕ) → j < 1024 → (j < a) ⊎ (a + k ≤ j) → pde h'.mem pgdir j ≡ pde h.mem pgdir j
  pub here :
      (w : ℕ)
      → w < 2 ^ 32
      → v / 4096 + lo ≤ w / 4096
      → w / 4096 < v / 4096 + lo + n
      → translate h'.mem pgdir w ≡ some (frame + (w / 4096 - v / 4096) * 4096 + w % 4096)
  pub elsewhere :
      (w : ℕ)
      → w < 2 ^ 32
      → (w / 4096 < v / 4096 + lo) ⊎ (v / 4096 + lo + n ≤ w / 4096)
      → translate h'.mem pgdir w ≡ translate h.mem pgdir w

Rest-IsTail : (ps rest : List ℕ) → Rest ps rest → IsTail ps rest
Rest-IsTail ps rest (inl e) = subst (λ xs. IsTail ps xs) e whole
Rest-IsTail ps rest (inr (q, e)) = subst (λ xs. IsTail xs rest) (sym e) (after whole)

module _ (a k pgdir v frame perm : ℕ) (aligned : frame % 4096 ≡ 0) (low : perm < 4096)
    (from : a * 2 ^ 22 ≤ v) (top : a + k ≤ 1024) where
  -- what `map_page` has done to page `i`
  one_page :
      (i : ℕ) (h h' : Machine) (ps rest : List ℕ)
      → v + (i + 1) * 4096 ≤ (a + k) * 2 ^ 22
      → frame + (i + 1) * 4096 ≤ 2 ^ 32
      → Mapped h pgdir (page_at v i) (bit_or (bit_or (page_at frame i) pte_p) perm) ps h' rest
      → missing h'.mem pgdir a k + length ps ≡ missing h.mem pgdir a k + length rest
      → Ranged a k h pgdir v frame i 1 ps h' rest
  one_page i h h' ps rest hv hf m taken =
      let va : page_at v i ≡ v + i * 4096 = omega arith in
      let pa : page_at frame i ≡ frame + i * 4096 = omega arith in
      let flat : page_at frame i % 4096 ≡ 0 = omega arith in
      let small : page_at frame i < 2 ^ 32 = omega arith in
      let names = Names-entry (page_at frame i) perm flat small low in
      record {
        space = m.space;
        pool = m.pool;
        left = Rest-IsTail ps rest m.left;
        taken = taken;
        outside = λ j hj out. m.others j hj (λ e. omega arith);
        here = λ w hw lo hi.
            translate-Names h'.mem pgdir w (bit_or (bit_or (page_at frame i) pte_p) perm)
              (page_at frame i) names
              (entry_at-page h'.mem pgdir (page_at v i) w (omega arith) ∙ m.here)
            ∙ ap some (omega arith);
        elsewhere =
            λ w hw out. translate-same h.mem h'.mem pgdir w (m.elsewhere w hw (λ e. omega arith));
      }

  -- the page's place in the page directory
  abbrev slot : ℕ → ℕ
  slot i = page_at v i / 2 ^ 22 % 1024

  taken_old :
      (i e : ℕ) (h h' : Machine) (ps : List ℕ)
      → HasTable h.mem pgdir (slot i)
      → Mapped h pgdir (page_at v i) e ps h' ps
      → missing h'.mem pgdir a k + length ps ≡ missing h.mem pgdir a k + length ps
  taken_old i e h h' ps has m = ap (λ n. n + length ps) (missing-same h.mem h'.mem pgdir a k same)
    where
      same :
          (j : ℕ) → a ≤ j → j < a + k → present (pde h'.mem pgdir j) ≡ present (pde h.mem pgdir j)
      same j lo hi = elim (Bool-cases (j == slot i)) [
        | inl e' ↦ let here : j ≡ slot i = ground arith in rw here (m.has ∙ sym has)
        | inr e' ↦ ap present (m.others j (omega arith) (ground arith))
      ]

  taken_new :
      (i e q : ℕ) (h h' : Machine) (ps : List ℕ)
      → v + (i + 1) * 4096 ≤ (a + k) * 2 ^ 22
      → present (pde h.mem pgdir (slot i)) ≡ false
      → Mapped h pgdir (page_at v i) e (q ∷ ps) h' ps
      → missing h'.mem pgdir a k + suc (length ps) ≡ missing h.mem pgdir a k + length ps
  taken_new i e q h h' ps hv absent m = omega (
    arith,
    missing-fill h.mem h'.mem pgdir (slot i) a k (omega arith) (omega arith) absent m.has
        (λ j lo hi ne. ap present (m.others j (omega arith) ne)),
  )

  -- one round: a page table is taken from the free pages if it is missing
  round-new :
      (i : ℕ) (h : Machine) (ps : List ℕ)
      → IsSpace h.mem pgdir ps
      → Pool h ps
      → missing h.mem pgdir a k ≤ length ps
      → v + (i + 1) * 4096 ≤ (a + k) * 2 ^ 22
      → frame + (i + 1) * 4096 ≤ 2 ^ 32
      → present (pde h.mem pgdir (slot i)) ≡ false
      → (h' : Machine) × (rest : List ℕ) × (map_page pgdir (page_at v i) (page_at frame i) perm h
          ≡ done (tt, h'))
        × Ranged a k h pgdir v frame i 1 ps h' rest
  round-new i h [] s l enough hv hf absent =
      let some_missing = missing-pos h.mem pgdir (slot i) a k (omega arith) (omega arith) absent in
      absurd (omega arith)
  round-new i h (q ∷ ps) s l enough hv hf absent =
      let (h', ran, m) =
        map_page-Mapped_new h pgdir (page_at v i) (page_at frame i) perm q ps s l absent
          (omega arith) (omega arith) (omega arith) low in
      (h', ps, ran, one_page i h h' (q ∷ ps) ps hv hf m (taken_new i _ q h h' ps hv absent m))

  round-Ranged :
      (i : ℕ) (h : Machine) (ps : List ℕ)
      → IsSpace h.mem pgdir ps
      → Pool h ps
      → missing h.mem pgdir a k ≤ length ps
      → v + (i + 1) * 4096 ≤ (a + k) * 2 ^ 22
      → frame + (i + 1) * 4096 ≤ 2 ^ 32
      → (h' : Machine) × (rest : List ℕ) × (map_page pgdir (page_at v i) (page_at frame i) perm h
          ≡ done (tt, h'))
        × Ranged a k h pgdir v frame i 1 ps h' rest
  round-Ranged i h ps s l enough hv hf = elim (Bool-cases (present (pde h.mem pgdir (slot i)))) [
    | inl has ↦
        let (h', ran, m) =
          map_page-Mapped_old h pgdir (page_at v i) (page_at frame i) perm ps s l has (omega arith)
            (omega arith) (omega arith) low in
        (h', ps, ran, one_page i h h' ps ps hv hf m (taken_old i _ h h' ps has m))
    | inr absent ↦ round-new i h ps s l enough hv hf absent
  ]

  -- Two adjoining ranges are one.
  Ranged-trans :
      (lo n l total : ℕ) (h h₁ h₂ : Machine) (ps qs rest : List ℕ)
      → total ≡ n + l
      → Ranged a k h pgdir v frame lo n ps h₁ qs
      → Ranged a k h₁ pgdir v frame (lo + n) l qs h₂ rest
      → Ranged a k h pgdir v frame lo total ps h₂ rest
  Ranged-trans lo n l total h h₁ h₂ ps qs rest sum x y = record {
    space = y.space;
    pool = y.pool;
    left = IsTail-trans x.left y.left;
    taken = omega (arith, x.taken, y.taken);
    outside = λ j hj out. y.outside j hj out ∙ x.outside j hj out;
    here = λ w hw from' to. elim (le-or-lt (v / 4096 + lo + n) (w / 4096)) [
      | inl late ↦ y.here w hw (omega arith) (omega arith)
      | inr early ↦ y.elsewhere w hw (inl (omega arith)) ∙ x.here w hw from' early
    ];
    elsewhere = λ w hw out. y.elsewhere w hw (omega arith) ∙ x.elsewhere w hw (omega arith);
  }
    where
      le-or-lt : (b c : ℕ) → (b ≤ c) ⊎ (c < b)
      le-or-lt b c = omega arith

  for_pages-Ranged :
      (rounds i : ℕ) (h : Machine) (ps : List ℕ)
      → IsSpace h.mem pgdir ps
      → Pool h ps
      → missing h.mem pgdir a k ≤ length ps
      → v + (i + rounds) * 4096 ≤ (a + k) * 2 ^ 22
      → frame + (i + rounds) * 4096 ≤ 2 ^ 32
      → (h' : Machine) × (rest : List ℕ) × (for_pages rounds i
            (λ j. map_page pgdir (page_at v j) (page_at frame j) perm)
            h
          ≡ done (tt, h'))
        × Ranged a k h pgdir v frame i rounds ps h' rest
  unfolding for_pages
  for_pages-Ranged zero i h ps s l enough hv hf = (
    h,
    ps,
    refl,
    record {
      space = s;
      pool = l;
      left = whole;
      taken = refl;
      outside = λ j hj out. refl;
      here = λ w hw lo hi. absurd (omega arith);
      elsewhere = λ w hw out. refl;
    },
  )
  for_pages-Ranged (suc rounds) i h ps s l enough hv hf =
      let (h₁, qs, ran, first) = round-Ranged i h ps s l enough (omega arith) (omega arith) in
      let (h₂, rest, ran', others) =
        for_pages-Ranged rounds (i + 1) h₁ qs first.space first.pool (omega (arith, first.taken))
          (omega arith) (omega arith) in
      (
        h₂,
        rest,
        rw ran ran',
        Ranged-trans i 1 rounds (suc rounds) h h₁ h₂ ps qs rest (omega arith) first others,
      )

-- In a well-formed address space, for a range of pages, not empty, that lies within k entries of
-- the directory from the a-th on, with a range of aligned frames that ends by 4 GB, permission
-- bits below 4096, and at least as many free pages as page tables are missing in those entries,
-- map_memory succeeds: each page of the range means its frame, every address outside the range is
-- translated as before, the address space and the free pages are well formed again, directory
-- entries outside those do not change, and the pages taken are the first of the free ones, as
-- many as there are tables that were missing and no longer are.
pub map_memory-Ranged :
    (a k : ℕ) (h : Machine) (pgdir v frame size perm : ℕ) (ps : List ℕ)
    → IsSpace h.mem pgdir ps
    → Pool h ps
    → 0 < size
    → a * 2 ^ 22 ≤ v
    → v + num_pages size * 4096 ≤ (a + k) * 2 ^ 22
    → a + k ≤ 1024
    → missing h.mem pgdir a k ≤ length ps
    → frame + num_pages size * 4096 ≤ 2 ^ 32
    → frame % 4096 ≡ 0
    → perm < 4096
    → (h' : Machine) × (rest : List ℕ) × (map_memory pgdir v frame size perm h ≡ done (tt, h'))
      × Ranged a k h pgdir v frame 0 (num_pages size) ps h' rest
unfolding map_memory
map_memory-Ranged a k h pgdir v frame size perm ps s l pos from in_tables top enough hf aligned
      low =
    let positive : (size == 0) ≡ false = ground arith in
    rw positive (
      for_pages-Ranged a k pgdir v frame perm aligned low from top (num_pages size) 0 h ps s l
        enough (omega arith) (omega arith))
