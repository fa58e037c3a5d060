-- ===== src/Paging/GetTable.antt =====
-- The page table that `map_page` finds or makes.
use quaros.Base.{
  ℕ, ◌/◌, ◌%◌, ◌^◌, ◌<◌, ◌≡◌, ◌≢◌, ◌⊎◌, inl, inr, refl, ap, ◌∙◌, false, List, ◌∷◌, All, arith,
  Bool-cases, done,
}
use quaros.Ram.{Mem}
use quaros.PageAlloc.{Machine, kmalloc}
use quaros.PageAlloc.FreeList.{IsPage, Pool, kmalloc-Pool}
use quaros.Paging.{present, get_table}
use quaros.Paging.Space.{pde, table, HasTable, IsSpace, entry_at}
use quaros.Paging.AddTable.{
  hung, IsSpace-hung, Links-hung, entry_at-hung, HasTable-hung, table-hung, pde-hung_other,
}

-- What is left of the free pages: a page table may have come out of them.
abbrev pub Rest : List ℕ → List ℕ → Type 0
Rest ps rest = (ps ≡ rest) ⊎ ((q : ℕ) × (ps ≡ q ∷ rest))

-- The table for `vaddr` is there: it was, or the first free page has become it.
pub record GotTable (h : Machine) (pgdir v : ℕ) (ps : List ℕ) (h' : Machine) (rest : List ℕ)
    : Type 0 where
  pub ran : get_table pgdir v h ≡ done (table h'.mem pgdir (v / 2 ^ 22 % 1024), h')
  pub space : IsSpace h'.mem pgdir rest
  pub pool : Pool h' rest
  pub has : HasTable h'.mem pgdir (v / 2 ^ 22 % 1024)
  pub same : (w : ℕ) → entry_at h'.mem pgdir w ≡ entry_at h.mem pgdir w
  pub left : Rest ps rest
  pub others : (j : ℕ) → j < 1024 → j ≢ v / 2 ^ 22 % 1024 → pde h'.mem pgdir j ≡ pde h.mem pgdir j

pub get_table-old :
    (h : Machine) (pgdir v : ℕ) (ps : List ℕ)
    → IsSpace h.mem pgdir ps
    → Pool h ps
    → HasTable h.mem pgdir (v / 2 ^ 22 % 1024)
    → GotTable h pgdir v ps h ps
unfolding get_table
get_table-old h pgdir v ps s l has = record {
  ran = rw has;
  space = s;
  pool = l;
  has = has;
  same = λ w. refl;
  left = inl refl;
  others = λ j hj ne. refl;
}

-- After `kmalloc` has handed out `q`.
get_table-hung :
    (h h₁ : Machine) (pgdir v q : ℕ) (ps : List ℕ)
    → IsSpace h₁.mem pgdir (q ∷ ps)
    → IsPage q
    → All (λ p. q ≢ p) ps
    → Pool h₁ ps
    → h₁.mem ≡ h.mem
    → kmalloc h ≡ done (q, h₁)
    → present (pde h.mem pgdir (v / 2 ^ 22 % 1024)) ≡ false
    → (h' : Machine) × GotTable h pgdir v (q ∷ ps) h' ps
unfolding get_table
get_table-hung h h₁ pgdir v q ps s iq fresh l same ran absent =
    let i = v / 2 ^ 22 % 1024 in
    let hi : i < 1024 = omega arith in
    let absent₁ : present (pde h₁.mem pgdir i) ≡ false = rw same absent in
    (
      record h₁ { mem = hung h₁.mem pgdir q ps s iq i hi },
      record {
        ran = rw (absent, ran, table-hung h₁.mem pgdir q ps s iq i hi);
        space = IsSpace-hung h₁.mem pgdir q ps s iq i hi fresh;
        pool = Links-hung h₁.mem pgdir q ps s iq i hi h₁.free_pages ps fresh s.dir_used.1 l;
        has = HasTable-hung h₁.mem pgdir q ps s iq i hi;
        same = λ w.
            entry_at-hung h₁.mem pgdir q ps s iq i hi absent₁ w fresh
            ∙ ap (λ (m : Mem). entry_at m pgdir w) same;
        left = inr (q, refl);
        others = λ j hj ne.
            pde-hung_other h₁.mem pgdir q ps s iq i hi j hj ne
            ∙ ap (λ (m : Mem). pde m pgdir j) same;
      },
    )

pub get_table-new :
    (h : Machine) (pgdir v q : ℕ) (ps : List ℕ)
    → IsSpace h.mem pgdir (q ∷ ps)
    → Pool h (q ∷ ps)
    → present (pde h.mem pgdir (v / 2 ^ 22 % 1024)) ≡ false
    → (h' : Machine) × GotTable h pgdir v (q ∷ ps) h' ps
get_table-new h pgdir v q ps s l absent =
    let (h₁, ran, l₁, same) = kmalloc-Pool q h ps l in
    get_table-hung h h₁ pgdir v q ps (rw same s) l.1 l.2 l₁ same ran absent

-- `map_page` finds the page table of a well-formed address space, or makes one of a free page.
pub get_table-GotTable :
    (h : Machine) (pgdir v q : ℕ) (ps : List ℕ)
    → IsSpace h.mem pgdir (q ∷ ps)
    → Pool h (q ∷ ps)
    → (h' : Machine) × (rest : List ℕ) × GotTable h pgdir v (q ∷ ps) h' rest
get_table-GotTable h pgdir v q ps s l =
    elim (Bool-cases (present (pde h.mem pgdir (v / 2 ^ 22 % 1024)))) [
      | inl has ↦ (h, q ∷ ps, get_table-old h pgdir v (q ∷ ps) s l has)
      | inr absent ↦ let (h', g) = get_table-new h pgdir v q ps s l absent in (h', ps, g)
    ]
