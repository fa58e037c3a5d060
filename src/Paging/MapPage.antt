-- ===== src/Paging/MapPage.antt =====
-- Mapping one page into an address space.
use quaros.Base.{
  ℕ, ◌+◌, ◌/◌, ◌%◌, ◌^◌, ◌<◌, ◌≡◌, ◌≢◌, ◌⊎◌, inl, inr, refl, ◌∙◌, false, List, ◌∷◌, arith, ◌==◌,
  Bool-cases, bit_or, done, some,
}
use quaros.Ram.{Mem}
use quaros.PageAlloc.{Machine}
use quaros.PageAlloc.FreeList.{Pool}
use quaros.Paging.{pte_index, present, map_page, pte_p}
use quaros.Paging.Entry.{Names, Names-entry}
use quaros.Paging.Space.{pde, HasTable, IsSpace, entry_at, translate}
use quaros.Paging.GetTable.{Rest, GotTable, get_table-GotTable, get_table-old, get_table-new}
use quaros.Paging.Write.{
  written, IsSpace-written, Links-written, pde-written, entry_at-written_self,
  entry_at-written_other,
}

-- Addresses of different pages differ in one of the two indices.
pub other_page :
    (v w : ℕ)
    → v < 2 ^ 32
    → w < 2 ^ 32
    → w / 4096 ≢ v / 4096
    → (w / 2 ^ 22 % 1024 ≢ v / 2 ^ 22 % 1024) ⊎ (pte_index w ≢ pte_index v)
other_page v w hv hw ne = elim (Bool-cases (w / 2 ^ 22 % 1024 == v / 2 ^ 22 % 1024)) [
  | inl e ↦
      let e' : w / 2 ^ 22 % 1024 ≡ v / 2 ^ 22 % 1024 = ground arith in inr (λ d. ne (omega arith))
  | inr e ↦ inl (ground arith)
]

-- What `map_page` has done.
pub record Mapped (h : Machine) (pgdir v entry : ℕ) (ps : List ℕ) (h' : Machine) (rest : List ℕ)
    : Type 0 where
  pub space : IsSpace h'.mem pgdir rest
  pub pool : Pool h' rest
  pub left : Rest ps rest
  pub has : HasTable h'.mem pgdir (v / 2 ^ 22 % 1024)
  pub others : (j : ℕ) → j < 1024 → j ≢ v / 2 ^ 22 % 1024 → pde h'.mem pgdir j ≡ pde h.mem pgdir j
  pub here : entry_at h'.mem pgdir v ≡ entry
  pub elsewhere :
      (w : ℕ) → w < 2 ^ 32 → w / 4096 ≢ v / 4096 → entry_at h'.mem pgdir w ≡ entry_at h.mem pgdir w

-- Once the page table is there, `map_page` writes the entry.
map_page-got :
    (h h₁ : Machine) (pgdir v frame perm : ℕ) (ps rest : List ℕ)
    → GotTable h pgdir v ps h₁ rest
    → frame % 4096 ≡ 0
    → frame < 2 ^ 32
    → perm < 4096
    → v < 2 ^ 32
    → (h' : Machine) × (map_page pgdir v frame perm h ≡ done (tt, h'))
      × Mapped h pgdir v (bit_or (bit_or frame pte_p) perm) ps h' rest
unfolding map_page
map_page-got h h₁ pgdir v frame perm ps rest g aligned small low hv =
    let e = bit_or (bit_or frame pte_p) perm in
    let i = v / 2 ^ 22 % 1024 in
    let k = pte_index v in
    let hi : i < 1024 = omega arith in
    let hk : k < 1024 = omega arith in
    let he = Names.small (Names-entry frame perm aligned small low) in
    let kept = pde-written h₁.mem pgdir rest g.space i k e hi hk he g.has in
    (
      record h₁ { mem = written h₁.mem pgdir rest g.space i k e hi hk he g.has },
      rw (g.ran),
      record {
        space = IsSpace-written h₁.mem pgdir rest g.space i k e hi hk he g.has;
        pool = Links-written h₁.mem pgdir rest g.space i k e hi hk he g.has h₁.free_pages g.pool;
        left = g.left;
        has = rw (kept i hi) (g.has);
        others = λ j hj ne. kept j hj ∙ g.others j hj ne;
        here = entry_at-written_self h₁.mem pgdir rest g.space i k e hi hk he g.has v refl refl;
        elsewhere = λ w hw ne.
            entry_at-written_other h₁.mem pgdir rest g.space i k e hi hk he g.has w
              (other_page v w hv hw ne)
            ∙ g.same w;
      },
    )

-- In a well-formed address space, with a page free, an aligned frame and permission bits below
-- 4096, `map_page` succeeds, and `Mapped` holds of what it leaves.
pub map_page-Mapped :
    (h : Machine) (pgdir v frame perm q : ℕ) (ps : List ℕ)
    → IsSpace h.mem pgdir (q ∷ ps)
    → Pool h (q ∷ ps)
    → v < 2 ^ 32
    → frame % 4096 ≡ 0
    → frame < 2 ^ 32
    → perm < 4096
    → (h' : Machine) × (rest : List ℕ) × (map_page pgdir v frame perm h ≡ done (tt, h'))
      × Mapped h pgdir v (bit_or (bit_or frame pte_p) perm) (q ∷ ps) h' rest
map_page-Mapped h pgdir v frame perm q ps s l hv aligned small low =
    let (h₁, rest, g) = get_table-GotTable h pgdir v q ps s l in
    let (h', ran, m) = map_page-got h h₁ pgdir v frame perm (q ∷ ps) rest g aligned small low hv in
    (h', rest, ran, m)

-- A page whose table is there can be mapped without a free page, and takes none.
pub map_page-Mapped_old :
    (h : Machine) (pgdir v frame perm : ℕ) (ps : List ℕ)
    → IsSpace h.mem pgdir ps
    → Pool h ps
    → HasTable h.mem pgdir (v / 2 ^ 22 % 1024)
    → v < 2 ^ 32
    → frame % 4096 ≡ 0
    → frame < 2 ^ 32
    → perm < 4096
    → (h' : Machine) × (map_page pgdir v frame perm h ≡ done (tt, h'))
      × Mapped h pgdir v (bit_or (bit_or frame pte_p) perm) ps h' ps
map_page-Mapped_old h pgdir v frame perm ps s l has hv aligned small low =
    map_page-got h h pgdir v frame perm ps ps (get_table-old h pgdir v ps s l has) aligned small low
      hv

-- A page whose table is not there takes exactly one free page.
pub map_page-Mapped_new :
    (h : Machine) (pgdir v frame perm q : ℕ) (ps : List ℕ)
    → IsSpace h.mem pgdir (q ∷ ps)
    → Pool h (q ∷ ps)
    → present (pde h.mem pgdir (v / 2 ^ 22 % 1024)) ≡ false
    → v < 2 ^ 32
    → frame % 4096 ≡ 0
    → frame < 2 ^ 32
    → perm < 4096
    → (h' : Machine) × (map_page pgdir v frame perm h ≡ done (tt, h'))
      × Mapped h pgdir v (bit_or (bit_or frame pte_p) perm) (q ∷ ps) h' ps
map_page-Mapped_new h pgdir v frame perm q ps s l absent hv aligned small low =
    let (h₁, g) = get_table-new h pgdir v q ps s l absent in
    map_page-got h h₁ pgdir v frame perm (q ∷ ps) ps g aligned small low hv

-- The physical address that the entry of a mapped page stands for.
pub translate-Names :
    (m : Mem) (pgdir v entry frame : ℕ)
    → Names entry frame
    → entry_at m pgdir v ≡ entry
    → translate m pgdir v ≡ some (frame + v % 4096)
unfolding translate
translate-Names m pgdir v entry frame n e = rw e (ground (arith, n.is_present, n.names))

-- Two memories with the same entry for an address translate it alike.
pub translate-same :
    (m m' : Mem) (pgdir v : ℕ)
    → entry_at m' pgdir v ≡ entry_at m pgdir v
    → translate m' pgdir v ≡ translate m pgdir v
unfolding translate
translate-same m m' pgdir v e = rw e

-- In a well-formed address space, with a page free, an aligned frame below 4 GB and permission
-- bits below 4096, map_page succeeds; it makes the page of the address mean the frame, and every
-- address below 4 GB of another page is translated as before.
pub map_page-translate :
    (h : Machine) (pgdir v frame perm q : ℕ) (ps : List ℕ)
    → IsSpace h.mem pgdir (q ∷ ps)
    → Pool h (q ∷ ps)
    → v < 2 ^ 32
    → frame % 4096 ≡ 0
    → frame < 2 ^ 32
    → perm < 4096
    → (h' : Machine) × (map_page pgdir v frame perm h ≡ done (tt, h'))
      × (translate h'.mem pgdir v ≡ some (frame + v % 4096))
      × ((w : ℕ)
          → w < 2 ^ 32
          → w / 4096 ≢ v / 4096
          → translate h'.mem pgdir w ≡ translate h.mem pgdir w)
map_page-translate h pgdir v frame perm q ps s l hv aligned small low =
    let (h', rest, ran, done_it) =
      map_page-Mapped h pgdir v frame perm q ps s l hv aligned small low in
    (
      h',
      ran,
      translate-Names h'.mem pgdir v (bit_or (bit_or frame pte_p) perm) frame
          (Names-entry frame perm aligned small low) done_it.here,
      λ w hw ne. translate-same h.mem h'.mem pgdir w (done_it.elsewhere w hw ne),
    )
