-- ===== src/Paging/KernelMap.antt =====
-- The address space that `map_kernel` makes.
use quaros.Base.{
  IsTail, IsTail-trans, ℕ, ◌+◌, ◌-◌, ◌*◌, ◌/◌, ◌%◌, ◌^◌, ◌≤◌, ◌<◌, ◌≡◌, ◌≢◌, ◌⊎◌, refl, ap, ◌∙◌,
  List, [], ◌∷◌, All, length, arith, done, some, none, false,
}
use quaros.Ram.{Mem, load32}
use quaros.Str.{memset}
use quaros.Str.Memset.{load32-memset_in, load32-memset_out}
use quaros.PageAlloc.{Machine}
use quaros.PageAlloc.FreeList.{IsPage, Links, Pool, kmalloc-Pool}
use quaros.Paging.{
  map_all, map_kernel, kernel_map, kern_base, mmdev_base, pte_rw, num_pages, present,
}
use quaros.Paging.Space.{IsSpace, pde, translate, entry_at-no_table}
use quaros.Paging.Missing.{missing-le}
use quaros.Paging.Range.{Ranged, map_memory-Ranged}

module _ (m : Mem) (p : ℕ) (ip : IsPage p) where
  abbrev pub cleared : Mem
  cleared = memset p 0 4096 m

  no_entry : (i : ℕ) → i < 1024 → present (pde cleared p i) ≡ false
  no_entry i hi = rw (load32-memset_in p 0 4096 m i (omega arith) (omega arith))

  -- A cleared page is a page directory without page tables.
  IsSpace-cleared : (ps : List ℕ) → All (λ q. p ≢ q) ps → IsSpace cleared p ps
  IsSpace-cleared ps fresh = record {
    dir = ip;
    dir_used = fresh;
    tables = λ i hi has. (let e = no_entry i hi in cc);
    apart = λ i hi has. (let e = no_entry i hi in cc);
    distinct = λ i j hi hj ne has has'. (let e = no_entry i hi in cc);
    used = λ i hi has. (let e = no_entry i hi in cc);
  }

  Links-cleared :
      (head : ℕ) (ps : List ℕ) → All (λ q. p ≢ q) ps → Links m head ps → Links cleared head ps
  Links-cleared head [] fresh l = l
  Links-cleared head (q ∷ ps) fresh l =
      let kept = load32-memset_out p 0 4096 m q (apart l.1 fresh.0) in
      (l.0, l.1, l.2, rw kept (Links-cleared (load32 m q) ps fresh.1 l.3))
    where
      apart : IsPage q → p ≢ q → (q + 4 ≤ p) ⊎ (p + 4096 ≤ q)
      apart iq ne = omega (arith, ip, iq)

  translate-cleared : (w : ℕ) → translate cleared p w ≡ none
  unfolding translate
  translate-cleared w =
      rw (entry_at-no_table cleared p w (no_entry (w / 2 ^ 22 % 1024) (omega arith)))

-- The kernel's address space, and nothing in it below `kern_base` but the first 4 MB.
pub record KernelSpace (h : Machine) (pgdir : ℕ) (free : List ℕ) : Type 0 where
  pub space : IsSpace h.mem pgdir free
  pub pool : Pool h free
  pub identity : (w : ℕ) → w < 2 ^ 22 → translate h.mem pgdir w ≡ some w
  pub user : (w : ℕ) → 2 ^ 22 ≤ w → w < kern_base → translate h.mem pgdir w ≡ none
  pub kernel :
      (w : ℕ) → kern_base ≤ w → w < mmdev_base → translate h.mem pgdir w ≡ some (w - kern_base)
  pub device : (w : ℕ) → mmdev_base ≤ w → w < 2 ^ 32 → translate h.mem pgdir w ≡ some w

-- what the three rounds of `map_kernel` leave
KernelSpace-rounds :
    (h h₁ h₂ h₃ : Machine) (pgdir : ℕ) (ps qs rs rest : List ℕ)
    → ((w : ℕ) → translate h.mem pgdir w ≡ none)
    → Ranged 0 1 h pgdir 0 0 0 (num_pages (2 ^ 20 * 4)) ps h₁ qs
    → Ranged 768 248 h₁ pgdir kern_base 0 0 (num_pages (mmdev_base - kern_base)) qs h₂ rs
    → Ranged 1016 8 h₂ pgdir mmdev_base mmdev_base 0 (num_pages (2 ^ 32 - mmdev_base)) rs h₃ rest
    → KernelSpace h₃ pgdir rest
KernelSpace-rounds h h₁ h₂ h₃ pgdir ps qs rs rest empty x y z = record {
  space = z.space;
  pool = z.pool;
  identity = λ w hw.
      z.elsewhere w (omega arith) (omega arith)
      ∙ (y.elsewhere w (omega arith) (omega arith)
          ∙ (x.here w (omega arith) (omega arith) (omega arith) ∙ ap some (omega arith)));
  user = λ w lo hi.
      z.elsewhere w (omega arith) (omega arith)
      ∙ (y.elsewhere w (omega arith) (omega arith)
          ∙ (x.elsewhere w (omega arith) (omega arith) ∙ empty w));
  kernel = λ w lo hi.
      z.elsewhere w (omega arith) (omega arith)
      ∙ (y.here w (omega arith) (omega arith) (omega arith) ∙ ap some (omega arith));
  device = λ w lo hi. z.here w hi (omega arith) (omega arith) ∙ ap some (omega arith);
}

-- `map_all` over the kernel's map
pub map_all-KernelSpace :
    (h : Machine) (pgdir : ℕ) (ps : List ℕ)
    → IsSpace h.mem pgdir ps
    → Pool h ps
    → ((w : ℕ) → translate h.mem pgdir w ≡ none)
    → 257 ≤ length ps
    → (h' : Machine) × (rest : List ℕ) × (map_all pgdir kernel_map h ≡ done (tt, h'))
      × KernelSpace h' pgdir rest
      × IsTail ps rest
      × (length ps ≤ 257 + length rest)
unfolding map_all
map_all-KernelSpace h pgdir ps s l empty enough =
    let few = missing-le h.mem pgdir 0 1 in
    let (h₁, qs, ran, x) =
      map_memory-Ranged 0 1 h pgdir 0 0 (2 ^ 20 * 4) pte_rw ps s l (omega arith) (omega arith)
        (omega arith) (omega arith) (omega arith) (omega arith) refl (omega arith) in
    let few₁ = missing-le h₁.mem pgdir 768 248 in
    let (h₂, rs, ran₁, y) =
      map_memory-Ranged 768 248 h₁ pgdir kern_base 0 (mmdev_base - kern_base) pte_rw qs x.space
        x.pool (omega arith) (omega arith) (omega arith) (omega arith) (omega (arith, x.taken))
        (omega arith) refl (omega arith) in
    let few₂ = missing-le h₂.mem pgdir 1016 8 in
    let (h₃, rest, ran₂, z) =
      map_memory-Ranged 1016 8 h₂ pgdir mmdev_base mmdev_base (2 ^ 32 - mmdev_base) pte_rw rs
        y.space y.pool (omega arith) (omega arith) (omega arith) (omega arith)
        (omega (arith, x.taken, y.taken)) (omega arith) refl (omega arith) in
    (
      h₃,
      rest,
      rw (ran, ran₁, ran₂),
      KernelSpace-rounds h h₁ h₂ h₃ pgdir ps qs rs rest empty x y z,
      IsTail-trans {xs = ps} {ys = qs} {zs = rest} x.left
          (IsTail-trans {xs = qs} {ys = rs} {zs = rest} y.left z.left),
      omega (arith, x.taken, y.taken, z.taken),
    )

-- With 257 free pages beside the one for the directory, map_kernel succeeds and takes at most
-- those: in the new well-formed space the first 4 MB mean themselves, addresses from KERN_BASE to
-- MMDEV_BASE mean the frames from 0 on, addresses from MMDEV_BASE to 4 GB mean themselves, and
-- the addresses in between, which are the user's, mean nothing; the free pages that are left are
-- the last of those that there were.
pub map_kernel-KernelSpace :
    (h : Machine) (pgdir : ℕ) (ps : List ℕ)
    → Pool h (pgdir ∷ ps)
    → 257 ≤ length ps
    → (h' : Machine) × (rest : List ℕ) × (map_kernel h ≡ done (pgdir, h'))
      × KernelSpace h' pgdir rest
      × IsTail ps rest
      × (length ps ≤ 257 + length rest)
unfolding map_kernel
map_kernel-KernelSpace h pgdir ps l enough =
    let (h₁, ran, l₁, same) = kmalloc-Pool pgdir h ps l in
    let start = record h₁ { mem = memset pgdir 0 4096 h₁.mem } in
    let (h₂, rest, ran', ks, tail, left) =
      map_all-KernelSpace start pgdir ps (IsSpace-cleared h₁.mem pgdir l.1 ps l.2)
        (Links-cleared h₁.mem pgdir l.1 h₁.free_pages ps l.2 l₁)
        (translate-cleared h₁.mem pgdir l.1) enough in
    (h₂, rest, rw (ran, ran'), ks, tail, left)
