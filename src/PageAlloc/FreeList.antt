-- ===== src/PageAlloc/FreeList.antt =====
-- The free list as the list of the pages that it links.
use quaros.Base.{
  Ends, ℕ, ◌+◌, ◌%◌, ◌^◌, ◌≤◌, ◌<◌, ◌≡◌, ◌≢◌, ◌⊎◌, refl, List, [], ◌∷◌, All, done, panic, arith,
  ◌==◌, if◌then◌else◌,
}
use quaros.Ram.{Mem, load32, store32, load32-store32_self, load32-store32-Apart}
use quaros.PageAlloc.{Machine, kfree, kmalloc}

-- A page that the allocator may hand out: aligned, below 4 GB, and not NULL.
pub record IsPage (p : ℕ) : Type 0 where
  pub aligned : p % 4096 ≡ 0
  pub small : p < 2 ^ 32
  pub ne_null : p ≢ 0

-- From `head` the links lead through the distinct pages `ps` to NULL.
abbrev pub Links : Mem → ℕ → List ℕ → Type 0
Links m head [] = head ≡ 0
Links m head (p ∷ ps) = (head ≡ p) × IsPage p × All (λ q. p ≢ q) ps × Links m (load32 m p) ps

-- The machine's free pages are `ps`, the next one to be handed out first.
abbrev pub Pool : Machine → List ℕ → Type 0
Pool h ps = Links h.mem h.free_pages ps

-- Two memories agree on the first word of a page.
abbrev pub SameLink : Mem → Mem → ℕ → Type 0
SameLink m m' p = load32 m' p ≡ load32 m p

pub Links-same :
    (m m' : Mem) (head : ℕ) (ps : List ℕ)
    → All (SameLink m m') ps
    → Links m head ps
    → Links m' head ps
Links-same m m' head [] same l = l
Links-same m m' head (p ∷ ps) same l =
    (l.0, l.1, l.2, rw (same.0) (Links-same m m' (load32 m p) ps same.1 l.3))

-- A store at a place that meets the first word of no page of the list.
abbrev pub Spares : ℕ → ℕ → Type 0
Spares a p = (a + 4 ≤ p) ⊎ (p + 4 ≤ a)

pub Links-store32 :
    (m : Mem) (a v head : ℕ) (ps : List ℕ)
    → All (Spares a) ps
    → Links m head ps
    → Links (store32 m a v) head ps
Links-store32 m a v head [] out l = l
Links-store32 m a v head (p ∷ ps) out l = (
  l.0,
  l.1,
  l.2,
  rw (load32-store32-Apart m a p v out.0) (Links-store32 m a v (load32 m p) ps out.1 l.3),
)

-- Distinct pages do not overlap.
pub Spares-page :
    (p : ℕ) (m : Mem) (head : ℕ) (ps : List ℕ)
    → IsPage p
    → All (λ q. p ≢ q) ps
    → Links m head ps
    → All (Spares p) ps
Spares-page p m head [] ip ne l = tt
Spares-page p m head (q ∷ qs) ip ne l =
    (apart l.1 ne.0, Spares-page p m (load32 m q) qs ip ne.1 l.3)
  where
    apart : IsPage q → p ≢ q → Spares p q
    apart iq n = omega (arith, ip.aligned, iq.aligned)

head-lt : (m : Mem) (head : ℕ) (ps : List ℕ) → Links m head ps → head < 2 ^ 32
head-lt m head [] l = omega arith
head-lt m head (p ∷ ps) l = omega (arith, l.1.small)

-- Freeing a page that is not among the free pages ps succeeds and puts it in front of them; the
-- count of allocations does not change.
pub kfree-Pool :
    (p : ℕ) (h : Machine) (ps : List ℕ)
    → IsPage p
    → All (λ q. p ≢ q) ps
    → Pool h ps
    → (h' : Machine) × (kfree p h ≡ done (tt, h'))
      × Pool h' (p ∷ ps)
      × (h'.num_allocated ≡ h.num_allocated)
unfolding kfree
kfree-Pool p h ps ip ne l = (
  record h { mem = store32 h.mem p next; free_pages = p },
  ground arith,
  (refl, ip, ne, rw (load32-store32_self h.mem p next small, is_next) linked),
  refl,
)
  where
    next : ℕ
    next = if h.free_pages == 0 then 0 else h.free_pages

    is_next : next ≡ h.free_pages
    is_next = ground arith

    small : next < 2 ^ 32
    small = rw is_next (head-lt h.mem h.free_pages ps l)

    linked : Links (store32 h.mem p next) h.free_pages ps
    linked =
        Links-store32 h.mem p next h.free_pages ps (Spares-page p h.mem h.free_pages ps ip ne l) l

-- Freeing writes the link of the page, and nothing else of memory.
pub kfree-mem :
    (p : ℕ) (h h' : Machine) → kfree p h ≡ done (tt, h') → (x : ℕ) × (h'.mem ≡ store32 h.mem p x)
unfolding kfree
kfree-mem p h h' e = (if h.free_pages == 0 then 0 else h.free_pages, ground arith)

-- When the free pages are p and ps, kmalloc returns p, leaves ps free, and does not change
-- memory.
pub kmalloc-Pool :
    (p : ℕ) (h : Machine) (ps : List ℕ)
    → Pool h (p ∷ ps)
    → (h' : Machine) × (kmalloc h ≡ done (p, h')) × Pool h' ps × (h'.mem ≡ h.mem)
unfolding kmalloc
kmalloc-Pool p h ps (e, ip, ne, l) = (
  record h {
    free_pages = load32 h.mem h.free_pages;
    num_allocated = (h.num_allocated + 1) % 2 ^ 32;
  },
  ground arith,
  rw e l,
  refl,
)

-- With no page left `kmalloc` panics.
pub kmalloc-empty : (h : Machine) → Pool h [] → kmalloc h ≡ panic "kmalloc: no memory to allocate"
unfolding kmalloc
kmalloc-empty h l = rw l refl

pub kmalloc-Ends : Ends kmalloc
unfolding kmalloc
kmalloc-Ends h e = ground arith
