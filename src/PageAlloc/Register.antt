-- ===== src/PageAlloc/Register.antt =====
-- Handing a range of memory to the page allocator.
use quaros.Base.{
  ℕ, zero, suc, ◌+◌, ◌-◌, ◌*◌, ◌/◌, ◌%◌, ◌^◌, ◌≤◌, ◌<◌, ◌≡◌, ◌≢◌, ◌⊎◌, inl, true, false, List, [],
  ◌∷◌, All, length, done, panic, arith, ltb, leb,
}
use quaros.PageAlloc.{
  Machine, kfree, free_range, register_free_mem, pg_rounddown, pg_roundup, range_fuel,
}
use quaros.PageAlloc.FreeList.{IsPage, Pool, kfree-Pool}

-- The pool after `n` pages from `now` on have been freed, in order.
unfoldable pub pushed : ℕ → ℕ → List ℕ → List ℕ
pushed now zero ps = ps
pushed now (suc n) ps = pushed (now + 4096) n (now ∷ ps)

pub length-pushed : (now n : ℕ) (ps : List ℕ) → length (pushed now n ps) ≡ n + length ps
unfolding pushed
length-pushed now zero ps = omega arith
length-pushed now (suc n) ps = omega (arith, length-pushed (now + 4096) n (now ∷ ps))

-- A page that does not lie in `[now, last)`.
abbrev pub Outside : ℕ → ℕ → ℕ → Type 0
Outside now last q = (q < now) ⊎ (last ≤ q)

shrink :
    (now last : ℕ) (ps : List ℕ) → All (Outside now last) ps → All (Outside (now + 4096) last) ps
shrink now last [] out = tt
shrink now last (p ∷ ps) out = (omega (arith, out.0), shrink now last ps out.1)

ne_of_Outside :
    (now last : ℕ) (ps : List ℕ) → now < last → All (Outside now last) ps → All (λ q. now ≢ q) ps
ne_of_Outside now last [] lt out = tt
ne_of_Outside now last (p ∷ ps) lt out = (omega (arith, out.0), ne_of_Outside now last ps lt out.1)

-- One round of the loop of `register_free_mem`.
free_range-step :
    (fuel now last : ℕ) (h h₁ : Machine) {h₂ : Machine}
    → now < last
    → now + 4096 < 2 ^ 32
    → kfree now h ≡ done (tt, h₁)
    → free_range fuel (now + 4096) last h₁ ≡ done (tt, h₂)
    → free_range (suc fuel) now last h ≡ done (tt, h₂)
unfolding free_range
free_range-step fuel now last h h₁ lt small ran ran₂ =
    let below : ltb now last ≡ true = ground arith in
    let next : (now + 4096) % 2 ^ 32 ≡ now + 4096 = omega arith in rw (below, ran, next) ran₂

free_range-Pool :
    (n fuel now last : ℕ) (h : Machine) (ps : List ℕ)
    → IsPage now
    → last ≡ now + n * 4096
    → last < 2 ^ 32
    → n < fuel
    → All (Outside now last) ps
    → Pool h ps
    → (h' : Machine) × (free_range fuel now last h ≡ done (tt, h')) × Pool h' (pushed now n ps)
unfolding free_range pushed
free_range-Pool n zero now last h ps ip e small enough out l = absurd (omega arith)
free_range-Pool zero (suc fuel) now last h ps ip e small enough out l = (h, ground arith, l)
free_range-Pool (suc n) (suc fuel) now last h ps ip e small enough out l =
    let (h₁, ran, l₁, _) = kfree-Pool now h ps ip (ne_of_Outside now last ps (omega arith) out) l in
    let (h₂, ran₂, l₂) =
      free_range-Pool n fuel (now + 4096) last h₁ (now ∷ ps) (omega arith) (omega arith) small
        (omega arith) (inl (omega arith), shrink now last ps out) l₁ in
    (h₂, free_range-step fuel now last h h₁ (omega arith) (omega arith) ran ran₂, l₂)

-- For a range between addresses 1 and 2 ^ 32 - 1 whose bounds, rounded down, are in order, and
-- whose pages are not free yet, register_free_mem ends within its fuel, and the free pages are
-- then all the whole pages of the range, in order of falling address, before those that were
-- free.
pub register_free_mem-Pool :
    (start last : ℕ) (h : Machine) (ps : List ℕ)
    → 0 < start
    → start < 2 ^ 32
    → last < 2 ^ 32
    → pg_rounddown start < pg_rounddown last
    → All (Outside (pg_roundup start) (pg_rounddown last)) ps
    → Pool h ps
    → let n = pg_rounddown last / 4096 - pg_roundup start / 4096 in
      (h' : Machine) × (register_free_mem start last h ≡ done (tt, h'))
      × Pool h' (pushed (pg_roundup start) n ps)
unfolding register_free_mem
register_free_mem-Pool start last h ps pos hs hl lt out l = rw test (
    free_range-Pool (pg_rounddown last / 4096 - pg_roundup start / 4096) range_fuel
      (pg_roundup start) (pg_rounddown last) h ps
      (record { aligned = omega arith; small = omega arith; ne_null = omega arith }) (omega arith)
      (omega arith) (omega arith) out l)
  where
    test : leb (pg_rounddown last) (pg_rounddown start) ≡ false
    test = ground arith

-- A range with no page boundary in it is refused.
pub register_free_mem-refused :
    (start last : ℕ) (h : Machine)
    → pg_rounddown last ≤ pg_rounddown start
    → register_free_mem start last h ≡ panic "Illegal free memory registeration"
unfolding register_free_mem
register_free_mem-refused start last h le = ground arith
