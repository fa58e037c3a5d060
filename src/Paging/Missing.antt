-- ===== src/Paging/Missing.antt =====
-- How many page tables a range of a page directory lacks.
use quaros.Base.{
  ℕ, zero, suc, ◌+◌, ◌≤◌, ◌<◌, ◌≡◌, ◌≢◌, refl, true, false, arith, ◌==◌, if◌then◌else◌, Bool-cases,
  inl, inr,
}
use quaros.Ram.{Mem}
use quaros.Paging.{present}
use quaros.Paging.Space.{pde, HasTable}

-- Of the `k` entries of the page directory from `a` on, those that name no page table.
unfoldable pub missing : Mem → ℕ → ℕ → ℕ → ℕ
missing m pgdir a zero = 0
missing m pgdir a (suc k) = (if present (pde m pgdir a) then 0 else 1) + missing m pgdir (a + 1) k

pub missing-le : (m : Mem) (pgdir a k : ℕ) → missing m pgdir a k ≤ k
unfolding missing
missing-le m pgdir a zero = omega arith
missing-le m pgdir a (suc k) = ground (arith, missing-le m pgdir (a + 1) k)

pub missing-same :
    (m m' : Mem) (pgdir a k : ℕ)
    → ((j : ℕ) → a ≤ j → j < a + k → present (pde m' pgdir j) ≡ present (pde m pgdir j))
    → missing m' pgdir a k ≡ missing m pgdir a k
unfolding missing
missing-same m m' pgdir a zero same = refl
missing-same m m' pgdir a (suc k) same = rw (
  same a (omega arith) (omega arith),
  missing-same m m' pgdir (a + 1) k (λ j lo hi. same j (omega arith) (omega arith)),
)

-- A new page table is one that is missing no more.
pub missing-fill :
    (m m' : Mem) (pgdir i a k : ℕ)
    → a ≤ i
    → i < a + k
    → present (pde m pgdir i) ≡ false
    → HasTable m' pgdir i
    → ((j : ℕ) → a ≤ j → j < a + k → j ≢ i → present (pde m' pgdir j) ≡ present (pde m pgdir j))
    → suc (missing m' pgdir a k) ≡ missing m pgdir a k
unfolding missing
missing-fill m m' pgdir i a zero lo hi absent has same = absurd (omega arith)
missing-fill m m' pgdir i a (suc k) lo hi absent has same = elim (Bool-cases (a == i)) [
  | inl e ↦
      let here : a ≡ i = ground arith in
      let rest =
        missing-same m m' pgdir (a + 1) k
          (λ j lo' hi'. same j (omega arith) (omega arith) (omega arith)) in
      let gone : present (pde m pgdir a) ≡ false = rw here absent in
      let made : present (pde m' pgdir a) ≡ true = rw here has in
      rw (gone, made, rest) (omega arith)
  | inr e ↦
      let other : a ≢ i = ground arith in
      let rest =
        missing-fill m m' pgdir i (a + 1) k (omega arith) (omega arith) absent has
          (λ j lo' hi' ne. same j (omega arith) (omega arith) ne) in
      rw (same a (omega arith) (omega arith) other) (omega (arith, rest))
]

pub missing-pos :
    (m : Mem) (pgdir i a k : ℕ)
    → a ≤ i
    → i < a + k
    → present (pde m pgdir i) ≡ false
    → 0 < missing m pgdir a k
unfolding missing
missing-pos m pgdir i a zero lo hi absent = absurd (omega arith)
missing-pos m pgdir i a (suc k) lo hi absent = elim (Bool-cases (a == i)) [
  | inl e ↦
      let here : a ≡ i = ground arith in
      let gone : present (pde m pgdir a) ≡ false = rw here absent in rw gone (omega arith)
  | inr e ↦
      let other : a ≢ i = ground arith in
      omega (arith, missing-pos m pgdir i (a + 1) k (omega arith) (omega arith) absent)
]
