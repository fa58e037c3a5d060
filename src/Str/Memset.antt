-- ===== src/Str/Memset.antt =====
-- What `memset` writes, a word at a time.
use quaros.Base.{ℕ, zero, suc, ◌+◌, ◌*◌, ◌/◌, ◌^◌, ◌≤◌, ◌<◌, ◌≡◌, ◌∙◌, ◌⊎◌, inl, inr, arith, refl}
use native.Mathlib.Nat.{eq-or-lt_of_le}
use quaros.Ram.{Mem, load32, store32, load32-store32_self, load32-store32-Apart, store32-same}
use quaros.Str.{memset_loop, memset}

loop-same :
    (rounds i s c : ℕ) (m : Mem) (b : ℕ)
    → (b + 4 ≤ s + i * 4) ⊎ (s + i * 4 + rounds * 4 ≤ b)
    → load32 (memset_loop rounds i s c m) b ≡ load32 m b
unfolding memset_loop
loop-same zero i s c m b h = refl
loop-same (suc rounds) i s c m b h =
    loop-same rounds (i + 1) s c (store32 m (s + i * 4) c) b (omega arith)
    ∙ load32-store32-Apart m (s + i * 4) b c (omega arith)

loop-fills :
    (rounds i s c : ℕ) (m : Mem) (k : ℕ)
    → c < 2 ^ 32
    → i ≤ k
    → k < i + rounds
    → load32 (memset_loop rounds i s c m) (s + k * 4) ≡ c
unfolding memset_loop
loop-fills zero i s c m k hc lo hi = absurd (omega arith)
loop-fills (suc rounds) i s c m k hc lo hi = elim (eq-or-lt_of_le lo) [
  | inl e ↦
      loop-same rounds (i + 1) s c (store32 m (s + i * 4) c) (s + k * 4) (omega arith)
      ∙ rw (← e) (load32-store32_self m (s + i * 4) c hc)
  | inr lt ↦
      loop-fills rounds (i + 1) s c (store32 m (s + i * 4) c) k hc (omega arith) (omega arith)
]

loop-bytes :
    (rounds i s c : ℕ) (m : Mem) (x : ℕ)
    → (x < s + i * 4) ⊎ (s + i * 4 + rounds * 4 ≤ x)
    → memset_loop rounds i s c m x ≡ m x
unfolding memset_loop
loop-bytes zero i s c m x h = refl
loop-bytes (suc rounds) i s c m x h =
    loop-bytes rounds (i + 1) s c (store32 m (s + i * 4) c) x (omega arith)
    ∙ store32-same m (s + i * 4) c x (omega arith)

-- memset stores the 32-bit value in each of the n / 4 whole words of its range.
pub load32-memset_in :
    (s c n : ℕ) (m : Mem) (k : ℕ) → c < 2 ^ 32 → k < n / 4 → load32 (memset s c n m) (s + k * 4) ≡ c
unfolding memset
load32-memset_in s c n m k hc h = loop-fills (n / 4) 0 s c m k hc (omega arith) (omega arith)

-- It leaves every word outside its range alone.
pub load32-memset_out :
    (s c n : ℕ) (m : Mem) (b : ℕ)
    → (b + 4 ≤ s) ⊎ (s + n ≤ b)
    → load32 (memset s c n m) b ≡ load32 m b
unfolding memset
load32-memset_out s c n m b h = loop-same (n / 4) 0 s c m b (omega arith)

-- It leaves the last `n % 4` bytes of its range alone, and all bytes outside.
pub memset-tail :
    (s c n : ℕ) (m : Mem) (x : ℕ) → (x < s) ⊎ (s + n / 4 * 4 ≤ x) → memset s c n m x ≡ m x
unfolding memset
memset-tail s c n m x h = loop-bytes (n / 4) 0 s c m x (omega arith)
