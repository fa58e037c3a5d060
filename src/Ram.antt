-- ===== src/Ram.antt =====
-- The kernel's memory as it sees it through its direct map: one byte at each 32-bit address, and
-- the 32-bit little-endian accesses that the C code makes.
use quaros.Base.{ℕ, ◌+◌, ◌*◌, ◌/◌, ◌%◌, ◌^◌, ◌≤◌, ◌<◌, ◌≡◌, ◌≢◌, ◌⊎◌, arith, ◌==◌, if◌then◌else◌}

abbrev pub Mem : Type 0
Mem = ℕ → ℕ

-- `*(char *)a = v`
unfoldable pub store8 : Mem → ℕ → ℕ → Mem
store8 m a v = λ x. if x == a then v % 256 else m x

-- `*(uint32_t *)a`
unfoldable pub load32 : Mem → ℕ → ℕ
load32 m a = m a + 256 * m (a + 1) + 65536 * m (a + 2) + 16777216 * m (a + 3)

-- `*(uint32_t *)a = v`
unfoldable pub store32 : Mem → ℕ → ℕ → Mem
store32 m a v = λ x.
    if x == a
    then v % 256
    else if x == a + 1
    then v / 256 % 256
    else if x == a + 2
    then v / 65536 % 256
    else if x == a + 3
    then v / 16777216 % 256
    else m x

-- `*(uint16_t *)a`, and the store
unfoldable pub load16 : Mem → ℕ → ℕ
load16 m a = (m a + 256 * m (a + 1)) % 2 ^ 16

unfoldable pub store16 : Mem → ℕ → ℕ → Mem
store16 m a v = λ x. if x == a then v % 256 else if x == a + 1 then v / 256 % 256 else m x

-- Two words that do not overlap.
abbrev pub Apart : ℕ → ℕ → Type 0
Apart a b = (a + 4 ≤ b) ⊎ (b + 4 ≤ a)

pub load32-store32_self : (m : Mem) (a v : ℕ) → v < 2 ^ 32 → load32 (store32 m a v) a ≡ v
unfolding load32 store32
load32-store32_self m a v h = ground arith

pub load32-store32-Apart : (m : Mem) (a b v : ℕ) → Apart a b → load32 (store32 m a v) b ≡ load32 m b
unfolding load32 store32
load32-store32-Apart m a b v h = ground arith

pub load16-lt : (m : Mem) (a : ℕ) → load16 m a < 2 ^ 16
unfolding load16
load16-lt m a = omega arith

-- A store leaves every byte outside its word alone.
pub store32-same : (m : Mem) (a v x : ℕ) → (x < a) ⊎ (a + 4 ≤ x) → store32 m a v x ≡ m x
unfolding store32
store32-same m a v x h = ground arith

pub store8_self : (m : Mem) (a v : ℕ) → store8 m a v a ≡ v % 256
unfolding store8
store8_self m a v = ground arith

pub store8-other : (m : Mem) (a v x : ℕ) → x ≢ a → store8 m a v x ≡ m x
unfolding store8
store8-other m a v x ne = ground arith

-- Half words.
pub load16-store16_self : (m : Mem) (a v : ℕ) → v < 2 ^ 16 → load16 (store16 m a v) a ≡ v
unfolding load16 store16
load16-store16_self m a v h = ground arith

pub load16-store16_apart :
    (m : Mem) (a b v : ℕ) → (a + 2 ≤ b) ⊎ (b + 2 ≤ a) → load16 (store16 m a v) b ≡ load16 m b
unfolding load16 store16
load16-store16_apart m a b v h = ground arith

pub load16-store32_apart :
    (m : Mem) (a b v : ℕ) → (a + 4 ≤ b) ⊎ (b + 2 ≤ a) → load16 (store32 m a v) b ≡ load16 m b
unfolding load16 store32
load16-store32_apart m a b v h = ground arith

pub load32-store16_apart :
    (m : Mem) (a b v : ℕ) → (a + 2 ≤ b) ⊎ (b + 4 ≤ a) → load32 (store16 m a v) b ≡ load32 m b
unfolding load32 store16
load32-store16_apart m a b v h = ground arith
