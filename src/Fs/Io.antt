-- ===== src/Fs/Io.antt =====
-- Reading and writing a file.
use quaros.Base.{
  ℕ, ◌+◌, ◌-◌, ◌%◌, ◌^◌, ◌<◌, ◌≤◌, ◌≡◌, ◌⊎◌, refl, min, done, panic, arith, ltb, if◌then◌else◌,
}
use quaros.Ram.{Mem}
use quaros.Str.{memcpy}
use quaros.Str.Memcpy.{memcpy-copies, memcpy-outside}
use quaros.Fs.{File, read_file, write_file}

-- The bytes `[a, a + n)` and `[b, b + k)` do not overlap.
abbrev pub Disjoint : ℕ → ℕ → ℕ → ℕ → Type 0
Disjoint a n b k = (a + n ≤ b) ⊎ (b + k ≤ a)

-- For a position not past the end of the file and buffers that do not overlap, read_file delivers
-- as many bytes as were asked for or are left, moves the position by that many and not past the
-- end, and writes nothing but those bytes of the buffer; the bytes are the first of the file,
-- wherever the position stood.
pub read_file-first :
    (f : File) (buf count : ℕ) (m : Mem)
    → f.pos ≤ f.size
    → f.size < 2 ^ 32
    → Disjoint buf count f.contents count
    → let (n, f', m') = read_file f buf count m in
      (n ≡ min count (f.size - f.pos))
      × (f'.pos ≡ f.pos + n)
      × (f'.pos ≤ f.size)
      × (f'.size ≡ f.size)
      × ((k : ℕ) → k < n → m' (buf + k) ≡ m (f.contents + k) % 256)
      × ((x : ℕ) → (x < buf) ⊎ (buf + n ≤ x) → m' x ≡ m x)
unfolding read_file
read_file-first f buf count m hp hs apart = (
  n_is,
  omega (arith, n_is),
  omega (arith, n_is),
  refl,
  λ k lt. memcpy-copies n buf f.contents m k lt (omega (arith, n_is, apart)),
  λ x out. memcpy-outside n buf f.contents m x out,
)
  where
    left : ℕ
    left = (f.size + 2 ^ 32 - f.pos) % 2 ^ 32

    n : ℕ
    n = if ltb left count then left else count

    n_is : n ≡ min count (f.size - f.pos)
    n_is = ground arith

-- A write that ends within the page, from a buffer that does not overlap it, stores exactly the
-- bytes at the position, moves the position behind them, changes no other field of the file and
-- returns 0.
pub write_file-fits :
    (f : File) (buf count : ℕ) (m : Mem)
    → f.pos + count ≤ 4096
    → Disjoint (f.contents + f.pos) count buf count
    → (m' : Mem) × (write_file f buf count m ≡ done (0, record f { pos = f.pos + count }, m'))
      × ((k : ℕ) → k < count → m' (f.contents + f.pos + k) ≡ m (buf + k) % 256)
      × ((x : ℕ) → (x < f.contents + f.pos) ⊎ (f.contents + f.pos + count ≤ x) → m' x ≡ m x)
unfolding write_file
write_file-fits f buf count m fits apart = (
  memcpy (f.contents + f.pos) buf count m,
  ground arith,
  λ k lt. memcpy-copies count (f.contents + f.pos) buf m k lt apart,
  λ x out. memcpy-outside count (f.contents + f.pos) buf m x out,
)

-- A write past the page panics, unless the sum wraps.
pub write_file-panics :
    (f : File) (buf count : ℕ) (m : Mem)
    → 4096 < f.pos + count
    → f.pos + count < 2 ^ 32
    → write_file f buf count m ≡ panic "File larger than PGSIZE is unsupported"
unfolding write_file
write_file-panics f buf count m big small = ground arith

-- After a write of at most a page to an empty file at position 0, a read from position 0 delivers
-- no byte.
pub read_file-write_file :
    (f : File) (buf count : ℕ) (m : Mem) (buf' count' : ℕ)
    → f.size ≡ 0
    → f.pos ≡ 0
    → count ≤ 4096
    → (f' : File) × (m' : Mem) × (write_file f buf count m ≡ done (0, f', m'))
      × ((read_file (record f' { pos = 0 }) buf' count' m').0 ≡ 0)
unfolding write_file read_file
read_file-write_file f buf count m buf' count' empty start fits = (
  record f { pos = (f.pos + count) % 2 ^ 32 },
  memcpy (f.contents + f.pos) buf count m,
  ground arith,
  ground arith,
)
