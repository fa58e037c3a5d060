-- ===== src/Str.antt =====
-- string.c over the kernel's memory. `memset` and `memcpy` are counted loops; the loops that look
-- for a terminating zero take fuel. A `char` is signed on this machine.
pub mod Memset
pub mod Memcpy
pub mod Text
pub mod Order
use quaros.Base.{
  ℕ, zero, suc, ◌+◌, ◌*◌, ◌/◌, ◌%◌, Bool, true, false, ◌&&◌, not, Option, none, some, ltb, ◌==◌,
  if◌then◌else◌,
}
use quaros.Ram.{Mem, store8, store32}

-- the rounds of `memset`, from index `i` on
memset_loop : ℕ → ℕ → ℕ → ℕ → Mem → Mem
memset_loop zero i s c m = m
memset_loop (suc rounds) i s c m = memset_loop rounds (i + 1) s c (store32 m (s + i * 4) c)

-- It writes whole `int`s: `n / sizeof(int)` of them.
unfoldable pub memset : ℕ → ℕ → ℕ → Mem → Mem
unfolding memset_loop
memset s c n m = memset_loop (n / 4) 0 s c m

-- the rounds of `memcpy`
unfoldable pub memcpy : ℕ → ℕ → ℕ → Mem → Mem
memcpy d s zero m = m
memcpy d s (suc n) m = memcpy (d + 1) (s + 1) n (store8 m d (m s))

-- `none` is too little fuel.
unfoldable pub strlen : ℕ → Mem → ℕ → ℕ → Option ℕ
strlen zero m s ret = none
strlen (suc fuel) m s ret =
    let rest = strlen fuel m s (ret + 1) in if m (s + ret) == 0 then some ret else rest

-- `strcpy` returns the address of the terminator that it writes.
unfoldable pub strcpy : ℕ → ℕ → ℕ → Mem → Option (ℕ × Mem)
strcpy zero d s m = none
strcpy (suc fuel) d s m =
    let rest = strcpy fuel (d + 1) (s + 1) (store8 m d (m s)) in
    if m s == 0 then some (d, store8 m d 0) else rest

-- A byte as a signed `char`, moved up by 128 so that the order is that of the naturals.
abbrev pub char_rank : ℕ → ℕ
char_rank b = (b + 128) % 256

-- the results -1, 0 and 1 of `strcmp`
pub data Sign : Type 0 where
  below same above : Sign

-- the tests behind the loop of `strcmp`, at the two characters that it stopped at
abbrev pub strcmp_end : ℕ → ℕ → Sign
strcmp_end a b =
    if a == b && a == 0 then same else if ltb (char_rank b) (char_rank a) then above else below

unfoldable pub strcmp : ℕ → Mem → ℕ → ℕ → Option Sign
strcmp zero m p q = none
strcmp (suc fuel) m p q =
    let rest = strcmp fuel m (p + 1) (q + 1) in
    if m p == m q && not (m p == 0) && not (m q == 0) then rest else some (strcmp_end (m p) (m q))
