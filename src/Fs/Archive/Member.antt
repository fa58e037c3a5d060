-- ===== src/Fs/Archive/Member.antt =====
-- One member of the archive.
use quaros.Base.{
  ℕ, zero, suc, ◌+◌, ◌*◌, ◌/◌, ◌%◌, ◌^◌, ◌≤◌, ◌<◌, ◌≡◌, ◌≢◌, ◌⊎◌, refl, ap, sym, ◌∙◌, true, false,
  ◌&&◌, some, List, [], ◌∷◌, ◌++◌, drop, All, done, arith, ltb, ◌==◌, if◌then◌else◌,
}
use quaros.Ram.{Mem, load32}
use quaros.Str.{memcpy, memset}
use quaros.Str.Memset.{load32-memset_in, memset-tail}
use quaros.Str.Memcpy.{memcpy-copies, memcpy-outside}
use quaros.PageAlloc.{Machine, pgsize}
use quaros.PageAlloc.FreeList.{IsPage, Links, Pool, kmalloc-Pool}
use quaros.Number.{atoi}
use quaros.Fs.{Fs, ft_regular, update}
use quaros.Fs.Archive.{
  bytes_at, null_out_space, null_out_slash, string_in, name_field, size_field, parse_size,
  load_data, load_member,
}

-- A character of a name in an archive: no terminator, no space and no '/'.
abbrev pub IsPlain : ℕ → Type 0
IsPlain c = (c ≢ 0) × (c ≢ 32) × (c ≢ 47)

-- The header at `arp` says that the member has this name, ended by '/', and this size, in
-- decimal digits with a space behind them.
pub record IsHeader (m : Mem) (arp : ℕ) (name : List ℕ) (size : ℕ) : Type 0 where
  pub after_name : List ℕ
  pub first_digit : ℕ
  pub digits : List ℕ
  pub after_size : List ℕ
  pub name_is : bytes_at m arp 16 ≡ name ++ b'/' ∷ after_name
  pub size_is : bytes_at m (arp + 48) 10 ≡ first_digit ∷ (digits ++ b' ' ∷ after_size)
  pub plain : All IsPlain name
  pub decimal : All IsPlain (first_digit ∷ digits)
  pub value : atoi (first_digit ∷ digits) ≡ some size

string_in-name :
    (name pad : List ℕ)
    → All IsPlain name
    → string_in (null_out_slash (null_out_space (name ++ b'/' ∷ pad))) ≡ some name
unfolding string_in null_out_slash null_out_space
string_in-name [] pad plain = refl
string_in-name (c ∷ name) pad plain =
    let rest = string_in-name name pad plain.1 in ground (arith, plain.0, rest)

string_in-digits :
    (ds pad rest : List ℕ)
    → All IsPlain ds
    → string_in (null_out_space (ds ++ b' ' ∷ pad) ++ rest) ≡ some ds
unfolding string_in null_out_space
string_in-digits [] pad rest plain = refl
string_in-digits (c ∷ ds) pad rest plain =
    let found = string_in-digits ds pad rest plain.1 in ground (arith, plain.0, found)

parse_size-digits :
    (c : ℕ) (ds pad rest : List ℕ) (size : ℕ)
    → All IsPlain (c ∷ ds)
    → atoi (c ∷ ds) ≡ some size
    → parse_size (null_out_space (c ∷ (ds ++ b' ' ∷ pad)) ++ rest) ≡ some size
unfolding parse_size null_out_space
parse_size-digits c ds pad rest size plain value =
    let found = string_in-digits ds pad rest plain.1 in
    let same : (if c == 32 then 0 else c) ≡ c = ground (arith, plain.0) in
    rw (found, parse_size, same) value

name_field-some :
    (m : Mem) (arp : ℕ) (name : List ℕ) (size : ℕ)
    → IsHeader m arp name size
    → string_in (name_field m arp) ≡ some name
unfolding name_field
name_field-some m arp name size h =
    ap (λ l. string_in (null_out_slash (null_out_space l))) h.name_is
    ∙ string_in-name name h.after_name h.plain

size_field-some :
    (m : Mem) (arp : ℕ) (name : List ℕ) (size : ℕ)
    → IsHeader m arp name size
    → parse_size (size_field m arp) ≡ some size
unfolding size_field
size_field-some m arp name size h =
    let old = drop 10 (name_field m arp) in
    ap (λ l. parse_size (null_out_space l ++ old)) h.size_is
    ∙ parse_size-digits h.first_digit h.digits h.after_size old size h.decimal h.value

load32-zero : (m : Mem) (a j : ℕ) → load32 m a ≡ 0 → j < 4 → m (a + j) ≡ 0
unfolding load32
load32-zero m a zero e lt = ground arith
load32-zero m a (suc zero) e lt = ground arith
load32-zero m a (suc (suc zero)) e lt = ground arith
load32-zero m a (suc (suc (suc zero))) e lt = ground arith
load32-zero m a (suc (suc (suc (suc j)))) e lt = absurd (omega arith)

memset-zero : (p : ℕ) (m : Mem) (i : ℕ) → i < 4096 → memset p 0 4096 m (p + i) ≡ 0
memset-zero p m i lt =
    let word = load32-memset_in p 0 4096 m (i / 4) (omega arith) (omega arith) in
    let at : p + i ≡ p + i / 4 * 4 + i % 4 = omega arith in
    rw at (load32-zero (memset p 0 4096 m) (p + i / 4 * 4) (i % 4) word (omega arith))

-- Two memories that differ within one page only have the same links in other pages.
pub Links-page :
    (m m' : Mem) (p head : ℕ) (ps : List ℕ)
    → IsPage p
    → ((x : ℕ) → (x < p) ⊎ (p + 4096 ≤ x) → m' x ≡ m x)
    → All (λ q. p ≢ q) ps
    → Links m head ps
    → Links m' head ps
unfolding load32
Links-page m m' p head [] ip out fresh l = l
Links-page m m' p head (q ∷ ps) ip out fresh l = (
  l.0,
  l.1,
  l.2,
  rw (same_link l.1 fresh.0) (Links-page m m' p (load32 m q) ps ip out fresh.1 l.3),
)
  where
    same_link : IsPage q → p ≢ q → load32 m' q ≡ load32 m q
    same_link iq ne =
        let apart : (q + 4 ≤ p) ⊎ (p + 4096 ≤ q) = omega (arith, ip, iq) in
        rw
          (
            out q (omega (arith, apart)),
            out (q + 1) (omega (arith, apart)),
            out (q + 2) (omega (arith, apart)),
            out (q + 3) (omega (arith, apart)),
          )
          refl

-- The page `p` holds `size` bytes from `from` on, and zeros; the rest of memory is as it was.
pub record Holds (m : Mem) (p from size : ℕ) (m' : Mem) : Type 0 where
  pub copied : (i : ℕ) → i < size → m' (p + i) ≡ m (from + i) % 256
  pub cleared : (i : ℕ) → size ≤ i → i < 4096 → m' (p + i) ≡ 0
  pub outside : (x : ℕ) → (x < p) ⊎ (p + 4096 ≤ x) → m' x ≡ m x

load_data-Holds :
    (from size p : ℕ) (h : Machine) (ps : List ℕ)
    → Pool h (p ∷ ps)
    → size ≤ 4096
    → (from + size ≤ p) ⊎ (p + 4096 ≤ from)
    → (h' : Machine) × (load_data from size h ≡ done (p, h'))
      × Pool h' ps
      × Holds h.mem p from size h'.mem
unfolding load_data
load_data-Holds from size p h ps l fits apart =
    let (h₁, ran, l₁, same) = kmalloc-Pool p h ps l in
    let small : ltb pgsize size ≡ false = ground arith in
    let m = memset p 0 4096 h₁.mem in
    let m' = memcpy p from size m in
    let before = λ (x : ℕ) (out : (x < p) ⊎ (p + 4096 ≤ x)).
      memset-tail p 0 4096 h₁.mem x out ∙ ap (λ (k : Mem). k x) same in
    let holds : Holds h.mem p from size m' = record {
      copied = λ i lt.
          memcpy-copies size p from m i lt (omega (arith, apart))
          ∙ ap (λ b. b % 256) (before (from + i) (omega (arith, apart)));
      cleared =
          λ i le lt. memcpy-outside size p from m (p + i) (omega arith) ∙ memset-zero p h₁.mem i lt;
      outside = λ x out. memcpy-outside size p from m x (omega (arith, out)) ∙ before x out;
    } in
    (
      record h₁ { mem = m' },
      rw (ran, small) refl,
      Links-page h₁.mem m' p h₁.free_pages ps l.1
          (λ x out. holds.outside x out ∙ ap (λ (k : Mem). k x) (sym same)) l.2 l₁,
      holds,
    )

-- A member with a header, that fits in a page, becomes a file with its name, size and contents.
pub load_member-Loaded :
    (arp cnt id size p : ℕ) (name : List ℕ) (s : Fs) (ps : List ℕ)
    → IsHeader s.machine.mem arp name size
    → Pool s.machine (p ∷ ps)
    → size ≤ 4096
    → arp + 61 + size < 2 ^ 32
    → (arp + 60 + size ≤ p) ⊎ (p + 4096 ≤ arp + 60)
    → let f = record (s.files cnt) {
      id = id;
      size = size;
      type = ft_regular;
      in_use = true;
      name = name;
      contents = p;
    } in
      (h : Machine) × (load_member arp cnt id s
        ≡ done (arp + 60 + size + size % 2, record { machine = h; files = update s.files cnt f }))
      × Pool h ps
      × Holds s.machine.mem p (arp + 60) size h.mem
unfolding load_member
load_member-Loaded arp cnt id size p name s ps header l fits low apart =
    let (h, ran, l', holds) =
      load_data-Holds (arp + 60) size p s.machine ps l fits (omega (arith, apart)) in
    let named = name_field-some s.machine.mem arp name size header in
    let sized = size_field-some s.machine.mem arp name size header in
    let small : ltb pgsize size && ltb size (2 ^ 31) ≡ false = ground arith in
    let end : (arp + 60 + size + size % 2) % 2 ^ 32 ≡ arp + 60 + size + size % 2 = omega arith in
    (h, rw (named, sized, small, ran, end, load_member) refl, l', holds)
