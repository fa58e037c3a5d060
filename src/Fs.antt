-- ===== src/Fs.antt =====
-- The file table of fs.c. A name is kept as the string in its array, the bytes before the
-- terminator; the contents of a file are a page of memory.
pub mod Names
pub mod Lookup
pub mod Io
pub mod Archive
use Prim.Native.String.{String}
use quaros.Base.{
  ℕ, zero, suc, ◌+◌, ◌-◌, ◌*◌, ◌%◌, ◌^◌, ◌<◌, Bool, true, false, ◌&&◌, ◌||◌, not, Option, none,
  some, List, [], ◌∷◌, ◌++◌, Outcome, done, panic, M, and_then, ltb, ◌==◌, if◌then◌else◌, length,
  refl,
}
use quaros.Ram.{Mem, store8}
use quaros.Str.{memcpy, memset, Sign, same, strcmp_end}
use quaros.PageAlloc.{Machine, kmalloc, kfree, pgsize}

abbrev pub max_files : ℕ
max_files = 32

-- sizeof(((struct file *)0)->name)
abbrev pub name_size : ℕ
name_size = 16

pub data FileType : Type 0 where
  ft_regular ft_dev ft_dir : FileType

pub record File : Type 0 where
  pub id : ℕ
  pub size : ℕ
  pub pos : ℕ
  pub type : FileType
  pub in_use : Bool
  pub name : List ℕ
  pub contents : ℕ  -- the address `data`

-- `memset(filesystem, 0, …)`; 0 is FT_REGULAR
abbrev pub empty_file : File
empty_file = record {
  id = 0;
  size = 0;
  pos = 0;
  type = ft_regular;
  in_use = false;
  name = [];
  contents = 0;
}

-- The table, `filesystem[i]` for `i` below `max_files`, with the memory that the files live in.
pub record Fs : Type 0 where
  pub machine : Machine
  pub files : ℕ → File

abbrev pub update {ℓ} : {A : Type ℓ} → (ℕ → A) → ℕ → A → ℕ → A
update f i v j = if j == i then v else f j

-- `strcmp` of two strings, given by their bytes before the terminators.
unfoldable pub strcmp_str : List ℕ → List ℕ → Sign
strcmp_str [] [] = same
strcmp_str [] (b ∷ bs) = strcmp_end 0 b
strcmp_str (a ∷ as') [] = strcmp_end a 0
strcmp_str (a ∷ as') (b ∷ bs) =
    let rest = strcmp_str as' bs in if a == b then rest else strcmp_end a b

-- `strcmp(s, t) == 0`
abbrev pub str_same : List ℕ → List ℕ → Bool
str_same s t = elim (strcmp_str s t) [ Sign.same ↦ true | _ ↦ false ]

-- the first index from `i` on, with `rounds` rounds left, at which a test passes
unfoldable pub find_index : ℕ → ℕ → (ℕ → Bool) → Option ℕ
find_index zero i p = none
find_index (suc rounds) i p = let rest = find_index rounds (i + 1) p in if p i then some i else rest

-- The index of the file, where the source returns its address.
unfoldable pub get_file : (ℕ → File) → List ℕ → Option ℕ
unfolding find_index
get_file files [] = none
get_file files (c ∷ path) = find_index max_files 0 (λ i. str_same (c ∷ path) (files i).name)

-- `memset` of the name is not needed: `strcpy` ends it. The new page is not cleared, and `type`
-- and `pos` keep the slot's old values.
unfoldable pub alloc_file : List ℕ → M Fs (Option ℕ)
alloc_file path s = elim (find_index max_files 0 (λ i. not (s.files i).in_use)) [
  | none ↦ done (none, s)
  | some i ↦
      if ltb (name_size - 1) (length path)
      then done (none, s)
      else and_then (kmalloc s.machine) λ page h.
        let f = record (s.files i) { name = path; contents = page; in_use = true; size = 0 } in
        done (some i, record { machine = h; files = update s.files i f })
]

-- sizeof(struct file), and sizeof(filesystem)
abbrev pub filesystem_size : ℕ
filesystem_size = max_files * 40

-- The file `filesystem + i`. The bound is taken in elements, as C adds to a pointer.
unfoldable pub release_file : ℕ → M Fs (Unit {0})
release_file i s =
    let f = s.files i in
    let files = update s.files i (record f { name = []; in_use = false }) in
    if ltb filesystem_size i
    then if f.contents == 0
      then done (tt, record s { files = files })
      else and_then (kfree f.contents s.machine)
          (λ _ h. done (tt, record { machine = h; files = files }))
    else panic "release_file: realeasing file out of filesystem"

-- `strcpy(p, name)`, and then '\n' over its terminator
unfoldable pub put_line : List ℕ → ℕ → Mem → Mem
put_line [] p m = store8 m p 10
put_line (c ∷ cs) p m = put_line cs (p + 1) (store8 m p c)

abbrev pub is_listed : File → Bool
is_listed f = f.in_use && elim f.type [ ft_regular ↦ true | _ ↦ false ] && not (length f.name == 0)

-- The loop of `list_rootdir` from file `i` on; `p` is how much has been written to `buf`. The
-- result `none` is -1.
unfoldable pub list_files : ℕ → ℕ → (ℕ → File) → ℕ → ℕ → Mem → Option ℕ × Mem
list_files zero i files buf p m = (some p, m)
list_files (suc rounds) i files buf p m =
    let f = files i in
    let len = length f.name in
    let skip = list_files rounds (i + 1) files buf p m in
    let more = list_files rounds (i + 1) files buf (p + len + 1) (put_line f.name (buf + p) m) in
    if is_listed f then if ltb pgsize (p + len + 1) then (none, m) else more else skip

unfoldable pub list_rootdir : (ℕ → File) → ℕ → Mem → Option ℕ × Mem
unfolding list_files
list_rootdir files buf m = list_files max_files 0 files buf 0 m

-- The result, the file with its new position, and memory with the bytes in `buf`.
unfoldable pub read_file : File → ℕ → ℕ → Mem → ℕ × File × Mem
read_file f buf count m =
    let left = (f.size + 2 ^ 32 - f.pos) % 2 ^ 32 in
    let n = if ltb left count then left else count in
    (n, record f { pos = (f.pos + n) % 2 ^ 32 }, memcpy buf f.contents n m)

unfoldable pub write_file : File → ℕ → ℕ → Mem → Outcome (ℕ × File × Mem)
write_file f buf count m =
    if ltb pgsize ((f.pos + count) % 2 ^ 32)
    then panic "File larger than PGSIZE is unsupported"
    else done
        (0, record f { pos = (f.pos + count) % 2 ^ 32 }, memcpy (f.contents + f.pos) buf count m)
