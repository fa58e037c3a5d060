-- ===== src/Fs/Archive.antt =====
-- `init_fs` of fs.c, which fills the table from the ar archive that is linked into the kernel, from
-- `fsar_start` to `fsar_end`. An archive's header has 60 bytes: the name from 0 on and the size, in
-- decimal, from 48 on.
pub mod Ends
pub mod Member
pub mod Layout
pub mod Load
use Prim.Native.String.{String}
use quaros.Base.{
  ℕ, zero, suc, ◌+◌, ◌-◌, ◌*◌, ◌%◌, ◌^◌, Bool, true, false, ◌&&◌, Option, none, some, List, [], ◌∷◌,
  ◌++◌, length, drop, Outcome, done, panic, fault, out_of_fuel, M, stop, and_then, pure, ◌>>=◌,
  ◌>>◌, ltb, leb, ◌==◌, if◌then◌else◌,
}
use quaros.Ram.{Mem}
use quaros.Str.{memcpy, memset}
use quaros.PageAlloc.{Machine, kmalloc, pgsize}
use quaros.Number.{atoi}
use quaros.Fs.{File, Fs, empty_file, ft_regular, ft_dev, max_files, update}

-- `n` bytes of memory from `a` on
unfoldable pub bytes_at : Mem → ℕ → ℕ → List ℕ
bytes_at m a zero = []
bytes_at m a (suc n) = m a ∷ bytes_at m (a + 1) n

-- `null_out_space`, on a list of characters
unfoldable pub null_out_space : List ℕ → List ℕ
null_out_space [] = []
null_out_space (c ∷ cs) = (if c == b' ' then 0 else c) ∷ null_out_space cs

-- the loop that ends the name at '/'
unfoldable pub null_out_slash : List ℕ → List ℕ
null_out_slash [] = []
null_out_slash (c ∷ cs) = (if c == b'/' then 0 else c) ∷ null_out_slash cs

-- The string in an array; `none`: it has no terminator within the array.
unfoldable pub string_in : List ℕ → Option (List ℕ)
string_in [] = none
string_in (c ∷ cs) =
    let rest = string_in cs in
    if c == 0 then some [] else elim rest [ none ↦ none | some s ↦ some (c ∷ s) ]

-- `tmp` when the name has been parsed
unfoldable pub name_field : Mem → ℕ → List ℕ
unfolding bytes_at null_out_space null_out_slash
name_field m arp = null_out_slash (null_out_space (bytes_at m arp 16))

-- `tmp` when the size has been copied over its first ten characters
unfoldable pub size_field : Mem → ℕ → List ℕ
unfolding name_field
size_field m arp = null_out_space (bytes_at m (arp + 48) 10) ++ drop 10 (name_field m arp)

-- `atoi(tmp)`, whose first loop does not look at the first character
unfoldable pub parse_size : List ℕ → Option ℕ
unfolding string_in
parse_size [] = none
parse_size (c ∷ cs) = elim (string_in cs) [ none ↦ none | some s ↦ atoi (c ∷ s) ]

-- The new page with the file's data. A size that is negative as an `int` is a huge `size_t`, and
-- `memcpy` runs out of the page.
unfoldable pub load_data : ℕ → ℕ → M Machine ℕ
load_data from size h = and_then (kmalloc h) λ page h'.
    if ltb pgsize size
    then fault
    else done (page, record h' { mem = memcpy page from size (memset page 0 pgsize h'.mem) })

-- One round of the loop: the member at `arp` becomes file `cnt`, and the result is where the next
-- member is. `id` is `file_id`.
unfoldable pub load_member : ℕ → ℕ → ℕ → M Fs ℕ
unfolding name_field size_field parse_size load_data
load_member arp cnt id s = elim (string_in (name_field s.machine.mem arp)) [
  | none ↦ fault
  | some name ↦ elim (parse_size (size_field s.machine.mem arp)) [
    | none ↦ fault
    | some size ↦
        if ltb pgsize size && ltb size (2 ^ 31)
        then panic "init_fs: file larger than 4K is unsupported"
        else and_then (load_data (arp + 60) size s.machine) λ page h.
          let f = record (s.files cnt) {
            id = id;
            size = size;
            type = ft_regular;
            in_use = true;
            name = name;
            contents = page;
          } in
          done (
            (arp + 60 + size + size % 2) % 2 ^ 32,
            record { machine = h; files = update s.files cnt f },
          )
  ]
]

-- The loop from file `cnt` on; the result is `file_id`.
unfoldable pub load_members : ℕ → ℕ → ℕ → ℕ → ℕ → M Fs ℕ
unfolding load_member
load_members zero cnt id arp last s = out_of_fuel
load_members (suc fuel) cnt id arp last s = elim (ltb arp last) [
  | false ↦ done (id, s)
  | true ↦ and_then (load_member arp cnt id s) (λ next. elim (leb max_files (cnt + 1)) [
    | true ↦ stop "Too many files"
    | false ↦ load_members fuel (cnt + 1) ((id + 1) % 2 ^ 32) next last
  ])
]

-- `start` and `last` are `fsar_start` and `fsar_end`. Each round takes a file of the table.
unfoldable pub init_fs : ℕ → ℕ → M Fs ℕ
unfolding load_members
init_fs start last s =
    load_members max_files 0 0 ((start + 8) % 2 ^ 32) last (record s { files = λ _. empty_file })

-- `init_dev_file`, by what it assigns to `console_file`
unfoldable pub init_dev_file : ℕ → File → File
init_dev_file id f = record f {
  id = id;
  type = ft_dev;
  name = b'c' ∷ b'o' ∷ b'n' ∷ b's' ∷ b'o' ∷ b'l' ∷ b'e' ∷ [];
}
