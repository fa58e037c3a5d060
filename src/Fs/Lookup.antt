-- ===== src/Fs/Lookup.antt =====
-- `get_file` and `alloc_file` against the names in the table.
use quaros.Base.{
  ℕ, ◌-◌, ◌<◌, ◌≤◌, ◌≡◌, ◌≢◌, inl, inr, refl, ap, sym, ◌∙◌, Bool, true, false, not, none, some,
  List, [], ◌∷◌, arith, ltb, ◌==◌, Bool-cases, done, panic, length,
}
use quaros.PageAlloc.FreeList.{Pool, kmalloc-Pool}
use quaros.Fs.{
  File, Fs, update, max_files, name_size, str_same, get_file, alloc_file, release_file,
  filesystem_size,
}
use quaros.Fs.Names.{IsStr, str_same_iff, find_index-IsFirst, find_index-none, find_index-some}

-- Every name in the table is a string.
abbrev pub AreNamed : (ℕ → File) → Type 0
AreNamed files = (i : ℕ) → IsStr (files i).name

not_true : (b : Bool) → b ≢ true → b ≡ false
not_true true h = absurd (h refl)
not_true false h = refl

-- The file that get_file finds in a table of strings has the name, lies in the table, and is the
-- first with that name.
pub get_file-some :
    (files : ℕ → File) (path : List ℕ) (r : ℕ)
    → IsStr path
    → AreNamed files
    → get_file files path ≡ some r
    → ((files r).name ≡ path) × (r < max_files) × ((j : ℕ) → j < r → (files j).name ≢ path)
unfolding get_file
get_file-some files [] r hp named e = cc
get_file-some files (c ∷ path) r hp named e =
    let (f, lt) = find_index-IsFirst max_files 0 (λ i. str_same (c ∷ path) (files i).name) r e in
    (
      sym ((str_same_iff (c ∷ path) (files r).name hp (named r)).0 f.passes),
      omega (arith, lt),
      λ j below same_name.
          let hit = (str_same_iff (c ∷ path) (files j).name hp (named j)).1 (sym same_name) in
          let miss = f.skipped j (omega arith) below in cc,
    )

-- Where get_file finds no file for a name that is not empty, no file of the table has the name.
pub get_file-none :
    (files : ℕ → File) (path : List ℕ)
    → path ≢ []
    → IsStr path
    → AreNamed files
    → get_file files path ≡ none
    → (j : ℕ) → j < max_files
    → (files j).name ≢ path
unfolding get_file
get_file-none files [] ne hp named e = absurd (ne refl)
get_file-none files (c ∷ path) ne hp named e = λ j lt same_name.
    let hit = (str_same_iff (c ∷ path) (files j).name hp (named j)).1 (sym same_name) in
    let miss =
      find_index-none max_files 0 (λ i. str_same (c ∷ path) (files i).name) e j (omega arith)
        (omega arith) in
    cc

get_file-found :
    (files : ℕ → File) (path : List ℕ) (j : ℕ)
    → path ≢ []
    → IsStr path
    → AreNamed files
    → j < max_files
    → (files j).name ≡ path
    → (r : ℕ) × (get_file files path ≡ some r)
unfolding get_file
get_file-found files [] j ne hp named lt e = absurd (ne refl)
get_file-found files (c ∷ path) j ne hp named lt e =
    find_index-some max_files 0 (λ i. str_same (c ∷ path) (files i).name) j (omega arith)
      (omega arith) ((str_same_iff (c ∷ path) (files j).name hp (named j)).1 (sym e))

-- A new file, in a slot that was free.
pub record Added (path : List ℕ) (s : Fs) (r : ℕ) (s' : Fs) : Type 0 where
  pub free_before : (s.files r).in_use ≡ false
  pub in_range : r < max_files
  pub named : (s'.files r).name ≡ path
  pub used : (s'.files r).in_use ≡ true
  pub empty : (s'.files r).size ≡ 0
  pub others : (j : ℕ) → j ≢ r → s'.files j ≡ s.files j

module _ (path : List ℕ) (s : Fs) (q : ℕ) (ps : List ℕ) (pool : Pool s.machine (q ∷ ps)) where
  -- With a free slot, a free page and a name that fits, `alloc_file` adds the file.
  pub alloc_file-Added :
      (j : ℕ)
      → j < max_files
      → (s.files j).in_use ≡ false
      → length path ≤ 15
      → (r : ℕ) × (s' : Fs) × (alloc_file path s ≡ done (some r, s'))
        × Added path s r s'
        × Pool s'.machine ps
        × ((s'.files r).contents ≡ q)
  unfolding alloc_file
  alloc_file-Added j lt free fits =
      let (r, found) =
        find_index-some max_files 0 (λ i. not (s.files i).in_use) j (omega arith) (omega arith)
          (rw free) in
      let (f, hr) = find_index-IsFirst max_files 0 (λ i. not (s.files i).in_use) r found in
      let (h, ran, pool', _) = kmalloc-Pool q s.machine ps pool in
      let file = record (s.files r) { name = path; contents = q; in_use = true; size = 0 } in
      let short : ltb (name_size - 1) (length path) ≡ false = ground arith in
      (
        r,
        record { machine = h; files = update s.files r file },
        rw (found, alloc_file, short, ran),
        record {
          free_before = ground (arith, f.passes);
          in_range = omega (arith, hr);
          named = ground arith;
          used = ground arith;
          empty = ground arith;
          others = λ i ne. ground arith;
        },
        pool',
        ground arith,
      )

Added-AreNamed :
    (path : List ℕ) (s : Fs) (r : ℕ) (s' : Fs)
    → IsStr path
    → AreNamed s.files
    → Added path s r s'
    → AreNamed s'.files
Added-AreNamed path s r s' hp named a i = elim (Bool-cases (i == r)) [
  | inl e ↦ (let here : i ≡ r = ground arith in rw (here, a.named) hp)
  | inr e ↦ rw (a.others i (ground arith)) (named i)
]

-- A name that was not in the table leads to the file that was added under it.
pub get_file-Added :
    (path : List ℕ) (s : Fs) (r : ℕ) (s' : Fs)
    → path ≢ []
    → IsStr path
    → AreNamed s.files
    → get_file s.files path ≡ none
    → Added path s r s'
    → get_file s'.files path ≡ some r
get_file-Added path s r s' ne hp named missing a =
    let named' = Added-AreNamed path s r s' hp named a in
    let (r', found) = get_file-found s'.files path r ne hp named' a.in_range a.named in
    let (is_path, lt, _) = get_file-some s'.files path r' hp named' found in
    elim (Bool-cases (r' == r)) [
      | inl e ↦ (let same : r' ≡ r = ground arith in rw (← same) found)
      | inr e ↦
          let kept = a.others r' (ground arith) in
          absurd (
            get_file-none s.files path ne hp named missing r' lt
              (ap (λ (f : File). f.name) (sym kept) ∙ is_path))
    ]

-- With a free slot, a free page and a name of 1 to 15 characters that no file of the table has,
-- the names being strings, alloc_file succeeds, takes a slot that was free, leaves the other
-- files as they were, and get_file then finds the new file.
pub get_file-alloc_file :
    (path : List ℕ) (s : Fs) (q : ℕ) (ps : List ℕ) (j : ℕ)
    → Pool s.machine (q ∷ ps)
    → j < max_files
    → (s.files j).in_use ≡ false
    → path ≢ []
    → IsStr path
    → length path ≤ 15
    → AreNamed s.files
    → get_file s.files path ≡ none
    → (r : ℕ) × (s' : Fs) × (alloc_file path s ≡ done (some r, s'))
      × (get_file s'.files path ≡ some r)
      × Added path s r s'
get_file-alloc_file path s q ps j pool lt free ne hp fits named missing =
    let (r, s', ran, a, _, _) = alloc_file-Added path s q ps pool j lt free fits in
    (r, s', ran, get_file-Added path s r s' ne hp named missing a, a)

-- release_file panics for every file of the table.
pub release_file-panics :
    (i : ℕ) (s : Fs)
    → i < max_files
    → release_file i s ≡ panic "release_file: realeasing file out of filesystem"
unfolding release_file
release_file-panics i s lt = let inside : ltb filesystem_size i ≡ false = ground arith in rw inside
