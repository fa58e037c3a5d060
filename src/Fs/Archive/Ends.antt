-- ===== src/Fs/Archive/Ends.antt =====
-- The loop of `init_fs` ends.
use quaros.Base.{
  ℕ, zero, suc, ◌+◌, ◌%◌, ◌^◌, ◌≤◌, ◌<◌, ◌≢◌, ◌&&◌, out_of_fuel, arith, ltb, leb, Bool-cases,
  Option-cases, inl, inr, Ends, and_then-Ends,
}
use quaros.PageAlloc.{kmalloc, pgsize}
use quaros.PageAlloc.FreeList.{kmalloc-Ends}
use quaros.Fs.{Fs, max_files}
use quaros.Fs.Archive.{
  string_in, name_field, size_field, parse_size, load_data, load_member, load_members, init_fs,
}

load_data-Ends : (from size : ℕ) → Ends (load_data from size)
unfolding load_data
load_data-Ends from size h =
    and_then-Ends (kmalloc h) _ (kmalloc-Ends h) (λ page h' e. ground arith)

load_member-Ends : (arp cnt id : ℕ) → Ends (load_member arp cnt id)
unfolding load_member
load_member-Ends arp cnt id s = elim (Option-cases (string_in (name_field s.machine.mem arp))) [
  | inl unended ↦ rw (unended, load_member) (λ e. cc)
  | inr (name, named) ↦ elim (Option-cases (parse_size (size_field s.machine.mem arp))) [
    | inl unended ↦ rw (named, unended, load_member) (λ e. cc)
    | inr (size, sized) ↦ elim (Bool-cases (ltb pgsize size && ltb size (2 ^ 31))) [
      | inl big ↦ rw (named, sized, big, load_member) (λ e. cc)
      | inr fits ↦
          rw (named, sized, fits, load_member)
            (and_then-Ends (load_data (arp + 60) size s.machine) _
              (load_data-Ends (arp + 60) size s.machine) (λ page h e. cc))
    ]
  ]
]

load_members-Ends :
    (fuel cnt id arp last : ℕ)
    → cnt < max_files
    → max_files ≤ cnt + fuel
    → Ends (load_members fuel cnt id arp last)
unfolding load_members
load_members-Ends zero cnt id arp last few enough s = absurd (omega arith)
load_members-Ends (suc fuel) cnt id arp last few enough s = elim (Bool-cases (ltb arp last)) [
  | inr at_end ↦ rw (at_end, load_members) (λ e. cc)
  | inl more ↦
      rw (more, load_members)
        (and_then-Ends (load_member arp cnt id s) _ (load_member-Ends arp cnt id s) (λ next s'.
          elim (Bool-cases (leb max_files (cnt + 1))) [
            | inl full ↦ rw full (λ e. cc)
            | inr room ↦ rw room (
                load_members-Ends fuel (cnt + 1) ((id + 1) % 2 ^ 32) next last (ground arith)
                  (omega arith) s')
          ]))
]

-- The loop of init_fs never runs out of fuel for as many rounds as the table has files, whatever
-- the archive holds.
pub init_fs-Ends : (start last : ℕ) (s : Fs) → init_fs start last s ≢ out_of_fuel
unfolding init_fs
init_fs-Ends start last s =
    load_members-Ends max_files 0 0 ((start + 8) % 2 ^ 32) last (omega arith) (omega arith) _
