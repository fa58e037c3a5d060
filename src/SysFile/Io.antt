-- ===== src/SysFile/Io.antt =====
-- Reading and writing a regular file.
use quaros.Base.{
  ℕ, Outcome, ◌+◌, ◌-◌, ◌%◌, ◌^◌, ◌≤◌, ◌<◌, ◌≡◌, ◌⊎◌, refl, ap, ◌∙◌, done, and_then, ◌>>◌, pure,
  arith, ltb, false, min,
}
use quaros.Ram.{Mem}
use quaros.Str.{memcpy}
use quaros.Str.Memcpy.{memcpy-copies, memcpy-outside}
use quaros.PageAlloc.{pgsize}
use quaros.Paging.{kern_base, kern_top}
use quaros.Paging.Virtual.Copy.{copy_virtual-memcpy}
use quaros.Fs.{File, ft_regular, ft_dev, ft_dir, read_file}
use quaros.Fs.Io.{Disjoint}
use quaros.Kernel.{Kernel, FileRef}
use quaros.Kernel.User.{current, minus_one}
use quaros.SysFile.{file_of, put_file, read_ref, file_to_user, write_ref, user_to_file, print_user}

read_file-eq :
    (f : File) (buf count : ℕ) (m : Mem)
    → f.pos ≤ f.size
    → f.size < 2 ^ 32
    → let n = min count (f.size - f.pos) in
      read_file f buf count m ≡ (n, record f { pos = f.pos + n }, memcpy buf f.contents n m)
unfolding read_file
read_file-eq f buf count m hp hs = ground arith

file_to_user-eq :
    (k : Kernel) (ref : FileRef) (buf count : ℕ)
    → let f = file_of k ref in
      f.pos ≤ f.size
      → f.size < 2 ^ 32
      → kern_base ≤ buf
      → kern_base ≤ f.contents
      → buf + count ≤ kern_top
      → f.contents + count ≤ kern_top
      → let n = min count (f.size - f.pos) in
        file_to_user ref buf count k
        ≡ done (
          n,
          put_file ref
              (record f { pos = f.pos + n })
              (record k {
                machine = record k.machine { mem = memcpy buf f.contents n k.machine.mem };
              }),
        )
unfolding file_to_user
file_to_user-eq k ref buf count hp hs hb hc fb fc =
    let f = file_of k ref in
    let n = min count (f.size - f.pos) in
    rw
      (
        read_file-eq f buf count k.machine.mem hp hs,
        copy_virtual-memcpy n (current k) buf f.contents k.machine hb hc (omega arith)
            (omega arith),
      )
      refl

user_to_file-eq :
    (k : Kernel) (ref : FileRef) (buf count : ℕ)
    → let f = file_of k ref in
      f.pos + count ≤ 4096
      → kern_base ≤ buf
      → kern_base ≤ f.contents
      → buf + count ≤ kern_top
      → f.contents + f.pos + count ≤ kern_top
      → user_to_file ref buf count k
        ≡ done (
          tt,
          put_file ref
              (record f { pos = f.pos + count })
              (record k {
                machine = record k.machine {
                  mem = memcpy (f.contents + f.pos) buf count k.machine.mem;
                };
              }),
        )
unfolding user_to_file
user_to_file-eq k ref buf count fits hb hc fb fc =
    let f = file_of k ref in
    let wraps : (f.pos + count) % 2 ^ 32 ≡ f.pos + count = omega arith in
    let small : ltb pgsize (f.pos + count) ≡ false = ground arith in
    rw
      (
        wraps,
        small,
        copy_virtual-memcpy count (current k) (f.contents + f.pos) buf k.machine (omega arith) hb
            (omega arith) (omega arith),
      )
      refl

read_ref-regular :
    (k : Kernel) (ref : FileRef) (buf count : ℕ)
    → (file_of k ref).type ≡ ft_regular
    → read_ref buf count ref k ≡ file_to_user ref buf count k
unfolding read_ref
read_ref-regular k ref buf count regular = rw (regular, read_ref) refl

write_ref-regular :
    (k : Kernel) (ref : FileRef) (buf count : ℕ)
    → (file_of k ref).type ≡ ft_regular
    → write_ref buf count ref k ≡ (user_to_file ref buf count >> pure minus_one) k
unfolding write_ref
write_ref-regular k ref buf count regular =
    ap
      (λ t. elim t as (λ _. Outcome (ℕ × Kernel)) [
        | ft_dev ↦
            and_then (print_user (current k) buf count k.machine)
              (λ _ h. done (count, record k { machine = h }))
        | ft_regular ↦ (user_to_file ref buf count >> pure minus_one) k
        | ft_dir ↦ done (minus_one, k)
      ])
      regular

-- A read from a regular file, at a position not past its end, into a buffer of the direct map,
-- from KERN_BASE to KERN_TOP, that does not overlap the file's page there, is not refused: the
-- bytes of kernel memory at the buffer become the file's first bytes, as many as were asked for
-- or are left, no other byte changes, and their number is returned.
pub read_ref-unchecked :
    (k : Kernel) (ref : FileRef) (buf count : ℕ)
    → let f = file_of k ref in
      f.type ≡ ft_regular
      → f.pos ≤ f.size
      → f.size < 2 ^ 32
      → kern_base ≤ buf
      → kern_base ≤ f.contents
      → buf + count ≤ kern_top
      → f.contents + count ≤ kern_top
      → Disjoint buf count f.contents count
      → let n = min count (f.size - f.pos) in
        (m : Mem) × (read_ref buf count ref k
          ≡ done (
            n,
            put_file ref
                (record f { pos = f.pos + n })
                (record k { machine = record k.machine { mem = m } }),
          ))
        × ((i : ℕ) → i < n → m (buf + i) ≡ k.machine.mem (f.contents + i) % 256)
        × ((x : ℕ) → (x < buf) ⊎ (buf + n ≤ x) → m x ≡ k.machine.mem x)
unfolding read_ref file_to_user
read_ref-unchecked k ref buf count regular hp hs hb hc fb fc apart =
    let f = file_of k ref in
    let n = min count (f.size - f.pos) in
    (
      memcpy buf f.contents n k.machine.mem,
      read_ref-regular k ref buf count regular ∙ file_to_user-eq k ref buf count hp hs hb hc fb fc,
      λ i lt. memcpy-copies n buf f.contents k.machine.mem i lt (omega (arith, apart)),
      λ x out. memcpy-outside n buf f.contents k.machine.mem x out,
    )

-- A write to a regular file that ends within its page, from a buffer at or above KERN_BASE that
-- does not overlap it, both in the direct map and below KERN_TOP, stores the bytes at the
-- position, moves the position behind them, and returns -1.
pub write_ref-minus_one :
    (k : Kernel) (ref : FileRef) (buf count : ℕ)
    → let f = file_of k ref in
      f.type ≡ ft_regular
      → f.pos + count ≤ 4096
      → kern_base ≤ buf
      → kern_base ≤ f.contents
      → buf + count ≤ kern_top
      → f.contents + f.pos + count ≤ kern_top
      → Disjoint (f.contents + f.pos) count buf count
      → (m : Mem) × (write_ref buf count ref k
          ≡ done (
            minus_one,
            put_file ref
                (record f { pos = f.pos + count })
                (record k { machine = record k.machine { mem = m } }),
          ))
        × ((i : ℕ) → i < count → m (f.contents + f.pos + i) ≡ k.machine.mem (buf + i) % 256)
unfolding write_ref user_to_file
write_ref-minus_one k ref buf count regular fits hb hc fb fc apart =
    let f = file_of k ref in
    let at = f.contents + f.pos in
    (
      memcpy at buf count k.machine.mem,
      write_ref-regular k ref buf count regular
          ∙ ap (λ o. and_then o (λ _. pure minus_one))
              (user_to_file-eq k ref buf count fits hb hc fb fc),
      λ i lt. memcpy-copies count at buf k.machine.mem i lt apart,
    )
