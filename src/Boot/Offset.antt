-- ===== src/Boot/Offset.antt =====
-- What `read_offset` reads, and where it ends.
use quaros.Base.{
  ℕ, zero, suc, ◌+◌, ◌-◌, ◌*◌, ◌/◌, ◌%◌, ◌^◌, ◌≤◌, ◌<◌, ◌≡◌, ◌⊎◌, inl, inr, refl, ap₂, ◌∙◌, some,
  Bool-cases, arith, ltb, ◌==◌,
}
use quaros.Ram.{Mem, store8}
use quaros.Boot.{put_bytes, read_sect, read_sects, read_offset}

put_bytes-outside :
    (disk : ℕ → ℕ) (dst offset n : ℕ) (m : Mem) (x : ℕ)
    → dst + n ≤ 2 ^ 32
    → (x < dst) ⊎ (dst + n ≤ x)
    → put_bytes disk dst offset n m x ≡ m x
unfolding put_bytes store8
put_bytes-outside disk dst offset zero m x fits out = refl
put_bytes-outside disk dst offset (suc zero) m x fits out = ground arith
put_bytes-outside disk dst offset (suc (suc n)) m x fits out =
    let next : (dst + 1) % 2 ^ 32 ≡ dst + 1 = omega arith in
    rw next (
      put_bytes-outside disk (dst + 1) (offset + 1) (suc n) (store8 m dst (disk offset)) x
        (omega arith) (omega (arith, out))
      ∙ ground arith)

put_bytes-inside :
    (disk : ℕ → ℕ) (dst offset n : ℕ) (m : Mem) (i : ℕ)
    → dst + n ≤ 2 ^ 32
    → i < n
    → put_bytes disk dst offset n m (dst + i) ≡ disk (offset + i) % 256
unfolding put_bytes store8
put_bytes-inside disk dst offset zero m i fits lt = absurd (omega arith)
put_bytes-inside disk dst offset (suc zero) m i fits lt =
    let is_zero : i ≡ 0 = omega arith in rw is_zero (ground arith)
put_bytes-inside disk dst offset (suc (suc n)) m i fits lt =
    let next : (dst + 1) % 2 ^ 32 ≡ dst + 1 = omega arith in
    elim (Bool-cases (i == 0)) [
      | inl first ↦
          let is_zero : i ≡ 0 = ground arith in
          rw next (
            put_bytes-outside disk (dst + 1) (offset + 1) (suc n) (store8 m dst (disk offset))
              (dst + i) (omega arith) (omega (arith, is_zero))
            ∙ rw is_zero (ground arith))
      | inr later ↦
          let positive : 0 < i = ground arith in
          let at : dst + i ≡ dst + 1 + (i - 1) = omega (arith, positive) in
          let on_disk : offset + i ≡ offset + 1 + (i - 1) = omega (arith, positive) in
          rw (next, at, on_disk)
            (put_bytes-inside disk (dst + 1) (offset + 1) (suc n) (store8 m dst (disk offset))
              (i - 1) (omega arith) (omega (arith, positive)))
    ]

-- The sectors from `lba` on, one behind the other from `p` on, until `last` is reached.
read_sects-some :
    (disk : ℕ → ℕ) (fuel p last lba : ℕ) (m : Mem)
    → last + 512 ≤ 2 ^ 32
    → p < last + 512
    → last + 512 ≤ p + fuel * 512
    → (m' : Mem) × (read_sects disk fuel p last lba m ≡ some m')
      × ((x : ℕ) → x < p → m' x ≡ m x)
      × ((i : ℕ) → p + i < last → m' (p + i) ≡ disk (lba * 512 + i) % 256)
      × ((x : ℕ) → last + 512 ≤ x → m' x ≡ m x)
unfolding read_sects read_sect
read_sects-some disk zero p last lba m fits near enough =
    (m, absurd (omega arith), λ x lt. refl, λ i lt. absurd (omega arith), λ x le. refl)
read_sects-some disk (suc fuel) p last lba m fits near enough =
    let m₁ = put_bytes disk p (lba * 512) 512 m in
    elim (Bool-cases (ltb p last)) [
      | inr stop ↦
          (m, rw (stop, read_sects) refl, λ x lt. refl, λ i lt. absurd (ground arith), λ x le. refl)
      | inl more ↦
          let below : p < last = ground arith in
          let (m', ran, before, inside, behind) =
            read_sects-some disk fuel (p + 512) last (lba + 1) m₁ fits (omega arith)
              (omega arith) in
          let next : (p + 512) % 2 ^ 32 ≡ p + 512 = omega arith in
          (
            m',
            rw (more, next) ran,
            λ x lt.
                before x (omega arith)
                ∙ put_bytes-outside disk p (lba * 512) 512 m x (omega arith) (inl lt),
            λ i lt. elim (Bool-cases (ltb i 512)) [
              | inl here ↦
                  let small : i < 512 = ground arith in
                  before (p + i) (omega (arith, small))
                  ∙ put_bytes-inside disk p (lba * 512) 512 m i (omega arith) small
              | inr further ↦
                  let large : 512 ≤ i = ground arith in
                  let at : p + i ≡ p + 512 + (i - 512) = omega (arith, large) in
                  let on_disk : lba * 512 + i ≡ (lba + 1) * 512 + (i - 512) =
                    omega (arith, large) in
                  rw (at, on_disk) (inside (i - 512) (omega (arith, large)))
            ],
            λ x le.
                behind x le
                ∙ put_bytes-outside disk p (lba * 512) 512 m x (omega arith)
                    (inr (omega (arith, below))),
          )
    ]

-- For a destination from 512 on and an end at least 512 below 2 ^ 32, the loop of read_offset
-- ends within its fuel: each of the size bytes at the destination is the disk's byte as far
-- behind the offset, and nothing is written before the destination less the offset's distance
-- from its sector, or from 512 bytes behind the end on.
pub read_offset-reads :
    (disk : ℕ → ℕ) (dst offset size : ℕ) (m : Mem)
    → 512 ≤ dst
    → dst + size + 512 ≤ 2 ^ 32
    → (m' : Mem) × (read_offset disk dst offset size m ≡ some m')
      × ((i : ℕ) → i < size → m' (dst + i) ≡ disk (offset + i) % 256)
      × ((x : ℕ) → (x + offset % 512 < dst) ⊎ (dst + size + 512 ≤ x) → m' x ≡ m x)
unfolding read_offset
read_offset-reads disk dst offset size m above fits =
    let first : (dst + 2 ^ 32 - offset % 512) % 2 ^ 32 ≡ dst - offset % 512 = omega arith in
    let last : (dst + size) % 2 ^ 32 ≡ dst + size = omega arith in
    let (m', ran, before, inside, behind) =
      read_sects-some disk (size / 512 + 3) (dst - offset % 512) (dst + size) (offset / 512) m fits
        (omega arith) (omega arith) in
    (
      m',
      ap₂ (λ a b. read_sects disk (size / 512 + 3) a b (offset / 512) m) first last ∙ ran,
      λ i lt.
          let at : dst + i ≡ dst - offset % 512 + (offset % 512 + i) = omega arith in
          let on_disk : offset + i ≡ offset / 512 * 512 + (offset % 512 + i) = omega arith in
          rw (at, on_disk) (inside (offset % 512 + i) (omega arith)),
      λ x out. elim out [ inl lo ↦ before x (omega arith) | inr hi ↦ behind x hi ],
    )
