-- ===== src/Device/Ioapic/Masked.antt =====
-- Which interrupts the controller of ioapic.c lets through.
use quaros.Base.{
  Bool-cases, ℕ, zero, suc, ◌+◌, ◌*◌, ◌/◌, ◌%◌, ◌^◌, ◌≤◌, ◌<◌, ◌≡◌, ◌≢◌, inl, inr, refl, ap, ◌∙◌,
  arith, ◌==◌,
}
use quaros.Device.{Bus}
use quaros.Device.Ioapic.{
  ioapic, ia_redir_base, ia_mask, t_irq_base, read_ioapic, write_ioapic, disable_ioapic,
  enable_ioapic, disable_from, init_ioapic,
}

-- An entry of the redirection table: its mask bit, its vector and its destination.
pub record Entry : Type 0 where
  pub masked : ℕ
  pub vector : ℕ
  pub destination : ℕ

abbrev pub set_low : ℕ → Entry → Entry
set_low v e = record e { masked = v / 2 ^ 16 % 2; vector = v % 256 }

abbrev pub set_high : ℕ → Entry → Entry
set_high v e = record e { destination = v / 2 ^ 24 % 256 }

-- What is documented of the registers behind the index and the data register: the low word of an
-- entry has the vector in bits 0 to 7 and the mask in bit 16, the high word the destination in bits
-- 24 to 31; bits 16 to 23 of register 1 are the index of the last entry, `top`.
pub record IsIoapic {D : Type 0} (bus : Bus D) (entry : D → ℕ → Entry) (top : ℕ) : Type 0 where
  pub in_range : ia_redir_base + top * 2 + 1 < 256
  pub low_self :
      (d : D) (i v : ℕ)
      → i ≤ top
      → entry (bus.store (ioapic + 4 * 4) v (bus.store ioapic (ia_redir_base + i * 2) d)) i
        ≡ set_low v (entry d i)
  pub low_other :
      (d : D) (i j v : ℕ)
      → i ≤ top
      → j ≢ i
      → entry (bus.store (ioapic + 4 * 4) v (bus.store ioapic (ia_redir_base + i * 2) d)) j
        ≡ entry d j
  pub high_self :
      (d : D) (i v : ℕ)
      → i ≤ top
      → entry (bus.store (ioapic + 4 * 4) v (bus.store ioapic (ia_redir_base + i * 2 + 1) d)) i
        ≡ set_high v (entry d i)
  pub high_other :
      (d : D) (i j v : ℕ)
      → i ≤ top
      → j ≢ i
      → entry (bus.store (ioapic + 4 * 4) v (bus.store ioapic (ia_redir_base + i * 2 + 1) d)) j
        ≡ entry d j
  pub version : (d : D) → (bus.load (ioapic + 4 * 4) (bus.store ioapic 1 d)).0 / 2 ^ 16 % 256 ≡ top

module _ {D : Type 0} (bus : Bus D) (entry : D → ℕ → Entry) (top : ℕ)
    (is : IsIoapic bus entry top) where
  -- An entry whose two words have been written.
  abbrev both : ℕ → ℕ → ℕ → D → D
  both i low high d =
      write_ioapic bus (ia_redir_base + i * 2 + 1) high
        (write_ioapic bus (ia_redir_base + i * 2) low d)

  both_self :
      (d : D) (i low high : ℕ)
      → i ≤ top
      → entry (both i low high d) i ≡ set_high high (set_low low (entry d i))
  unfolding write_ioapic
  both_self d i low high le =
      let low_index : (ia_redir_base + i * 2) % 256 ≡ ia_redir_base + i * 2 =
        omega (arith, is.in_range) in
      let high_index : (ia_redir_base + i * 2 + 1) % 256 ≡ ia_redir_base + i * 2 + 1 =
        omega (arith, is.in_range) in
      rw (low_index, high_index, write_ioapic)
        (is.high_self _ i high le ∙ ap (set_high high) (is.low_self d i low le))

  both_other :
      (d : D) (i j low high : ℕ) → i ≤ top → j ≢ i → entry (both i low high d) j ≡ entry d j
  unfolding write_ioapic
  both_other d i j low high le other =
      let low_index : (ia_redir_base + i * 2) % 256 ≡ ia_redir_base + i * 2 =
        omega (arith, is.in_range) in
      let high_index : (ia_redir_base + i * 2 + 1) % 256 ≡ ia_redir_base + i * 2 + 1 =
        omega (arith, is.in_range) in
      rw (low_index, high_index, write_ioapic)
        (is.high_other _ i j high le other ∙ is.low_other d i j low le other)

  -- The loop leaves the entries before the i-th alone and masks the n from it on.
  disable_from-before :
      (n i j : ℕ) (d : D) → i + n ≤ top + 1 → j < i → entry (disable_from bus n i d) j ≡ entry d j
  unfolding disable_from
  disable_from-before zero i j d room lt = refl
  disable_from-before (suc n) i j d room lt =
      disable_from-before n (i + 1) j (disable_ioapic bus i d) (omega arith) (omega arith)
      ∙ both_other d i j ia_mask 0 (omega arith) (omega arith)

  disable_from-masked :
      (n i j : ℕ) (d : D)
      → i + n ≤ top + 1
      → i ≤ j
      → j < i + n
      → entry (disable_from bus n i d) j ≡ record { masked = 1; vector = 0; destination = 0 }
  unfolding disable_from
  disable_from-masked zero i j d room le lt = absurd (omega arith)
  disable_from-masked (suc n) i j d room le lt = elim (Bool-cases (j == i)) [
    | inl same ↦
        let here : j ≡ i = ground (arith, same) in
        disable_from-before n (i + 1) j (disable_ioapic bus i d) (omega arith) (omega arith)
        ∙ rw here (both_self d i ia_mask 0 (omega arith))
    | inr other ↦
        let on : i + 1 ≤ j = ground (arith, other) in
        disable_from-masked n (i + 1) j (disable_ioapic bus i d) (omega arith) on (omega arith)
  ]

  init_ioapic-all :
      (d : D) (j : ℕ)
      → j ≤ top
      → entry (init_ioapic bus d) j ≡ record { masked = 1; vector = 0; destination = 0 }
  unfolding init_ioapic read_ioapic
  init_ioapic-all d j le = rw (is.version d) (
      disable_from-masked (top + 1) 0 j (read_ioapic bus 1 d).1 (omega arith) (omega arith)
        (omega arith))

-- For a controller whose index and data registers reach the entries of its table, at most 120 of
-- them, as documented, after init_ioapic and enable_ioapic of one entry this entry is not masked,
-- has the vector 32 above its number and destination 0, and every other entry is masked.
pub init_ioapic-masked :
    {D : Type 0} (bus : Bus D) (entry : D → ℕ → Entry) (top irq : ℕ) (d : D)
    → IsIoapic bus entry top
    → irq ≤ top
    → let d' = enable_ioapic bus irq (init_ioapic bus d) in
      (entry d' irq ≡ record { masked = 0; vector = t_irq_base + irq; destination = 0 })
      × ((j : ℕ) → j ≤ top → j ≢ irq → (entry d' j).masked ≡ 1)
unfolding enable_ioapic
init_ioapic-masked bus entry top irq d is le =
    let d₁ = init_ioapic bus d in
    let v = t_irq_base + irq in
    let passes : v / 2 ^ 16 % 2 ≡ 0 = omega (arith, is.in_range) in
    let number : v % 256 ≡ v = omega (arith, is.in_range) in
    let first : v / 2 ^ 24 % 256 ≡ 0 = omega (arith, is.in_range) in
    (
      both_self bus entry top is d₁ irq v v le ∙ rw (passes, number, first) refl,
      λ j at other.
          ap (λ (e : Entry). e.masked)
            (both_other bus entry top is d₁ irq j v v le other
              ∙ init_ioapic-all bus entry top is d j at),
    )
