-- ===== src/Paging/Entry.antt =====
-- The fields of the entries of page tables.
use quaros.Base.{ℕ, ◌*◌, ◌/◌, ◌%◌, ◌^◌, ◌<◌, ◌≡◌, true, bit_or, arith}
use quaros.Base.Bits.{bit_or-page, bit_or-lt, bit_or-odd, bit_or-odd_right}
use quaros.Paging.{virt_to_phys, phys_to_virt, table_of, table_entry, present, pte_p}

-- An entry made of a frame and permission bits is present, and names its frame.
pub record Names (entry frame : ℕ) : Type 0 where
  pub small : entry < 2 ^ 32
  pub is_present : entry % 2 ≡ 1
  pub names : entry / 4096 * 4096 ≡ frame

pub Names-entry :
    (frame perm : ℕ)
    → frame % 4096 ≡ 0
    → frame < 2 ^ 32
    → perm < 4096
    → Names (bit_or (bit_or frame pte_p) perm) frame
Names-entry frame perm aligned small low = record {
  small = bit_or-lt (bit_or frame 1) perm (bit_or-lt frame 1 small (omega arith)) low;
  is_present = bit_or-odd (bit_or frame 1) perm (bit_or-odd_right frame 1 (omega arith));
  names = omega (arith, bit_or-page (bit_or frame 1) perm low, bit_or-page frame 1 (omega arith));
}

Names-more :
    (entry frame perm : ℕ) → Names entry frame → perm < 4096 → Names (bit_or entry perm) frame
Names-more entry frame perm n low = record {
  small = bit_or-lt entry perm n.small low;
  is_present = bit_or-odd entry perm n.is_present;
  names = omega (arith, bit_or-page entry perm low, n.names);
}

pub Names-table_entry : (p : ℕ) → p % 4096 ≡ 0 → Names (table_entry p) (virt_to_phys p)
Names-table_entry p aligned =
    Names-more (bit_or (bit_or (virt_to_phys p) pte_p) 2) (virt_to_phys p) 4
      (Names-entry (virt_to_phys p) 2 (omega arith) (omega arith) (omega arith)) (omega arith)

pub phys_to_virt-virt_to_phys : (p : ℕ) → p < 2 ^ 32 → phys_to_virt (virt_to_phys p) ≡ p
phys_to_virt-virt_to_phys p small = omega arith

pub table_of-Names : (entry p : ℕ) → p < 2 ^ 32 → Names entry (virt_to_phys p) → table_of entry ≡ p
table_of-Names entry p small n = rw (n.names) (phys_to_virt-virt_to_phys p small)

pub present-Names : (entry frame : ℕ) → Names entry frame → present entry ≡ true
present-Names entry frame n = ground (arith, n.is_present)
