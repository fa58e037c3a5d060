-- ===== src/Tests/Startup.antt =====
-- Start-up and the devices at concrete inputs, with devices that remember what they are given.
use quaros.Base.{
  Bool, ◌||◌, ◌-◌, ◌/◌, ◌%◌, ◌^◌, ap, sym, ◌∙◌, ℕ, ◌+◌, ◌*◌, ◌≤◌, ◌≡◌, ◌≢◌, refl, arith, ◌==◌,
  if◌then◌else◌,
}
use quaros.Ram.{load32, store32}
use quaros.Kernel.{Kernel}
use quaros.Trampoline.{trampoline, on_timer}
use quaros.Device.{Bus}
use quaros.Device.Lapic.{lapic, la_lvt_timer, init_lapic, eoi, write_lapic}
use quaros.Device.Lapic.Programmed.{init_lapic-Handled}
use quaros.Device.Lapic.Registers.{
  LocalVector, entry_of, IsLapic, IsLvt, lvt_cmci, lvt_timer, lvt_thermal, lvt_perf_mon_ctr,
  lvt_lint0, lvt_lint1, lvt_err, IsPlain, plain_id, plain_task_pri, plain_eoi, plain_err_stat,
  plain_init_cnt, plain_dcr, local,
}
use quaros.Device.Ioapic.{ioapic, ia_redir_base, init_ioapic, enable_ioapic}
use quaros.Device.Ioapic.Masked.{Entry, set_low, set_high, IsIoapic, init_ioapic-masked}
use quaros.Tests.Memory.{clear}
use quaros.Tests.Tasks.{busy}

-- The index register, and a redirection table of 24 entries.
abbrev Table : Type 0
Table = ℕ × (ℕ → Entry)

abbrev put_entry : ℕ → ℕ → (ℕ → Entry) → ℕ → Entry
put_entry index v entries j =
    if index == ia_redir_base + j * 2
    then set_low v (entries j)
    else if index == ia_redir_base + j * 2 + 1
    then set_high v (entries j)
    else entries j

abbrev table_bus : Bus Table
table_bus = record {
  load = λ a d. (23 * 2 ^ 16, d);
  store = λ a v d. if a == ioapic then (v, d.1) else (d.0, put_entry d.0 v d.1);
  in_byte = λ port d. (0, d);
  out_byte = λ port v d. d;
}

table_bus-IsIoapic : IsIoapic table_bus (λ d. d.1) 23
table_bus-IsIoapic = record {
  in_range = omega arith;
  low_self = λ d i v le. ground arith;
  low_other = λ d i j v le ne. ground arith;
  high_self = λ d i v le. ground arith;
  high_other = λ d i j v le ne. ground arith;
  version = λ d. refl;
}

abbrev free_entry : Entry
free_entry = record { masked = 0; vector = 8; destination = 0 }

init_ioapic-masked_example :
    let d' = enable_ioapic table_bus 4 (init_ioapic table_bus (0, λ j. free_entry)) in
    (d'.1 4 ≡ record { masked = 0; vector = 0x24; destination = 0 })
    × ((j : ℕ) → j ≤ 23 → j ≢ 4 → (d'.1 j).masked ≡ 1)
init_ioapic-masked_example =
    init_ioapic-masked table_bus (λ d. d.1) 23 4 (0, λ j. free_entry) table_bus-IsIoapic
      (omega arith)

-- A local controller: its local vectors, the spurious vector, and whether it is enabled.
abbrev Controller : Type 0
Controller = (ℕ → LocalVector) × ℕ × ℕ

abbrev is_lvt : ℕ → Bool
is_lvt r = r == 0xbc || r == 0xc8 || r == 0xcc || r == 0xd0 || r == 0xd4 || r == 0xd8 || r == 0xdc

abbrev set_vector : ℕ → ℕ → (ℕ → LocalVector) → ℕ → LocalVector
set_vector r v vectors q = if r == q then entry_of v else vectors q

abbrev store_register : ℕ → ℕ → Controller → Controller
store_register r v d =
    if r == 0x3c
    then (d.0, v % 256, v / 2 ^ 8 % 2)
    else if is_lvt r
    then (set_vector r v d.0, d.1, d.2)
    else d

abbrev vectors_of : Controller → ℕ → LocalVector
vectors_of d q = if q == 0x3c then record { masked = 0; vector = d.1 } else d.0 q

abbrev controller_bus : Bus Controller
controller_bus = record {
  load = λ a d. (0, d);
  store = λ a v d. store_register ((a - lapic) / 4) v d;
  in_byte = λ port d. (0, d);
  out_byte = λ port v d. d;
}

abbrev masked_controller : Controller
masked_controller = (λ q. record { masked = 1; vector = 0 }, 0xff, 0)

lvt_store :
    (d : Controller) (r v : ℕ)
    → IsLvt r
    → controller_bus.store (lapic + r * 4) v d ≡ (set_vector r v d.0, d.1, d.2)
lvt_store d r v lvt_cmci = refl
lvt_store d r v lvt_timer = refl
lvt_store d r v lvt_thermal = refl
lvt_store d r v lvt_perf_mon_ctr = refl
lvt_store d r v lvt_lint0 = refl
lvt_store d r v lvt_lint1 = refl
lvt_store d r v lvt_err = refl

plain_store : (d : Controller) (r v : ℕ) → IsPlain r → controller_bus.store (lapic + r * 4) v d ≡ d
plain_store d r v plain_id = refl
plain_store d r v plain_task_pri = refl
plain_store d r v plain_eoi = refl
plain_store d r v plain_err_stat = refl
plain_store d r v plain_init_cnt = refl
plain_store d r v plain_dcr = refl

vectors_of-lvt : (d : Controller) (r : ℕ) → IsLvt r → vectors_of d r ≡ d.0 r
vectors_of-lvt d r lvt_cmci = refl
vectors_of-lvt d r lvt_timer = refl
vectors_of-lvt d r lvt_thermal = refl
vectors_of-lvt d r lvt_perf_mon_ctr = refl
vectors_of-lvt d r lvt_lint0 = refl
vectors_of-lvt d r lvt_lint1 = refl
vectors_of-lvt d r lvt_err = refl

controller_bus-IsLapic : IsLapic controller_bus vectors_of (λ d. d.2)
controller_bus-IsLapic = record {
  lvt_self = λ d r v l on.
      ap (λ x. vectors_of x r) (lvt_store d r v l)
      ∙ (vectors_of-lvt (set_vector r v d.0, d.1, d.2) r l ∙ ground arith);
  lvt_other = λ d r v q l has ne. ap (λ x. vectors_of x q) (lvt_store d r v l) ∙ ground arith;
  lvt_enabled = λ d r v l. ap (λ x. x.2) (lvt_store d r v l);
  siv_self = λ d v. refl;
  siv_enabled = λ d v. refl;
  siv_other =
      λ d v q l on. vectors_of-lvt (d.0, v % 256, v / 2 ^ 8 % 2) q l ∙ sym (vectors_of-lvt d q l);
  plain_entry = λ d r v q p has. ap (λ x. vectors_of x q) (plain_store d r v p);
  plain_enabled = λ d r v p. ap (λ x. x.2) (plain_store d r v p);
  loaded_entry = λ d q has. refl;
  loaded_enabled = λ d. refl;
}

-- An interrupt frame at 0x100 with the timer's vector.
abbrev at_timer : Kernel
at_timer = record busy {
  machine = record { mem = store32 clear (0x100 + 48) 0x20; free_pages = 0; num_allocated = 0 };
}

init_lapic-Handled_example :
    let d' = init_lapic controller_bus masked_controller in
    (d'.2 ≡ 1)
    × ((vectors_of d' 0xc8).masked ≡ 0)
    × ((vectors_of d' 0xdc).masked ≡ 0)
    × (trampoline 0x9000 10 0x100 0x8000 0 0 at_timer ≡ on_timer 0x9000 10 0x100 0x8000 at_timer)
unfolding init_lapic eoi write_lapic load32 store32
init_lapic-Handled_example =
    init_lapic-Handled controller_bus vectors_of (λ d. d.2) masked_controller la_lvt_timer 0x9000 10
      0x100 0x8000 0 0 at_timer controller_bus-IsLapic refl refl (local lvt_timer) refl refl
