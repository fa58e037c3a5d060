-- ===== src/Device/Lapic/Programmed.antt =====
-- What init_lapic leaves in the registers, and where the interrupts that it lets through are handled.
use quaros.Base.{
  ℕ, ◌+◌, ◌*◌, ◌%◌, ◌^◌, ◌≡◌, inl, inr, refl, ◌∙◌, ◌==◌, if◌then◌else◌, arith, panic, done, List,
  [], ◌∷◌, subst, sym, Bool-cases, ap,
}
use quaros.Ram.{load32}
use quaros.Kernel.{Kernel}
use quaros.Trampoline.{irq_timer, irq_spurious, irq_err, vector_at, trampoline, on_timer}
use quaros.Device.{Bus}
use quaros.Device.Lapic.Registers.{
  IsLvt, lvt_cmci, lvt_timer, lvt_thermal, lvt_perf_mon_ctr, lvt_lint0, lvt_lint1, lvt_err,
  HasVector, local, spurious, IsPlain, plain_id, plain_task_pri, plain_eoi, plain_err_stat,
  plain_init_cnt, plain_dcr, LocalVector, entry_of, IsLapic,
}
use quaros.Device.Lapic.{
  lapic, la_id, la_siv, la_lvt_timer, la_lvt_perf_mon_ctr, la_lvt_lint0, la_lvt_lint1, la_lvt_err,
  la_enable, la_mask, la_err_stat, la_eoi, la_task_pri, la_dcr, la_init_cnt, write_lapic, eoi,
  init_lapic,
}

-- A write while the controller is enabled.
data Write : Type 0 where
  to_lvt : (r v : ℕ) → IsLvt r → Write
  to_plain : (r v : ℕ) → IsPlain r → Write

-- What becomes of the register `q`.
abbrev after : List Write → ℕ → LocalVector → LocalVector
after [] q e = e
after (to_lvt r v is_lvt ∷ ws) q e = after ws q (if r == q then entry_of v else e)
after (to_plain r v is_plain ∷ ws) q e = after ws q e

abbrev program : List Write
program =
    to_lvt la_lvt_lint0 la_mask lvt_lint0
    ∷ to_lvt la_lvt_lint1 la_mask lvt_lint1
    ∷ to_lvt la_lvt_perf_mon_ctr la_mask lvt_perf_mon_ctr
    ∷ to_lvt la_lvt_err irq_err lvt_err
    ∷ to_plain la_err_stat 0 plain_err_stat
    ∷ to_plain la_err_stat 0 plain_err_stat
    ∷ to_plain la_eoi 0 plain_eoi
    ∷ to_plain la_task_pri 0 plain_task_pri
    ∷ to_plain la_dcr 0xb plain_dcr
    ∷ to_lvt la_lvt_timer (2 ^ 17 + irq_timer) lvt_timer
    ∷ to_plain la_init_cnt 10000000 plain_init_cnt
    ∷ []

module _ {D : Type 0} (bus : Bus D) (entry : D → ℕ → LocalVector) (enabled : D → ℕ)
    (is : IsLapic bus entry enabled) where
  abbrev write_all : List Write → D → D
  write_all [] d = d
  write_all (to_lvt r v is_lvt ∷ ws) d = write_all ws (write_lapic bus r v d)
  write_all (to_plain r v is_plain ∷ ws) d = write_all ws (write_lapic bus r v d)

  lvt-entry :
      (d : D) (r v q : ℕ)
      → IsLvt r
      → HasVector q
      → enabled d ≡ 1
      → entry (write_lapic bus r v d) q ≡ (if r == q then entry_of v else entry d q)
  unfolding write_lapic
  lvt-entry d r v q is_lvt has on =
      let d' = bus.store (lapic + r * 4) v d in
      is.loaded_entry d' q has ∙ elim (Bool-cases (r == q)) [
        | inl eq ↦
            let same_register : r ≡ q = ground arith in
            subst (λ x. entry d' x ≡ entry_of v) same_register (is.lvt_self d r v is_lvt on)
            ∙ ground arith
        | inr ne ↦ is.lvt_other d r v q is_lvt has (λ e. ground arith) ∙ ground arith
      ]

  write_all-after :
      (ws : List Write) (d : D) (q : ℕ)
      → HasVector q
      → enabled d ≡ 1
      → (entry (write_all ws d) q ≡ after ws q (entry d q)) × (enabled (write_all ws d) ≡ 1)
  unfolding write_lapic
  write_all-after [] d q has on = (refl, on)
  write_all-after (to_lvt r v is_lvt ∷ ws) d q has on =
      let d' = write_lapic bus r v d in
      let on' : enabled d' ≡ 1 = is.loaded_enabled _ ∙ (is.lvt_enabled d r v is_lvt ∙ on) in
      let (value, still_on) = write_all-after ws d' q has on' in
      (value ∙ ap (after ws q) (lvt-entry d r v q is_lvt has on), still_on)
  write_all-after (to_plain r v is_plain ∷ ws) d q has on =
      let d' = write_lapic bus r v d in
      let on' : enabled d' ≡ 1 = is.loaded_enabled _ ∙ (is.plain_enabled d r v is_plain ∙ on) in
      let (value, still_on) = write_all-after ws d' q has on' in
      (
        value ∙ ap (after ws q) (is.loaded_entry _ q has ∙ is.plain_entry d r v q is_plain has),
        still_on,
      )

  -- The controller when the program starts.
  abbrev switched_on : D → D
  switched_on d = write_lapic bus la_siv (irq_spurious + la_enable) (write_lapic bus la_id 0 d)

  switched_on-enabled : (d : D) → enabled (switched_on d) ≡ 1
  unfolding write_lapic
  switched_on-enabled d = is.loaded_enabled _ ∙ is.siv_enabled _ (irq_spurious + la_enable)

  switched_on-lvt : (d : D) (q : ℕ) → IsLvt q → entry (switched_on d) q ≡ entry d q
  unfolding write_lapic
  switched_on-lvt d q is_lvt =
      is.loaded_entry _ q (local is_lvt)
      ∙ (is.siv_other _ (irq_spurious + la_enable) q is_lvt refl
          ∙ (is.loaded_entry _ q (local is_lvt)
              ∙ is.plain_entry d la_id 0 q plain_id (local is_lvt)))

  switched_on-spurious :
      (d : D) → entry (switched_on d) 0x3c ≡ record { masked = 0; vector = irq_spurious }
  unfolding write_lapic
  switched_on-spurious d =
      is.loaded_entry _ 0x3c spurious ∙ is.siv_self _ (irq_spurious + la_enable)

  init_lapic-write_all : (d : D) → init_lapic bus d ≡ write_all program (switched_on d)
  unfolding init_lapic eoi
  init_lapic-write_all d = refl

  init_lapic-lvt :
      (d : D) (q : ℕ) → IsLvt q → entry (init_lapic bus d) q ≡ after program q (entry d q)
  init_lapic-lvt d q is_lvt =
      ap (λ x. entry x q) (init_lapic-write_all d)
      ∙ ((write_all-after program (switched_on d) q (local is_lvt) (switched_on-enabled d)).0
          ∙ ap (after program q) (switched_on-lvt d q is_lvt))

  init_lapic-spurious :
      (d : D) → entry (init_lapic bus d) 0x3c ≡ record { masked = 0; vector = irq_spurious }
  init_lapic-spurious d =
      ap (λ x. entry x 0x3c) (init_lapic-write_all d)
      ∙ ((write_all-after program (switched_on d) 0x3c spurious (switched_on-enabled d)).0
          ∙ ap (after program 0x3c) (switched_on-spurious d))

  init_lapic-enabled : (d : D) → enabled (init_lapic bus d) ≡ 1
  init_lapic-enabled d =
      ap enabled (init_lapic-write_all d)
      ∙ (write_all-after program (switched_on d) 0x3c spurious (switched_on-enabled d)).1

module _ (site fuel frame esp status byte : ℕ) (k : Kernel) where
  -- What becomes of an interrupt from each register: the timer's is a tick, the controller's error
  -- panics, the spurious one is ignored, and the others do not occur.
  abbrev pub Handled : {r : ℕ} → HasVector r → Type 0
  Handled (local lvt_cmci) = ⊥
  Handled (local lvt_timer) =
      trampoline site fuel frame esp status byte k ≡ on_timer site fuel frame esp k
  Handled (local lvt_thermal) = ⊥
  Handled (local lvt_perf_mon_ctr) = ⊥
  Handled (local lvt_lint0) = ⊥
  Handled (local lvt_lint1) = ⊥
  Handled (local lvt_err) =
      trampoline site fuel frame esp status byte k ≡ panic "Internal error in lapic"
  Handled spurious = trampoline site fuel frame esp status byte k ≡ done (tt, k)

  handle :
      {r : ℕ} (has : HasVector r) (before now : LocalVector)
      → (IsLvt r → now ≡ after program r before)
      → (r ≡ 0x3c → now ≡ record { masked = 0; vector = irq_spurious })
      → (r ≡ 0xbc → before.masked ≡ 1)
      → (r ≡ 0xcc → before.masked ≡ 1)
      → now.masked ≡ 0
      → load32 k.machine.mem (frame + vector_at) % 256 ≡ now.vector
      → Handled has
  unfolding trampoline
  handle (local lvt_cmci) before now lvt siv cmci thermal unmasked number =
      let eq : now.masked ≡ before.masked = ap (λ e. e.masked) (lvt lvt_cmci) in
      absurd (omega (arith, unmasked, eq, cmci refl))
  handle (local lvt_thermal) before now lvt siv cmci thermal unmasked number =
      let eq : now.masked ≡ before.masked = ap (λ e. e.masked) (lvt lvt_thermal) in
      absurd (omega (arith, unmasked, eq, thermal refl))
  handle (local lvt_perf_mon_ctr) before now lvt siv cmci thermal unmasked number =
      let eq : now.masked ≡ 1 = ap (λ e. e.masked) (lvt lvt_perf_mon_ctr) in
      absurd (omega (arith, unmasked, eq))
  handle (local lvt_lint0) before now lvt siv cmci thermal unmasked number =
      let eq : now.masked ≡ 1 = ap (λ e. e.masked) (lvt lvt_lint0) in
      absurd (omega (arith, unmasked, eq))
  handle (local lvt_lint1) before now lvt siv cmci thermal unmasked number =
      let eq : now.masked ≡ 1 = ap (λ e. e.masked) (lvt lvt_lint1) in
      absurd (omega (arith, unmasked, eq))
  handle (local lvt_timer) before now lvt siv cmci thermal unmasked number =
      rw (number ∙ ap (λ e. e.vector) (lvt lvt_timer)) refl
  handle (local lvt_err) before now lvt siv cmci thermal unmasked number =
      rw (number ∙ ap (λ e. e.vector) (lvt lvt_err)) refl
  handle spurious before now lvt siv cmci thermal unmasked number =
      rw (number ∙ ap (λ e. e.vector) (siv refl)) refl

-- For a local controller that keeps the documented rules, with the thermal and the CMCI vectors
-- masked before, as after a reset, init_lapic leaves it enabled, with the timer and the error not
-- masked. An interrupt with the vector of a register that does not mask it is handled by
-- trampoline as that register's: the timer's as a tick, the error's with its panic, the spurious
-- one by doing nothing; no other register lets one through.
pub init_lapic-Handled :
    {D : Type 0} (bus : Bus D) (entry : D → ℕ → LocalVector) (enabled : D → ℕ) (d : D)
    (r site fuel frame esp status byte : ℕ) (k : Kernel)
    → IsLapic bus entry enabled
    → (entry d 0xbc).masked ≡ 1
    → (entry d 0xcc).masked ≡ 1
    → (has : HasVector r) → (entry (init_lapic bus d) r).masked ≡ 0
    → load32 k.machine.mem (frame + vector_at) % 256 ≡ (entry (init_lapic bus d) r).vector
    → (enabled (init_lapic bus d) ≡ 1)
      × ((entry (init_lapic bus d) 0xc8).masked ≡ 0)
      × ((entry (init_lapic bus d) 0xdc).masked ≡ 0)
      × Handled site fuel frame esp status byte k has
init_lapic-Handled bus entry enabled d r site fuel frame esp status byte k is cmci thermal has
      unmasked number =
    (
      init_lapic-enabled bus entry enabled is d,
      ap (λ e. e.masked) (init_lapic-lvt bus entry enabled is d 0xc8 lvt_timer),
      ap (λ e. e.masked) (init_lapic-lvt bus entry enabled is d 0xdc lvt_err),
      handle site fuel frame esp status byte k has (entry d r) (entry (init_lapic bus d) r)
          (λ is_lvt. init_lapic-lvt bus entry enabled is d r is_lvt)
          (λ e.
            subst (λ q. entry (init_lapic bus d) q ≡ record { masked = 0; vector = irq_spurious })
              (sym e) (init_lapic-spurious bus entry enabled is d))
          (λ e. subst (λ q. (entry d q).masked ≡ 1) (sym e) cmci)
          (λ e. subst (λ q. (entry d q).masked ≡ 1) (sym e) thermal) unmasked number,
    )
