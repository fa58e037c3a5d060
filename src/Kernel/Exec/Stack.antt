-- ===== src/Kernel/Exec/Stack.antt =====
-- How much of the first page `prepare_ustack` of sys_proc.c uses.
use quaros.Base.{
  ℕ, zero, suc, ◌+◌, ◌-◌, ◌*◌, ◌/◌, ◌%◌, ◌^◌, ◌≤◌, ◌<◌, ◌≡◌, refl, subst, Bool, true, false, Option,
  none, some, List, [], ◌∷◌, length, All, Outcome, done, M, pure, and_then-done, ◌>>=◌, ltb, ◌==◌,
  if◌then◌else◌, arith,
}
use quaros.PageAlloc.{Machine, pgsize}
use quaros.Paging.Virtual.{put_word}
use quaros.Kernel.{Kernel}
use quaros.Kernel.Proc.{on_machine}
use quaros.Kernel.User.{user_word, user_string}
use quaros.Kernel.Exec.{max_argc, sub, push_args, push_pointers, push_main, prepare_ustack}

-- Whatever a run ends with has the property.
abbrev Gives : {S A : Type 0} → (A → Type 0) → M S A → Type 0
Gives {S} {A} P m = (a : A) (s s' : S) → m s ≡ done (a, s') → P a

done-value :
    {S A : Type 0} (a b : A) (s s' : S)
    → ◌≡◌ {A = Outcome (A × S)} (done (a, s)) (done (b, s'))
    → a ≡ b
done-value a b s s' e = cc

pure-Gives : {S A : Type 0} (P : A → Type 0) (a : A) → P a → Gives {S = S} P (pure a)
pure-Gives P a h b s s' e = subst P (done-value a b s s' e) h

bind-Gives :
    {S A B : Type 0} (Q : A → Type 0) (P : B → Type 0) (m : M S A) (f : A → M S B)
    → Gives Q m
    → ((a : A) → Q a → Gives P (f a))
    → Gives P (m >>= f)
bind-Gives Q P m f h hf b s s' e =
    let (a, s₁, ran, more) = and_then-done (m s) f (b, s') e in hf a (h a s s₁ ran) b s₁ s' more

after-Gives :
    {S A B : Type 0} (P : B → Type 0) (m : M S A) (f : A → M S B)
    → ((a : A) → Gives P (f a))
    → Gives P (m >>= f)
after-Gives P m f hf = bind-Gives (λ a. Unit {0}) P m f (λ a s s' e. tt) (λ a _. hf a)

bool-Gives :
    {S A : Type 0} (P : A → Type 0) (b : Bool) (m n : M S A)
    → (b ≡ true → Gives P m)
    → (b ≡ false → Gives P n)
    → Gives P (elim b [ true ↦ m | false ↦ n ])
bool-Gives P true m n hm hn = hm refl
bool-Gives P false m n hm hn = hn refl

if-Gives :
    {S A : Type 0} (P : A → Type 0) (b : Bool) (m n : M S A)
    → Gives P m
    → Gives P n
    → Gives P (λ s. (if b then m else n) s)
if-Gives P true m n hm hn = hm
if-Gives P false m n hm hn = hn

option-Gives :
    {S A B : Type 0} (P : A → Type 0) (c : Option B) (x : M S A) (y : B → M S A)
    → Gives P x
    → ((b : B) → Gives P (y b))
    → Gives P (elim c [ none ↦ x | some b ↦ y b ])
option-Gives P none x y hx hy = hx
option-Gives P (some b) x y hx hy = hy b

-- What the first loop gives: `rounds` strings at most have been put below `esp`, each of at most 170
-- characters and its terminator; those are on the stack.
abbrev Pushed : ℕ → ℕ → List ℕ → Option (ℕ × List ℕ) → Type 0
Pushed esp rounds ps none = Unit {0}
Pushed esp rounds ps (some r) =
    (r.0 ≤ esp)
    × (esp ≤ r.0 + rounds * 171)
    × All (λ p. (r.0 ≤ p) × (p < 4088)) r.1
    × (length r.1 ≤ length ps + rounds)

lower :
    (a b : ℕ) (ps : List ℕ)
    → b ≤ a
    → All (λ p. (a ≤ p) × (p < 4088)) ps
    → All (λ p. (b ≤ p) × (p < 4088)) ps
lower a b [] le h = tt
lower a b (p ∷ ps) le h = ((omega (arith, h.0), h.0.1), lower a b ps le h.1)

Pushed-one :
    (esp e rounds : ℕ) (ps : List ℕ) (r : Option (ℕ × List ℕ))
    → e < esp
    → esp ≤ e + 171
    → Pushed e rounds (e ∷ ps) r
    → Pushed esp (suc rounds) ps r
Pushed-one esp e rounds ps none lt le h = tt
Pushed-one esp e rounds ps (some r) lt le h =
    (omega (arith, h.0), omega (arith, h.1), h.2, omega (arith, h.3))

push_args-Pushed :
    (fuel rounds pgdir argv esp : ℕ) (ps : List ℕ)
    → rounds * 171 ≤ esp
    → esp ≤ 4088
    → All (λ p. (esp ≤ p) × (p < 4088)) ps
    → Gives (Pushed esp rounds ps) (push_args fuel rounds pgdir argv esp ps)
unfolding push_args
push_args-Pushed fuel zero pgdir argv esp ps room le h =
    pure-Gives (Pushed esp 0 ps) (some (esp, ps)) (omega arith, omega arith, h, omega arith)
push_args-Pushed fuel (suc rounds) pgdir argv esp ps room le h =
    let P = Pushed esp (suc rounds) ps in
    let stopped =
      pure-Gives {S = Kernel} P (some (esp, ps)) (omega arith, omega arith, h, omega arith) in
    after-Gives P (user_word argv) _ (λ got. option-Gives P got _ _ (pure-Gives P none tt) (λ arg.
      bool-Gives P (arg == 0) _ _ (λ _. stopped)
        (λ _. after-Gives P (user_string fuel arg) _ (λ s.
          bool-Gives P (ltb (pgsize / 3 / max_argc) (length s)) _ _ (λ _. stopped)
            (λ fits. after-Gives P _ _ (λ _.
              let len : length s ≤ 170 = ground (arith, fits) in
              let e = sub esp (length s + 1) in
              let placed : e + (length s + 1) ≡ esp = omega arith in
              λ r k k' ran.
                Pushed-one esp e rounds ps r (omega (arith, placed)) (omega (arith, placed)) (
                  push_args-Pushed fuel rounds pgdir ((argv + 4) % 2 ^ 32) e (e ∷ ps)
                    (omega (arith, placed)) (omega (arith, placed))
                    ((omega arith, omega (arith, placed)), lower esp e ps (omega (arith, placed)) h)
                    r k k' ran)))))))

-- The second loop takes four bytes for each pointer.
push_pointers-length :
    (pgdir esp : ℕ) (ps : List ℕ)
    → length ps * 4 ≤ esp
    → esp < 2 ^ 32
    → Gives (λ e. e + length ps * 4 ≡ esp) (push_pointers pgdir esp ps)
unfolding push_pointers
push_pointers-length pgdir esp [] room small = pure-Gives (λ e. e + 0 * 4 ≡ esp) esp (omega arith)
push_pointers-length pgdir esp (p ∷ ps) room small =
    let P = λ (e : ℕ). e + suc (length ps) * 4 ≡ esp in
    let next : sub esp 4 + 4 ≡ esp = omega arith in
    after-Gives P (put_word pgdir esp p) _ (λ _ e h h' ran. omega (
      arith,
      next,
      push_pointers-length pgdir (sub esp 4) ps (omega (arith, next)) (omega (arith, next)) e h h'
          ran,
    ))

-- The stack pointer is below the pointers, `argv` and `argc`.
abbrev Main : ℕ → List ℕ → ℕ → Type 0
Main esp ps e = (e + length ps * 4 + 12 ≤ esp) × (esp ≤ e + length ps * 4 + 15) × (e % 4 ≡ 0)

push_main-room :
    (pgdir esp : ℕ) (ps : List ℕ)
    → length ps * 4 + 16 ≤ esp
    → esp < 2 ^ 32
    → Gives (Main esp ps) (push_main pgdir esp ps)
unfolding push_main
push_main-room pgdir esp ps room small =
    let P = Main esp ps in
    let top : sub esp 4 ≡ esp - 4 = omega arith in
    let from = sub esp 4 / 4 * 4 in
    bind-Gives (λ e. e + length ps * 4 ≡ from) P (push_pointers pgdir from ps) _
      (push_pointers-length pgdir from ps (omega (arith, top)) (omega (arith, top)))
      (λ e placed. after-Gives P (put_word pgdir e ((e + 4) % 2 ^ 32)) _ (λ _.
        after-Gives P (put_word pgdir (sub e 4) (length ps)) _ (λ _.
          let last : sub e 8 + 8 ≡ e = omega (arith, placed, top) in
          pure-Gives P (sub e 8) (
            omega (arith, placed, top, last),
            omega (arith, placed, top, last),
            omega (arith, placed, last),
          ))))

-- The new stack pointer, if there is one.
abbrev pub InPage : Option ℕ → Type 0
InPage none = Unit {0}
InPage (some e) = (2672 ≤ e) × (e < 4088) × (e % 4 ≡ 0)

on_machine-Gives :
    {A : Type 0} (P : A → Type 0) (m : M Machine A) → Gives P m → Gives P (on_machine m)
on_machine-Gives P m h a k k' e =
    let (b, h₁, ran, same) =
      and_then-done (m k.machine) (λ b h₁. done (b, record k { machine = h₁ })) (a, k') e in
    subst P (done-value b a _ _ same) (h b k.machine h₁ ran)

-- what `prepare_ustack` does after the first loop
main_after :
    (pgdir : ℕ) (r : Option (ℕ × List ℕ))
    → Pushed (pgsize - 8) max_argc [] r
    → Gives {S = Kernel} InPage (elim r [
      | none ↦ pure none
      | some t ↦ on_machine (push_main pgdir t.0 t.1) >>= λ esp'. pure (some esp')
    ])
main_after pgdir none pushed = pure-Gives InPage none tt
main_after pgdir (some t) pushed =
    bind-Gives (Main t.0 t.1) InPage (on_machine (push_main pgdir t.0 t.1)) _
      (on_machine-Gives (Main t.0 t.1) (push_main pgdir t.0 t.1)
        (push_main-room pgdir t.0 t.1 (omega (arith, pushed)) (omega (arith, pushed))))
      (λ e placed.
        pure-Gives InPage (some e)
          (omega (arith, placed, pushed), omega (arith, placed, pushed), placed.2))

-- Whenever prepare_ustack succeeds on the stack that sys_execv gives it, whatever the arguments
-- are, the new stack pointer is a multiple of 4 at least 2672 and below 4088: the stack has not
-- left the first page.
pub prepare_ustack-InPage :
    (fuel pgdir argv : ℕ) (k k' : Kernel) (got : Option ℕ)
    → prepare_ustack fuel pgdir (pgsize - 8) argv k ≡ done (got, k')
    → InPage got
unfolding prepare_ustack
prepare_ustack-InPage fuel pgdir argv k k' got ran =
    if-Gives InPage (argv == 0) _ _
      (after-Gives InPage (on_machine (put_word pgdir (pgsize - 8) 0)) _
        (λ _. pure-Gives InPage (some (sub (pgsize - 8) 4)) (omega arith, omega arith, refl)))
      (bind-Gives (Pushed (pgsize - 8) max_argc []) InPage
        (push_args fuel max_argc pgdir argv (pgsize - 8) []) _
        (push_args-Pushed fuel max_argc pgdir argv (pgsize - 8) [] (omega arith) (omega arith) tt)
        (main_after pgdir))
      got k k' ran
