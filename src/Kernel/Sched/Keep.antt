-- ===== src/Kernel/Sched/Keep.antt =====
-- Operations that change one task only.
use quaros.Base.{
  ℕ, ◌≡◌, ◌≢◌, refl, ◌∙◌, subst, done, ◌>>◌, ◌>>=◌, and_then-done, done-state, M, arith,
}
use quaros.PageAlloc.{Machine}
use quaros.Kernel.{Kernel, Task, unused}
use quaros.Kernel.Proc.{on_machine, modify_task}

-- From `k` to `k'` no task but `i` has changed, nor who runs; if `i` was unused it still is.
pub record Keeps (i : ℕ) (k k' : Kernel) : Type 0 where
  pub others : (j : ℕ) → j ≢ i → k'.tasks j ≡ k.tasks j
  pub curr : k'.curr ≡ k.curr
  pub still : (k.tasks i).state ≡ unused → (k'.tasks i).state ≡ unused

pub Keeps-trans : (i : ℕ) (k k' k'' : Kernel) → Keeps i k k' → Keeps i k' k'' → Keeps i k k''
Keeps-trans i k k' k'' p q = record {
  others = λ j ne. q.others j ne ∙ p.others j ne;
  curr = q.curr ∙ p.curr;
  still = λ u. q.still (p.still u);
}

abbrev pub Keeping : {A : Type 0} → ℕ → M Kernel A → Type 0
Keeping {A} i m = (k k' : Kernel) (a : A) → m k ≡ done (a, k') → Keeps i k k'

pub Keeping-then :
    {A : Type 0} (i : ℕ) (m : M Kernel (Unit {0})) (n : M Kernel A)
    → Keeping i m
    → Keeping i n
    → Keeping i (m >> n)
Keeping-then i m n p q k k' a e =
    let (_, k₁, ran, rest) = and_then-done (m k) (λ _. n) (a, k') e in
    Keeps-trans i k k₁ k' (p k k₁ tt ran) (q k₁ k' a rest)

pub Keeping-bind :
    {A B : Type 0} (i : ℕ) (m : M Kernel A) (n : A → M Kernel B)
    → Keeping i m
    → ((a : A) → Keeping i (n a))
    → Keeping i (m >>= n)
Keeping-bind i m n p q k k' b e =
    let (a, k₁, ran, rest) = and_then-done (m k) n (b, k') e in
    Keeps-trans i k k₁ k' (p k k₁ a ran) (q a k₁ k' b rest)

pub Keeping-machine : {A : Type 0} (i : ℕ) (m : M Machine A) → Keeping i (on_machine m)
Keeping-machine i m k k' a e =
    let (b, h, _, rest) =
      and_then-done (m k.machine) (λ b h. done (b, record k { machine = h })) (a, k') e in
    subst (λ (x : Kernel). Keeps i k x) (done-state b a (record k { machine = h }) k' rest)
      (record { others = λ j ne. refl; curr = refl; still = λ u. u })

pub Keeping-modify :
    (i : ℕ) (f : Task → Task)
    → ((t : Task) → t.state ≡ unused → (f t).state ≡ unused)
    → Keeping i (modify_task i f)
Keeping-modify i f same k k' a e =
    subst (λ (x : Kernel). Keeps i k x) (done-state tt a _ k' e)
      (record {
        others = λ j ne. ground arith;
        curr = refl;
        still = λ u. ground (arith, same (k.tasks i));
      })
