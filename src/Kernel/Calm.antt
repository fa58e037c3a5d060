-- ===== src/Kernel/Calm.antt =====
-- Kernel code that leaves alone who runs: the current task, and the states of all tasks.
pub mod Files
pub mod Open
pub mod Execv
use quaros.Base.{
  ℕ, ◌≡◌, refl, ap, subst, sym, ◌∙◌, Bool, true, false, Option, none, some, Outcome, done, panic,
  fault, out_of_fuel, M, and_then, and_then-done, done-state, pure, ◌>>=◌, arith, ◌==◌,
  if◌then◌else◌, Bool-cases, inl, inr,
}
use Prim.Native.String.{String}
use quaros.PageAlloc.{Machine}
use quaros.Fs.{update}
use quaros.Kernel.{Kernel, Task, running}
use quaros.Kernel.Proc.{is_running, on_machine, modify_task}
use quaros.Kernel.Sched.{IsScheduled}

pub record Calm (k k' : Kernel) : Type 0 where
  pub curr : k'.curr ≡ k.curr
  pub states : (i : ℕ) → (k'.tasks i).state ≡ (k.tasks i).state

pub Calm-IsScheduled : (k k' : Kernel) → Calm k k' → IsScheduled k → IsScheduled k'
Calm-IsScheduled k k' c s = record {
  runs = rw c.curr (c.states k.curr ∙ s.runs);
  alone = λ i ne. rw (c.states i) (s.alone i (rw c.curr at ne));
}

-- Wherever the outcome is a state, it is a calm one.
abbrev pub CalmAt : {A : Type 0} → Kernel → Outcome (A × Kernel) → Type 0
CalmAt {A} k o = (a : A) (k' : Kernel) → o ≡ done (a, k') → Calm k k'

abbrev pub Calms : {A : Type 0} → M Kernel A → Type 0
Calms m = (k : Kernel) → CalmAt k (m k)

Calm-trans : (k k' k'' : Kernel) → Calm k k' → Calm k' k'' → Calm k k''
Calm-trans k k' k'' p q = record { curr = q.curr ∙ p.curr; states = λ i. q.states i ∙ p.states i }

module _ {A : Type 0} (k : Kernel) where
  pub done-CalmAt : (a : A) (k' : Kernel) → Calm k k' → CalmAt k (done (a, k'))
  done-CalmAt a k' c b k'' e = subst (Calm k) (done-state a b k' k'' e) c

  pub fault-CalmAt : CalmAt {A = A} k fault
  fault-CalmAt b k'' e = cc

  pub panic-CalmAt : (msg : String) → CalmAt {A = A} k (panic msg)
  panic-CalmAt msg b k'' e = cc

  pub if-CalmAt :
      (c : Bool) (x y : Outcome (A × Kernel))
      → CalmAt k x
      → CalmAt k y
      → CalmAt k (if c then x else y)
  if-CalmAt true x y p q = p
  if-CalmAt false x y p q = q

  pub option-CalmAt :
      {B : Type 0} (c : Option B) (x : Outcome (A × Kernel)) (y : B → Outcome (A × Kernel))
      → CalmAt k x
      → ((b : B) → CalmAt k (y b))
      → CalmAt k (elim c [ none ↦ x | some b ↦ y b ])
  option-CalmAt none x y p q = p
  option-CalmAt (some b) x y p q = q b

  -- after code over a part of the state
  pub inner-CalmAt :
      {S B : Type 0} (o : Outcome (B × S)) (f : B → S → Outcome (A × Kernel))
      → ((b : B) (s : S) → CalmAt k (f b s))
      → CalmAt k (and_then o f)
  inner-CalmAt (done (b, s)) f p a k' e = p b s a k' e
  inner-CalmAt (panic msg) f p a k' e = cc
  inner-CalmAt fault f p a k' e = cc
  inner-CalmAt out_of_fuel f p a k' e = cc

  pub and_then-CalmAt :
      {B : Type 0} (o : Outcome (B × Kernel)) (f : B → M Kernel A)
      → CalmAt k o
      → ((b : B) → Calms (f b))
      → CalmAt k (and_then o f)
  and_then-CalmAt o f p q a k' e =
      let (b, k₁, ran, rest) = and_then-done o f (a, k') e in
      Calm-trans k k₁ k' (p b k₁ ran) (q b k₁ a k' rest)

-- a change to other parts of the state
pub Calm-same : (k k' : Kernel) → k'.tasks ≡ k.tasks → k'.curr ≡ k.curr → Calm k k'
Calm-same k k' e c = record { curr = c; states = λ i. ap (λ (t : ℕ → Task). (t i).state) e }

pub on_machine-Calms : {A : Type 0} (m : M Machine A) → Calms (on_machine m)
on_machine-Calms m k = inner-CalmAt k (m k.machine) _ (λ a h.
    done-CalmAt k a (record k { machine = h }) (Calm-same k (record k { machine = h }) refl refl))

pub modify_task-Calms :
    (i : ℕ) (f : Task → Task) → ((t : Task) → (f t).state ≡ t.state) → Calms (modify_task i f)
modify_task-Calms i f same k =
    done-CalmAt k tt (record k { tasks = update k.tasks i (f (k.tasks i)) })
      (record { curr = refl; states = λ j. ground (arith, same (k.tasks i)) })

pub pure-Calms : {A : Type 0} (a : A) → Calms (pure a)
pure-Calms a k = done-CalmAt k a k (Calm-same k k refl refl)

pub option-Calms :
    {A B : Type 0} (c : Option B) (x : M Kernel A) (y : B → M Kernel A)
    → Calms x
    → ((b : B) → Calms (y b))
    → Calms (elim c [ none ↦ x | some b ↦ y b ])
option-Calms none x y p q = p
option-Calms (some b) x y p q = q b

pub bool-Calms :
    {A : Type 0} (c : Bool) (x y : M Kernel A)
    → Calms x
    → Calms y
    → Calms (elim c [ true ↦ x | false ↦ y ])
bool-Calms true x y p q = p
bool-Calms false x y p q = q

-- one after the other
pub bind-Calms :
    {A B : Type 0} (m : M Kernel A) (f : A → M Kernel B)
    → Calms m
    → ((a : A) → Calms (f a))
    → Calms (m >>= f)
bind-Calms m f p q k = and_then-CalmAt k (m k) f (p k) q

pub if-Calms :
    {A : Type 0} (c : Bool) (x y : M Kernel A) → Calms x → Calms y → Calms (if c then x else y)
if-Calms true x y p q = p
if-Calms false x y p q = q
