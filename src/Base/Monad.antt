-- ===== src/Base/Monad.antt =====
-- What a run of kernel code ends in, and code over a state as a monad.
use Prim.Native.String.{String}
use mathlib.Core.Path.{◌≡◌, refl}

-- `panic` is the kernel's `panic(msg)`: it prints and halts with interrupts off, so nothing
-- runs after it. `fault` is an access that the C leaves undefined. `out_of_fuel` is no outcome of
-- the program: the fuel of a modelled loop was too small.
pub data Outcome {ℓ} (A : Type ℓ) : Type ℓ where
  done : A → Outcome A
  panic : String → Outcome A
  fault : Outcome A
  out_of_fuel : Outcome A

abbrev pub M {ℓ κ} : Type ℓ → Type κ → Type (ℓ ⊔ κ)
M S A = S → Outcome (A × S)

module _ {ℓ κ} {S : Type ℓ} {A : Type κ} where
  abbrev pub pure : A → M S A
  pure a s = done (a, s)

  abbrev pub and_then {μ} : {B : Type μ} → Outcome (A × S) → (A → S → Outcome B) → Outcome B
  and_then (done (a, s)) f = f a s
  and_then (panic msg) f = panic msg
  and_then fault f = fault
  and_then out_of_fuel f = out_of_fuel

  infixl 5 ◌>>=◌ ◌>>◌
  abbrev pub ◌>>=◌ {μ} : {B : Type μ} → M S A → (A → M S B) → M S B
  ◌>>=◌ m f s = and_then (m s) f

  abbrev pub ◌>>◌ {μ} : {B : Type μ} → M S A → M S B → M S B
  ◌>>◌ m k s = and_then (m s) (λ _. k)

  abbrev pub stop : String → M S A
  stop msg s = panic msg

-- A run that ends well has gone through each of its parts.
pub and_then-done {ℓ κ μ} :
    {S : Type ℓ} {A : Type κ} {B : Type μ} (m : Outcome (A × S)) (f : A → S → Outcome B) (b : B)
    → and_then m f ≡ done b
    → (a : A) × (s : S) × (m ≡ done (a, s)) × (f a s ≡ done b)
and_then-done (done (a, s)) f b e = (a, s, refl, e)
and_then-done (panic msg) f b e = cc
and_then-done fault f b e = cc
and_then-done out_of_fuel f b e = cc

pub done-state {ℓ κ} :
    {S : Type ℓ} {A : Type κ} (a a' : A) (s s' : S)
    → ◌≡◌ {A = Outcome (A × S)} (done (a, s)) (done (a', s'))
    → s ≡ s'
done-state a a' s s' e = cc
