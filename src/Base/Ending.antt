-- ===== src/Base/Ending.antt =====
-- Code that never runs out of the fuel of its model.
use mathlib.Core.Path.{refl}
use mathlib.Core.Logic.{◌≢◌}
use quaros.Base.Monad.{Outcome, done, panic, fault, out_of_fuel, M, and_then}

abbrev pub Ends {ℓ κ} : {S : Type ℓ} {A : Type κ} → M S A → Type (ℓ ⊔ κ)
Ends m = (s : _) → m s ≢ out_of_fuel

pub and_then-Ends {ℓ κ μ} :
    {S : Type ℓ} {A : Type κ} {B : Type μ} (m : Outcome (A × S)) (f : A → S → Outcome B)
    → m ≢ out_of_fuel
    → ((a : A) (s : S) → f a s ≢ out_of_fuel)
    → and_then m f ≢ out_of_fuel
and_then-Ends (done (a, s)) f hm hf = hf a s
and_then-Ends (panic msg) f hm hf = λ e. cc
and_then-Ends fault f hm hf = λ e. cc
and_then-Ends out_of_fuel f hm hf = λ e. hm refl
