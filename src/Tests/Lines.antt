-- ===== src/Tests/Lines.antt =====
-- The shell's tokens at a concrete input.
use quaros.Base.{
  ℕ, ◌+◌, ◌-◌, ◌<◌, ◌≡◌, ◌≢◌, ◌⊎◌, refl, List, [], ◌∷◌, zero, suc, get_or, some, arith, ltb,
  if◌then◌else◌,
}
use quaros.Ram.{Mem}
use quaros.Shell.{tokenize}
use quaros.Shell.Tokens.{Tokens, tokenize-Tokens}

-- The line ` ls  a` at 0x100.
abbrev typed : Mem
typed a =
    if ltb a 0x100 then 0 else get_or (b' ' ∷ b'l' ∷ b's' ∷ b' ' ∷ b' ' ∷ b'a' ∷ []) (a - 0x100) 0

typed-full : (i : ℕ) → i < 6 → typed (0x100 + i) ≢ 0
typed-full zero lt e = cc
typed-full (suc zero) lt e = cc
typed-full (suc (suc zero)) lt e = cc
typed-full (suc (suc (suc zero))) lt e = cc
typed-full (suc (suc (suc (suc zero)))) lt e = cc
typed-full (suc (suc (suc (suc (suc zero))))) lt e = cc
typed-full (suc (suc (suc (suc (suc (suc i)))))) lt e = absurd (omega arith)

first_space : (i : ℕ) → i < 1 → typed (0x100 + i) ≡ 32
first_space zero lt = refl
first_space (suc i) lt = absurd (omega arith)

between : (i : ℕ) → i < 2 → typed (0x101 + 2 + i) ≡ 32
between zero lt = refl
between (suc zero) lt = refl
between (suc (suc i)) lt = absurd (omega arith)

tokenize-Tokens_example :
    (ts : List ℕ) × (m' : Mem) × (tokenize 10 0x100 typed ≡ some (2, ts, m'))
    × Tokens m' ts ((b'l' ∷ b's' ∷ [], 2) ∷ (b'a' ∷ [], 0) ∷ [])
    × ((x : ℕ) → (x < 0x100) ⊎ (0x100 + 6 < x) → m' x ≡ typed x)
tokenize-Tokens_example =
    tokenize-Tokens 10 0x100 6 1 typed ((b'l' ∷ b's' ∷ [], 2) ∷ (b'a' ∷ [], 0) ∷ []) first_space
      (omega arith)
      (
        omega arith,
        (refl, (λ e. cc), (λ e. cc), (refl, (λ e. cc), (λ e. cc), tt)),
        between,
        omega arith,
        (omega arith, (refl, (λ e. cc), (λ e. cc), tt), refl, refl),
      )
      typed-full refl (λ e. cc) (omega arith) (omega arith)
