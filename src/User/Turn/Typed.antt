-- ===== src/User/Turn/Typed.antt =====
-- A typed line as a list, and what it means that it stands in memory.
use quaros.Base.{
  ℕ, zero, suc, ◌+◌, ◌<◌, ◌≡◌, ◌≢◌, refl, ap, subst, ◌∙◌, List, [], ◌∷◌, ◌++◌, length,
  length-append, length-replicate, replicate, All, arith,
}
use quaros.Ram.{Mem}
use quaros.Shell.Tokens.{Word, Line}
use quaros.User.Line.{At}

-- The words with as many spaces behind them.
abbrev pub rendered : List (List ℕ × ℕ) → List ℕ
rendered [] = []
rendered ((w, k) ∷ ws) = w ++ (replicate k b' ' ++ rendered ws)

abbrev pub IsLetter : ℕ → Type 0
IsLetter c = (c ≢ 0) × (c ≢ 32) × (c ≢ 10) × (c < 256)

-- Words of letters, not empty, with spaces between each two.
abbrev pub AreWords : List (List ℕ × ℕ) → Type 0
AreWords [] = Unit {0}
AreWords ((w, zero) ∷ ws) = (0 < length w) × All IsLetter w × (ws ≡ [])
AreWords ((w, suc k) ∷ ws) = (0 < length w) × All IsLetter w × AreWords ws

pub At-append :
    (m : Mem) (a : ℕ) (xs ys : List ℕ) → At m a (xs ++ ys) → At m a xs × At m (a + length xs) ys
At-append m a [] ys h = (tt, subst (λ b. At m b ys) (omega arith) h)
At-append m a (x ∷ xs) ys h =
    let (front, back) = At-append m (a + 1) xs ys h.1 in
    ((h.0, front), subst (λ b. At m b ys) (omega arith) back)

At-Word : (m : Mem) (a : ℕ) (w : List ℕ) → All IsLetter w → At m a w → Word m a w
At-Word m a [] letters h = tt
At-Word m a (c ∷ w) letters h =
    (h.0 ∙ omega (arith, letters.0.3), letters.0.0, letters.0.1, At-Word m (a + 1) w letters.1 h.1)

pub At-spaces : (m : Mem) (a k i : ℕ) → At m a (replicate k b' ') → i < k → m (a + i) ≡ 32
At-spaces m a zero i h lt = absurd (omega arith)
At-spaces m a (suc k) zero h lt = ap m (omega arith) ∙ h.0
At-spaces m a (suc k) (suc i) h lt = ap m (omega arith) ∙ At-spaces m (a + 1) k i h.1 (omega arith)

pub rendered-Line :
    (m : Mem) (p e : ℕ) (ws : List (List ℕ × ℕ))
    → AreWords ws
    → At m p (rendered ws)
    → p + length (rendered ws) ≡ e
    → Line m p e ws
rendered-Line m p e [] words h at_end = omega arith
rendered-Line m p e ((w, zero) ∷ (x ∷ ws)) words h at_end = (let stuck = words.2 in cc)
rendered-Line m p e ((w, zero) ∷ []) words h at_end =
    let (front, _) = At-append m p w [] h in
    (words.0, At-Word m p w words.1 front, omega (arith, length-append {0} w [], at_end), refl)
rendered-Line m p e ((w, suc k) ∷ ws) words h at_end =
    let spaces = replicate (suc k) b' ' in
    let (front, back) = At-append m p w (spaces ++ rendered ws) h in
    let (gap, others) = At-append m (p + length w) spaces (rendered ws) back in
    let gap_length : length spaces ≡ suc k = length-replicate (suc k) b' ' in
    let total : length (w ++ (spaces ++ rendered ws))
        ≡ length w + (length spaces + length (rendered ws)) =
      length-append w (spaces ++ rendered ws)
      ∙ ap (λ n. length w + n) (length-append spaces (rendered ws)) in
    let next = subst (λ n. At m (p + length w + n) (rendered ws)) gap_length others in
    (
      words.0,
      At-Word m p w words.1 front,
      λ i lt. At-spaces m (p + length w) (suc k) i gap lt,
      omega (arith, total, gap_length, at_end),
      rendered-Line m (p + length w + suc k) e ws words.2 next
          (omega (arith, total, gap_length, at_end)),
    )
