-- ===== src/User/Line.antt =====
-- What `read_line` reads, and the user programs' `strcpy`.
use quaros.Base.{
  ℕ, zero, suc, ◌+◌, ◌-◌, ◌%◌, ◌≤◌, ◌<◌, ◌≡◌, ◌≢◌, ◌⊎◌, inl, inr, refl, ap, subst, ◌∙◌, true, false,
  none, some, List, [], ◌∷◌, length, done, ltb, ◌==◌, arith,
}
use quaros.Ram.{Mem, store8, store8_self, store8-other}
use quaros.Str.Text.{Text, Text-same}
use quaros.User.{Sys, is_char, read_line, user_strcpy}

-- The bytes `cs` stand at `a`.
abbrev pub At : Mem → ℕ → List ℕ → Type 0
At m a [] = Unit {0}
At m a (c ∷ cs) = (m a ≡ c % 256) × At m (a + 1) cs

-- The bytes `cs` have been stored from `a` on, and no others.
pub record Stored (m : Mem) (a : ℕ) (cs : List ℕ) (m' : Mem) : Type 0 where
  pub inside : At m' a cs
  pub outside : (x : ℕ) → (x < a) ⊎ (a + length cs ≤ x) → m' x ≡ m x

-- No character but the last is a newline, and the last is one or there are `size`.
abbrev pub IsLine : ℕ → List ℕ → Type 0
IsLine size [] = size ≡ 0
IsLine size (c ∷ []) = (c % 256 ≡ 10) ⊎ ((c % 256 ≢ 10) × (size ≡ 1))
IsLine size (c ∷ d ∷ cs) = (c % 256 ≢ 10) × IsLine (size - 1) (d ∷ cs)

module _ {S : Type 0} (sys : Sys S) where
  -- Single reads from `fd` give these characters, `n` reads in all, between which others may give
  -- nothing or fail.
  pub data Delivers (fd : ℕ) : ℕ → List ℕ → S → S → Type 0 where
    over : {s : S} → Delivers fd 0 [] s s
    idle :
        {n c : ℕ} {cs : List ℕ} {s s₁ s₂ : S}
        → is_char (sys.read fd 1 s).0 ≡ none
        → (sys.read fd 1 s).1 ≡ s₁
        → Delivers fd n (c ∷ cs) s₁ s₂
        → Delivers fd (suc n) (c ∷ cs) s s₂
    char :
        {n c : ℕ} {cs : List ℕ} {s s₁ s₂ : S}
        → is_char (sys.read fd 1 s).0 ≡ some c
        → (sys.read fd 1 s).1 ≡ s₁
        → Delivers fd n cs s₁ s₂
        → Delivers fd (suc n) (c ∷ cs) s s₂

Stored-cons :
    (m m' : Mem) (a c : ℕ) (cs : List ℕ)
    → Stored (store8 m a c) (a + 1) cs m'
    → Stored m a (c ∷ cs) m'
Stored-cons m m' a c cs st = record {
  inside = (st.outside a (inl (omega arith)) ∙ store8_self m a c, st.inside);
  outside = λ x out. st.outside x (omega (arith, out)) ∙ store8-other m a c x (omega (arith, out));
}

none_more : {S : Type 0} {sys : Sys S} {fd n : ℕ} {s s' : S} → Delivers sys fd n [] s s' → s ≡ s'
none_more over = refl

-- One character that is not the last.
read_line-char :
    {S : Type 0} (sys : Sys S) (fuel fd buf size i c : ℕ) (cs : List ℕ) (m : Mem) (s s₁ s' : S)
    → is_char (sys.read fd 1 s).0 ≡ some c
    → (sys.read fd 1 s).1 ≡ s₁
    → c % 256 ≢ 10
    → i < size
    → (m' : Mem) × (read_line sys fuel fd buf size (i + 1) (store8 m (buf + i) c) s₁
        ≡ done ((i + 1 + length cs, m'), s'))
      × Stored (store8 m (buf + i) c) (buf + (i + 1)) cs m'
    → (m' : Mem) × (read_line sys (suc fuel) fd buf size i m s
        ≡ done ((i + suc (length cs), m'), s'))
      × Stored m (buf + i) (c ∷ cs) m'
unfolding read_line
read_line-char sys fuel fd buf size i c cs m s s₁ s' got on other lt (m', ran, st) =
    let go : ltb i size ≡ true = ground arith in
    let goes_on : (c % 256 == 10) ≡ false = ground arith in
    let next : buf + (i + 1) ≡ buf + i + 1 = omega arith in
    (
      m',
      rw (go, got, goes_on, on, read_line) (ran ∙ ap (λ j. done ((j, m'), s')) (omega arith)),
      Stored-cons m m' (buf + i) c cs (subst (λ a. Stored (store8 m (buf + i) c) a cs m') next st),
    )

-- From reads that give, between any number that fail or give nothing, a line whose last character
-- alone is a newline or which fills the room that is left, read_line ends with fuel for those
-- reads: it returns the number of characters, and has stored exactly them in the buffer, and
-- nothing elsewhere.
pub read_line-Stored :
    {S : Type 0} (sys : Sys S) (n fuel fd buf size i : ℕ) (cs : List ℕ) (m : Mem) (s s' : S)
    → Delivers sys fd n cs s s'
    → IsLine (size - i) cs
    → i + length cs ≤ size
    → n < fuel
    → (m' : Mem) × (read_line sys fuel fd buf size i m s ≡ done ((i + length cs, m'), s'))
      × Stored m (buf + i) cs m'
unfolding read_line
read_line-Stored sys n zero fd buf size i cs m s s' given line room enough = absurd (omega arith)
read_line-Stored sys n (suc fuel) fd buf size i cs m s s' over line room enough =
    let stop : ltb i size ≡ false = ground arith in
    (
      m,
      rw (stop, read_line) (ap (λ j. done ((j, m), s)) (omega arith)),
      record { inside = tt; outside = λ x out. refl },
    )
read_line-Stored sys n (suc fuel) fd buf size i cs m s s'
      (idle {n = k} {c} {cs = ds} nothing on more) line room enough =
    let go : ltb i size ≡ true = ground arith in
    let (m', ran, st) =
      read_line-Stored sys k fuel fd buf size i (c ∷ ds) m _ s' more line room (omega arith) in
    (m', rw (go, nothing, on, read_line) ran, st)
read_line-Stored sys n (suc fuel) fd buf size i cs m s s' (char {n = k} {c} {cs = []} got on more)
      (inl newline) room enough =
    let go : ltb i size ≡ true = ground arith in
    let last : (c % 256 == 10) ≡ true = ground arith in
    let m' = store8 m (buf + i) c in
    (
      m',
      rw (go, got, last, read_line) (ap (λ t. done ((i + 1, m'), t)) (on ∙ none_more more)),
      Stored-cons m m' (buf + i) c [] (record { inside = tt; outside = λ x out. refl }),
    )
read_line-Stored sys n (suc fuel) fd buf size i cs m s s' (char {n = k} {c} {cs = []} got on more)
      (inr (other, full)) room enough =
    read_line-char sys fuel fd buf size i c [] m s _ s' got on other (omega arith) (
      read_line-Stored sys k fuel fd buf size (i + 1) [] (store8 m (buf + i) c) _ s' more
        (omega arith) (omega arith) (omega arith))
read_line-Stored sys n (suc fuel) fd buf size i cs m s s'
      (char {n = k} {c} {cs = d ∷ ds} got on more) (other, line) room enough =
    let left : size - i - 1 ≡ size - (i + 1) = omega arith in
    read_line-char sys fuel fd buf size i c (d ∷ ds) m s _ s' got on other (omega arith) (
      read_line-Stored sys k fuel fd buf size (i + 1) (d ∷ ds) (store8 m (buf + i) c) _ s' more
        (subst (λ n. IsLine n (d ∷ ds)) left line) (omega arith) (omega arith))

-- With fuel above its length, strcpy stores the characters of a text that the copy does not meet, and
-- nothing else: no terminator either.
pub user_strcpy-unended :
    (t : List ℕ) (fuel d a : ℕ) (m : Mem)
    → Text m a t
    → (d + length t < a) ⊎ (a + length t < d)
    → length t < fuel
    → (m' : Mem) × (user_strcpy fuel d a m ≡ some (d + length t, m')) × Stored m d t m'
unfolding user_strcpy
user_strcpy-unended t zero d a m text apart enough = absurd (omega arith)
user_strcpy-unended [] (suc fuel) d a m text apart enough =
    (m, ground (arith, text), record { inside = tt; outside = λ x out. refl })
user_strcpy-unended (c ∷ t) (suc fuel) d a m text apart enough =
    let same : m a ≡ c = text.0 in
    let m₁ = store8 m d c in
    let rest = Text-same t (a + 1) m m₁ (λ x lo hi. store8-other m d c x (omega arith)) text.3 in
    let (m', ran, st) =
      user_strcpy-unended t fuel (d + 1) (a + 1) m₁ rest (omega arith) (omega arith) in
    (m', ground (arith, ran, same, text.1), Stored-cons m m' d c t st)
