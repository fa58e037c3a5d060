-- ===== src/User/Turn/Command.antt =====
-- From a typed line to the command that is run.
use quaros.Base.{
  ℕ, zero, suc, ◌+◌, ◌-◌, ◌%◌, ◌≤◌, ◌<◌, ◌≡◌, ◌≢◌, ◌⊎◌, inl, inr, refl, ap, subst, sym, ◌∙◌, some,
  List, [], ◌∷◌, ◌++◌, length, length-append, length-replicate, replicate, All, arith, done, ◌==◌,
  if◌then◌else◌,
}
use quaros.Ram.{Mem, store8, store8_self, store8-other}
use quaros.Shell.{tokenize}
use quaros.Shell.Tokens.{Tokens, tokenize-Tokens}
use quaros.User.{Sys}
use quaros.User.Print.{written}
use quaros.User.Line.{At, IsLine, Delivers, read_line-Stored}
use quaros.User.Turn.{again, prompt, shell_command, shell_line, shell_turn}
use quaros.User.Turn.Typed.{rendered, IsLetter, AreWords, At-append, At-spaces, rendered-Line}

-- A character of a line: no terminator and no newline.
abbrev IsInline : ℕ → Type 0
IsInline c = (c ≢ 0) × (c ≢ 10) × (c < 256)

append-IsInline : (xs ys : List ℕ) → All IsInline xs → All IsInline ys → All IsInline (xs ++ ys)
append-IsInline [] ys hx hy = hy
append-IsInline (x ∷ xs) ys hx hy = (hx.0, append-IsInline xs ys hx.1 hy)

spaces-IsInline : (k : ℕ) → All IsInline (replicate k b' ')
spaces-IsInline zero = tt
spaces-IsInline (suc k) = ((omega arith, omega arith, omega arith), spaces-IsInline k)

letters-IsInline : (w : List ℕ) → All IsLetter w → All IsInline w
letters-IsInline [] h = tt
letters-IsInline (c ∷ w) h = ((h.0.0, h.0.2, h.0.3), letters-IsInline w h.1)

rendered-IsInline : (ws : List (List ℕ × ℕ)) → AreWords ws → All IsInline (rendered ws)
rendered-IsInline [] h = tt
rendered-IsInline ((w, zero) ∷ []) h = append-IsInline w [] (letters-IsInline w h.1) tt
rendered-IsInline ((w, zero) ∷ (x ∷ ws)) h = (let stuck = h.2 in cc)
rendered-IsInline ((w, suc k) ∷ ws) h =
    append-IsInline w (replicate (suc k) b' ' ++ rendered ws) (letters-IsInline w h.1) (
      append-IsInline (replicate (suc k) b' ') (rendered ws) (spaces-IsInline (suc k))
        (rendered-IsInline ws h.2))

inline-IsLine : (size : ℕ) (cs : List ℕ) → All IsInline cs → IsLine size (cs ++ 10 ∷ [])
inline-IsLine size [] h = inl refl
inline-IsLine size (c ∷ []) h = (omega (arith, h.0), inl refl)
inline-IsLine size (c ∷ d ∷ cs) h = (omega (arith, h.0), inline-IsLine (size - 1) (d ∷ cs) h.1)

At-behind :
    (m : Mem) (a x v : ℕ) (cs : List ℕ) → a + length cs ≤ x → At m a cs → At (store8 m x v) a cs
At-behind m a x v [] le h = tt
At-behind m a x v (c ∷ cs) le h =
    (store8-other m x v a (omega arith) ∙ h.0, At-behind m (a + 1) x v cs (omega arith) h.1)

At-full :
    (m : Mem) (a : ℕ) (cs : List ℕ) (i : ℕ)
    → All IsInline cs
    → At m a cs
    → i < length cs
    → m (a + i) ≢ 0
At-full m a [] i h at lt e = absurd (omega arith)
At-full m a (c ∷ cs) zero h at lt e =
    let here : a + 0 ≡ a = omega arith in
    let byte : m (a + 0) ≡ c % 256 = ap m here ∙ at.0 in h.0.0 (omega (arith, byte, e, h.0.2))
At-full m a (c ∷ cs) (suc i) h at lt e =
    At-full m (a + 1) cs i h.1 at.1 (omega arith) (ap m (omega arith) ∙ e)

module _ (k : ℕ) (ws : List (List ℕ × ℕ)) where
  -- A line with `k` spaces before the words, and its length.
  abbrev pub typed : List ℕ
  typed = replicate k b' ' ++ rendered ws

  abbrev pub typed_length : ℕ
  typed_length = length typed

  pub typed_total : typed_length ≡ k + length (rendered ws)
  typed_total =
      length-append (replicate k b' ') (rendered ws)
      ∙ ap (λ n. n + length (rendered ws)) (length-replicate k b' ')

  typed-IsInline : AreWords ws → All IsInline typed
  typed-IsInline words =
      append-IsInline (replicate k b' ') (rendered ws) (spaces-IsInline k)
        (rendered-IsInline ws words)

  module _ (fuel buf : ℕ) (m : Mem) where
    -- Memory with the line ended.
    abbrev ended : Mem
    ended = store8 m (buf + typed_length) 0

    typed_parts :
        At m buf typed → At ended buf (replicate k b' ') × At ended (buf + k) (rendered ws)
    typed_parts at =
        let at' = At-behind m buf (buf + typed_length) 0 typed (omega arith) at in
        let (gap, others) = At-append ended buf (replicate k b' ') (rendered ws) at' in
        (gap, subst (λ n. At ended (buf + n) (rendered ws)) (length-replicate k b' ') others)

    typed-Tokens :
        AreWords ws
        → At m buf typed
        → m (buf + typed_length + 1) ≢ 32
        → length ws < 8
        → typed_length + 1 < fuel
        → (ts : List ℕ) × (m' : Mem) × (tokenize fuel buf ended ≡ some (length ws, ts, m'))
          × Tokens m' ts ws
          × ((x : ℕ) → (x < buf) ⊎ (buf + typed_length < x) → m' x ≡ ended x)
    typed-Tokens words at past few enough =
        let parts = typed_parts at in
        tokenize-Tokens fuel buf typed_length k ended ws
          (λ i lt. At-spaces ended buf k i parts.0 lt) (omega (arith, typed_total))
          (rendered-Line ended (buf + k) (buf + typed_length) ws words parts.1
            (omega (arith, typed_total)))
          (λ i lt.
            At-full ended buf typed i (typed-IsInline words)
              (At-behind m buf (buf + typed_length) 0 typed (omega arith) at) lt)
          (store8_self m (buf + typed_length) 0)
          (λ e. past (
            sym (store8-other m (buf + typed_length) 0 (buf + typed_length + 1) (omega arith)) ∙ e))
          few enough

-- What is done with a line that stands in memory with its newline.
shell_line-Tokens :
    {S : Type 0} (sys : Sys S) (fuel fd buf k n : ℕ) (m : Mem) (ws : List (List ℕ × ℕ)) (s : S)
    → n ≡ typed_length k ws + 1
    → AreWords ws
    → At m buf (typed k ws)
    → m (buf + typed_length k ws + 1) ≢ 32
    → length ws < 8
    → typed_length k ws + 1 < fuel
    → (ts : List ℕ) × (m' : Mem) × Tokens m' ts ws
      × (shell_line sys fuel fd buf n m s
          ≡ (if length ws == 0 then done (again m', s) else shell_command sys fuel fd ts m' s))
unfolding shell_line
shell_line-Tokens sys fuel fd buf k n m ws s count words at past few enough =
    let (ts, m', ran, tokens, _) = typed-Tokens k ws fuel buf m words at past few enough in
    let place : buf + n - 1 ≡ buf + typed_length k ws = omega (arith, count) in
    (ts, m', tokens, rw (place, ran, shell_line) refl)

-- When the reads from the terminal give, with the prompt written, a line of fewer than 8 words
-- and fewer than 1023 characters, with any spaces before, between and behind the words, then one
-- turn of the shell's loop, with the fuel that its reads and its buffer need, ends in what is
-- done with a command whose arguments are those words, or in the next turn if there is no word;
-- provided that what the buffer holds behind the line is not a space.
pub shell_turn-command :
    {S : Type 0} (sys : Sys S) (n fuel fd buf k : ℕ) (m : Mem) (ws : List (List ℕ × ℕ)) (s s' : S)
    → AreWords ws
    → length ws < 8
    → typed_length k ws < 1023
    → m (buf + typed_length k ws + 1) ≢ 32
    → Delivers sys fd n (typed k ws ++ 10 ∷ []) (written sys fd prompt s) s'
    → n < fuel
    → 1024 < fuel
    → (ts : List ℕ) × (m' : Mem) × Tokens m' ts ws
      × (shell_turn sys fuel fd buf m s
          ≡ (if length ws == 0 then done (again m', s') else shell_command sys fuel fd ts m' s'))
unfolding shell_turn
shell_turn-command sys n fuel fd buf k m ws s s' words few short past given reads enough =
    let line = typed k ws in
    let count : length (line ++ 10 ∷ []) ≡ length line + 1 = length-append line (10 ∷ []) in
    let (m₁, ran, st) =
      read_line-Stored sys n fuel fd buf 1023 0 (line ++ 10 ∷ []) m (written sys fd prompt s) s'
        given (inline-IsLine 1023 line (typed-IsInline k ws words)) (omega (arith, count)) reads in
    let (at, _) =
      At-append m₁ buf line (10 ∷ [])
        (subst (λ a. At m₁ a (line ++ 10 ∷ [])) (omega arith) st.inside) in
    let behind : m₁ (buf + typed_length k ws + 1) ≡ m (buf + typed_length k ws + 1) =
      st.outside _ (inr (omega (arith, count))) in
    let (ts, m', tokens, does) =
      shell_line-Tokens sys fuel fd buf k (0 + length (line ++ 10 ∷ [])) m₁ ws s'
        (omega (arith, count)) words at (λ e. past (sym behind ∙ e)) few (omega arith) in
    (ts, m', tokens, rw (ran, shell_turn) does)
