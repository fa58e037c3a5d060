-- ===== src/User/Turn/Child.antt =====
-- What becomes of a command: the first word is the program.
use quaros.Base.{
  ℕ, zero, suc, ◌+◌, ◌≤◌, ◌<◌, ◌≡◌, ◌≢◌, refl, ap, ◌∙◌, subst, false, some, List, [], ◌∷◌, ◌++◌,
  length, length-append, replicate, All, arith, Outcome, done, ◌==◌, if◌then◌else◌,
}
use quaros.Ram.{Mem}
use quaros.Shell.Tokens.{Word, Tokens}
use quaros.Str.{strlen}
use quaros.Str.Text.{Text, strlen-length}
use quaros.User.{Sys, path_at}
use quaros.User.Print.{written}
use quaros.User.Line.{Delivers}
use quaros.User.Output.{bytes_at-Text}
use quaros.User.Turn.{Next, again, prompt, exec_or_fail, shell_child, shell_command, shell_turn}
use quaros.User.Turn.Typed.{IsLetter, AreWords, rendered}
use quaros.User.Turn.Command.{typed, typed_length, typed_total, shell_turn-command}

Word-Text :
    (m : Mem) (a : ℕ) (w : List ℕ) → All IsLetter w → Word m a w → m (a + length w) ≡ 0 → Text m a w
Word-Text m a [] letters word ended = ap m (omega arith) ∙ ended
Word-Text m a (c ∷ w) letters word ended = (
  word.0,
  omega (arith, letters.0.0),
  letters.0.3,
  Word-Text m (a + 1) w letters.1 word.3 (ap m (omega arith) ∙ ended),
)

path_at-Word :
    (fuel a : ℕ) (m : Mem) (w : List ℕ)
    → All IsLetter w
    → Word m a w
    → m (a + length w) ≡ 0
    → length w < fuel
    → path_at fuel m a ≡ some w
unfolding path_at
path_at-Word fuel a m w letters word ended enough =
    let text = Word-Text m a w letters word ended in
    let here : a ≡ a + 0 = omega arith in
    let measured : strlen fuel m a 0 ≡ some (length w) =
      strlen-length w fuel a 0 m (subst (λ x. Text m x w) here text) enough
      ∙ ap some (omega arith) in
    rw (measured, bytes_at-Text m a w text, path_at) refl

-- How a turn with these words ends: with no word the next one begins; else the task forks, and the
-- child runs the program that the first word names, while the parent waits.
abbrev pub ran_words :
    {S : Type 0} → Sys S → ℕ → ℕ → List ℕ → Mem → S → List (List ℕ × ℕ) → Outcome (Next × S)
ran_words sys fuel fd ts m s [] = done (again m, s)
ran_words sys fuel fd ts m s ((w, k) ∷ ws) =
    let (pid, s₁) = sys.fork s in
    if pid == 0 then exec_or_fail sys fuel fd w ts m s₁ else done (again m, (sys.wait s₁).1)

letters_of : (w : List ℕ) (k : ℕ) (ws : List (List ℕ × ℕ)) → AreWords ((w, k) ∷ ws) → All IsLetter w
letters_of w zero ws words = words.1
letters_of w (suc k) ws words = words.1

short_word :
    (k k₁ : ℕ) (w : List ℕ) (ws : List (List ℕ × ℕ)) → length w ≤ typed_length k ((w, k₁) ∷ ws)
short_word k k₁ w ws =
    omega (arith, typed_total k ((w, k₁) ∷ ws), length-append w (replicate k₁ b' ' ++ rendered ws))

shell_command-ran_words :
    {S : Type 0} (sys : Sys S) (fuel fd k : ℕ) (ts : List ℕ) (m : Mem) (ws : List (List ℕ × ℕ))
    (s : S)
    → AreWords ws
    → Tokens m ts ws
    → typed_length k ws < fuel
    → (if length ws == 0 then done (again m, s) else shell_command sys fuel fd ts m s)
      ≡ ran_words sys fuel fd ts m s ws
unfolding shell_command shell_child
shell_command-ran_words sys fuel fd k [] m [] s words tokens enough = refl
shell_command-ran_words sys fuel fd k (t ∷ ts) m [] s words tokens enough = refl
shell_command-ran_words sys fuel fd k [] m (x ∷ ws) s words tokens enough = absurd tokens
shell_command-ran_words sys fuel fd k (t ∷ ts) m ((w, k₁) ∷ ws) s words tokens enough =
    let path =
      path_at-Word fuel t m w (letters_of w k₁ ws words) tokens.0 tokens.1
        (omega (arith, short_word k k₁ w ws)) in
    let some_word : (suc (length ws) == 0) ≡ false = ground arith in
    let s₁ = (sys.fork s).1 in
    let child : shell_child sys fuel fd (t ∷ ts) m s₁ ≡ exec_or_fail sys fuel fd w (t ∷ ts) m s₁ =
      rw (path, shell_child) refl in
    rw (some_word, child, shell_command) refl

-- When the reads from the terminal give, with the prompt written, a line of fewer than 8 words
-- and fewer than 1023 characters, with any spaces before, between and behind the words, then one
-- turn of the shell's loop, with the fuel that its reads and its buffer need, runs those words:
-- with no word the next turn begins, else it forks, and where fork gives 0 it calls execv with
-- the first word as the path and the words' places as the arguments, and elsewhere waits and goes
-- on; provided that what the buffer holds behind the line is not a space.
pub shell_turn-ran_words :
    {S : Type 0} (sys : Sys S) (n fuel fd buf k : ℕ) (m : Mem) (ws : List (List ℕ × ℕ)) (s s' : S)
    → AreWords ws
    → length ws < 8
    → typed_length k ws < 1023
    → m (buf + typed_length k ws + 1) ≢ 32
    → Delivers sys fd n (typed k ws ++ 10 ∷ []) (written sys fd prompt s) s'
    → n < fuel
    → 1024 < fuel
    → (ts : List ℕ) × (m' : Mem) × Tokens m' ts ws
      × (shell_turn sys fuel fd buf m s ≡ ran_words sys fuel fd ts m' s' ws)
shell_turn-ran_words sys n fuel fd buf k m ws s s' words few short past given reads enough =
    let (ts, m', tokens, does) =
      shell_turn-command sys n fuel fd buf k m ws s s' words few short past given reads enough in
    (
      ts,
      m',
      tokens,
      does ∙ shell_command-ran_words sys fuel fd k ts m' ws s' words tokens (omega arith),
    )
