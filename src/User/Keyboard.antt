-- ===== src/User/Keyboard.antt =====
-- The line that is typed at the console, read by a user program.
use quaros.Base.{
  ℕ, suc, ◌+◌, ◌-◌, ◌%◌, ◌^◌, ◌≤◌, ◌<◌, ◌≡◌, refl, ap, subst, sym, ◌∙◌, some, List, [], ◌∷◌, ◌++◌,
  map, length, All, done, arith,
}
use quaros.Ram.{Mem}
use quaros.Console.{Console, read_console}
use quaros.Console.Refine.{Holds}
use quaros.Console.Read.{read_console-Holds}
use quaros.User.{Sys, is_char, read_line}
use quaros.User.Line.{Stored, IsLine, Delivers, over, char, read_line-Stored}

-- `read` of one character from `fd` is `read_console`, as `sys_read` has it for the console.
pub record ReadsConsole {S : Type 0} (sys : Sys S) (fd : ℕ) (console : S → Console) : Type 0 where
  pub gives : (s : S) → (sys.read fd 1 s).0 ≡ some (read_console 1 (console s)).0
  pub leaves : (s : S) → console (sys.read fd 1 s).1 ≡ (read_console 1 (console s)).1

-- The bytes that the console gives for its characters.
abbrev pub bytes_of : List ℕ → List ℕ
bytes_of = map (λ ch. ch % 256)

released-Delivers :
    {S : Type 0} (sys : Sys S) (fd : ℕ) (console : S → Console) (cs more ed : List ℕ) (s : S)
    → ReadsConsole sys fd console
    → All (λ ch. ch < 2 ^ 31) cs
    → Holds (console s) (record { lines = cs ++ more; edit = ed })
    → (s' : S) × Delivers sys fd (length cs) (bytes_of cs) s s'
      × Holds (console s') (record { lines = more; edit = ed })
released-Delivers sys fd console [] more ed s reads small h = (s, over, h)
released-Delivers {S} sys fd console (c ∷ cs) more ed s reads small h =
    let (chars, left) = read_console-Holds 1 (console s) (c ∷ cs ++ more) ed (small.0, tt) h in
    let s₁ = (sys.read fd 1 s).1 in
    let left' =
      subst (λ d. Holds d (record { lines = cs ++ more; edit = ed })) (sym (reads.leaves s)) left in
    let (s', others, after) = released-Delivers sys fd console cs more ed s₁ reads small.1 left' in
    (s', char (ap is_char (reads.gives s ∙ ap some chars)) refl others, after)

-- Where read of a descriptor is read_console, as for the console's, and the circular buffer holds
-- a released line of characters that are not negative, short enough for the user's buffer,
-- read_line returns its length with fuel for each character, and has stored the characters' bytes
-- and nothing else; the circular buffer then holds what was released behind the line, and the
-- line being edited.
pub read_line-released :
    {S : Type 0} (sys : Sys S) (fuel fd buf size : ℕ) (console : S → Console) (cs more ed : List ℕ)
    (m : Mem) (s : S)
    → ReadsConsole sys fd console
    → All (λ ch. ch < 2 ^ 31) cs
    → IsLine size (bytes_of cs)
    → length cs ≤ size
    → length cs < fuel
    → Holds (console s) (record { lines = cs ++ more; edit = ed })
    → (m' : Mem) × (s' : S) × (read_line sys fuel fd buf size 0 m s ≡ done ((length cs, m'), s'))
      × Stored m buf (bytes_of cs) m'
      × Holds (console s') (record { lines = more; edit = ed })
read_line-released sys fuel fd buf size console cs more ed m s reads small line room enough h =
    let (s', given, after) = released-Delivers sys fd console cs more ed s reads small h in
    let count = length-bytes cs in
    let whole : size ≡ size - 0 = omega arith in
    let (m', ran, st) =
      read_line-Stored sys (length cs) fuel fd buf size 0 (bytes_of cs) m s s' given
        (subst (λ n. IsLine n (bytes_of cs)) whole line) (omega (arith, count)) enough in
    let total : 0 + length (bytes_of cs) ≡ length cs = omega (arith, count) in
    let here : buf + 0 ≡ buf = omega arith in
    (
      m',
      s',
      ran ∙ ap (λ n. done ((n, m'), s')) total,
      subst (λ a. Stored m a (bytes_of cs) m') here st,
      after,
    )
  where
    length-bytes : (xs : List ℕ) → length (bytes_of xs) ≡ length xs
    length-bytes [] = refl
    length-bytes (x ∷ xs) = ap suc (length-bytes xs)
